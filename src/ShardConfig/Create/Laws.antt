-- ===== src/ShardConfig/Create/Laws.antt =====
-- What Create (mongodb/resource_shard_config.go) has seen when it goes on to the update.
use terraform_provider_mongo.Prelude.{
  ℕ, true, false, ◌≡◌, ◌⊎◌, inl, inr, refl, sym, ◌∙◌, ap, subst, arith, Result, ok, err,
  Result-cases, Bool-cases, err≢ok,
}
use terraform_provider_mongo.Errors.{
  GoError, is_already_initialized, is_not_yet_initialized, is_auth_error, classify_auth_probe,
  not_enforced,
}
use terraform_provider_mongo.ReplSet.{RsConfig}
use terraform_provider_mongo.Ready.{
  ReadyEnv, ClientEnd, PrimaryEnd, connected, no_auth, refused, elected, not_elected, cancelled,
  wait_for_shard_client, wait_for_primary,
}
use terraform_provider_mongo.Ready
use terraform_provider_mongo.Ready.Laws.{ClientExplained, wait_for_shard_client_lem}
use terraform_provider_mongo.ShardConfig.{ShardData}
use terraform_provider_mongo.ShardConfig.Update.{Outcome}
use terraform_provider_mongo.ShardConfig.Create.{
  InitEnv, CreateError, out_of_fuel, Creating, updated, initialize_replica_set, create_with,
  create_shard_config,
}
use terraform_provider_mongo.ShardConfig.Create.Initiate.{Initiated, initialize-Initiated}

module _ {S C : Type 0} (env : InitEnv S C) where
  -- The set is there: the provider's client logged in, and its configuration was read or the answer was
  -- that the set is initialized already. Then the update ran on that client.
  abbrev pub Existing : ShardData → Creating env → Type 0
  Existing d r =
      (c : C) × (s0 s1 : S) × (env.ready.connect s0 ≡ (ok c, s1))
      × (((cfg : RsConfig) × ((env.read_config c s1).0 ≡ ok cfg))
          ⊎ ((e : GoError) × ((env.read_config c s1).0 ≡ err e)
              × (is_already_initialized e ≡ true)))
      × (r ≡ updated env c false d (env.read_config c s1).1)

  -- There is no set yet: the login was refused by a host that does not enforce authentication, or the
  -- host answered that it is not initialized.
  abbrev pub Uninitialized : Type 0
  Uninitialized =
      ((s0 : S) × (e : GoError) × ((env.ready.connect s0).0 ≡ err e)
        × (is_auth_error e ≡ true)
        × (classify_auth_probe (env.ready.probe (env.ready.connect s0).1).0 ≡ not_enforced))
      ⊎ ((c : C) × (s1 : S) × (e : GoError) × ((env.read_config c s1).0 ≡ err e)
          × (is_not_yet_initialized e ≡ true))

  module _ (fuel timeout : ℕ) (d : ShardData) (out : Outcome) where
    module _ (c : C) (s : S) where
      abbrev with_client : Creating env
      with_client = create_with env fuel timeout c d s

      abbrev config_read : Result GoError RsConfig × S
      config_read = env.read_config c s

      with_config :
          (cfg : RsConfig)
          → config_read.0 ≡ ok cfg
          → with_client ≡ updated env c false d config_read.1
      unfolding create_with
      with_config cfg p = ground (arith, p)

      module _ (e : GoError) (p : config_read.0 ≡ err e) where
        with_existing :
            is_already_initialized e ≡ true → with_client ≡ updated env c false d config_read.1
        unfolding create_with
        with_existing n = ground (arith, p, n)

        with_fresh :
            is_already_initialized e ≡ false
            → is_not_yet_initialized e ≡ true
            → with_client ≡ initialize_replica_set env fuel timeout d config_read.1
        unfolding create_with
        with_fresh n m = ground (arith, p, n, m)

        with_unread :
            is_already_initialized e ≡ false
            → is_not_yet_initialized e ≡ false
            → with_client.0 ≡ err (CreateError.config_unread e)
        unfolding create_with
        with_unread n m = ground (arith, p, n, m)

      create_with-cases :
          (s0 : S)
          → env.ready.connect s0 ≡ (ok c, s)
          → with_client.0 ≡ ok out
          → Existing d with_client ⊎ (Uninitialized × Initiated env d with_client)
      create_with-cases s0 login o = elim (Result-cases config_read.0) [
        | inr (cfg, p) ↦ inl (c, s0, s, login, inl (cfg, p), with_config cfg p)
        | inl (e, p) ↦ elim (Bool-cases (is_already_initialized e)) [
          | inl n ↦ inl (c, s0, s, login, inr (e, p, n), with_existing e p n)
          | inr n ↦ elim (Bool-cases (is_not_yet_initialized e)) [
            | inr m ↦ absurd (err≢ok (sym (with_unread e p n m) ∙ o))
            | inl m ↦
                let same = with_fresh e p n m in
                inr (
                  inr (c, s, e, p, m),
                  subst (Initiated env d) (sym same) (
                      initialize-Initiated env fuel timeout d config_read.1 out
                        (sym (ap (λ r. r.0) same) ∙ o)),
                )
          ]
        ]
      ]

    module _ (s : S) where
      abbrev created : Creating env
      created = create_shard_config env fuel timeout d s

      abbrev client : ClientEnd C × S
      client = wait_for_shard_client env.ready fuel s

      stopped : ClientEnd C → CreateError
      stopped (refused e) = CreateError.login_refused e
      stopped (Ready.not_ready n e) = CreateError.not_ready n e
      stopped _ = out_of_fuel

      create_connected :
          (c : C) → client.0 ≡ connected c → created ≡ create_with env fuel timeout c d client.1
      unfolding create_shard_config
      create_connected c p = ground (arith, p)

      create_no_auth :
          client.0 ≡ no_auth → created ≡ initialize_replica_set env fuel timeout d client.1
      unfolding create_shard_config
      create_no_auth p = ground (arith, p)

      ClientEnd-cases :
          (x : ClientEnd C)
          → ((c : C) × (x ≡ connected c))
            ⊎ (x ≡ no_auth)
            ⊎ (client.0 ≡ x → created.0 ≡ err (stopped x))
      unfolding create_shard_config stopped
      ClientEnd-cases (connected c) = inl (c, refl)
      ClientEnd-cases no_auth = inr (inl refl)
      ClientEnd-cases (refused e) = inr (inr λ p. ground (arith, p))
      ClientEnd-cases (Ready.not_ready n e) = inr (inr λ p. ground (arith, p))
      ClientEnd-cases ClientEnd.out_of_fuel = inr (inr λ p. ground (arith, p))

      -- Create goes on to the update in two ways only. Either the provider's client logged in and the
      -- set was there. Or there was no set yet, the blocks are valid, and replSetInitiate was sent with the
      -- planned name to the first block's host: the update waits until that member is PRIMARY, or finds
      -- the set initialized already.
      pub create_shard_config_lem :
          created.0 ≡ ok out → Existing d created ⊎ (Uninitialized × Initiated env d created)
      create_shard_config_lem o =
          let seen = wait_for_shard_client_lem env.ready fuel s in
          let Seen : ClientEnd C → Type 0 = λ x. ClientExplained env.ready x client.1 in
          elim (ClientEnd-cases client.0) [
            | inl (c, p) ↦
                let same = create_connected c p in
                let (s0, login) = subst Seen p seen in
                subst (λ r. Existing d r ⊎ (Uninitialized × Initiated env d r)) (sym same)
                  (create_with-cases c client.1 s0 login (sym (ap (λ r. r.0) same) ∙ o))
            | inr (inl p) ↦
                let same = create_no_auth p in
                inr (
                  inl (subst Seen p seen),
                  subst (Initiated env d) (sym same) (
                      initialize-Initiated env fuel timeout d client.1 out
                        (sym (ap (λ r. r.0) same) ∙ o)),
                )
            | inr (inr stops) ↦ absurd (err≢ok (sym (stops refl) ∙ o))
          ]
