-- ===== src/ShardConfig/Create/Initiate.antt =====
-- What initializeReplicaSet (mongodb/resource_shard_config.go) has done when it goes on to the update.
use terraform_provider_mongo.Prelude.{
  ℕ, suc, String, true, false, Option, none, some, List, [], ◌∷◌, ◌≡◌, ◌⊎◌, inl, inr, refl, sym,
  ◌∙◌, ap, subst, arith, Result, ok, err, Option-cases, Result-cases, Bool-cases, err≢ok,
}
use terraform_provider_mongo.Errors.{GoError, is_already_initialized}
use terraform_provider_mongo.Discovery.{split_host_port}
use terraform_provider_mongo.Members.{MemberOverride}
use terraform_provider_mongo.Members.Validate.{validate_member_overrides}
use terraform_provider_mongo.Reach.{ReachEnd, wait_until_reachable, reached}
use terraform_provider_mongo.Reach.Last.{reach_rounds-Attempted}
use terraform_provider_mongo.Ready.{PrimaryEnd, elected, not_elected, cancelled}
use terraform_provider_mongo.Ready.Laws.{SeenPrimary, primary_explained}
use terraform_provider_mongo.ShardConfig.{ShardData, extract_member_overrides}
use terraform_provider_mongo.ShardConfig.Update.{Outcome}
use terraform_provider_mongo.ShardConfig.Create.{
  InitEnv, CreateError, no_primary, out_of_fuel, primary_cancelled, Creating, connect_for_init,
  init_reach, updated, primary_env, primary_wait, initiate_with, initiate_first, first_target,
  initialize_replica_set,
}

-- The blocks are valid, the first of them is of this host, and it has this name and port.
abbrev pub Target : ShardData → String → String → String → Type 0
Target d first_host host port =
    (o : MemberOverride) × (os : List MemberOverride) × (extract_member_overrides d.members
      ≡ some (o ∷ os))
    × (validate_member_overrides (o ∷ os) ≡ none)
    × (o.host ≡ first_host)
    × (split_host_port first_host ≡ ok (host, port))

first_target-Target :
    (d : ShardData) (h : String) (host port : String)
    → first_target d ≡ ok (h, host, port)
    → Target d h host port
unfolding first_target
first_target-Target d h host port e = elim (Option-cases (extract_member_overrides d.members)) [
  | inl p ↦ absurd (ground (arith, e, p))
  | inr ([], p) ↦ absurd (ground (arith, e, p))
  | inr (o ∷ os, p) ↦ elim (Option-cases (validate_member_overrides (o ∷ os))) [
    | inr (x, v) ↦ absurd (ground (arith, e, p, v))
    | inl v ↦ elim (Result-cases (split_host_port o.host)) [
      | inl (x, q) ↦ absurd (ground (arith, e, p, v, q))
      | inr ((host', port'), q) ↦
          let same : o.host ≡ h = ground (arith, e, p, v, q) in
          (o, os, p, v, same, ground (arith, e, p, v, q))
    ]
  ]
]

module _ {S C : Type 0} (env : InitEnv S C) where
  -- The first member was initiated with the planned name, and then the update ran: on the same client
  -- once the member is PRIMARY, or, where the set was there already, on the provider's own client if it
  -- can log in.
  abbrev pub InitiatedBy : C → String → ShardData → S → Creating env → Type 0
  InitiatedBy c first_host d before r =
      let (answer, s1) = env.initiate c d.shard_name first_host before in
      let (login, s2) = env.ready.connect s1 in
      ((answer ≡ none) × (s : S) × SeenPrimary (primary_env env c) s × (r ≡ updated env c true d s))
      ⊎ ((e : GoError) × (answer ≡ some e)
          × (is_already_initialized e ≡ true)
          × (((a : C) × (login ≡ ok a) × (r ≡ updated env a false d s2))
              ⊎ ((x : GoError) × (login ≡ err x) × (r ≡ updated env c true d s2))))

  module _ (timeout : ℕ) (c : C) (first_host : String) (d : ShardData) (s : S) where
    abbrev run : Creating env
    run = initiate_with env timeout c first_host d s

    abbrev answered : Option GoError × S
    answered = env.initiate c d.shard_name first_host s

    abbrev waited : PrimaryEnd × S
    waited = primary_wait env c timeout answered.1

    abbrev logged_in : Result GoError C × S
    logged_in = env.ready.connect answered.1

    unelected : PrimaryEnd → CreateError
    unelected elected = no_primary
    unelected not_elected = no_primary
    unelected (cancelled e) = primary_cancelled e
    unelected PrimaryEnd.out_of_fuel = out_of_fuel

    elected_or_stopped :
        (x : PrimaryEnd)
        → (x ≡ elected) ⊎ (answered.0 ≡ none → waited.0 ≡ x → run.0 ≡ err (unelected x))
    unfolding unelected initiate_with
    elected_or_stopped elected = inl refl
    elected_or_stopped not_elected = inr λ p q. ground (arith, p, q)
    elected_or_stopped (cancelled e) = inr λ p q. ground (arith, p, q)
    elected_or_stopped PrimaryEnd.out_of_fuel = inr λ p q. ground (arith, p, q)

    initiate_elected : answered.0 ≡ none → waited.0 ≡ elected → run ≡ updated env c true d waited.1
    unfolding initiate_with
    initiate_elected p q = ground (arith, p, q)

    module _ (e : GoError) (p : answered.0 ≡ some e) where
      initiate_refusal :
          is_already_initialized e ≡ false → run.0 ≡ err (CreateError.initiate_refused e)
      unfolding initiate_with
      initiate_refusal n = ground (arith, p, n)

      initiate_login :
          (a : C)
          → is_already_initialized e ≡ true
          → logged_in.0 ≡ ok a
          → run ≡ updated env a false d logged_in.1
      unfolding initiate_with
      initiate_login a n q = ground (arith, p, n, q)

      initiate_fallback :
          (x : GoError)
          → is_already_initialized e ≡ true
          → logged_in.0 ≡ err x
          → run ≡ updated env c true d logged_in.1
      unfolding initiate_with
      initiate_fallback x n q = ground (arith, p, n, q)

    initiate_with-InitiatedBy : (out : Outcome) → run.0 ≡ ok out → InitiatedBy c first_host d s run
    initiate_with-InitiatedBy out o = elim (Option-cases answered.0) [
      | inl p ↦ elim (elected_or_stopped waited.0) [
        | inr stops ↦ absurd (err≢ok (sym (stops p refl) ∙ o))
        | inl q ↦ inl (
          p,
          waited.1,
          primary_explained (primary_env env c) (suc (suc timeout)) timeout answered.1 q,
          initiate_elected p q,
        )
      ]
      | inr (e, p) ↦ elim (Bool-cases (is_already_initialized e)) [
        | inr n ↦ absurd (err≢ok (sym (initiate_refusal e p n) ∙ o))
        | inl n ↦ elim (Result-cases logged_in.0) [
          | inr (a, q) ↦ inr (e, p, n, inl (a, q, initiate_login e p a n q))
          | inl (x, q) ↦ inr (e, p, n, inr (x, q, initiate_fallback e p x n q))
        ]
      ]
    ]

  -- A client is connected to the first member, and the member is initiated on it.
  abbrev pub Initiated : ShardData → Creating env → Type 0
  Initiated d r =
      (first_host host port : String) × Target d first_host host port
      × (c : C) × (s : S) × ((connect_for_init env host port s).0 ≡ ok c)
      × InitiatedBy c first_host d (connect_for_init env host port s).1 r

  module _ (fuel timeout : ℕ) (first_host host port : String) (d : ShardData) (s : S) where
    abbrev first_run : Creating env
    first_run = initiate_first env fuel timeout first_host host port d s

    abbrev reaching : ReachEnd × (S × Option C)
    reaching = wait_until_reachable (init_reach env host port) fuel first_host (s, none)

    abbrev ReachedBy : Creating env → Type 0
    ReachedBy r =
        (c : C) × (s0 : S) × ((connect_for_init env host port s0).0 ≡ ok c)
        × (r ≡ initiate_with env timeout c first_host d (connect_for_init env host port s0).1)

    attempt_client :
        (st : S × Option C) (after : S × Option C)
        → (init_reach env host port).attempt first_host st ≡ (none, after)
        → (c : C) × ((connect_for_init env host port st.0).0 ≡ ok c)
          × (after ≡ ((connect_for_init env host port st.0).1, some c))
    attempt_client st after e = elim (Result-cases (connect_for_init env host port st.0).0) [
      | inl (x, p) ↦ absurd (ground (arith, e, p))
      | inr (c, p) ↦ (c, p, ground (arith, e, p))
    ]

    first_reached :
        (c : C)
        → reaching.0 ≡ reached
        → reaching.1.1 ≡ some c
        → first_run ≡ initiate_with env timeout c first_host d reaching.1.0
    unfolding initiate_first
    first_reached c p q = ground (arith, p, q)

    first_not_reached : (out : Outcome) → first_run.0 ≡ ok out → reaching.0 ≡ reached
    unfolding initiate_first
    first_not_reached out o = ground (arith, o)

    first_run-ReachedBy : (out : Outcome) → first_run.0 ≡ ok out → ReachedBy first_run
    unfolding wait_until_reachable
    first_run-ReachedBy out o =
        let p = first_not_reached out o in
        let (st, attempt) =
          reach_rounds-Attempted (init_reach env host port) first_host fuel none (s, none) p in
        let (c, q, after) = attempt_client st reaching.1 attempt in
        (
          c,
          st.0,
          q,
          first_reached c p (ap (λ a. a.1) after)
              ∙ ap (λ a. initiate_with env timeout c first_host d a.0) after,
        )

  module _ (fuel timeout : ℕ) (d : ShardData) where
    initialize_targeted :
        (first_host host port : String) (s : S)
        → first_target d ≡ ok (first_host, host, port)
        → initialize_replica_set env fuel timeout d s
          ≡ initiate_first env fuel timeout first_host host port d s
    unfolding initialize_replica_set
    initialize_targeted first_host host port s p = ground (arith, p)

    initialize_untargeted :
        (e : CreateError) (s : S)
        → first_target d ≡ err e
        → (initialize_replica_set env fuel timeout d s).0 ≡ err e
    unfolding initialize_replica_set
    initialize_untargeted e s p = ground (arith, p)

    pub initialize-Initiated :
        (s : S) (out : Outcome)
        → (initialize_replica_set env fuel timeout d s).0 ≡ ok out
        → Initiated d (initialize_replica_set env fuel timeout d s)
    initialize-Initiated s out o = elim (Result-cases (first_target d)) [
      | inl (e, p) ↦ absurd (err≢ok (sym (initialize_untargeted e s p) ∙ o))
      | inr ((first_host, host, port), p) ↦
          let same = initialize_targeted first_host host port s p in
          let ok_run = sym (ap (λ r. r.0) same) ∙ o in
          let (c, s0, q, run_same) =
            first_run-ReachedBy fuel timeout first_host host port d s out ok_run in
          let after = (connect_for_init env host port s0).1 in
          let by =
            initiate_with-InitiatedBy timeout c first_host d after out
              (sym (ap (λ r. r.0) run_same) ∙ ok_run) in
          (
            first_host,
            host,
            port,
            first_target-Target d first_host host port p,
            c,
            s0,
            q,
            subst (InitiatedBy c first_host d after) (sym (same ∙ run_same)) by,
          )
    ]
