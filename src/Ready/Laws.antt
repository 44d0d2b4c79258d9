-- ===== src/Ready/Laws.antt =====
-- What the ends of WaitForShardClient (mongodb/shard_ready.go) and WaitForPrimary
-- (mongodb/shard_init.go) say of what was seen.
use terraform_provider_mongo.Prelude.{
  pair_eq, ℕ, zero, suc, ◌+◌, Option, none, some, ◌≡◌, ◌⊎◌, sym, ◌∙◌, subst, ap, arith, ltb, Result,
  ok, err, true, false, Option-cases, Result-cases, Bool-cases, inl, inr, int_beq, int_beq_iff,
}
use terraform_provider_mongo.Errors.{
  GoError, is_auth_error, is_connection_error, classify_auth_probe, not_enforced,
}
use terraform_provider_mongo.ReplSet.{ReplSetStatus}
use terraform_provider_mongo.ReplSet.MemberState
use terraform_provider_mongo.Ready.{
  ReadyEnv, NotReady, not_ready_yet, Next, Next-cases, again, return_error, return_no_auth,
  ClientEnd, connected, no_auth, refused, not_ready, PrimaryEnd, elected, not_elected, after_probe,
  after_failure, client_rounds, wait_for_shard_client, primary_rounds, wait_for_primary,
}
use terraform_provider_mongo.Ready

module _ {S C : Type 0} (env : ReadyEnv S C) where
  -- What each end of WaitForShardClient says.
  abbrev pub ClientExplained : ClientEnd C → S → Type 0
  ClientExplained end s = elim end [
    | connected c ↦ (s0 : S) × (env.connect s0 ≡ (ok c, s))
    | no_auth ↦
        (s0 : S) × (e : GoError) × ((env.connect s0).0 ≡ err e)
        × (is_auth_error e ≡ true)
        × (classify_auth_probe (env.probe (env.connect s0).1).0 ≡ not_enforced)
    | refused e ↦
        (s0 : S) × ((env.connect s0).0 ≡ err e)
        × (is_auth_error e ≡ false)
        × (is_connection_error e ≡ false)
    | not_ready n c ↦ (s0 : S) × (env.pause s0 ≡ (some c, s))
    | Ready.ClientEnd.out_of_fuel ↦ Unit
  ]

  failure_no_auth :
      (n : NotReady) (e : GoError) (s : S)
      → (after_failure env n e s).0 ≡ return_no_auth
      → (is_auth_error e ≡ true) × (classify_auth_probe (env.probe s).0 ≡ not_enforced)
  unfolding after_failure after_probe
  failure_no_auth n e s p = (ground arith, ground arith)

  failure_error :
      (n : NotReady) (e x : GoError) (s : S)
      → (after_failure env n e s).0 ≡ return_error x
      → (x ≡ e) × (is_auth_error e ≡ false) × (is_connection_error e ≡ false)
  unfolding after_failure after_probe
  failure_error n e x s p = (ground arith, ground arith, ground arith)

  abbrev failure : NotReady → GoError → S → Next × S
  failure n e s = after_failure env n e (env.connect s).1

  module _ (fuel : ℕ) (n : NotReady) (s : S) where
    round_connected :
        (c : C)
        → (env.connect s).0 ≡ ok c
        → client_rounds env (suc fuel) n s ≡ (connected c, (env.connect s).1)
    unfolding client_rounds
    round_connected c p = ground arith

    module _ (e : GoError) (p : (env.connect s).0 ≡ err e) where
      round_no_auth :
          (failure n e s).0 ≡ return_no_auth
          → client_rounds env (suc fuel) n s ≡ (no_auth, (failure n e s).1)
      unfolding client_rounds
      round_no_auth q = ground arith

      round_refused :
          (x : GoError)
          → (failure n e s).0 ≡ return_error x
          → client_rounds env (suc fuel) n s ≡ (refused x, (failure n e s).1)
      unfolding client_rounds
      round_refused x q = ground arith

      module _ (n' : NotReady) (q : (failure n e s).0 ≡ again n') where
        abbrev paused : Option GoError × S
        paused = env.pause (failure n e s).1

        round_cut :
            (c : GoError)
            → paused.0 ≡ some c
            → client_rounds env (suc fuel) n s ≡ (not_ready n' c, paused.1)
        unfolding client_rounds
        round_cut c r = ground arith

        round_again :
            paused.0 ≡ none → client_rounds env (suc fuel) n s ≡ client_rounds env fuel n' paused.1
        unfolding client_rounds
        round_again r = ground arith

  client_explained :
      (fuel : ℕ) (n : NotReady) (s : S)
      → let r = client_rounds env fuel n s in ClientExplained r.0 r.1
  unfolding client_rounds
  client_explained zero n s = tt
  client_explained (suc fuel) n s =
      let P : ClientEnd C × S → Type 0 = λ r. ClientExplained r.0 r.1 in
      let s1 = (env.connect s).1 in
      elim (Result-cases (env.connect s).0) [
        | inr (c, p) ↦
            subst P (sym (round_connected fuel n s c p)) (s, pair_eq (env.connect s) (ok c) p)
        | inl (e, p) ↦ elim (Next-cases (failure n e s).0) [
          | inl q ↦
              let (auth, answer) = failure_no_auth n e s1 q in
              subst P (sym (round_no_auth fuel n s e p q)) (s, e, p, auth, answer)
          | inr (inl (x, q)) ↦
              let (same, auth, connection) = failure_error n e x s1 q in
              subst P (sym (round_refused fuel n s e p x q))
                (s, rw same p, rw same auth, rw same connection)
          | inr (inr (n', q)) ↦ elim (Option-cases (paused fuel n s e p n' q).0) [
            | inr (c, r) ↦
                subst P (sym (round_cut fuel n s e p n' q c r))
                  ((failure n e s).1, pair_eq (paused fuel n s e p n' q) (some c) r)
            | inl r ↦
                subst P (sym (round_again fuel n s e p n' q r))
                  (client_explained fuel n' (paused fuel n s e p n' q).1)
          ]
        ]
      ]

  -- WaitForShardClient returns a client only if a connection gave it. It sends its caller to the
  -- initialization without credentials only if a login was refused and the probe without credentials
  -- says that the host does not enforce authentication. An error that it returns as it is is neither
  -- a refused login nor a connection error, and it gives up only when the context ends.
  pub wait_for_shard_client_lem :
      (fuel : ℕ) (s : S) → let r = wait_for_shard_client env fuel s in ClientExplained r.0 r.1
  unfolding wait_for_shard_client
  wait_for_shard_client_lem fuel s = client_explained fuel not_ready_yet s

  -- A status that showed the member as PRIMARY.
  abbrev pub SeenPrimary : S → Type 0
  SeenPrimary s =
      (s0 : S) × (status : ReplSetStatus) × (env.get_status s0 ≡ (ok status, s))
      × (status.my_state ≡ MemberState.primary)

  abbrev polled : S → Result GoError ReplSetStatus × S
  polled s = env.get_status s

  abbrev NotPrimary : Result GoError ReplSetStatus → Type 0
  NotPrimary r =
      ((e : GoError) × (r ≡ err e))
      ⊎ ((status : ReplSetStatus) × (r ≡ ok status)
          × (int_beq status.my_state MemberState.primary ≡ false))

  module _ (fuel deadline : ℕ) (s : S) (l : ltb deadline (env.now s) ≡ false) where
    primary_again :
        NotPrimary (polled s).0
        → (env.pause (polled s).1).0 ≡ none
        → primary_rounds env (suc fuel) deadline s
          ≡ primary_rounds env fuel deadline (env.pause (polled s).1).1
    unfolding primary_rounds
    primary_again (inl (e, p)) r = ground (arith, p, r)
    primary_again (inr (status, p, n)) r = ground (arith, p, n, r)

    primary_cut :
        NotPrimary (polled s).0
        → (c : GoError) → (env.pause (polled s).1).0 ≡ some c
        → (primary_rounds env (suc fuel) deadline s).0 ≡ elected
        → ⊥
    unfolding primary_rounds
    primary_cut (inl (e, p)) c r x = ground (arith, p, r, x)
    primary_cut (inr (status, p, n)) c r x = ground (arith, p, n, r, x)

    primary_found :
        (status : ReplSetStatus)
        → (polled s).0 ≡ ok status
        → int_beq status.my_state MemberState.primary ≡ true
        → primary_rounds env (suc fuel) deadline s ≡ (elected, (polled s).1)
    unfolding primary_rounds
    primary_found status p n = ground arith

  primary_late :
      (fuel deadline : ℕ) (s : S)
      → ltb deadline (env.now s) ≡ true
      → (primary_rounds env (suc fuel) deadline s).0 ≡ elected
      → ⊥
  unfolding primary_rounds
  primary_late fuel deadline s l x = ground arith

  primary_rounds_lem :
      (fuel deadline : ℕ) (s : S)
      → (primary_rounds env fuel deadline s).0 ≡ elected
      → SeenPrimary (primary_rounds env fuel deadline s).1
  unfolding primary_rounds
  primary_rounds_lem zero deadline s x = absurd (cc)
  primary_rounds_lem (suc fuel) deadline s x = elim (Bool-cases (ltb deadline (env.now s))) [
    | inl l ↦ absurd (primary_late fuel deadline s l x)
    | inr l ↦
        let unseen : NotPrimary (polled s).0
            → SeenPrimary (primary_rounds env (suc fuel) deadline s).1 =
          λ w. elim (Option-cases (env.pause (polled s).1).0) [
            | inr (c, r) ↦ absurd (primary_cut fuel deadline s l w c r x)
            | inl r ↦
                let same = primary_again fuel deadline s l w r in
                subst (λ z. SeenPrimary z.1) (sym same)
                  (primary_rounds_lem fuel deadline (env.pause (polled s).1).1
                    (sym (ap (λ z. z.0) same) ∙ x))
          ] in
        elim (Result-cases (polled s).0) [
          | inl (e, p) ↦ unseen (inl (e, p))
          | inr (status, p) ↦ elim (Bool-cases (int_beq status.my_state MemberState.primary)) [
            | inr n ↦ unseen (inr (status, p, n))
            | inl n ↦
                subst (λ z. SeenPrimary z.1) (sym (primary_found fuel deadline s l status p n))
                  (
                    s,
                    status,
                    pair_eq (polled s) (ok status) p,
                    (int_beq_iff status.my_state MemberState.primary).0 n,
                  )
          ]
        ]
  ]

  -- WaitForPrimary succeeds only on a status in which the member is PRIMARY, and leaves the state of
  -- that read.
  pub primary_explained :
      (fuel timeout : ℕ) (s : S)
      → (wait_for_primary env fuel timeout s).0 ≡ elected
      → SeenPrimary (wait_for_primary env fuel timeout s).1
  unfolding wait_for_primary
  primary_explained fuel timeout s x = primary_rounds_lem fuel (env.now s + timeout) s x
