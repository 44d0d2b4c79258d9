-- ===== src/Reach/Last.antt =====
-- A wait of waitUntilReachable (mongodb/shard_ready.go) that succeeds ends with the attempt that did.
use terraform_provider_mongo.Prelude.{
  ℕ, zero, suc, String, true, false, Option, none, some, ◌≡◌, sym, ap, subst, arith, ◌∙◌, inl, inr,
  Option-cases, not, ◌&&◌, Bool-cases,
}
use terraform_provider_mongo.Errors.{GoError, is_connection_error}
use terraform_provider_mongo.Reach.{
  ReachEnv, ReachEnd, reached, failed, reach_rounds, last_answer, is_over,
}

module _ {S : Type 0} (env : ReachEnv S) (host : String) where
  abbrev pub Attempted : S → Type 0
  Attempted s = (s0 : S) × (env.attempt host s0 ≡ (none, s))

  module _ (fuel : ℕ) (last : Option GoError) (s : S) where
    abbrev tried : Option GoError × S
    tried = env.attempt host s

    attempt_reached : tried.0 ≡ none → reach_rounds env (suc fuel) host last s ≡ (reached, tried.1)
    unfolding reach_rounds
    attempt_reached p = ground arith

    module _ (e : GoError) (p : tried.0 ≡ some e) where
      attempt_failed :
          (not (is_over (env.context tried.1)) && not (is_connection_error e)) ≡ true
          → (reach_rounds env (suc fuel) host last s).0 ≡ failed e
      unfolding reach_rounds
      attempt_failed n = ground (arith, p, n)

      module _
          (n : (not (is_over (env.context tried.1)) && not (is_connection_error e)) ≡ false) where
        attempt_cut :
            (c : GoError)
            → (env.pause tried.1).0 ≡ some c
            → (reach_rounds env (suc fuel) host last s).0
              ≡ ReachEnd.not_ready (last_answer last e (env.context tried.1)) c
        unfolding reach_rounds
        attempt_cut c q = ground (arith, p, n, q)

        attempt_again :
            (env.pause tried.1).0 ≡ none
            → reach_rounds env (suc fuel) host last s
              ≡ reach_rounds env fuel host
                  (last_answer last e (env.context tried.1))
                  (env.pause tried.1).1
        unfolding reach_rounds
        attempt_again q = ground (arith, p, n, q)

  pub reach_rounds-Attempted :
      (fuel : ℕ) (last : Option GoError) (s : S)
      → (reach_rounds env fuel host last s).0 ≡ reached
      → Attempted (reach_rounds env fuel host last s).1
  unfolding reach_rounds
  reach_rounds-Attempted zero last s x = absurd (cc)
  reach_rounds-Attempted (suc fuel) last s x =
      let answer = env.attempt host s in
      elim (Option-cases answer.0) [
        | inl p ↦
            subst (λ r. Attempted r.1) (sym (attempt_reached fuel last s p))
              (s, ap (λ a. (a, answer.1)) p)
        | inr (e, p) ↦
            elim (Bool-cases
              (not (is_over (env.context answer.1)) && not (is_connection_error e))) [
                | inl n ↦
                    let clash : failed e ≡ reached = sym (attempt_failed fuel last s e p n) ∙ x in
                    absurd (cc)
                | inr n ↦ elim (Option-cases (env.pause answer.1).0) [
                  | inr (c, q) ↦
                      let clash : ReachEnd.not_ready (last_answer last e (env.context answer.1)) c
                          ≡ reached =
                        sym (attempt_cut fuel last s e p n c q) ∙ x in
                      absurd (cc)
                  | inl q ↦
                      let same = attempt_again fuel last s e p n q in
                      subst (λ r. Attempted r.1) (sym same)
                        (reach_rounds-Attempted fuel _ _ (sym (ap (λ r. r.0) same) ∙ x))
                ]
              ]
      ]
