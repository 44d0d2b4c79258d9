-- ===== src/Reach/Total.antt =====
-- waitUntilReachable and WaitForAddTargets (mongodb/shard_ready.go) end.
use terraform_provider_mongo.Prelude.{
  ℕ, zero, suc, ◌+◌, ◌<◌, ◌≤◌, String, not, ◌&&◌, Option, none, List, [], ◌∷◌, ◌≡◌, ◌≢◌, ◌⊎◌, inl,
  inr, sym, subst, arith, Option-cases, Bool-cases,
}
use terraform_provider_mongo.Errors.{GoError, is_connection_error}
use terraform_provider_mongo.Members.{MemberOverride}
use terraform_provider_mongo.Reach.{
  ReachEnv, out_of_fuel, last_answer, is_over, reach_rounds, wait_until_reachable,
  wait_for_add_targets,
}

-- A clock that does not go back and that an uncut pause moves on, and a deadline of the context, after
-- which every pause is cut short.
pub record HasDeadline {S : Type 0} (env : ReachEnv S) (now : S → ℕ) (deadline : ℕ) : Type 0 where
  pub attempt_forward : (h : String) (s : S) → now s ≤ now (env.attempt h s).1
  pub pause_forward : (s : S) → (env.pause s).0 ≡ none → now s < now (env.pause s).1
  pub pause_ends : (s : S) → (env.pause s).0 ≡ none → now (env.pause s).1 ≤ deadline

module _ {S : Type 0} (env : ReachEnv S) (now : S → ℕ) (deadline : ℕ)
    (clock : HasDeadline env now deadline) where
  -- A round that ends the wait, or goes on at a later time that is not after the deadline.
  reach_round :
      (fuel : ℕ) (host : String) (last : Option GoError) (s : S)
      → ((reach_rounds env (suc fuel) host last s).0 ≢ out_of_fuel)
        ⊎ ((last' : Option GoError) × (s' : S) × (now s < now s')
            × (now s' ≤ deadline)
            × (reach_rounds env (suc fuel) host last s ≡ reach_rounds env fuel host last' s'))
  unfolding reach_rounds
  reach_round fuel host last s =
      let s1 = (env.attempt host s).1 in
      elim (Option-cases (env.attempt host s).0) [
        | inl p ↦ inl (ground (arith, p))
        | inr (e, p) ↦
            elim (Bool-cases (not (is_over (env.context s1)) && not (is_connection_error e))) [
              | inl f ↦ inl (ground (arith, p, f))
              | inr f ↦ elim (Option-cases (env.pause s1).0) [
                | inr (c, r) ↦ inl (ground (arith, p, f, r))
                | inl r ↦ inr (
                  last_answer last e (env.context s1),
                  (env.pause s1).1,
                  ground (arith, clock.attempt_forward host s, clock.pause_forward s1 r),
                  clock.pause_ends s1 r,
                  ground (arith, p, f, r),
                )
              ]
            ]
      ]

  reach_rounds_total :
      (fuel : ℕ) (host : String) (last : Option GoError) (s : S)
      → deadline ≤ now s + fuel
      → (reach_rounds env (suc fuel) host last s).0 ≢ out_of_fuel
  reach_rounds_total zero host last s h = elim (reach_round zero host last s) [
    | inl done ↦ done
    | inr (last', s', later, inside, e) ↦ absurd (omega arith)
  ]
  reach_rounds_total (suc fuel) host last s h = elim (reach_round (suc fuel) host last s) [
    | inl done ↦ done
    | inr (last', s', later, inside, e) ↦
        subst (λ r. r.0 ≢ out_of_fuel) (sym e) (reach_rounds_total fuel host last' s' (omega arith))
  ]

  wait_until_reachable_total :
      (host : String) (s : S) → (wait_until_reachable env (suc deadline) host s).0 ≢ out_of_fuel
  unfolding wait_until_reachable
  wait_until_reachable_total host s = reach_rounds_total deadline host none s (omega arith)

  -- WaitForAddTargets ends with fuel, for each host, for one round more than the ticks to the deadline
  -- of its context, whatever the hosts answer: the clock does not go back, a pause that is not cut
  -- short takes a tick, and every pause is cut short after the deadline.
  pub wait_for_add_targets_total :
      (os : List MemberOverride) (s : S)
      → (wait_for_add_targets env (suc deadline) os s).0 ≢ out_of_fuel
  unfolding wait_for_add_targets
  wait_for_add_targets_total [] s = λ e. absurd (cc)
  wait_for_add_targets_total (o ∷ os) s =
      let s1 = (wait_until_reachable env (suc deadline) o.host s).1 in
      ground (arith, wait_until_reachable_total o.host s, wait_for_add_targets_total os s1)
