-- ===== src/Ready/Total.antt =====
-- WaitForShardClient (mongodb/shard_ready.go) and WaitForPrimary (mongodb/shard_init.go) end.
use terraform_provider_mongo.Prelude.{
  ℕ, zero, suc, ◌+◌, ◌<◌, ◌≤◌, none, ◌≡◌, ◌≢◌, ◌⊎◌, sym, subst, arith, Option-cases, Result-cases,
  inl, inr,
}
use terraform_provider_mongo.Errors.{GoError}
use terraform_provider_mongo.Ready.{
  ReadyEnv, NotReady, not_ready_yet, Next, Next-cases, again, return_error, return_no_auth,
  ClientEnd, PrimaryEnd, after_probe, after_failure, client_rounds, wait_for_shard_client,
  primary_rounds, wait_for_primary,
}
use terraform_provider_mongo.Ready

-- The clock does not go back, and a pause that is not cut short takes a tick or more.
pub record HasClock {S C : Type 0} (env : ReadyEnv S C) : Type 0 where
  pub connect_forward : (s : S) → env.now s ≤ env.now (env.connect s).1
  pub probe_forward : (s : S) → env.now s ≤ env.now (env.probe s).1
  pub status_forward : (s : S) → env.now s ≤ env.now (env.get_status s).1
  pub pause_forward : (s : S) → (env.pause s).0 ≡ none → env.now s < env.now (env.pause s).1

-- The context has a deadline, after which every pause is cut short.
pub record HasDeadline {S C : Type 0} (env : ReadyEnv S C) (deadline : ℕ) : Type 0 where
  pub pause_ends : (s : S) → (env.pause s).0 ≡ none → env.now (env.pause s).1 ≤ deadline

module _ {S C : Type 0} (env : ReadyEnv S C) (clock : HasClock env) where
  after_failure-forward :
      (n : NotReady) (e : GoError) (s : S) → env.now s ≤ env.now (after_failure env n e s).1
  unfolding after_failure
  after_failure-forward n e s = ground (arith, clock.probe_forward s)

  -- A round that ends the wait, or goes on at a later time that is not after the deadline.
  client_round :
      (fuel deadline : ℕ) (n : NotReady) (s : S)
      → HasDeadline env deadline
      → ((client_rounds env (suc fuel) n s).0 ≢ Ready.ClientEnd.out_of_fuel)
        ⊎ ((n' : NotReady) × (s' : S) × (env.now s < env.now s')
            × (env.now s' ≤ deadline)
            × (client_rounds env (suc fuel) n s ≡ client_rounds env fuel n' s'))
  unfolding client_rounds
  client_round fuel deadline n s dl =
      let s1 = (env.connect s).1 in
      elim (Result-cases (env.connect s).0) [
        | inr (c, p) ↦ inl (ground (arith, p))
        | inl (e, p) ↦
            let s2 = (after_failure env n e s1).1 in
            elim (Next-cases (after_failure env n e s1).0) [
              | inl q ↦ inl (ground (arith, p, q))
              | inr (inl (x, q)) ↦ inl (ground (arith, p, q))
              | inr (inr (n', q)) ↦ elim (Option-cases (env.pause s2).0) [
                | inr (c, r) ↦ inl (ground (arith, p, q, r))
                | inl r ↦ inr (
                  n',
                  (env.pause s2).1,
                  ground (
                    arith,
                    clock.connect_forward s,
                    after_failure-forward n e s1,
                    clock.pause_forward s2 r,
                  ),
                  dl.pause_ends s2 r,
                  ground (arith, p, q, r),
                )
              ]
            ]
      ]

  client_rounds_total :
      (fuel deadline : ℕ) (n : NotReady) (s : S)
      → HasDeadline env deadline
      → deadline ≤ env.now s + fuel
      → (client_rounds env (suc fuel) n s).0 ≢ Ready.ClientEnd.out_of_fuel
  client_rounds_total zero deadline n s dl h = elim (client_round zero deadline n s dl) [
    | inl done ↦ done
    | inr (n', s', later, inside, e) ↦ absurd (omega arith)
  ]
  client_rounds_total (suc fuel) deadline n s dl h =
      elim (client_round (suc fuel) deadline n s dl) [
        | inl done ↦ done
        | inr (n', s', later, inside, e) ↦
            subst (λ r. r.0 ≢ Ready.ClientEnd.out_of_fuel) (sym e)
              (client_rounds_total fuel deadline n' s' dl (omega arith))
      ]

  primary_rounds_total :
      (fuel deadline : ℕ) (s : S)
      → deadline < env.now s + fuel
      → (primary_rounds env (suc fuel) deadline s).0 ≢ Ready.PrimaryEnd.out_of_fuel
  unfolding primary_rounds
  primary_rounds_total zero deadline s h = ground arith
  primary_rounds_total (suc fuel) deadline s h =
      let s1 = (env.get_status s).1 in
      ground (
        arith,
        clock.status_forward s,
        clock.pause_forward s1,
        primary_rounds_total fuel deadline (env.pause s1).1,
      )

  -- WaitForShardClient ends with fuel for one round more than the ticks to the deadline of its context,
  -- when every pause is cut short after that deadline, and WaitForPrimary with fuel for two
  -- rounds more than its timeout has ticks, whatever the hosts answer: the clock does not go back, and
  -- a pause that is not cut short takes a tick.
  pub ready_total :
      (deadline timeout : ℕ) (s : S)
      → HasDeadline env deadline
      → ((wait_for_shard_client env (suc deadline) s).0 ≢ Ready.ClientEnd.out_of_fuel)
        × ((wait_for_primary env (suc (suc timeout)) timeout s).0 ≢ Ready.PrimaryEnd.out_of_fuel)
  unfolding wait_for_shard_client wait_for_primary
  ready_total deadline timeout s dl = (
    client_rounds_total deadline deadline not_ready_yet s dl (omega arith),
    primary_rounds_total (suc timeout) (env.now s + timeout) s (omega arith),
  )
