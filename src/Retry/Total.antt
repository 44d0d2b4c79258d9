-- ===== src/Retry/Total.antt =====
-- SetReplSetConfigWithRetry (mongodb/shard_init.go) ends.
use terraform_provider_mongo.Prelude.{
  ℕ, zero, suc, ◌+◌, ◌<◌, ◌≤◌, none, ◌≡◌, ◌≢◌, arith, Option-cases, Result-cases, inl, inr,
}
use terraform_provider_mongo.Errors.{GoError}
use terraform_provider_mongo.ReplSet.{RsConfig}
use terraform_provider_mongo.Retry.{
  RetryEnv, out_of_fuel, max_time, next_config, retry_rounds, set_repl_set_config_with_retry,
}

-- The clock does not go back, and a pause that is not cut short takes a tick or more.
pub record HasClock {S : Type 0} (env : RetryEnv S) : Type 0 where
  pub set_forward :
      (cfg : RsConfig) (t : ℕ) (s : S) → env.now s ≤ env.now (env.set_config cfg t s).1
  pub get_forward : (s : S) → env.now s ≤ env.now (env.get_config s).1
  pub pause_forward : (s : S) → (env.pause s).0 ≡ none → env.now s < env.now (env.pause s).1

module _ {S : Type 0} (env : RetryEnv S) (poll : ℕ) (clock : HasClock env) where
  next_forward :
      (cfg : RsConfig) (e : GoError) (s : S) → env.now s ≤ env.now (next_config env poll cfg e s).1
  unfolding next_config
  next_forward cfg e s = ground (arith, clock.get_forward s)

  retry_rounds_total :
      (fuel deadline : ℕ) (cfg : RsConfig) (s : S)
      → deadline < env.now s + fuel
      → (retry_rounds env poll (suc fuel) deadline cfg s).0 ≢ out_of_fuel
  unfolding retry_rounds
  retry_rounds_total zero deadline cfg s h =
      ground (arith, clock.set_forward cfg (max_time poll deadline (env.now s)) s)
  retry_rounds_total (suc fuel) deadline cfg s h =
      let t = max_time poll deadline (env.now s) in
      let s1 = (env.set_config cfg t s).1 in
      let forward = clock.set_forward cfg t s in
      elim (Option-cases (env.set_config cfg t s).0) [
        | inl p ↦ ground (arith, p)
        | inr (e, p) ↦ elim (Result-cases (next_config env poll cfg e s1).0) [
          | inl (x, q) ↦ ground (arith, p, q)
          | inr (cfg', q) ↦
              let s2 = (next_config env poll cfg e s1).1 in
              ground (
                arith,
                p,
                q,
                forward,
                next_forward cfg e s1,
                clock.pause_forward s2,
                retry_rounds_total fuel deadline cfg' (env.pause s2).1,
              )
        ]
      ]

  -- With fuel for two rounds more than the timeout has ticks, the retries end, whatever the server
  -- answers: the clock does not go back, and a pause that is not cut short takes a tick.
  pub retry_total :
      (cfg : RsConfig) (timeout : ℕ) (s : S)
      → (set_repl_set_config_with_retry env poll (suc (suc timeout)) cfg timeout s).0 ≢ out_of_fuel
  unfolding set_repl_set_config_with_retry
  retry_total cfg timeout s =
      retry_rounds_total (suc timeout) (env.now s + timeout) cfg s (omega arith)
