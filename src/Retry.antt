-- ===== src/Retry.antt =====
-- mongodb/shard_init.go: the reconfig that is tried again after a transient error. The commands, the
-- clock and the pause between tries are parameters that pass a state on.
pub mod Laws
pub mod Total
pub mod Keeps
use terraform_provider_mongo.Prelude.{
  ℕ, zero, suc, ◌+◌, ◌-◌, String, Bool, true, false, not, Option, none, some, ltb, inc, ℤ, Result,
  ok, err, if◌then◌else◌,
}
use terraform_provider_mongo.Errors.{GoError, is_retryable, is_version_conflict}
use terraform_provider_mongo.ReplSet.{RsConfig}

-- The commands of a loop that polls: `set_config` is SetReplSetConfigWithMaxTime, `get_config` is
-- GetReplSetConfig, and `pause` ends with the context's error if the context ends first.
pub record RetryEnv (S : Type 0) : Type 0 where
  pub set_config : RsConfig → ℕ → S → Option GoError × S
  pub get_config : S → Result GoError RsConfig × S
  pub now : S → ℕ
  pub pause : S → Option GoError × S

-- The errors of SetReplSetConfigWithRetry.
pub data RetryError : Type 0 where
  rejected not_resolved not_reread cancelled : GoError → RetryError

-- `out_of_fuel` stands for a loop that has not ended yet.
pub data RetryEnd : Type 0 where
  installed : RetryEnd
  failed : RetryError → RetryEnd
  out_of_fuel : RetryEnd

-- `maxTime`: the time left, which is not below the poll interval.
unfoldable pub max_time : ℕ → ℕ → ℕ → ℕ
max_time poll deadline now = let left = deadline - now in if ltb left poll then poll else left

abbrev pub with_version : RsConfig → ℤ → RsConfig
with_version cfg v = record cfg { version = v }

module _ {S : Type 0} (env : RetryEnv S) (poll : ℕ) where
  -- The configuration of the next try: after a version conflict it has the version that follows the
  -- server's.
  unfoldable pub next_config : RsConfig → GoError → S → Result GoError RsConfig × S
  next_config cfg e s =
      if is_version_conflict e
      then (let (r, s1) = env.get_config s in
          (elim r [ err x ↦ err x | ok current ↦ ok (with_version cfg (inc current.version)) ], s1))
      else (ok cfg, s)

  -- The loop, a round for each unit of fuel.
  unfoldable pub retry_rounds : ℕ → ℕ → RsConfig → S → RetryEnd × S
  retry_rounds zero deadline cfg s = (out_of_fuel, s)
  retry_rounds (suc fuel) deadline cfg s =
      let (refused, s1) = env.set_config cfg (max_time poll deadline (env.now s)) s in
      elim refused [
        | none ↦ (installed, s1)
        | some e ↦
            if not (is_retryable e)
            then (failed (rejected e), s1)
            else if ltb deadline (env.now s1)
            then (failed (not_resolved e), s1)
            else elim (next_config cfg e s1).0 [
              | err x ↦ (failed (not_reread x), (next_config cfg e s1).1)
              | ok cfg' ↦
                  let (ended, s3) = env.pause (next_config cfg e s1).1 in
                  elim ended [
                    | some x ↦ (failed (cancelled x), s3)
                    | none ↦ retry_rounds fuel deadline cfg' s3
                  ]
            ]
      ]

  -- SetReplSetConfigWithRetry: `timeout` is counted from the start.
  unfoldable pub set_repl_set_config_with_retry : ℕ → RsConfig → ℕ → S → RetryEnd × S
  set_repl_set_config_with_retry fuel cfg timeout s = retry_rounds fuel (env.now s + timeout) cfg s
