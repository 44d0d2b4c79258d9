-- ===== src/Wait/Total.antt =====
-- WaitForMemberState (mongodb/shard_members.go) ends.
use terraform_provider_mongo.Prelude.{ℕ, zero, suc, ◌+◌, ◌<◌, ◌≤◌, String, none, ◌≡◌, ◌≢◌, arith}
use terraform_provider_mongo.Wait.{
  WaitTarget, WaitResult, WaitEnv, out_of_fuel, no_result, take_status, wait_rounds,
  wait_for_member_state,
}

-- The clock does not go back, and a pause that is not cut short takes a tick or more.
pub record HasClock {S : Type 0} (env : WaitEnv S) : Type 0 where
  pub status_forward : (s : S) → env.now s ≤ env.now (env.get_status s).1
  pub pause_forward : (s : S) → (env.pause s).0 ≡ none → env.now s < env.now (env.pause s).1

wait_rounds_total :
    {S : Type 0} (env : WaitEnv S) (clock : HasClock env) (fuel : ℕ) (host : String)
    (target : WaitTarget) (deadline : ℕ) (res : WaitResult) (s : S)
    → deadline < env.now s + fuel
    → (wait_rounds env (suc fuel) host target deadline res s).0 ≢ out_of_fuel
unfolding wait_rounds
wait_rounds_total env clock zero host target deadline res s h =
    ground (arith, clock.status_forward s)
wait_rounds_total env clock (suc fuel) host target deadline res s h =
    let s1 = (env.get_status s).1 in
    ground (
      arith,
      clock.status_forward s,
      clock.pause_forward s1,
      wait_rounds_total env clock fuel host target deadline
          (take_status res (env.get_status s).0 host target) (env.pause s1).1,
    )

-- With fuel for two rounds more than the timeout has ticks, the wait ends, whatever
-- the server answers: the clock does not go back, and a pause that is not cut short takes a tick.
pub wait_for_member_state_total :
    {S : Type 0} (env : WaitEnv S) (host : String) (target : WaitTarget) (timeout : ℕ) (s : S)
    → HasClock env
    → (wait_for_member_state env (suc (suc timeout)) host target timeout s).0 ≢ out_of_fuel
unfolding wait_for_member_state
wait_for_member_state_total env host target timeout s clock =
    wait_rounds_total env clock (suc timeout) host target (env.now s + timeout) no_result s
      (omega arith)
