-- ===== src/Wait.antt =====
-- mongodb/shard_members.go: the wait for a member to reach its target state.
pub mod Laws
pub mod Total
use terraform_provider_mongo.Prelude.{
  ℕ, zero, suc, ◌+◌, String, Bool, true, false, not, Option, none, some, List, [], ◌∷◌, ◌==◌, ◌||◌,
  ◌&&◌, ℤ, pos, int_beq, ltb, Result, ok, err, if◌then◌else◌,
}
use terraform_provider_mongo.Errors.{GoError}
use terraform_provider_mongo.ReplSet.{Member, ReplSetStatus, member_health_up, member_state_string}
use terraform_provider_mongo.ReplSet.MemberState
use terraform_provider_mongo.Members.{MemberOverride, needs_promotion}

-- memberWaitTarget
pub data WaitTarget : Type 0 where
  reachable secondary arbiter : WaitTarget

unfoldable pub wait_target_for : MemberOverride → WaitTarget
wait_target_for o =
    if o.arbiter_only then arbiter else if needs_promotion o then secondary else reachable

-- The text for logs and errors: a row's health and state, no row, or the error of the status.
pub data Seen : Type 0 where
  nothing : Seen
  row : ℤ → String → Seen
  not_listed : Seen
  status_failed : GoError → Seen

-- memberObservation
pub record Observation : Type 0 where
  pub up : Bool
  pub met : Bool
  pub seen : Seen

unfoldable pub target_met : WaitTarget → ℤ → Bool
target_met secondary state =
    int_beq state MemberState.secondary || int_beq state MemberState.primary
target_met arbiter state = int_beq state MemberState.arbiter
target_met reachable state = true

observe_row : Member → WaitTarget → Observation
unfolding target_met
observe_row m target =
    let state = if m.state_str == "" then member_state_string m.state else m.state_str in
    let up = int_beq m.health member_health_up in
    record {
      up = up;
      met = if up then target_met target m.state else false;
      seen = row m.health state;
    }

observe_rows : List Member → String → WaitTarget → Observation
observe_rows [] host target = record { up = false; met = false; seen = not_listed }
observe_rows (m ∷ ms) host target =
    let rest = observe_rows ms host target in if m.name == host then observe_row m target else rest

-- observeMember: the first row of the host counts.
unfoldable pub observe_member : ReplSetStatus → String → WaitTarget → Observation
unfolding observe_rows observe_row
observe_member status host target = observe_rows status.members host target

-- memberWaitResult
pub record WaitResult : Type 0 where
  pub met : Bool
  pub ever_reachable : Bool
  pub observed : Bool
  pub last : Seen

abbrev pub no_result : WaitResult
no_result = record { met = false; ever_reachable = false; observed = false; last = nothing }

-- What a read of the status adds to the result.
unfoldable pub take_status :
    WaitResult → Result GoError ReplSetStatus → String → WaitTarget → WaitResult
take_status res (err e) host target = record res { last = status_failed e }
take_status res (ok status) host target =
    let obs = observe_member status host target in
    record res {
      observed = true;
      last = obs.seen;
      ever_reachable = res.ever_reachable || obs.up;
      met = res.met || obs.met;
    }

-- What the wait uses of its surroundings: the server's status, the clock, and the pause between
-- polls, which ends with the context's error if the context ends first.
pub record WaitEnv (S : Type 0) : Type 0 where
  pub get_status : S → Result GoError ReplSetStatus × S
  pub now : S → ℕ
  pub pause : S → Option GoError × S

-- How the wait ended: the result, and the context's error if there is one. `out_of_fuel` stands for
-- a loop that has not ended yet.
pub data WaitEnd : Type 0 where
  ended : WaitResult → Option GoError → WaitEnd
  out_of_fuel : WaitEnd

module _ {S : Type 0} (env : WaitEnv S) where
  -- The loop of WaitForMemberState, a round for each unit of fuel.
  unfoldable pub wait_rounds : ℕ → String → WaitTarget → ℕ → WaitResult → S → WaitEnd × S
  wait_rounds zero host target deadline res s = (out_of_fuel, s)
  wait_rounds (suc fuel) host target deadline res s =
      let (status, s1) = env.get_status s in
      let res' = take_status res status host target in
      let (cancelled, s2) = env.pause s1 in
      let rest = wait_rounds fuel host target deadline res' s2 in
      if res'.met
      then (ended res' none, s1)
      else if ltb deadline (env.now s1)
      then (ended res' none, s1)
      else elim cancelled [ some e ↦ (ended res' (some e), s2) | none ↦ rest ]

  -- WaitForMemberState: `timeout` is counted from the start.
  unfoldable pub wait_for_member_state : ℕ → String → WaitTarget → ℕ → S → WaitEnd × S
  wait_for_member_state fuel host target timeout s =
      wait_rounds fuel host target (env.now s + timeout) no_result s
