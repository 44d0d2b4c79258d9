-- ===== src/Reconcile/Tests.antt =====
-- A small replica set, runs of the reconciliation of mongodb/shard_members.go on it, and the
-- theorems at those inputs.
use terraform_provider_mongo.Prelude.{
  All, ◌+◌, ◌≤◌, String, true, false, Option, none, some, List, [], ◌∷◌, ◌++◌, ◌≡◌, inr, refl, sym,
  ap, map, ℤ, pos, negsuc, contains, one_float, ok, float_beq, inc,
}
use terraform_provider_mongo.ReplSet.{ConfigMember, ConfigMembers, RsConfig, Settings, absent}
use terraform_provider_mongo.Members.{
  MemberOverride, override_hosts, member_hosts, staged_member, next_member_id, needs_promotion,
}
use terraform_provider_mongo.Wait.{WaitResult, nothing, wait_target_for}
use terraform_provider_mongo.Reconcile.{
  MemberAddOps, promote_member, promote_first, first_member, remove_member_by_host, settle_member,
  settle_met, settle_unmet, settle_cancelled,
}
use terraform_provider_mongo.Reconcile.Loops.{
  reconcile_members, add_from, add_member, promote_from, add_members_sequentially,
  promote_members_sequentially,
}
use terraform_provider_mongo.Reconcile.Server.{IsReplicaSet}
use terraform_provider_mongo.Reconcile.Steps.{Steps, add}
use terraform_provider_mongo.Reconcile.Evolution.{reconcile-Steps}
use terraform_provider_mongo.Reconcile.Safety.{others, reconcile_untouched}
use terraform_provider_mongo.Reconcile.Voters.{voters, Step-voters}
use terraform_provider_mongo.Reconcile.Settled.{IsDone, adds_settled}
use mathlib.Core.List.{mem-cons}
use mathlib.Core.Logic.Or

abbrev pub test_settings : Settings
test_settings = record {
  chaining_allowed = true;
  heartbeat_interval_millis = pos 1000;
  heartbeat_timeout_secs = pos 10;
  election_timeout_millis = pos 10000;
  catch_up_timeout_millis = negsuc 0;
  get_last_error_modes = [];
  get_last_error_defaults = record {
    write_concern = absent;
    write_timeout = pos 0;
    journal = false;
  };
  replica_set_id = "";
}

abbrev pub block : String → ℤ → MemberOverride
block host votes = record {
  host = host;
  priority = one_float;
  votes = votes;
  hidden = false;
  arbiter_only = false;
  build_indexes = true;
  tags = none;
}

abbrev pub first : ConfigMember
first = record {
  id = pos 0;
  host = "a:27017";
  arbiter_only = some false;
  build_indexes = some true;
  hidden = some false;
  priority = one_float;
  tags = none;
  slave_delay = none;
  votes = some (pos 1);
}

abbrev pub one_member : RsConfig
one_member = record {
  id = "rs0";
  version = pos 1;
  members = first ∷ [];
  configsvr = false;
  protocol_version = pos 1;
  settings = test_settings;
  write_concern_majority_journal_default = true;
}

-- The hosts "b:27017" and "c:27017" answer the waits; a reconfig is always accepted.
abbrev pub answers : String → WaitResult
answers host =
    let up = contains ("b:27017" ∷ "c:27017" ∷ []) host in
    record { met = up; ever_reachable = up; observed = true; last = nothing }

abbrev pub test_ops : MemberAddOps RsConfig
test_ops = record {
  get_config = λ c s. (ok s, s);
  set_config = λ c cfg s. (none, cfg);
  wait = λ h t s. ((answers h, none), s);
  timeout = 60;
}

abbrev pub members_of : RsConfig → ConfigMembers
members_of s = s.members

pub test_ops-IsReplicaSet : IsReplicaSet test_ops members_of
test_ops-IsReplicaSet = record {
  get_ok = λ c s cfg e. let p : s ≡ cfg = cc in ap members_of (sym p);
  get_keeps = λ c s. refl;
  set_ok = λ c cfg s e. refl;
  set_failed = λ c cfg s x e. inr refl;
  wait_keeps = λ h t s. refl;
}

abbrev pub new_blocks : List MemberOverride
new_blocks = block "b:27017" (pos 1) ∷ block "c:27017" (pos 0) ∷ []

abbrev pub summary : RsConfig → List (String × Option ℤ)
summary s = map (λ m. (m.host, m.votes)) s.members

-- Two members are added, the first of them is promoted; "d:27017" never answers and is removed.
run_adds :
    summary
      (reconcile_members test_ops [] (new_blocks ++ block "d:27017" (pos 1) ∷ []) one_member).1
    ≡ ("a:27017", some (pos 1)) ∷ ("b:27017", some (pos 1)) ∷ ("c:27017", some (pos 0)) ∷ []
unfolding reconcile_members add_members_sequentially promote_members_sequentially add_from
    promote_from add_member settle_member settle_met settle_unmet settle_cancelled promote_member
    first_member promote_first remove_member_by_host staged_member next_member_id needs_promotion
    wait_target_for float_beq inc
run_adds = refl

reconcile-Steps_example :
    Steps test_ops [] new_blocks
      (first ∷ [])
      (reconcile_members test_ops [] new_blocks one_member).1.members
reconcile-Steps_example =
    reconcile-Steps test_ops members_of test_ops-IsReplicaSet [] new_blocks one_member

reconcile_untouched_example :
    (others
        (override_hosts new_blocks)
        (reconcile_members test_ops [] new_blocks one_member).1.members
      ≡ others (override_hosts new_blocks) (first ∷ []))
    × (member_hosts (reconcile_members test_ops [] [] one_member).1.members ≡ "a:27017" ∷ [])
reconcile_untouched_example =
    reconcile_untouched test_ops members_of [] new_blocks one_member test_ops-IsReplicaSet

Step-voters_example :
    let after =
      (first ∷ []) ++ staged_member (block "b:27017" (pos 1)) (next_member_id (first ∷ [])) ∷ [] in
    (voters after ≤ voters (first ∷ []) + 1) × (voters (first ∷ []) ≤ voters after + 1)
Step-voters_example =
    Step-voters test_ops [] new_blocks (first ∷ []) _ (refl, tt)
      (add (block "b:27017" (pos 1)) (first ∷ []) (mem-cons.1 (Or.inl refl)))

adds_settled_example :
    let r = add_members_sequentially test_ops new_blocks one_member in
    All (IsDone r.1.members r.0.0) new_blocks
unfolding add_members_sequentially add_from add_member settle_member settle_met settle_unmet
    settle_cancelled promote_member first_member promote_first remove_member_by_host staged_member
    next_member_id needs_promotion wait_target_for float_beq inc
adds_settled_example =
    adds_settled test_ops members_of test_ops-IsReplicaSet new_blocks one_member (refl, (refl, tt))
      (refl, (refl, tt)) refl
