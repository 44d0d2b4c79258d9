-- ===== src/Examples.antt =====
-- The theorems on the parts of mongodb/ that stand outside the reconciliation, at small inputs.
use mathlib.Core.List.{Mem}
use terraform_provider_mongo.Prelude.{
  ℕ, suc, ltb, if◌then◌else◌, String, true, false, none, some, List, [], ◌∷◌, map, ◌≡◌, ◌≢◌, ◌⊎◌,
  ◌↔◌, refl, arith, ℤ, pos, inc, int_leb, All, Distinct, Result, ok, err,
}
use terraform_provider_mongo.Errors.{GoError, mongo_err_version_conflict}
use terraform_provider_mongo.ReplSet.{
  ConfigMember, ConfigMembers, Member, ReplSetStatus, IsMasterResp, deref_int,
}
use terraform_provider_mongo.ReplSet.MemberState
use terraform_provider_mongo.Members.{
  MemberOverride, override_hosts, member_hosts, lookup_member, partition_member_overrides,
  hold_promotions, next_member_id, merge_members, merge_from, host_index, update_at,
  rs_config_members_to_state,
}
use terraform_provider_mongo.Members.Merge.{merge_members-lookup}
use terraform_provider_mongo.Members.NextId.{next_member_id-fresh}
use terraform_provider_mongo.Members.Promotions.{settings_reconfig_votes}
use terraform_provider_mongo.Members.ReadBack.{read_back-merge}
use terraform_provider_mongo.Members.Validate.{validate_member_overrides, validate_iff, IsNamed}
use terraform_provider_mongo.Reconcile.Tests.{block, first, one_member}
use terraform_provider_mongo.Members.Merge.{find_override, merged_member}
use terraform_provider_mongo.Members.ReadBack.{override_block}
use terraform_provider_mongo.AddTarget.{preflight_add_targets}
use terraform_provider_mongo.AddTarget.Laws.{MayAdd, preflight_iff}
use terraform_provider_mongo.Wait.{
  WaitEnv, WaitResult, secondary, status_failed, wait_for_member_state, wait_rounds, take_status,
}
use terraform_provider_mongo.Wait.Laws.{Conclusive, wait_for_member_state_lem}
use terraform_provider_mongo.Retry.{RetryEnv, set_repl_set_config_with_retry}
use terraform_provider_mongo.Retry.Laws.{Explains, retry_explained}
use terraform_provider_mongo.Ready
use terraform_provider_mongo.Ready.{
  ReadyEnv, elected, wait_for_shard_client, wait_for_primary, primary_rounds,
}
use terraform_provider_mongo.Ready.Laws.{ClientExplained, wait_for_shard_client_lem}
use terraform_provider_mongo.Ready.Total as ReadyTotal
use terraform_provider_mongo.Ready.Total.{HasDeadline, ready_total}
use terraform_provider_mongo.Commands.{
  command_error, set_repl_set_config_with_max_time, get_repl_set_status, get_is_master,
  get_repl_set_config, initiate_replica_set,
}
use terraform_provider_mongo.Commands.Classified.{KeepsClass, command_errors_classified}

abbrev two_blocks : List MemberOverride
two_blocks = block "a:27017" (pos 1) ∷ block "b:27017" (pos 1) ∷ []

abbrev two_members : ConfigMembers
two_members = first ∷ record first { id = pos 1; host = "b:27017" } ∷ []

settings_reconfig_votes_example :
    (ms' : ConfigMembers) × (merge_members two_members
        (hold_promotions two_members (partition_member_overrides two_members two_blocks).0).0
      ≡ ok ms')
    × (member_hosts ms' ≡ member_hosts two_members)
    × ((h : String) (m m' : ConfigMember)
        → lookup_member h two_members ≡ some m
        → lookup_member h ms' ≡ some m'
        → int_leb (deref_int m'.votes) (deref_int m.votes) ≡ true)
settings_reconfig_votes_example = settings_reconfig_votes two_members two_blocks (refl, (refl, tt))

validate_iff_example :
    (validate_member_overrides two_blocks ≡ none)
    ↔ (All IsNamed two_blocks × Distinct (override_hosts two_blocks))
validate_iff_example = validate_iff two_blocks

abbrev one_block : List MemberOverride
one_block = block "b:27017" (pos 0) ∷ []

abbrev merged_members : ConfigMembers
merged_members = first ∷ record first { id = pos 1; host = "b:27017"; votes = some (pos 0) } ∷ []

merge_members-lookup_example :
    (member_hosts merged_members ≡ member_hosts two_members)
    × ((h : String)
        → lookup_member h merged_members
          ≡ merged_member (find_override h one_block) (lookup_member h two_members))
unfolding merge_members merge_from host_index update_at
merge_members-lookup_example =
    merge_members-lookup two_members one_block merged_members (refl, tt) refl

read_back-merge_example :
    rs_config_members_to_state merged_members (some (override_hosts one_block))
    ≡ some (map override_block one_block)
unfolding merge_members merge_from host_index update_at
read_back-merge_example =
    read_back-merge two_members one_block merged_members (refl, tt) (refl, tt) refl

next_member_id-fresh_example :
    All (λ m. int_leb (next_member_id two_members) m.id ≡ false) two_members
    × (int_leb (pos 0) (next_member_id two_members) ≡ true)
    × ((next_member_id two_members ≡ pos 0)
        ⊎ ((m : ConfigMember) × Mem m two_members × (next_member_id two_members ≡ inc m.id)))
next_member_id-fresh_example = next_member_id-fresh two_members (omega arith, (omega arith, tt))

abbrev conflict : GoError
conflict = record {
  command = some (record { code = mongo_err_version_conflict; labels = [] });
  message = "";
  is_timeout = false;
  is_network = false;
}

abbrev no_answer : GoError
no_answer = record { command = none; message = ""; is_timeout = true; is_network = false }

abbrev status_row : String → ℤ → Member
status_row name state = record {
  id = pos 0;
  name = name;
  health = pos 1;
  state = state;
  state_str = "";
  self = false;
}

abbrev test_status : ReplSetStatus
test_status = record {
  set = "rs0";
  my_state = MemberState.primary;
  members =
      status_row "a:27017" MemberState.primary ∷ status_row "b:27017" MemberState.secondary ∷ [];
}

abbrev silent_probe : String → Result GoError IsMasterResp
silent_probe host = err no_answer

preflight_iff_example :
    (preflight_add_targets "rs0" two_blocks silent_probe ≡ none)
    ↔ All (MayAdd silent_probe) two_blocks
preflight_iff_example = preflight_iff "rs0" silent_probe two_blocks (λ e. absurd (cc))

-- The server never answers; the wait gives up at the first read after the deadline.
abbrev silent_wait : WaitEnv ℕ
silent_wait = record {
  get_status = λ s. (err no_answer, s);
  now = λ s. s;
  pause = λ s. (none, suc s);
}

abbrev never_seen : WaitResult
never_seen = record {
  met = false;
  ever_reachable = false;
  observed = false;
  last = status_failed no_answer;
}

wait_for_member_state_lem_example : Conclusive silent_wait "b:27017" secondary 1 never_seen none 2
unfolding wait_for_member_state wait_rounds take_status
wait_for_member_state_lem_example =
    wait_for_member_state_lem silent_wait "b:27017" secondary 3 1 never_seen none 0 2 refl

-- The first try conflicts with the server's version, the next one is accepted; the state is the time
-- and the version that the server holds.
abbrev test_retry : RetryEnv (ℕ × ℤ)
test_retry = record {
  set_config =
      λ cfg t s. if int_leb cfg.version s.1 then (some conflict, s) else (none, (s.0, cfg.version));
  get_config = λ s. (ok (record one_member { version = s.1 }), s);
  now = λ s. s.0;
  pause = λ s. (none, (suc s.0, s.1));
}

retry_explained_example :
    let r = set_repl_set_config_with_retry test_retry 5 4 one_member 10 (0, pos 7) in
    Explains test_retry 5 one_member (0, pos 7) 10 r.0 r.1
retry_explained_example = retry_explained test_retry 5 4 one_member 10 (0, pos 7)

-- A host that refuses connections until the fourth tick, and a context that ends after the tenth.
abbrev test_ready : ReadyEnv ℕ String
test_ready = record {
  connect = λ s. if ltb s 4 then (err no_answer, s) else (ok "client", s);
  probe = λ s. (none, s);
  context = λ s. none;
  get_status = λ s. (ok test_status, s);
  now = λ s. s;
  pause = λ s. if ltb s 10 then (none, suc s) else (some no_answer, s);
}

test_ready-HasClock : ReadyTotal.HasClock test_ready
test_ready-HasClock = record {
  connect_forward = λ s. ground arith;
  probe_forward = λ s. omega arith;
  status_forward = λ s. omega arith;
  pause_forward = λ s e. ground arith;
}

test_ready-HasDeadline : HasDeadline test_ready 10
test_ready-HasDeadline = record { pause_ends = λ s e. ground arith }

ready_total_example :
    ((wait_for_shard_client test_ready 11 0).0 ≢ Ready.ClientEnd.out_of_fuel)
    × ((wait_for_primary test_ready 7 5 0).0 ≢ Ready.PrimaryEnd.out_of_fuel)
ready_total_example = ready_total test_ready test_ready-HasClock 10 5 0 test_ready-HasDeadline

wait_for_shard_client_lem_example :
    let r = wait_for_shard_client test_ready 11 0 in ClientExplained test_ready r.0 r.1
wait_for_shard_client_lem_example = wait_for_shard_client_lem test_ready 11 0

command_errors_classified_example :
    let e = conflict in
    ((e' : GoError) × (set_repl_set_config_with_max_time (command_error e) ≡ some e')
      × KeepsClass e e')
    × ((e' : GoError) × (get_repl_set_status (command_error e) ≡ err e') × KeepsClass e e')
    × ((e' : GoError) × (get_is_master (command_error e) ≡ err e') × KeepsClass e e')
    × ((e' : GoError) × (get_repl_set_config (command_error e) ≡ err e') × KeepsClass e e')
    × ((e' : GoError) × (initiate_replica_set (command_error e) ≡ some e') × KeepsClass e e')
command_errors_classified_example = command_errors_classified conflict
