-- ===== src/ShardConfig/Tests.antt =====
-- An apply of mongodb/resource_shard_config.go on a small replica set, and the theorems at it.
use terraform_provider_mongo.Prelude.{
  String, true, false, none, [], ◌∷◌, ◌≡◌, ◌⊎◌, refl, pos, negsuc, one_float, float_beq, inc, ok,
  err,
}
use terraform_provider_mongo.Errors.{GoError}
use terraform_provider_mongo.ReplSet.{RsConfig}
use terraform_provider_mongo.Members.{
  MemberBlock, partition_member_overrides, hold_promotions, hold_promotion, merge_members,
  merge_from, lookup_member, host_index, update_at, staged_member, build_config_member,
  next_member_id, needs_promotion,
}
use terraform_provider_mongo.Members.Validate.{validate_member_overrides, is_blank, lookup_seen}
use terraform_provider_mongo.AddTarget.{preflight_add_targets, check_add_target}
use terraform_provider_mongo.Wait.{wait_target_for}
use terraform_provider_mongo.Reconcile.{
  settle_member, settle_met, settle_unmet, settle_cancelled, promote_member, first_member,
  promote_first, remove_member_by_host,
}
use terraform_provider_mongo.Reconcile.Loops.{
  reconcile_members, add_from, add_member, promote_from, add_members_sequentially,
  promote_members_sequentially,
}
use terraform_provider_mongo.ShardConfig.Oplog.{apply_oplog_config}
use terraform_provider_mongo.Reconcile.Steps.{Steps}
use terraform_provider_mongo.Reconcile.Tests.{
  test_ops, members_of, test_ops-IsReplicaSet, one_member,
}
use terraform_provider_mongo.ShardConfig.{
  ShardData, ShardEnv, extract_member_overrides, override_of,
}
use terraform_provider_mongo.ShardConfig.Update.{
  Plan, update_with_client, plan_members, inspect_targets, run_plan, finish_members, finish_oplog,
  merge_plan,
}
use terraform_provider_mongo.ShardConfig.Stages.{planned}
use terraform_provider_mongo.ShardConfig.Evolution.{IsShard, update-Steps}
use terraform_provider_mongo.ShardConfig.State.{Recorded, update_with_client_lem}

abbrev silent : GoError
silent = record { command = none; message = "no answer"; is_timeout = true; is_network = false }

-- No host answers a probe or a read of the oplog.
abbrev pub test_env : ShardEnv RsConfig
test_env = record {
  ops = test_ops;
  wait_for_add_targets = λ skipped os s. (none, s);
  probe = λ s h. err silent;
  get_status = λ s. (err silent, s);
  resize = λ h size s. (none, s);
  read_size = λ s h. err silent;
}

test_env-IsShard : IsShard test_env members_of
test_env-IsShard = record {
  replica_set = test_ops-IsReplicaSet;
  targets_keep = λ skipped os s. refl;
  status_keeps = λ s. refl;
  resize_keeps = λ h size s. refl;
}

abbrev plain : String → MemberBlock
plain host = record {
  host = host;
  priority = one_float;
  arbiter_only = false;
  build_indexes = true;
  hidden = false;
  votes = pos 1;
  tags = [];
}

abbrev pub test_data : ShardData
test_data = record {
  id = "";
  shard_name = "rs0";
  chaining_allowed = false;
  heartbeat_interval_millis = pos 2000;
  heartbeat_timeout_secs = pos 20;
  election_timeout_millis = pos 5000;
  catch_up_timeout_millis = negsuc 0;
  members = plain "a:27017" ∷ plain "b:27017" ∷ [];
  oplog_size_mb = none;
  host_overridden = false;
  is_new = true;
  oplog_changed = false;
}

update-Steps_example :
    let after = (update_with_client test_env test_data one_member).1.members in
    (after ≡ one_member.members)
    ⊎ ((cfg : RsConfig) × (plan : Plan) × (cfg.members ≡ one_member.members)
        × ((planned test_env test_data one_member cfg).0 ≡ ok plan)
        × Steps test_ops plan.promotions plan.new_members plan.config.members after)
update-Steps_example = update-Steps test_env members_of test_env-IsShard test_data one_member

update_with_client_lem_example :
    Recorded test_env test_data (update_with_client test_env test_data one_member).0.shard_data
unfolding update_with_client plan_members inspect_targets run_plan finish_members finish_oplog
    merge_plan apply_oplog_config extract_member_overrides override_of validate_member_overrides
    is_blank lookup_seen partition_member_overrides hold_promotions hold_promotion merge_members
    merge_from lookup_member host_index update_at preflight_add_targets check_add_target
    reconcile_members add_members_sequentially promote_members_sequentially add_from promote_from
    add_member settle_member settle_met settle_unmet settle_cancelled promote_member first_member
    promote_first remove_member_by_host staged_member build_config_member next_member_id
    needs_promotion wait_target_for float_beq inc
update_with_client_lem_example = update_with_client_lem test_env test_data one_member refl
