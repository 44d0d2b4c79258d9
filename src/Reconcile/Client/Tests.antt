-- ===== src/Reconcile/Client/Tests.antt =====
-- A server that is not ready to write at first and installs what it is sent from then on, and the
-- operations of memberAddOpsForClient (mongodb/shard_members.go) on it.
use terraform_provider_mongo.Prelude.{
  ℕ, ◌+◌, none, some, [], pos, ltb, ◌≡◌, ◌≢◌, refl, inl, inr, arith, if◌then◌else◌, Bool-cases,
}
use terraform_provider_mongo.Errors.{
  GoError, is_retryable, is_version_conflict, is_not_write_ready, is_current_config_not_committed,
}
use terraform_provider_mongo.ReplSet.{RsConfig, ConfigMembers}
use terraform_provider_mongo.Commands.{
  command_error, replied, ok_reply, set_repl_set_config_with_max_time, plain_error,
}
use terraform_provider_mongo.Retry.{
  retry_rounds, next_config, set_repl_set_config_with_retry, max_time,
}
use terraform_provider_mongo.Retry
use terraform_provider_mongo.Wait
use terraform_provider_mongo.Reconcile.{apply}
use terraform_provider_mongo.Reconcile.Server.{IsReplicaSet}
use terraform_provider_mongo.Reconcile.Tests.{one_member}
use terraform_provider_mongo.Reconcile.Client.{
  ReplicaSetServer, retry_env, retry_answer, retried, waited, member_add_ops_for_client,
}
use terraform_provider_mongo.Reconcile.Client.Refines.{
  IsReplicaSetServer, HasClock, member_add_ops_for_client-IsReplicaSet,
  member_add_ops_for_client_total,
}

record Node : Type 0 where
  pub clock : ℕ
  pub config : RsConfig

abbrev not_writing : GoError
not_writing = record (plain_error "not ready") {
  command = some (record { code = pos 17405; labels = [] });
}

abbrev test_server : ReplicaSetServer Node
test_server = record {
  reconfig = λ c cfg t s. (
    (if ltb s.clock 2 then command_error not_writing else replied ok_reply),
    if ltb s.clock 2 then s else record s { config = cfg },
  );
  show_config = λ c s. (replied (record { config = some s.config; response = ok_reply }), s);
  show_status = λ c s. (command_error not_writing, s);
  now = λ s. s.clock;
  pause = λ c s. (none, record s { clock = s.clock + 1 });
  poll_interval = 1;
  duration_text = λ n. "4s";
}

abbrev members_of : Node → ConfigMembers
members_of s = s.config.members

test_server-IsReplicaSetServer : IsReplicaSetServer test_server members_of
test_server-IsReplicaSetServer = record {
  shown = λ c s r cfg p q. ground arith;
  show_keeps = λ c s. refl;
  installs = λ c cfg t s r p o. ground (arith, p);
  either = λ c cfg t s. elim (Bool-cases (ltb s.clock 2)) [
    | inl l ↦ inl (ground (arith, l))
    | inr l ↦ inr (ground (arith, l))
  ];
  status_keeps = λ c s. refl;
  pause_keeps = λ c s. refl;
}

test_server-HasClock : HasClock test_server
test_server-HasClock = record {
  reconfig_forward = λ c cfg t s. ground arith;
  show_forward = λ c s. ground arith;
  status_forward = λ c s. ground arith;
  pause_forward = λ c s p. ground arith;
}

abbrev empty_node : Node
empty_node = record { clock = 0; config = record one_member { members = [] } }

set_config_runs :
    (member_add_ops_for_client test_server 4).set_config apply one_member empty_node
    ≡ (none, record { clock = 2; config = one_member })
unfolding member_add_ops_for_client retry_answer retry_env set_repl_set_config_with_retry
    retry_rounds next_config max_time set_repl_set_config_with_max_time is_retryable
    is_version_conflict is_not_write_ready is_current_config_not_committed
set_config_runs = refl

member_add_ops_for_client-IsReplicaSet_example :
    IsReplicaSet (member_add_ops_for_client test_server 4) members_of
member_add_ops_for_client-IsReplicaSet_example =
    member_add_ops_for_client-IsReplicaSet test_server members_of test_server-IsReplicaSetServer 4

member_add_ops_for_client_total_example :
    ((retried test_server 4 apply one_member empty_node).0 ≢ Retry.RetryEnd.out_of_fuel)
    × ((waited test_server 4 "b:27017" Wait.secondary empty_node).0 ≢ Wait.WaitEnd.out_of_fuel)
member_add_ops_for_client_total_example =
    member_add_ops_for_client_total test_server test_server-HasClock 4 apply one_member "b:27017"
      Wait.secondary empty_node
