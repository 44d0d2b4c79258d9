-- ===== src/ShardConfig/Create/Tests.antt =====
-- A host that is initiated on demand, and Create (mongodb/resource_shard_config.go) on it.
use terraform_provider_mongo.Prelude.{
  ℕ, none, some, [], ◌==◌, pos, ◌≡◌, ◌⊎◌, refl, ok, err, if◌then◌else◌,
}
use terraform_provider_mongo.Errors.{GoError, is_already_initialized, is_not_yet_initialized}
use terraform_provider_mongo.ReplSet.{RsConfig}
use terraform_provider_mongo.Commands.{plain_error}
use terraform_provider_mongo.Discovery.{split_host_port, split_last}
use terraform_provider_mongo.Members.Validate.{validate_member_overrides, is_blank, lookup_seen}
use terraform_provider_mongo.Reach.{wait_until_reachable, reach_rounds}
use terraform_provider_mongo.Ready.{
  wait_for_shard_client, client_rounds, wait_for_primary, primary_rounds,
}
use terraform_provider_mongo.Reconcile.Tests.{one_member}
use terraform_provider_mongo.ShardConfig.{extract_member_overrides, override_of}
use terraform_provider_mongo.ShardConfig.Update.{update_with_client}
use terraform_provider_mongo.ShardConfig.Tests.{test_env, test_data}
use terraform_provider_mongo.ShardConfig.Create.{
  InitEnv, connect_for_init, initiate_with, initiate_first, first_target, initialize_replica_set,
  create_with, create_shard_config,
}
use terraform_provider_mongo.ShardConfig.Create.Initiate.{Initiated}
use terraform_provider_mongo.ShardConfig.Create.Laws.{
  Existing, Uninitialized, create_shard_config_lem,
}

abbrev not_initialized : GoError
not_initialized = record (plain_error "no config") {
  command = some (record { code = pos 94; labels = [] });
}

-- The set's configuration; its id is empty until it is initiated.
abbrev test_init : InitEnv RsConfig ℕ
test_init = record {
  ready = record {
    connect = λ s. (ok 0, s);
    probe = λ s. (none, s);
    context = λ s. none;
    get_status = λ s. (err not_initialized, s);
    now = λ s. 0;
    pause = λ s. (some not_initialized, s);
  };
  shard = λ c fallback. test_env;
  read_config = λ c s. ((if s.id == "" then err not_initialized else ok s), s);
  status_of = λ c s. (ok (record { set = s.id; my_state = pos 1; members = [] }), s);
  connect_with_login = λ host port s. (err not_initialized, s);
  connect_without_login = λ host port s. (ok 1, s);
  initiate = λ c name host s. (none, one_member);
}

abbrev bare : RsConfig
bare = record one_member { id = ""; members = [] }

create_runs :
    (create_shard_config test_init 2 4 test_data bare).0
    ≡ ok (update_with_client test_env test_data one_member).0
unfolding create_shard_config create_with initialize_replica_set first_target initiate_first
    initiate_with connect_for_init wait_for_shard_client client_rounds wait_for_primary
    primary_rounds wait_until_reachable reach_rounds split_host_port split_last
    extract_member_overrides override_of validate_member_overrides is_blank lookup_seen
    is_already_initialized is_not_yet_initialized
create_runs = refl

create_shard_config_lem_example :
    let r = create_shard_config test_init 2 4 test_data bare in
    Existing test_init test_data r ⊎ (Uninitialized test_init × Initiated test_init test_data r)
create_shard_config_lem_example =
    create_shard_config_lem test_init 2 4 test_data
      (update_with_client test_env test_data one_member).0 bare create_runs
