-- ===== src/ShardConfig/Read.antt =====
-- Read and Import of mongodb/resource_shard_config.go, after the client is open.
use terraform_provider_mongo.Prelude.{
  String, false, not, none, some, [], ◌==◌, Result, ok, err, if◌then◌else◌,
}
use terraform_provider_mongo.Errors.{GoError}
use terraform_provider_mongo.Members.{member_hosts, rs_config_members_to_state}
use terraform_provider_mongo.Reconcile.{apply}
use terraform_provider_mongo.ShardConfig.{ShardData, ShardEnv, record_settings}
use terraform_provider_mongo.ShardConfig.Oplog.{read_oplog_config}
use terraform_provider_mongo.ShardConfig.Update.{record_members}

-- The errors of Import; `other_set` has the name that the server reports.
pub data ImportError : Type 0 where
  unread : GoError → ImportError
  other_set : String → String → ImportError

module _ {S : Type 0} (env : ShardEnv S) where
  -- Read
  unfoldable pub read_shard_config : ShardData → S → Result GoError ShardData × S
  read_shard_config d s =
      let (r, s1) = env.ops.get_config apply s in
      (
        elim r [
          | err e ↦ err e
          | ok cfg ↦
              let d' = record_members cfg.members (record_settings cfg d) in
              ok (read_oplog_config env d' cfg.members false s1)
        ],
        s1,
      )

  -- Import: every member of the set becomes a managed one.
  unfoldable pub import_shard_config : ShardData → S → Result ImportError ShardData × S
  import_shard_config d s =
      let (r, s1) = env.ops.get_config apply s in
      (
        elim r [
          | err e ↦ err (unread e)
          | ok cfg ↦
              if not (cfg.id == d.id)
              then err (other_set d.id cfg.id)
              else elim (rs_config_members_to_state cfg.members (some (member_hosts cfg.members))) [
                | none ↦ ok (record d { shard_name = d.id; members = [] })
                | some blocks ↦ ok (record d { shard_name = d.id; members = blocks })
              ]
        ],
        s1,
      )
