-- ===== src/ShardConfig.antt =====
-- mongodb/resource_shard_config.go: the resource that manages the configuration of a replica set.
-- Terraform's resource data is the record `ShardData`, with what the plan or the state holds for
-- each attribute; writes to it do not fail here, because the values have the attributes' types. The
-- commands and the connections to single members are parameters that pass the servers' state on.
pub mod Oplog
pub mod Update
pub mod Create
pub mod Read
pub mod Stages
pub mod Evolution
pub mod State
pub mod Tests
use terraform_provider_mongo.Prelude.{
  ℕ, String, Bool, true, false, not, Option, none, some, List, [], ◌∷◌, ◌||◌, ℤ, Float64,
  zero_float, contains, Result, if◌then◌else◌,
}
use terraform_provider_mongo.Errors.{GoError}
use terraform_provider_mongo.ReplSet.{ReplsetTags, IsMasterResp, ReplSetStatus, RsConfig, Settings}
use terraform_provider_mongo.Members.{MemberOverride, MemberBlock}
use terraform_provider_mongo.Members.Validate.{is_blank}
use terraform_provider_mongo.Reconcile.{MemberAddOps}

-- The attributes of the resource. `oplog_size_mb` is absent where it is unset or unknown;
-- `is_new` and `oplog_changed` are what IsNewResource and HasChange answer.
pub record ShardData : Type 0 where
  pub id : String
  pub shard_name : String
  pub chaining_allowed : Bool
  pub heartbeat_interval_millis : ℤ
  pub heartbeat_timeout_secs : ℤ
  pub election_timeout_millis : ℤ
  pub catch_up_timeout_millis : ℤ
  pub members : List MemberBlock
  pub oplog_size_mb : Option Float64
  pub host_overridden : Bool
  pub is_new : Bool
  pub oplog_changed : Bool

abbrev some_tags : ReplsetTags → Option ReplsetTags
some_tags [] = none
some_tags (t ∷ ts) = some (t ∷ ts)

-- One round of extractMemberOverrides: an arbiter's priority is 0.
unfoldable pub override_of : MemberBlock → MemberOverride
override_of b = record {
  host = b.host;
  priority = if b.arbiter_only then zero_float else b.priority;
  votes = b.votes;
  hidden = b.hidden;
  arbiter_only = b.arbiter_only;
  build_indexes = b.build_indexes;
  tags = some_tags b.tags;
}

abbrev overrides_of : List MemberBlock → List MemberOverride
overrides_of [] = []
overrides_of (b ∷ bs) = override_of b ∷ overrides_of bs

-- extractMemberOverrides: no blocks are no overrides.
unfoldable pub extract_member_overrides : List MemberBlock → Option (List MemberOverride)
extract_member_overrides [] = none
extract_member_overrides (b ∷ bs) = some (overrides_of (b ∷ bs))

-- The loop of managedHostsFromState, with the hosts that it has seen.
managed_from : List String → List MemberBlock → List String
managed_from seen [] = []
managed_from seen (b ∷ bs) =
    let skip = managed_from seen bs in
    let rest = managed_from (b.host ∷ seen) bs in
    if is_blank b.host || contains seen b.host then skip else b.host ∷ rest

-- managedHostsFromState: `none` is the nil slice.
unfoldable pub managed_hosts_from_state : List MemberBlock → Option (List String)
unfolding managed_from
managed_hosts_from_state [] = none
managed_hosts_from_state (b ∷ bs) = some (managed_from [] (b ∷ bs))

-- What the resource uses of the servers. `ops` is what memberAddOpsForClient builds: its `set_config`
-- is SetReplSetConfigWithRetry and its `get_config` GetReplSetConfig. `wait_for_add_targets` is
-- WaitForAddTargets with the probe of memberProbeFor, which under host_override, its first argument, is
-- memberProbeSkipped; `probe` is that probe at some state without host_override;
-- `resize` and `read_size` connect to one member and run SetOplogConfig and GetOplogConfig.
pub record ShardEnv (S : Type 0) : Type 0 where
  pub ops : MemberAddOps S
  pub wait_for_add_targets : Bool → List MemberOverride → S → Option GoError × S
  pub probe : S → String → Result GoError IsMasterResp
  pub get_status : S → Result GoError ReplSetStatus × S
  pub resize : String → Float64 → S → Option GoError × S
  pub read_size : S → String → Result GoError Float64

-- The assignments to `config.Settings`.
abbrev pub planned_settings : ShardData → Settings → Settings
planned_settings d s = record s {
  chaining_allowed = d.chaining_allowed;
  heartbeat_interval_millis = d.heartbeat_interval_millis;
  heartbeat_timeout_secs = d.heartbeat_timeout_secs;
  election_timeout_millis = d.election_timeout_millis;
  catch_up_timeout_millis = d.catch_up_timeout_millis;
}

-- The calls of `data.SetId` and `data.Set` that record a configuration's name and settings.
abbrev pub record_settings : RsConfig → ShardData → ShardData
record_settings cfg d = record d {
  id = cfg.id;
  shard_name = cfg.id;
  chaining_allowed = cfg.settings.chaining_allowed;
  heartbeat_interval_millis = cfg.settings.heartbeat_interval_millis;
  heartbeat_timeout_secs = cfg.settings.heartbeat_timeout_secs;
  election_timeout_millis = cfg.settings.election_timeout_millis;
  catch_up_timeout_millis = cfg.settings.catch_up_timeout_millis;
}
