-- ===== src/ShardConfig/Oplog.antt =====
-- applyOplogConfig and readOplogConfig of mongodb/resource_shard_config.go.
use terraform_provider_mongo.Prelude.{
  String, Bool, true, false, not, Option, none, some, List, ◌++◌, ◌&&◌, map, contains, Float64,
  Result, ok, err, if◌then◌else◌,
}
use terraform_provider_mongo.Errors.{GoError}
use terraform_provider_mongo.ReplSet.{
  ConfigMembers, ReplSetStatus, get_members_by_state, primary_of,
}
use terraform_provider_mongo.ReplSet.MemberState
use terraform_provider_mongo.ReplSet.Oplog.{
  OplogError, resize_oplog_across_members, oplog_size_across_members, oplog_size_mismatch,
}
use terraform_provider_mongo.ShardConfig.{ShardData, ShardEnv}

-- `primaryHost`: the empty text where no primary is known.
unfoldable pub primary_host : Result GoError ReplSetStatus → String
primary_host (err e) = ""
primary_host (ok status) = elim (primary_of status) [ none ↦ "" | some p ↦ p.name ]

-- `resizableHosts`: `none` is the nil map, for which every host is resized.
unfoldable pub resizable_hosts : Result GoError ReplSetStatus → Option (List String)
resizable_hosts (err e) = none
resizable_hosts (ok status) = some (
    map (λ m. m.name)
      (get_members_by_state status MemberState.primary 0
        ++ get_members_by_state status MemberState.secondary 0))

module _ {S : Type 0} (env : ShardEnv S) where
  -- The callback of ResizeOplogAcrossMembers.
  unfoldable pub resize_member :
      Option (List String) → Float64 → String → S → Result GoError Bool × S
  resize_member resizable size host s =
      if (elim resizable [ none ↦ false | some hosts ↦ not (contains hosts host) ])
      then (ok false, s)
      else let (failed, s1) = env.resize host size s in
        (elim failed [ some e ↦ err e | none ↦ ok true ], s1)

  -- The fan-out of applyOplogConfig, after its status is read.
  unfoldable pub resize_members :
      Float64 → ConfigMembers → Result GoError ReplSetStatus → S → (Bool × Option OplogError) × S
  resize_members size members status s =
      let resize = resize_member (resizable_hosts status) size in
      let (failed, s1) = resize_oplog_across_members resize members (primary_host status) s in
      ((true, failed), s1)

  -- applyOplogConfig: whether the fan-out ran, and its error.
  unfoldable pub apply_oplog_config : ShardData → ConfigMembers → S → (Bool × Option OplogError) × S
  apply_oplog_config d members s = elim d.oplog_size_mb [
    | none ↦ ((false, none), s)
    | some size ↦
        if not d.is_new && not d.oplog_changed
        then ((false, none), s)
        else let (status, s1) = env.get_status s in resize_members size members status s1
  ]

  -- readOplogConfig: the data with the size that was read, if any.
  unfoldable pub read_oplog_config : ShardData → ConfigMembers → Bool → S → ShardData
  read_oplog_config d members resize_attempted s =
      if d.host_overridden
      then d
      else elim (oplog_size_across_members (env.read_size s) members).0 [
        | ok size ↦ record d { oplog_size_mb = some size }
        | err e ↦
            if resize_attempted then record d { oplog_size_mb = some oplog_size_mismatch } else d
      ]
