-- ===== src/ShardConfig/Update.antt =====
-- updateWithClient of mongodb/resource_shard_config.go, stage by stage. The text of a diagnostic is
-- a value of `UpdateError`; the warnings are the members left pending, one for each.
use terraform_provider_mongo.Prelude.{
  String, false, Option, none, some, List, [], ◌∷◌, inc, Result, ok, err, if◌then◌else◌,
}
use terraform_provider_mongo.Errors.{GoError}
use terraform_provider_mongo.ReplSet.{IsMasterResp, ConfigMembers, RsConfig}
use terraform_provider_mongo.ReplSet.Oplog.{OplogError}
use terraform_provider_mongo.Members.{
  MemberOverride, MergeError, partition_member_overrides, hold_promotions, merge_members,
  rs_config_members_to_state,
}
use terraform_provider_mongo.Members.Validate.{ValidationError, validate_member_overrides}
use terraform_provider_mongo.AddTarget.{AddError, preflight_add_targets}
use terraform_provider_mongo.Reconcile.{apply, MemberPending, MemberError}
use terraform_provider_mongo.Reconcile.Loops.{reconcile_members}
use terraform_provider_mongo.ShardConfig.{
  ShardData, ShardEnv, planned_settings, record_settings, extract_member_overrides,
  managed_hosts_from_state,
}
use terraform_provider_mongo.ShardConfig.Oplog.{apply_oplog_config, read_oplog_config}

pub data UpdateError : Type 0 where
  config_unread : GoError → UpdateError
  invalid : ValidationError → UpdateError
  targets_not_ready : GoError → UpdateError
  add_refused : AddError → UpdateError
  not_merged : MergeError → UpdateError
  not_reconfigured : GoError → UpdateError
  final_unread : GoError → UpdateError
  member_failed : MemberError → UpdateError
  member_failed_unread : MemberError → GoError → UpdateError
  oplog_failed : OplogError → UpdateError

-- What the resource's data is afterwards, the warnings, and the error.
pub record Outcome : Type 0 where
  pub shard_data : ShardData
  pub warnings : List MemberPending
  pub error : Option UpdateError

abbrev pub fails : UpdateError → ShardData → Outcome
fails e d = record { shard_data = d; warnings = []; error = some e }

-- The configuration to send first, and the blocks that get their own reconfigs after it.
pub record Plan : Type 0 where
  pub config : RsConfig
  pub promotions : List MemberOverride
  pub new_members : List MemberOverride

-- `config` with the next version and the planned settings.
abbrev pub configured : ShardData → RsConfig → RsConfig
configured d cfg = record cfg {
  version = inc cfg.version;
  settings = planned_settings d cfg.settings;
}

-- errMemberProbeSkipped
abbrev pub probe_skipped : GoError
probe_skipped = record {
  command = none;
  message = "host_override is set, so member hosts are not reachable from the Terraform runner";
  is_timeout = false;
  is_network = false;
}

-- The merge of the matched blocks, where the promotions are held back.
unfoldable pub merge_plan :
    RsConfig → List MemberOverride → List MemberOverride → Result UpdateError Plan
merge_plan cfg existing missing =
    let (held, promote) = hold_promotions cfg.members existing in
    elim (merge_members cfg.members held) [
      | err e ↦ err (not_merged e)
      | ok merged ↦ ok (record {
        config = record cfg { members = merged };
        promotions = promote;
        new_members = missing;
      })
    ]

-- The data's members from the configuration that is read last.
abbrev pub record_members : ConfigMembers → ShardData → ShardData
record_members members d = record d {
  members = elim (rs_config_members_to_state members (managed_hosts_from_state d.members)) [
    | none ↦ []
    | some blocks ↦ blocks
  ];
}

module _ {S : Type 0} (env : ShardEnv S) where
  -- The wait for the hosts to add and their inspection. Under host_override no host is reachable from
  -- the provider: the probe is skipped, and its error leaves every host unknown.
  unfoldable pub inspect_targets :
      ShardData → String → List MemberOverride → S → Option UpdateError × S
  inspect_targets d set [] s = (none, s)
  inspect_targets d set (o ∷ os) s =
      let (waited, s1) = env.wait_for_add_targets d.host_overridden (o ∷ os) s in
      elim waited [
        | some e ↦ (some (targets_not_ready e), s1)
        | none ↦
            let probe : String → Result GoError IsMasterResp =
              λ host. if d.host_overridden then err probe_skipped else env.probe s1 host in
            (
              elim (preflight_add_targets set (o ∷ os) probe) [
                | some e ↦ some (add_refused e)
                | none ↦ none
              ],
              s1,
            )
      ]

  -- From the blocks and the configuration that was read to the plan.
  unfoldable pub plan_members :
      ShardData → RsConfig → Option (List MemberOverride) → S → Result UpdateError Plan × S
  plan_members d cfg none s = (ok (record { config = cfg; promotions = []; new_members = [] }), s)
  plan_members d cfg (some overrides) s = elim (validate_member_overrides overrides) [
    | some e ↦ (err (invalid e), s)
    | none ↦
        let (existing, missing) = partition_member_overrides cfg.members overrides in
        let (refused, s1) = inspect_targets d cfg.id missing s in
        elim refused [ some e ↦ (err e, s1) | none ↦ (merge_plan cfg existing missing, s1) ]
  ]

  -- The oplog at the end, with the members left pending as warnings.
  unfoldable pub finish_oplog : ShardData → ConfigMembers → List MemberPending → S → Outcome × S
  finish_oplog d members pending s =
      let ((attempted, failed), s1) = apply_oplog_config env d members s in
      elim failed [
        | some e ↦
            (record { shard_data = d; warnings = pending; error = some (oplog_failed e) }, s1)
        | none ↦ (
          record {
            shard_data = read_oplog_config env d members attempted s1;
            warnings = pending;
            error = none;
          },
          s1,
        )
      ]

  -- The read of the final configuration, whether or not the member phase failed.
  unfoldable pub finish_members :
      ShardData → List MemberPending → Option MemberError → S → Outcome × S
  finish_members d pending failed s =
      let (r, s1) = env.ops.get_config apply s in
      elim r [
        | err e ↦ (
          fails (elim failed [ some x ↦ member_failed_unread x e | none ↦ final_unread e ]) d,
          s1,
        )
        | ok final ↦
            let d' = record_members final.members d in
            elim failed [
              | some x ↦ (fails (member_failed x) d', s1)
              | none ↦ finish_oplog d' final.members pending s1
            ]
      ]

  -- From the plan on: the first reconfig, the settings into the data, and the member phase.
  unfoldable pub run_plan : ShardData → Plan → S → Outcome × S
  run_plan d plan s =
      let (refused, s1) = env.ops.set_config apply plan.config s in
      elim refused [
        | some e ↦ (fails (not_reconfigured e) d, s1)
        | none ↦
            let d1 = record_settings plan.config d in
            let ((pending, failed), s2) =
              reconcile_members env.ops plan.promotions plan.new_members s1 in
            finish_members d1 pending failed s2
      ]

  -- updateWithClient
  unfoldable pub update_with_client : ShardData → S → Outcome × S
  update_with_client d s =
      let (r, s1) = env.ops.get_config apply s in
      elim r [
        | err e ↦ (fails (config_unread e) d, s1)
        | ok cfg ↦
            let (planned, s2) =
              plan_members d (configured d cfg) (extract_member_overrides d.members) s1 in
            elim planned [ err e ↦ (fails e d, s2) | ok plan ↦ run_plan d plan s2 ]
      ]
