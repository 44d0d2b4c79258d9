-- ===== src/ShardConfig/State.antt =====
-- What updateWithClient (mongodb/resource_shard_config.go) leaves in the resource's data.
use terraform_provider_mongo.Prelude.{
  String, Bool, true, false, Option, none, some, List, [], ◌∷◌, ◌≡◌, refl, sym, ap, ◌∙◌, arith, ok,
  err, Option-cases, Result-cases, inl, inr, ℤ,
}
use terraform_provider_mongo.Errors.{GoError}
use terraform_provider_mongo.ReplSet.{ConfigMembers, RsConfig}
use terraform_provider_mongo.Members.{MemberOverride, partition_member_overrides}
use terraform_provider_mongo.Reconcile.{apply, MemberPending, MemberError}
use terraform_provider_mongo.ShardConfig.{
  ShardData, ShardEnv, record_settings, extract_member_overrides,
}
use terraform_provider_mongo.ShardConfig.Oplog.{apply_oplog_config, read_oplog_config}
use terraform_provider_mongo.ShardConfig.Update.{
  UpdateError, final_unread, member_failed, member_failed_unread, oplog_failed, Plan,
  record_members, configured, merge_plan, inspect_targets, plan_members, finish_oplog,
  finish_members, run_plan, update_with_client,
}
use terraform_provider_mongo.ShardConfig.Stages.{
  read_first, planned, update_unread, update_unplanned, update_planned, sent, reconciled,
  run_refused, run_sent, finish_unread, finish_failed, finish_read, read_last,
}

-- The errors after which the final configuration has been recorded, and success.
abbrev pub is_recorded : Option UpdateError → Bool
is_recorded none = true
is_recorded (some (member_failed x)) = true
is_recorded (some (oplog_failed x)) = true
is_recorded (some _) = false

abbrev pub SettingsTuple : Type 0
SettingsTuple = Bool × ℤ × ℤ × ℤ × ℤ

-- The settings among the attributes.
abbrev pub settings_of : ShardData → SettingsTuple
settings_of d = (
  d.chaining_allowed, d.heartbeat_interval_millis, d.heartbeat_timeout_secs,
  d.election_timeout_millis, d.catch_up_timeout_millis,
)

module _ {S : Type 0} (env : ShardEnv S) where
  -- The data has the planned settings, and its members are those of a configuration that was read
  -- with the hosts of the planned blocks.
  abbrev pub Recorded : ShardData → ShardData → Type 0
  Recorded d out =
      (final : RsConfig) × (s0 : S) × ((env.ops.get_config apply s0).0 ≡ ok final)
      × (out.members ≡ (record_members final.members d).members)
      × (settings_of out ≡ settings_of d)

  read_oplog_config-members :
      (d : ShardData) (ms : ConfigMembers) (b : Bool) (s : S)
      → ((read_oplog_config env d ms b s).members ≡ d.members)
        × (settings_of (read_oplog_config env d ms b s) ≡ settings_of d)
  unfolding read_oplog_config
  read_oplog_config-members d ms b s = (ground arith, ground arith)

  finish_oplog-members :
      (d : ShardData) (ms : ConfigMembers) (pending : List MemberPending) (s : S)
      → let out = (finish_oplog env d ms pending s).0.shard_data in
        (out.members ≡ d.members) × (settings_of out ≡ settings_of d)
  unfolding finish_oplog
  finish_oplog-members d ms pending s =
      let ((attempted, failed), s1) = apply_oplog_config env d ms s in
      let (m, k) = read_oplog_config-members d ms attempted s1 in
      elim (Option-cases (apply_oplog_config env d ms s).0.1) [
        | inl p ↦ (rw (p, finish_oplog) m, rw (p, finish_oplog) k)
        | inr (e, p) ↦ (rw (p, finish_oplog) refl, rw (p, finish_oplog) refl)
      ]

  unread_unrecorded :
      (failed : Option MemberError) (e : GoError)
      → is_recorded
          (some (elim failed [ some x ↦ member_failed_unread x e | none ↦ final_unread e ]))
        ≡ false
  unread_unrecorded none e = refl
  unread_unrecorded (some x) e = refl

  finish_members_lem :
      (d : ShardData) (pending : List MemberPending) (failed : Option MemberError) (s : S)
      → let out = (finish_members env d pending failed s).0 in
        is_recorded out.error ≡ true → Recorded d out.shard_data
  finish_members_lem d pending failed s rec =
      let last = read_last env d pending failed s in
      elim (Result-cases last.0) [
        | inl (e, p) ↦ absurd (
            cc (
              ap (λ r. is_recorded r.0.error) (finish_unread env d pending failed s e p),
              unread_unrecorded failed e,
              rec,
            ))
        | inr (final, p) ↦ elim (Option-cases failed) [
          | inr (x, q) ↦
              let same =
                ap (λ r. r.0.shard_data) (finish_failed env d pending failed s final x p q) in
              (final, s, p, ap (λ z. z.members) same, ap settings_of same)
          | inl q ↦
              let same = ap (λ r. r.0.shard_data) (finish_read env d pending failed s final p q) in
              let (m, k) =
                finish_oplog-members (record_members final.members d) final.members pending
                  last.1 in
              (final, s, p, ap (λ z. z.members) same ∙ m, ap settings_of same ∙ k)
        ]
      ]

  merge_plan-settings :
      (cfg : RsConfig) (existing missing : List MemberOverride) (plan : Plan)
      → merge_plan cfg existing missing ≡ ok plan
      → plan.config.settings ≡ cfg.settings
  unfolding merge_plan
  merge_plan-settings cfg existing missing plan e = ground arith

  plan_members-settings :
      (d : ShardData) (cfg : RsConfig) (os : Option (List MemberOverride)) (s : S) (plan : Plan)
      → (plan_members env d cfg os s).0 ≡ ok plan
      → plan.config.settings ≡ cfg.settings
  unfolding plan_members
  plan_members-settings d cfg none s plan e = ground arith
  plan_members-settings d cfg (some os) s plan e =
      let (existing, missing) = partition_member_overrides cfg.members os in
      ground (arith, merge_plan-settings cfg existing missing plan)

  inspect_unrecorded :
      (d : ShardData) (set : String) (os : List MemberOverride) (s : S) (e : UpdateError)
      → (inspect_targets env d set os s).0 ≡ some e
      → is_recorded (some e) ≡ false
  unfolding inspect_targets
  inspect_unrecorded d set [] s e p = absurd (cc)
  inspect_unrecorded d set (o ∷ os) s e p = ground arith

  merge_unrecorded :
      (cfg : RsConfig) (existing missing : List MemberOverride) (e : UpdateError)
      → merge_plan cfg existing missing ≡ err e
      → is_recorded (some e) ≡ false
  unfolding merge_plan
  merge_unrecorded cfg existing missing e p = ground arith

  plan_unrecorded :
      (d : ShardData) (cfg : RsConfig) (os : Option (List MemberOverride)) (s : S) (e : UpdateError)
      → (plan_members env d cfg os s).0 ≡ err e
      → is_recorded (some e) ≡ false
  unfolding plan_members
  plan_unrecorded d cfg none s e p = absurd (cc)
  plan_unrecorded d cfg (some os) s e p =
      let (existing, missing) = partition_member_overrides cfg.members os in
      elim (Option-cases (inspect_targets env d cfg.id missing s).0) [
        | inr (x, q) ↦ ground (arith, q, inspect_unrecorded d cfg.id missing s x q)
        | inl q ↦ elim (Result-cases (merge_plan cfg existing missing)) [
          | inl (x, m) ↦ ground (arith, q, m, merge_unrecorded cfg existing missing x m)
          | inr (plan, m) ↦ ground (arith, q, m)
        ]
      ]

  run_plan_lem :
      (d : ShardData) (plan : Plan) (s : S)
      → settings_of (record_settings plan.config d) ≡ settings_of d
      → let out = (run_plan env d plan s).0 in
        is_recorded out.error ≡ true → Recorded d out.shard_data
  run_plan_lem d plan s k rec =
      let (answer, s1) = sent env d plan s in
      elim (Option-cases answer) [
        | inr (e, p) ↦
            absurd (cc (ap (λ r. is_recorded r.0.error) (run_refused env d plan s e p), rec))
        | inl p ↦
            let same = run_sent env d plan s p in
            let (done, s2) = reconciled env d plan s in
            let (final, s3, read, ms, settings) =
              finish_members_lem (record_settings plan.config d) done.0 done.1 s2
                (sym (ap (λ r. is_recorded r.0.error) same) ∙ rec) in
            (
              final,
              s3,
              read,
              ap (λ r. r.0.shard_data.members) same ∙ ms,
              ap (λ r. settings_of r.0.shard_data) same ∙ settings ∙ k,
            )
      ]

  -- When an apply succeeds, and also when it fails in the member phase or in the oplog resize, the
  -- settings in the data are the planned ones, and the members in the data are those that a
  -- configuration read from the server gives for the hosts of the planned blocks.
  pub update_with_client_lem :
      (d : ShardData) (s : S)
      → let out = (update_with_client env d s).0 in
        is_recorded out.error ≡ true → Recorded d out.shard_data
  update_with_client_lem d s rec =
      let (first, s1) = read_first env d s in
      elim (Result-cases first) [
        | inl (e, p) ↦
            absurd (cc (ap (λ r. is_recorded r.0.error) (update_unread env d s e p), rec))
        | inr (cfg, p) ↦
            let (answer, s2) = planned env d s cfg in
            let overrides = extract_member_overrides d.members in
            elim (Result-cases answer) [
              | inl (e, q) ↦ absurd (
                  cc (
                    ap (λ r. is_recorded r.0.error) (update_unplanned env d s cfg e p q),
                    rec,
                    plan_unrecorded d (configured d cfg) overrides s1 e q,
                  ))
              | inr (plan, q) ↦
                  let same = update_planned env d s cfg plan p q in
                  let kept = plan_members-settings d (configured d cfg) overrides s1 plan q in
                  let (final, s3, read, ms, settings) =
                    run_plan_lem d plan s2
                      (ap
                        (λ z. settings_of (record_settings (record plan.config { settings = z }) d))
                        kept)
                      (sym (ap (λ r. is_recorded r.0.error) same) ∙ rec) in
                  (
                    final,
                    s3,
                    read,
                    ap (λ r. r.0.shard_data.members) same ∙ ms,
                    ap (λ r. settings_of r.0.shard_data) same ∙ settings,
                  )
            ]
      ]
