-- ===== src/ShardConfig/Evolution.antt =====
-- What updateWithClient (mongodb/resource_shard_config.go) makes of the members of the set.
use terraform_provider_mongo.Prelude.{
  Bool, String, Option, none, some, List, [], ◌∷◌, ◌≡◌, ◌⊎◌, refl, sym, ap, subst, ◌∙◌, arith,
  Result, ok, Option-cases, Result-cases, inl, inr, Float64,
}
use terraform_provider_mongo.Errors.{GoError}
use terraform_provider_mongo.ReplSet.{ConfigMembers, RsConfig, ReplSetStatus}
use terraform_provider_mongo.ReplSet.Oplog.Keeps.{resize_oplog-keeps}
use terraform_provider_mongo.Members.{MemberOverride, partition_member_overrides}
use terraform_provider_mongo.Reconcile.{apply, MemberPending, MemberError}
use terraform_provider_mongo.Reconcile.Server.{IsReplicaSet}
use terraform_provider_mongo.Reconcile.Steps.{Steps, here}
use terraform_provider_mongo.Reconcile.Evolution.{reconcile-Steps}
use terraform_provider_mongo.Reconcile.Evolution.Live.{set_either}
use terraform_provider_mongo.ShardConfig.{
  ShardData, ShardEnv, record_settings, extract_member_overrides,
}
use terraform_provider_mongo.ShardConfig.Oplog.{
  apply_oplog_config, resize_members, resize_member, resizable_hosts, primary_host,
}
use terraform_provider_mongo.ShardConfig.Update.{
  Plan, record_members, configured, inspect_targets, plan_members, finish_oplog, finish_members,
  run_plan, update_with_client,
}
use terraform_provider_mongo.ShardConfig.Stages.{
  read_first, planned, update_unread, update_unplanned, update_planned, sent, reconciled,
  run_refused, run_sent, finish_unread, finish_failed, finish_read, read_last,
}

-- The commands and connections that are no reconfigs leave the members as they are.
pub record IsShard {S : Type 0} (env : ShardEnv S) (live : S → ConfigMembers) : Type 0 where
  pub replica_set : IsReplicaSet env.ops live
  pub targets_keep :
      (skipped : Bool) (os : List MemberOverride) (s : S)
      → live (env.wait_for_add_targets skipped os s).1 ≡ live s
  pub status_keeps : (s : S) → live (env.get_status s).1 ≡ live s
  pub resize_keeps : (h : String) (size : Float64) (s : S) → live (env.resize h size s).1 ≡ live s

module _ {S : Type 0} (env : ShardEnv S) (live : S → ConfigMembers) (shard : IsShard env live) where
  resize_member-live :
      (hosts : Option (List String)) (size : Float64) (h : String) (s : S)
      → live (resize_member env hosts size h s).1 ≡ live s
  unfolding resize_member
  resize_member-live hosts size h s = ground (arith, shard.resize_keeps h size s)

  resize_members-live :
      (size : Float64) (ms : ConfigMembers) (status : Result GoError ReplSetStatus) (s : S)
      → live (resize_members env size ms status s).1 ≡ live s
  unfolding resize_members
  resize_members-live size ms status s =
      let resize = resize_member env (resizable_hosts status) size in
      resize_oplog-keeps live resize (resize_member-live (resizable_hosts status) size) ms
        (primary_host status) s

  apply_oplog_config-live :
      (d : ShardData) (ms : ConfigMembers) (s : S) → live (apply_oplog_config env d ms s).1 ≡ live s
  unfolding apply_oplog_config
  apply_oplog_config-live d ms s = elim (Option-cases d.oplog_size_mb) [
    | inl n ↦ ground (arith, n)
    | inr (size, p) ↦
        let (status, s1) = env.get_status s in
        ground (arith, p, shard.status_keeps s, resize_members-live size ms status s1)
  ]

  finish_oplog-live :
      (d : ShardData) (ms : ConfigMembers) (pending : List MemberPending) (s : S)
      → live (finish_oplog env d ms pending s).1 ≡ live s
  unfolding finish_oplog
  finish_oplog-live d ms pending s = ground (arith, apply_oplog_config-live d ms s)

  inspect_targets-live :
      (d : ShardData) (set : String) (os : List MemberOverride) (s : S)
      → live (inspect_targets env d set os s).1 ≡ live s
  unfolding inspect_targets
  inspect_targets-live d set [] s = refl
  inspect_targets-live d set (o ∷ os) s =
      ground (arith, shard.targets_keep d.host_overridden (o ∷ os) s)

  plan_members-live :
      (d : ShardData) (cfg : RsConfig) (os : Option (List MemberOverride)) (s : S)
      → live (plan_members env d cfg os s).1 ≡ live s
  unfolding plan_members
  plan_members-live d cfg none s = refl
  plan_members-live d cfg (some os) s =
      ground (arith, inspect_targets-live d cfg.id (partition_member_overrides cfg.members os).1 s)

  finish_members-live :
      (d : ShardData) (pending : List MemberPending) (failed : Option MemberError) (s : S)
      → live (finish_members env d pending failed s).1 ≡ live s
  finish_members-live d pending failed s =
      let last = read_last env d pending failed s in
      let kept = shard.replica_set.get_keeps apply s in
      elim (Result-cases last.0) [
        | inl (e, p) ↦ ap (λ r. live r.1) (finish_unread env d pending failed s e p) ∙ kept
        | inr (final, p) ↦ elim (Option-cases failed) [
          | inr (x, q) ↦
              ap (λ r. live r.1) (finish_failed env d pending failed s final x p q) ∙ kept
          | inl q ↦
              ap (λ r. live r.1) (finish_read env d pending failed s final p q)
              ∙ finish_oplog-live (record_members final.members d) final.members pending last.1
              ∙ kept
        ]
      ]

  abbrev PlanSteps : Plan → ConfigMembers → Type 0
  PlanSteps plan = Steps env.ops plan.promotions plan.new_members plan.config.members

  run_plan-Steps :
      (d : ShardData) (plan : Plan) (s : S)
      → (live (run_plan env d plan s).1 ≡ live s) ⊎ PlanSteps plan (live (run_plan env d plan s).1)
  run_plan-Steps d plan s =
      let (answer, s1) = sent env d plan s in
      elim (Option-cases answer) [
        | inr (e, p) ↦
            let same = ap (λ r. live r.1) (run_refused env d plan s e p) in
            elim (set_either env.ops live shard.replica_set apply plan.config s) [
              | inl k ↦ inl (same ∙ k)
              | inr k ↦ inr (subst (PlanSteps plan) (sym (same ∙ k)) here)
            ]
        | inl p ↦
            let (done, s2) = reconciled env d plan s in
            let same =
              ap (λ r. live r.1) (run_sent env d plan s p)
              ∙ finish_members-live (record_settings plan.config d) done.0 done.1 s2 in
            let from = shard.replica_set.set_ok apply plan.config s p in
            let steps =
              reconcile-Steps env.ops live shard.replica_set plan.promotions plan.new_members s1 in
            inr (
              subst (PlanSteps plan) (sym same) (
                subst (λ ms. Steps env.ops plan.promotions plan.new_members ms (live s2)) from
                  steps))
      ]

  -- However an apply ends, it leaves the members of the set as they were, or it has read a
  -- configuration of those members, made a plan from it, and the set's members come from the members of
  -- the plan's configuration by the steps of the reconciliation.
  pub update-Steps :
      (d : ShardData) (s : S)
      → let after = live (update_with_client env d s).1 in
        (after ≡ live s)
        ⊎ ((cfg : RsConfig) × (plan : Plan) × (cfg.members ≡ live s)
            × ((planned env d s cfg).0 ≡ ok plan)
            × Steps env.ops plan.promotions plan.new_members plan.config.members after)
  update-Steps d s =
      let first = read_first env d s in
      let kept = shard.replica_set.get_keeps apply s in
      elim (Result-cases first.0) [
        | inl (e, p) ↦ inl (ap (λ r. live r.1) (update_unread env d s e p) ∙ kept)
        | inr (cfg, p) ↦
            let (answer, s2) = planned env d s cfg in
            let still =
              plan_members-live d (configured d cfg) (extract_member_overrides d.members) first.1
              ∙ kept in
            elim (Result-cases answer) [
              | inl (e, q) ↦ inl (ap (λ r. live r.1) (update_unplanned env d s cfg e p q) ∙ still)
              | inr (plan, q) ↦
                  let same = ap (λ r. live r.1) (update_planned env d s cfg plan p q) in
                  elim (run_plan-Steps d plan s2) [
                    | inl k ↦ inl (same ∙ k ∙ still)
                    | inr k ↦ inr (
                      cfg,
                      plan,
                      shard.replica_set.get_ok apply s cfg p,
                      q,
                      subst (PlanSteps plan) (sym same) k,
                    )
                  ]
            ]
      ]
