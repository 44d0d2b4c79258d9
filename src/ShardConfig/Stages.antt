-- ===== src/ShardConfig/Stages.antt =====
-- The stages of updateWithClient (mongodb/resource_shard_config.go), one equation for each way that a
-- stage goes.
use terraform_provider_mongo.Prelude.{Option, none, some, List, ◌≡◌, arith, Result, ok, err}
use terraform_provider_mongo.Errors.{GoError}
use terraform_provider_mongo.ReplSet.{RsConfig}
use terraform_provider_mongo.Reconcile.{apply, MemberPending, MemberError}
use terraform_provider_mongo.Reconcile.Loops.{reconcile_members}
use terraform_provider_mongo.ShardConfig.{
  ShardData, ShardEnv, record_settings, extract_member_overrides,
}
use terraform_provider_mongo.ShardConfig.Update.{
  UpdateError, config_unread, not_reconfigured, final_unread, member_failed, member_failed_unread,
  fails, Plan, configured, record_members, plan_members, finish_oplog, finish_members, run_plan,
  update_with_client,
}

module _ {S : Type 0} (env : ShardEnv S) (d : ShardData) (s : S) where
  abbrev pub read_first : Result GoError RsConfig × S
  read_first = env.ops.get_config apply s

  abbrev pub planned : RsConfig → Result UpdateError Plan × S
  planned cfg =
      plan_members env d (configured d cfg) (extract_member_overrides d.members) read_first.1

  pub update_unread :
      (e : GoError)
      → read_first.0 ≡ err e
      → update_with_client env d s ≡ (fails (config_unread e) d, read_first.1)
  unfolding update_with_client
  update_unread e p = ground arith

  pub update_unplanned :
      (cfg : RsConfig) (e : UpdateError)
      → read_first.0 ≡ ok cfg
      → (planned cfg).0 ≡ err e
      → update_with_client env d s ≡ (fails e d, (planned cfg).1)
  unfolding update_with_client
  update_unplanned cfg e p q = ground arith

  pub update_planned :
      (cfg : RsConfig) (plan : Plan)
      → read_first.0 ≡ ok cfg
      → (planned cfg).0 ≡ ok plan
      → update_with_client env d s ≡ run_plan env d plan (planned cfg).1
  unfolding update_with_client
  update_planned cfg plan p q = ground arith

module _ {S : Type 0} (env : ShardEnv S) (d : ShardData) (plan : Plan) (s : S) where
  abbrev pub sent : Option GoError × S
  sent = env.ops.set_config apply plan.config s

  abbrev pub reconciled : (List MemberPending × Option MemberError) × S
  reconciled = reconcile_members env.ops plan.promotions plan.new_members sent.1

  pub run_refused :
      (e : GoError)
      → sent.0 ≡ some e
      → run_plan env d plan s ≡ (fails (not_reconfigured e) d, sent.1)
  unfolding run_plan
  run_refused e p = ground arith

  pub run_sent :
      sent.0 ≡ none
      → run_plan env d plan s
        ≡ finish_members env
            (record_settings plan.config d)
            reconciled.0.0
            reconciled.0.1
            reconciled.1
  unfolding run_plan
  run_sent p = ground arith

module _ {S : Type 0} (env : ShardEnv S) (d : ShardData) (pending : List MemberPending)
    (failed : Option MemberError) (s : S) where
  abbrev pub read_last : Result GoError RsConfig × S
  read_last = env.ops.get_config apply s

  pub finish_unread :
      (e : GoError)
      → read_last.0 ≡ err e
      → (finish_members env d pending failed s ≡ (
        fails (elim failed [ some x ↦ member_failed_unread x e | none ↦ final_unread e ]) d,
        read_last.1,
      ))
  unfolding finish_members
  finish_unread e p = ground arith

  pub finish_failed :
      (final : RsConfig) (x : MemberError)
      → read_last.0 ≡ ok final
      → failed ≡ some x
      → finish_members env d pending failed s
        ≡ (fails (member_failed x) (record_members final.members d), read_last.1)
  unfolding finish_members
  finish_failed final x p q = ground arith

  pub finish_read :
      (final : RsConfig)
      → read_last.0 ≡ ok final
      → failed ≡ none
      → finish_members env d pending failed s
        ≡ finish_oplog env (record_members final.members d) final.members pending read_last.1
  unfolding finish_members
  finish_read final p q = ground arith
