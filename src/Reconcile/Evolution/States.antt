-- ===== src/Reconcile/Evolution/States.antt =====
-- The states that the functions of mongodb/shard_members.go end in, branch by branch.
use terraform_provider_mongo.Prelude.{
  ℤ, Bool, true, false, Option, none, some, List, [], ◌∷◌, ◌++◌, ◌≡◌, arith, ok, err, if◌then◌else◌,
  ◌&&◌,
}
use terraform_provider_mongo.Errors.{GoError}
use terraform_provider_mongo.ReplSet.{RsConfig}
use terraform_provider_mongo.Members.{
  MemberOverride, next_member_id, staged_member, needs_promotion, build_config_member,
}
use terraform_provider_mongo.Wait.{WaitResult, secondary, wait_target_for}
use terraform_provider_mongo.Reconcile.{
  apply, rollback, MemberAddOps, MemberPending, MemberError, with_members, remove_member_by_host,
  promote_member, settle_cancelled, settle_unmet, settle_met, settle_member, never_seen_up,
}
use terraform_provider_mongo.Reconcile.Loops.{
  and_pending, undo_add, add_member, promote_from, add_from, reconcile_members,
  promote_members_sequentially, add_members_sequentially,
}

-- A member that is due votes or a priority is waited for until it is SECONDARY.
pub promotion_target :
    (o : MemberOverride) → needs_promotion o ≡ true → wait_target_for o ≡ secondary
unfolding wait_target_for needs_promotion
promotion_target o n = ground arith

pub staged_host : (o : MemberOverride) (id : ℤ) → (staged_member o id).host ≡ o.host
unfolding staged_member build_config_member
staged_host o id = ground arith

module _ {S : Type 0} (ops : MemberAddOps S) where
  pub cancelled_state :
      (o : MemberOverride) (a : Bool) (res : WaitResult) (e : GoError) (s : S)
      → (settle_cancelled ops o a res e s).1
        ≡ (if a && never_seen_up res then (remove_member_by_host ops rollback o.host s).1 else s)
  unfolding settle_cancelled
  cancelled_state o a res e s = ground arith

  pub unmet_state :
      (o : MemberOverride) (a : Bool) (res : WaitResult) (s : S)
      → (settle_unmet ops o a res s).1
        ≡ (if a && never_seen_up res then (remove_member_by_host ops apply o.host s).1 else s)
  unfolding settle_unmet
  unmet_state o a res s = ground arith

  pub met_state :
      (o : MemberOverride) (s : S)
      → (settle_met ops o s).1 ≡ (if needs_promotion o then (promote_member ops o s).1 else s)
  unfolding settle_met
  met_state o s = ground arith

  module _ (o : MemberOverride) (added_now : Bool) where
    abbrev pub waited : S → (WaitResult × Option GoError) × S
    waited s = ops.wait o.host (wait_target_for o) s

    pub settle_cancelled_step :
        (s : S) (e : GoError)
        → (waited s).0.1 ≡ some e
        → (settle_member ops o added_now s).1
          ≡ (settle_cancelled ops o added_now (waited s).0.0 e (waited s).1).1
    unfolding settle_member
    settle_cancelled_step s e c = ground arith

    pub settle_met_step :
        (s : S)
        → (waited s).0.1 ≡ none
        → (waited s).0.0.met ≡ true
        → (settle_member ops o added_now s).1 ≡ (settle_met ops o (waited s).1).1
    unfolding settle_member
    settle_met_step s c m = ground arith

    pub settle_unmet_step :
        (s : S)
        → (waited s).0.1 ≡ none
        → (waited s).0.0.met ≡ false
        → (settle_member ops o added_now s).1
          ≡ (settle_unmet ops o added_now (waited s).0.0 (waited s).1).1
    unfolding settle_member
    settle_unmet_step s c m = ground arith

  -- The reconfig that adds the member of `o` to `cfg`, in the state after the read.
  abbrev pub add_call : MemberOverride → RsConfig → S → Option GoError × S
  add_call o cfg s =
      ops.set_config apply
        (with_members cfg (cfg.members ++ staged_member o (next_member_id cfg.members) ∷ []))
        (ops.get_config apply s).1

  pub add_unread :
      (o : MemberOverride) (s : S) (e : GoError)
      → (ops.get_config apply s).0 ≡ err e
      → (add_member ops o s).1 ≡ (ops.get_config apply s).1
  unfolding add_member
  add_unread o s e p = ground arith

  pub add_done :
      (o : MemberOverride) (s : S) (cfg : RsConfig)
      → (ops.get_config apply s).0 ≡ ok cfg
      → (add_call o cfg s).0 ≡ none
      → (add_member ops o s).1 ≡ (add_call o cfg s).1
  unfolding add_member
  add_done o s cfg p q = ground arith

  pub add_undone :
      (o : MemberOverride) (s : S) (cfg : RsConfig) (e : GoError)
      → (ops.get_config apply s).0 ≡ ok cfg
      → (add_call o cfg s).0 ≡ some e
      → (add_member ops o s).1
        ≡ (undo_add ops o (staged_member o (next_member_id cfg.members)) e (add_call o cfg s).1).1
  unfolding add_member
  add_undone o s cfg e p q = ground arith

  pub promote_stop :
      (pending : List MemberPending) (o : MemberOverride) (os : List MemberOverride) (s : S)
      (e : MemberError)
      → (settle_member ops o false s).0 ≡ err e
      → (promote_from ops pending (o ∷ os) s).1 ≡ (settle_member ops o false s).1
  unfolding promote_from
  promote_stop pending o os s e p = ground arith

  pub promote_go :
      (pending : List MemberPending) (o : MemberOverride) (os : List MemberOverride) (s : S)
      (q : Option MemberPending)
      → (settle_member ops o false s).0 ≡ ok q
      → (promote_from ops pending (o ∷ os) s).1
        ≡ (promote_from ops (and_pending pending q) os (settle_member ops o false s).1).1
  unfolding promote_from
  promote_go pending o os s q p = ground arith

  pub add_stop :
      (pending : List MemberPending) (o : MemberOverride) (os : List MemberOverride) (s : S)
      (e : MemberError)
      → (add_member ops o s).0 ≡ some e
      → (add_from ops pending (o ∷ os) s).1 ≡ (add_member ops o s).1
  unfolding add_from
  add_stop pending o os s e p = ground arith

  abbrev pub added_state : MemberOverride → S → S
  added_state o s = (add_member ops o s).1

  pub add_halt :
      (pending : List MemberPending) (o : MemberOverride) (os : List MemberOverride) (s : S)
      (e : MemberError)
      → (add_member ops o s).0 ≡ none
      → (settle_member ops o true (added_state o s)).0 ≡ err e
      → (add_from ops pending (o ∷ os) s).1 ≡ (settle_member ops o true (added_state o s)).1
  unfolding add_from
  add_halt pending o os s e n p = ground arith

  pub add_go :
      (pending : List MemberPending) (o : MemberOverride) (os : List MemberOverride) (s : S)
      (q : Option MemberPending)
      → (add_member ops o s).0 ≡ none
      → (settle_member ops o true (added_state o s)).0 ≡ ok q
      → (add_from ops pending (o ∷ os) s).1
        ≡ (add_from ops (and_pending pending q) os (settle_member ops o true (added_state o s)).1).1
  unfolding add_from
  add_go pending o os s q n p = ground arith

  pub reconcile_stop :
      (promotions adds : List MemberOverride) (s : S) (e : MemberError)
      → (promote_from ops [] promotions s).0.1 ≡ some e
      → (reconcile_members ops promotions adds s).1 ≡ (promote_from ops [] promotions s).1
  unfolding reconcile_members promote_members_sequentially add_members_sequentially
  reconcile_stop promotions adds s e p = ground arith

  pub reconcile_go :
      (promotions adds : List MemberOverride) (s : S)
      → (promote_from ops [] promotions s).0.1 ≡ none
      → (reconcile_members ops promotions adds s).1
        ≡ (add_from ops [] adds (promote_from ops [] promotions s).1).1
  unfolding reconcile_members promote_members_sequentially add_members_sequentially
  reconcile_go promotions adds s p = ground arith
