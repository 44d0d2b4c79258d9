-- ===== src/Reconcile/Evolution.antt =====
-- Every run of mongodb/shard_members.go's reconciliation is a sequence of the steps of
-- Reconcile.Steps.
pub mod States
pub mod Live
pub mod Moves
use mathlib.Core.List.{Mem, mem-append, mem-cons}
use mathlib.Core.Logic.Or
use terraform_provider_mongo.Prelude.{
  ℤ, String, Bool, true, false, not, Option, none, some, List, [], ◌∷◌, ◌++◌, ◌≡◌, ◌⊎◌, inl, inr,
  refl, sym, ◌∙◌, ap, subst, arith, Result, ok, err, Option-cases, Result-cases, Bool-cases,
  nat_beq, length, if◌then◌else◌, float_beq, int_beq, ◌&&◌,
}
use terraform_provider_mongo.Errors.{GoError}
use terraform_provider_mongo.ReplSet.{ConfigMember, ConfigMembers, RsConfig, deref_int}
use terraform_provider_mongo.Members.{
  MemberOverride, next_member_id, staged_member, needs_promotion, build_config_member,
}
use terraform_provider_mongo.Wait.{WaitTarget, WaitResult, secondary, wait_target_for}
use terraform_provider_mongo.Reconcile.{
  Context, apply, rollback, MemberAddOps, MemberPending, MemberError, without_host, first_member,
  promote_first, with_members, remove_member_by_host, promote_member, settle_cancelled,
  settle_unmet, settle_met, settle_member, never_seen_up,
}
use terraform_provider_mongo.Reconcile.Loops.{
  and_pending, undo_add, add_member, promote_from, add_from, reconcile_members,
  promote_members_sequentially, add_members_sequentially,
}
use terraform_provider_mongo.Reconcile.Server.{IsReplicaSet}
use terraform_provider_mongo.Reconcile.Steps.{
  SeenSecondary, SeenDown, AddFailed, Step, Steps, add, promote, remove, here, next,
}
use States.{
  promote_stop, promote_go, add_stop, add_halt, add_go, added_state, reconcile_stop, reconcile_go,
}
use Moves.{settling, adding_one}

module _ {S : Type 0} (ops : MemberAddOps S) (live : S → ConfigMembers)
    (set : IsReplicaSet ops live) where
  module _ (promotions adds : List MemberOverride) (ms0 : ConfigMembers) where
    abbrev From : S → Type 0
    From s = Steps ops promotions adds ms0 (live s)

    promoting :
        (pending : List MemberPending) (os : List MemberOverride) (s : S)
        → ((o : MemberOverride) → Mem o os → Mem o (promotions ++ adds))
        → From s
        → From (promote_from ops pending os s).1
    unfolding promote_from
    promoting pending [] s incl f = f
    promoting pending (o ∷ os) s incl f =
        let f1 =
          settling ops live set promotions adds ms0 o false (incl o (mem-cons.1 (Or.inl refl)))
            (λ e. absurd (cc)) s f in
        elim (Result-cases (settle_member ops o false s).0) [
          | inl (e, p) ↦ subst From (sym (promote_stop ops pending o os s e p)) f1
          | inr (q, p) ↦ subst From (sym (promote_go ops pending o os s q p)) (
              promoting (and_pending pending q) os (settle_member ops o false s).1
                (λ x m. incl x (mem-cons.1 (Or.inr m))) f1)
        ]

    pub adding_all :
        (pending : List MemberPending) (os : List MemberOverride) (s : S)
        → ((o : MemberOverride) → Mem o os → Mem o adds)
        → From s
        → From (add_from ops pending os s).1
    unfolding add_from
    adding_all pending [] s incl f = f
    adding_all pending (o ∷ os) s incl f =
        let mine = incl o (mem-cons.1 (Or.inl refl)) in
        let f1 = adding_one ops live set promotions adds ms0 o s mine f in
        let s1 = added_state ops o s in
        let f2 =
          settling ops live set promotions adds ms0 o true (mem-append.1 (Or.inr mine)) (λ _. mine)
            s1 f1 in
        elim (Option-cases (add_member ops o s).0) [
          | inr (e, p) ↦ subst From (sym (add_stop ops pending o os s e p)) f1
          | inl n ↦ elim (Result-cases (settle_member ops o true s1).0) [
            | inl (e, p) ↦ subst From (sym (add_halt ops pending o os s e n p)) f2
            | inr (q, p) ↦ subst From (sym (add_go ops pending o os s q n p)) (
                adding_all (and_pending pending q) os (settle_member ops o true s1).1
                  (λ x m. incl x (mem-cons.1 (Or.inr m))) f2)
          ]
        ]

  -- Whatever the server and the waits do, and however the run ends, the reconciliation takes the
  -- members of the set from those before it to those after it by single steps: adding one staged
  -- member, giving votes and priority to one member that a wait reported SECONDARY, or taking out the
  -- host of a block that was to be added, when its reconfig failed or its wait saw it down.
  pub reconcile-Steps :
      (promotions adds : List MemberOverride) (s : S)
      → Steps ops promotions adds (live s) (live (reconcile_members ops promotions adds s).1)
  reconcile-Steps promotions adds s =
      let f1 =
        promoting promotions adds (live s) [] promotions s (λ o m. mem-append.1 (Or.inl m)) here in
      let s1 = (promote_from ops [] promotions s).1 in
      let f2 = adding_all promotions adds (live s) [] adds s1 (λ o m. m) f1 in
      elim (Option-cases (promote_from ops [] promotions s).0.1) [
        | inr (e, p) ↦
            subst (λ z. Steps ops promotions adds (live s) (live z))
              (sym (reconcile_stop ops promotions adds s e p)) f1
        | inl p ↦
            subst (λ z. Steps ops promotions adds (live s) (live z))
              (sym (reconcile_go ops promotions adds s p)) f2
      ]
