-- ===== src/Reconcile/Loops.antt =====
-- The loops of mongodb/shard_members.go over the blocks to promote and to add.
use terraform_provider_mongo.Prelude.{true, false, Option, none, some, List, [], ◌∷◌, ◌++◌, ok, err}
use terraform_provider_mongo.Errors.{GoError}
use terraform_provider_mongo.ReplSet.{ConfigMember}
use terraform_provider_mongo.Members.{MemberOverride, next_member_id, staged_member}
use terraform_provider_mongo.Reconcile.{
  apply, MemberAddOps, MemberPending, MemberError, adding, adding_unchecked, adding_removed,
  reading_before_add, with_members, remove_member_by_host, settle_member,
}

abbrev pub and_pending : List MemberPending → Option MemberPending → List MemberPending
and_pending pending none = pending
and_pending pending (some p) = pending ++ p ∷ []

-- The members left pending, and the error that stopped the loop.
abbrev pub Outcome : Type 0
Outcome = List MemberPending × Option MemberError

module _ {S : Type 0} (ops : MemberAddOps S) where
  -- The error of an add whose reconfig failed: what was installed is removed again.
  unfoldable pub undo_add : MemberOverride → ConfigMember → GoError → S → MemberError × S
  undo_add o member e s =
      let (removed, s1) = remove_member_by_host ops apply member.host s in
      (
        elim removed [
          | err rb ↦ adding_unchecked member.host member.id e rb
          | ok true ↦ adding_removed member.host member.id e
          | ok false ↦ adding member.host member.id e
        ],
        s1,
      )

  -- The reconfig of AddMembersSequentially that adds the member of one block.
  unfoldable pub add_member : MemberOverride → S → Option MemberError × S
  add_member o s =
      let (r, s1) = ops.get_config apply s in
      elim r [
        | err e ↦ (some (reading_before_add o.host e), s1)
        | ok cfg ↦
            let member = staged_member o (next_member_id cfg.members) in
            let (failed, s2) =
              ops.set_config apply (with_members cfg (cfg.members ++ member ∷ [])) s1 in
            elim failed [
              | none ↦ (none, s2)
              | some e ↦ let (x, s3) = undo_add o member e s2 in (some x, s3)
            ]
      ]

  -- PromoteMembersSequentially, with the members pending so far.
  unfoldable pub promote_from : List MemberPending → List MemberOverride → S → Outcome × S
  promote_from pending [] s = ((pending, none), s)
  promote_from pending (o ∷ os) s =
      let (r, s1) = settle_member ops o false s in
      elim r [ err e ↦ ((pending, some e), s1) | ok p ↦ promote_from (and_pending pending p) os s1 ]

  -- AddMembersSequentially, with the members pending so far.
  unfoldable pub add_from : List MemberPending → List MemberOverride → S → Outcome × S
  add_from pending [] s = ((pending, none), s)
  add_from pending (o ∷ os) s =
      let (failed, s1) = add_member o s in
      elim failed [
        | some e ↦ ((pending, some e), s1)
        | none ↦
            let (r, s2) = settle_member ops o true s1 in
            elim r [
              | err e ↦ ((pending, some e), s2)
              | ok p ↦ add_from (and_pending pending p) os s2
            ]
      ]

  unfoldable pub promote_members_sequentially : List MemberOverride → S → Outcome × S
  promote_members_sequentially = promote_from []

  unfoldable pub add_members_sequentially : List MemberOverride → S → Outcome × S
  add_members_sequentially = add_from []

  unfoldable pub reconcile_members : List MemberOverride → List MemberOverride → S → Outcome × S
  reconcile_members promotions new_members s =
      let ((pending, failed), s1) = promote_members_sequentially promotions s in
      elim failed [
        | some e ↦ ((pending, some e), s1)
        | none ↦
            let ((added, failed'), s2) = add_members_sequentially new_members s1 in
            ((pending ++ added, failed'), s2)
      ]
