-- ===== src/Members/Partition.antt =====
-- PartitionMemberOverrides (mongodb/shard_members.go).
use mathlib.Core.List.{Perm, perm_middle}
use mathlib.Core.List.Perm
use terraform_provider_mongo.Prelude.{
  String, true, false, List, [], ◌∷◌, ◌++◌, ◌≡◌, refl, sym, subst, arith, contains, Distinct, All,
  Bool-cases, inl, inr,
}
use terraform_provider_mongo.ReplSet.{ConfigMembers}
use terraform_provider_mongo.Members.{
  MemberOverride, override_hosts, member_hosts, partition_member_overrides,
}

module _ (ms : ConfigMembers) where
  abbrev existing : List MemberOverride → List MemberOverride
  existing os = (partition_member_overrides ms os).0

  abbrev missing : List MemberOverride → List MemberOverride
  missing os = (partition_member_overrides ms os).1

  pub partition_existing :
      (os : List MemberOverride) → All (λ o. contains (member_hosts ms) o.host ≡ true) (existing os)
  unfolding partition_member_overrides
  partition_existing [] = tt
  partition_existing (o ∷ os) = elim (Bool-cases (contains (member_hosts ms) o.host)) [
    | inl e ↦ rw (e, All) (e, partition_existing os)
    | inr e ↦ rw (e, All) (partition_existing os)
  ]

  pub partition_missing :
      (os : List MemberOverride) → All (λ o. contains (member_hosts ms) o.host ≡ false) (missing os)
  unfolding partition_member_overrides
  partition_missing [] = tt
  partition_missing (o ∷ os) = elim (Bool-cases (contains (member_hosts ms) o.host)) [
    | inl e ↦ rw (e, All) (partition_missing os)
    | inr e ↦ rw (e, All) (e, partition_missing os)
  ]

  split_in :
      (o : MemberOverride) (os : List MemberOverride)
      → contains (member_hosts ms) o.host ≡ true
      → partition_member_overrides ms (o ∷ os) ≡ (o ∷ existing os, missing os)
  unfolding partition_member_overrides
  split_in o os e = rw e

  split_out :
      (o : MemberOverride) (os : List MemberOverride)
      → contains (member_hosts ms) o.host ≡ false
      → partition_member_overrides ms (o ∷ os) ≡ (existing os, o ∷ missing os)
  unfolding partition_member_overrides
  split_out o os e = rw e

  partition-perm : (os : List MemberOverride) → Perm (existing os ++ missing os) os
  unfolding partition_member_overrides
  partition-perm [] = Perm.refl []
  partition-perm (o ∷ os) = elim (Bool-cases (contains (member_hosts ms) o.host)) [
    | inl e ↦
        subst (λ p. Perm (p.0 ++ p.1) (o ∷ os)) (sym (split_in o os e))
          (Perm.cons o (partition-perm os))
    | inr e ↦
        subst (λ p. Perm (p.0 ++ p.1) (o ∷ os)) (sym (split_out o os e))
          (Perm.trans (perm_middle (existing os) (missing os)) (Perm.cons o (partition-perm os)))
  ]

  contains-parts :
      (os : List MemberOverride) (h : String)
      → contains (override_hosts os) h ≡ false
      → (contains (override_hosts (existing os)) h ≡ false)
        × (contains (override_hosts (missing os)) h ≡ false)
  unfolding partition_member_overrides
  contains-parts [] h c = (refl, refl)
  contains-parts (o ∷ os) h c = ground (arith, contains-parts os h)

  pub partition-Distinct :
      (os : List MemberOverride)
      → Distinct (override_hosts os)
      → Distinct (override_hosts (existing os)) × Distinct (override_hosts (missing os))
  unfolding partition_member_overrides
  partition-Distinct [] d = (tt, tt)
  partition-Distinct (o ∷ os) d =
      let (q, r) = contains-parts os o.host d.0 in
      let (de, dm) = partition-Distinct os d.1 in
      elim (Bool-cases (contains (member_hosts ms) o.host)) [
        | inl e ↦ rw (e, Distinct) ((q, de), dm)
        | inr e ↦ rw (e, Distinct) (de, (r, dm))
      ]

  -- The split keeps every block and loses none: the first part holds those whose host is in the set
  -- and the second those whose host is not. If the blocks name distinct hosts, so do both parts.
  pub partition_member_overrides_lem :
      (os : List MemberOverride)
      → Perm (existing os ++ missing os) os
        × All (λ o. contains (member_hosts ms) o.host ≡ true) (existing os)
        × All (λ o. contains (member_hosts ms) o.host ≡ false) (missing os)
        × (Distinct (override_hosts os)
            → Distinct (override_hosts (existing os)) × Distinct (override_hosts (missing os)))
  partition_member_overrides_lem os =
      (partition-perm os, partition_existing os, partition_missing os, partition-Distinct os)
