-- ===== src/Members/Merge.antt =====
-- MergeMembers (mongodb/resource_shard_config.go): what the merged configuration holds.
use mathlib.Core.Option
use terraform_provider_mongo.Prelude.{
  ℕ, suc, String, true, false, Option, none, some, List, [], ◌∷◌, ◌==◌, ◌≡◌, refl, sym, ◌∙◌, arith,
  eq_iff, contains, Distinct, All, ok, Option-cases, Bool-cases, inl, inr, if◌then◌else◌,
}
use terraform_provider_mongo.ReplSet.{ConfigMember, ConfigMembers}
use terraform_provider_mongo.Members.{
  MemberOverride, override_hosts, member_hosts, lookup_member, host_index, update_at,
  override_member, merge_from, merge_members,
}
use terraform_provider_mongo.Members.Lookup.{member_hosts-update_at, lookup_member-update_at}

-- The block for a host.
abbrev pub find_override : String → List MemberOverride → Option MemberOverride
find_override h [] = none
find_override h (o ∷ os) = let rest = find_override h os in if o.host == h then some o else rest

-- What a merge makes of the member of a host.
abbrev pub merged_member : Option MemberOverride → Option ConfigMember → Option ConfigMember
merged_member none m = m
merged_member (some o) m = Option.map (override_member o) m

pub find_override-none :
    (h : String) (os : List MemberOverride)
    → contains (override_hosts os) h ≡ false
    → find_override h os ≡ none
find_override-none h [] c = refl
find_override-none h (o ∷ os) c = ground (arith, find_override-none h os)

pub host_index-contains :
    (hs : List String) (h : String) → contains hs h ≡ true → (i : ℕ) × (host_index hs h ≡ some i)
unfolding host_index
host_index-contains [] h c = absurd (cc)
host_index-contains (x ∷ hs) h c = elim (Bool-cases (contains hs h)) [
  | inl t ↦ let (i, p) = host_index-contains hs h t in (suc i, rw p)
  | inr t ↦ elim (Option-cases (host_index hs h)) [
    | inl n ↦ (0, ground (arith, n))
    | inr (i, p) ↦ (suc i, rw p)
  ]
]

merge_from-lookup :
    (hs : List String) (ms : ConfigMembers) (os : List MemberOverride) (ms' : ConfigMembers)
    → hs ≡ member_hosts ms
    → Distinct (override_hosts os)
    → merge_from hs ms os ≡ ok ms'
    → (member_hosts ms' ≡ hs)
      × ((h : String)
          → lookup_member h ms' ≡ merged_member (find_override h os) (lookup_member h ms))
unfolding merge_from
merge_from-lookup hs ms [] ms' q d e = (ground arith, λ h. ground arith)
merge_from-lookup hs ms (o ∷ os) ms' q d e = elim (Option-cases (host_index hs o.host)) [
  | inl n ↦ absurd (ground (arith, n))
  | inr (i, p) ↦
      let ms1 = update_at i (override_member o) ms in
      let same = member_hosts-update_at i (override_member o) ms (λ m. refl) in
      let (hosts, looked) =
        merge_from-lookup hs ms1 os ms' (q ∙ sym same) d.1 (rw (p, merge_from) at e) in
      (
        hosts,
        λ h.
            looked h
            ∙ ground (
              arith,
              lookup_member-update_at o.host h i (override_member o) ms (λ m. refl) (rw q at p),
              find_override-none h os,
              eq_iff o.host h,
              d.0,
            ),
      )
]

-- A merge that succeeds keeps the members and their order, gives the member of each block the
-- fields of the block, and leaves every member that no block names as it was; `_id` and
-- `slaveDelay` are never changed. (Two blocks do not name one host.)
pub merge_members-lookup :
    (ms : ConfigMembers) (os : List MemberOverride) (ms' : ConfigMembers)
    → Distinct (override_hosts os)
    → merge_members ms os ≡ ok ms'
    → (member_hosts ms' ≡ member_hosts ms)
      × ((h : String)
          → lookup_member h ms' ≡ merged_member (find_override h os) (lookup_member h ms))
unfolding merge_members
merge_members-lookup ms os ms' d e = merge_from-lookup (member_hosts ms) ms os ms' refl d e

merge_from_total :
    (hs : List String) (ms : ConfigMembers) (os : List MemberOverride)
    → All (λ o. contains hs o.host ≡ true) os
    → (ms' : ConfigMembers) × (merge_from hs ms os ≡ ok ms')
unfolding merge_from
merge_from_total hs ms [] a = (ms, refl)
merge_from_total hs ms (o ∷ os) a =
    let (i, p) = host_index-contains hs o.host a.0 in
    let (ms', e) = merge_from_total hs (update_at i (override_member o) ms) os a.1 in
    (ms', rw (p, merge_from) e)

-- A merge whose blocks all name members of the set does not fail.
pub merge_members_total :
    (ms : ConfigMembers) (os : List MemberOverride)
    → All (λ o. contains (member_hosts ms) o.host ≡ true) os
    → (ms' : ConfigMembers) × (merge_members ms os ≡ ok ms')
unfolding merge_members
merge_members_total ms os a = merge_from_total (member_hosts ms) ms os a
