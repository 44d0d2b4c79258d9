-- ===== src/Members/Promotions.antt =====
-- HoldPromotions (mongodb/shard_members.go): the settings reconfig gives no member more votes.
use mathlib.Core.Option
use terraform_provider_mongo.Prelude.{
  String, true, Option, none, some, List, [], ◌∷◌, ◌≡◌, refl, sym, ◌∙◌, ap, subst, arith, int_leb,
  int_leb_refl, contains, Distinct, All, ok, eq_iff,
}
use terraform_provider_mongo.ReplSet.{ConfigMember, ConfigMembers, deref_int}
use terraform_provider_mongo.Members.{
  MemberOverride, override_hosts, override_member, member_hosts, lookup_member, hold_promotion,
  hold_promotions, merge_members, partition_member_overrides,
}
use terraform_provider_mongo.Members.Partition.{partition_existing, partition-Distinct}
use terraform_provider_mongo.Members.Merge.{
  find_override, merged_member, merge_members-lookup, merge_members_total,
}

module _ (ms : ConfigMembers) where
  abbrev held_of : List MemberOverride → List MemberOverride
  held_of os = (hold_promotions ms os).0

  pub hosts-hold : (os : List MemberOverride) → override_hosts (held_of os) ≡ override_hosts os
  unfolding hold_promotions hold_promotion
  hosts-hold [] = refl
  hosts-hold (o ∷ os) = ground (arith, hosts-hold os)

  All-hold :
      (hs : List String) (os : List MemberOverride)
      → All (λ o. contains hs o.host ≡ true) os
      → All (λ o. contains hs o.host ≡ true) (held_of os)
  unfolding hold_promotions hold_promotion
  All-hold hs [] a = tt
  All-hold hs (o ∷ os) a = (ground (arith, a.0), All-hold hs os a.1)

  -- A held block asks for no more votes than the member of its host has.
  hold_promotion-le :
      (o : MemberOverride) (m : ConfigMember)
      → lookup_member (hold_promotion ms o).0.host ms ≡ some m
      → int_leb (hold_promotion ms o).0.votes (deref_int m.votes) ≡ true
  unfolding hold_promotion
  hold_promotion-le o m e = ground (arith, int_leb_refl (deref_int m.votes))

  held-le :
      (os : List MemberOverride) (h : String) (o : MemberOverride) (m : ConfigMember)
      → find_override h (held_of os) ≡ some o
      → lookup_member h ms ≡ some m
      → int_leb o.votes (deref_int m.votes) ≡ true
  unfolding hold_promotions
  held-le [] h o m f l = absurd (cc)
  held-le (x ∷ os) h o m f l =
      ground (arith, held-le os h o m, hold_promotion-le x m, eq_iff (hold_promotion ms x).0.host h)

  votes_after :
      (os : List MemberOverride) (h : String) (m m' : ConfigMember) (f : Option MemberOverride)
      → find_override h (held_of os) ≡ f
      → lookup_member h ms ≡ some m
      → merged_member f (lookup_member h ms) ≡ some m'
      → int_leb (deref_int m'.votes) (deref_int m.votes) ≡ true
  votes_after os h m m' none e l r =
      let same : m' ≡ m = cc in rw same (int_leb_refl (deref_int m.votes))
  votes_after os h m m' (some o) e l r =
      let set : m' ≡ override_member o m = cc (ap (Option.map (override_member o)) l) in
      rw set (held-le os h o m e l)

-- The settings reconfig: whatever the blocks, if they name distinct hosts, the merge of the held
-- blocks succeeds, it keeps the members and their order, and no member has more votes after it
-- than before.
pub settings_reconfig_votes :
    (ms : ConfigMembers) (os : List MemberOverride)
    → Distinct (override_hosts os)
    → (ms' : ConfigMembers) × (merge_members ms
          (hold_promotions ms (partition_member_overrides ms os).0).0
        ≡ ok ms')
      × (member_hosts ms' ≡ member_hosts ms)
      × ((h : String) (m m' : ConfigMember)
          → lookup_member h ms ≡ some m
          → lookup_member h ms' ≡ some m'
          → int_leb (deref_int m'.votes) (deref_int m.votes) ≡ true)
settings_reconfig_votes ms os d =
    let existing = (partition_member_overrides ms os).0 in
    let held = held_of ms existing in
    let known = All-hold ms (member_hosts ms) existing (partition_existing ms os) in
    let distinct = subst Distinct (sym (hosts-hold ms existing)) (partition-Distinct ms os d).0 in
    let (ms', e) = merge_members_total ms held known in
    let (hosts, looked) = merge_members-lookup ms held ms' distinct e in
    (
      ms',
      e,
      hosts,
      λ h m m' l l'.
          votes_after ms existing h m m' (find_override h held) refl l (sym (looked h) ∙ l'),
    )
