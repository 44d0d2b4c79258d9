-- ===== src/Members/Lookup.antt =====
-- The look-up of a member by its host, before and after a member is changed.
use terraform_provider_mongo.Prelude.{
  ℕ, zero, suc, String, none, some, [], ◌∷◌, ◌==◌, ◌≡◌, refl, ap, arith, eq_iff, Option-cases, inl,
  inr, if◌then◌else◌,
}
use terraform_provider_mongo.ReplSet.{ConfigMember, ConfigMembers}
use terraform_provider_mongo.Members.{member_hosts, lookup_member, host_index, update_at}
use mathlib.Core.Option

-- A function on members that leaves the host alone.
abbrev pub KeepsHost : (ConfigMember → ConfigMember) → Type 0
KeepsHost f = (m : ConfigMember) → (f m).host ≡ m.host

pub member_hosts-update_at :
    (i : ℕ) (f : ConfigMember → ConfigMember) (ms : ConfigMembers)
    → KeepsHost f
    → member_hosts (update_at i f ms) ≡ member_hosts ms
unfolding update_at
member_hosts-update_at i f [] k = refl
member_hosts-update_at zero f (m ∷ ms) k = ap (λ h. h ∷ member_hosts ms) (k m)
member_hosts-update_at (suc i) f (m ∷ ms) k = ap (◌∷◌ m.host) (member_hosts-update_at i f ms k)

-- The map and the look-up know the same hosts.
pub lookup_member-none :
    (h : String) (ms : ConfigMembers)
    → host_index (member_hosts ms) h ≡ none
    → lookup_member h ms ≡ none
unfolding host_index lookup_member
lookup_member-none h [] e = refl
lookup_member-none h (m ∷ ms) e = ground (arith, lookup_member-none h ms)

pub lookup_member-some :
    (h : String) (ms : ConfigMembers) (i : ℕ)
    → host_index (member_hosts ms) h ≡ some i
    → (m : ConfigMember) × (lookup_member h ms ≡ some m)
unfolding host_index lookup_member
lookup_member-some h [] i e = absurd (cc)
lookup_member-some h (m ∷ ms) i e = elim (Option-cases (host_index (member_hosts ms) h)) [
  | inl n ↦ (m, ground (arith, lookup_member-none h ms n))
  | inr (j, p) ↦ let (x, q) = lookup_member-some h ms j p in (x, rw q)
]

-- The member that a look-up finds has the host.
pub lookup_member-host :
    (h : String) (ms : ConfigMembers) (m : ConfigMember) → lookup_member h ms ≡ some m → m.host ≡ h
unfolding lookup_member
lookup_member-host h [] m e = absurd (cc)
lookup_member-host h (x ∷ ms) m e = ground (arith, lookup_member-host h ms m, eq_iff x.host h)

-- A change of the member of one host shows in the look-up of that host alone.
pub lookup_member-update_at :
    (k h : String) (i : ℕ) (f : ConfigMember → ConfigMember) (ms : ConfigMembers)
    → KeepsHost f
    → host_index (member_hosts ms) k ≡ some i
    → lookup_member h (update_at i f ms)
      ≡ (if k == h then Option.map f (lookup_member h ms) else lookup_member h ms)
unfolding host_index lookup_member update_at
lookup_member-update_at k h i f [] keeps e = absurd (cc)
lookup_member-update_at k h zero f (m ∷ ms) keeps e =
    let absent : host_index (member_hosts ms) k ≡ none = ground arith in
    let here : m.host ≡ k = ground (arith, eq_iff m.host k) in
    ground (
      arith,
      lookup_member-none k ms absent,
      keeps m,
      here,
      eq_iff k h,
      eq_iff m.host h,
      eq_iff (f m).host h,
    )
lookup_member-update_at k h (suc i) f (m ∷ ms) keeps e =
    let there : host_index (member_hosts ms) k ≡ some i = ground arith in
    let (x, found) = lookup_member-some k ms i there in
    ground (arith, lookup_member-update_at k h i f ms keeps there, found, eq_iff k h)
