-- ===== src/Members/Validate.antt =====
-- validateMemberOverrides (mongodb/resource_shard_config.go): which blocks are accepted.
use Prim.Native.Char.{code}
use terraform_provider_mongo.Prelude.{
  ℕ, ◌+◌, String, Bool, true, false, Option, none, some, List, [], ◌∷◌, ◌≡◌, ◌↔◌, ◌&&◌, ◌||◌, ◌==◌,
  refl, arith, eq_iff, leb, nat_beq, contains, Distinct, All, if◌then◌else◌,
}
use terraform_provider_mongo.Members.{MemberOverride, override_hosts}

-- unicode.IsSpace
unfoldable pub is_space : ℕ → Bool
is_space c =
    leb 0x09 c && leb c 0x0d
    || nat_beq c 0x20
    || nat_beq c 0x85
    || nat_beq c 0xa0
    || nat_beq c 0x1680
    || leb 0x2000 c && leb c 0x200a
    || nat_beq c 0x2028
    || nat_beq c 0x2029
    || nat_beq c 0x202f
    || nat_beq c 0x205f
    || nat_beq c 0x3000

-- `strings.TrimSpace(s) == ""`
unfoldable pub is_blank : String → Bool
unfolding is_space
is_blank String.[] = true
is_blank (String.◌∷◌ c s) = is_space (code c) && is_blank s

pub data ValidationError : Type 0 where
  blank_host : ℕ → ValidationError
  duplicate_host : ℕ → String → ℕ → ValidationError

-- The map `seen`, from hosts to indices.
unfoldable pub lookup_seen : String → List (String × ℕ) → Option ℕ
lookup_seen host [] = none
lookup_seen host ((h, i) ∷ seen) = if h == host then some i else lookup_seen host seen

validate_from : ℕ → List (String × ℕ) → List MemberOverride → Option ValidationError
validate_from i seen [] = none
validate_from i seen (o ∷ os) =
    let rest = validate_from (i + 1) ((o.host, i) ∷ seen) os in
    if is_blank o.host then some (blank_host i) else elim (lookup_seen o.host seen) [
      | some first ↦ some (duplicate_host i o.host first)
      | none ↦ rest
    ]

unfoldable pub validate_member_overrides : List MemberOverride → Option ValidationError
unfolding validate_from
validate_member_overrides overrides = validate_from 0 [] overrides

abbrev pub IsNamed : MemberOverride → Type 0
IsNamed o = is_blank o.host ≡ false

-- The hosts of the entries.
abbrev keys : List (String × ℕ) → List String
keys [] = []
keys ((h, i) ∷ seen) = h ∷ keys seen

lookup_seen-none :
    (host : String) (seen : List (String × ℕ))
    → (lookup_seen host seen ≡ none) ↔ (contains (keys seen) host ≡ false)
unfolding lookup_seen
lookup_seen-none host [] = (λ e. refl, λ e. refl)
lookup_seen-none host ((h, i) ∷ seen) = ground (arith, lookup_seen-none host seen)

-- Every block is named, none has a host that was seen, and no two have one host.
abbrev NotIn : List (String × ℕ) → List MemberOverride → Type 0
NotIn seen = All (λ o. contains (keys seen) o.host ≡ false)

NotIn-cons :
    (h : String) (i : ℕ) (seen : List (String × ℕ)) (os : List MemberOverride)
    → NotIn ((h, i) ∷ seen) os ↔ (NotIn seen os × (contains (override_hosts os) h ≡ false))
NotIn-cons h i seen [] = (λ n. (tt, refl), λ n. tt)
NotIn-cons h i seen (o ∷ os) =
    let ih = NotIn-cons h i seen os in
    let flip : (h == o.host) ≡ (o.host == h) = ground (arith, eq_iff h o.host, eq_iff o.host h) in
    (
      λ n. let (l, r) = ih.0 n.1 in ((ground (arith, n.0), l), ground (arith, n.0, r, flip)),
      λ (l, r). (ground (arith, l.0, r, flip), ih.1 (l.1, ground (arith, r))),
    )

nothing_seen : (os : List MemberOverride) → NotIn [] os
nothing_seen [] = tt
nothing_seen (o ∷ os) = (refl, nothing_seen os)

validate_from_iff :
    (i : ℕ) (seen : List (String × ℕ)) (os : List MemberOverride)
    → (validate_from i seen os ≡ none)
      ↔ (All IsNamed os × Distinct (override_hosts os) × NotIn seen os)
unfolding validate_from
validate_from_iff i seen [] = (λ e. (tt, tt, tt), λ e. refl)
validate_from_iff i seen (o ∷ os) =
    let ih = validate_from_iff (i + 1) ((o.host, i) ∷ seen) os in
    let split = NotIn-cons o.host i seen os in
    let fresh = lookup_seen-none o.host seen in
    (
      λ e.
          let named : IsNamed o = ground arith in
          let new : lookup_seen o.host seen ≡ none = ground arith in
          let (ns, ds, os_new) = ih.0 (ground arith) in
          let (rest, once) = split.0 os_new in ((named, ns), (once, ds), (fresh.0 new, rest)),
      λ (n, d, s). rw (n.0, fresh.1 s.0) (ih.1 (n.1, d.1, split.1 (s.1, d.0))),
    )

-- The blocks are accepted exactly when every host has a character that is no white space and no two
-- blocks name one host.
pub validate_iff :
    (os : List MemberOverride)
    → (validate_member_overrides os ≡ none) ↔ (All IsNamed os × Distinct (override_hosts os))
unfolding validate_member_overrides
validate_iff os =
    let all = validate_from_iff 0 [] os in
    (λ e. let (n, d, s) = all.0 e in (n, d), λ (n, d). all.1 (n, d, nothing_seen os))
