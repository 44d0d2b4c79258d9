-- ===== src/Fcv/Version.antt =====
-- The texts of versions, and parseFCVParts (mongodb/resource_fcv.go).
use Prim.Native.Char.{Char, code}
use text.Mathlib.TextEquality.{Char-path}
use terraform_provider_mongo.Prelude.{
  String, false, ◌≡◌, refl, ap, ◌∙◌, subst, arith, ℤ, some, nat_beq, ok, Option-cases, Bool-cases,
  inl, inr,
}
use terraform_provider_mongo.Discovery.{split_first}
use terraform_provider_mongo.Discovery.HostPort.{joined, has_char, split_first-joined}
use terraform_provider_mongo.Fcv.{atoi, parse_fcv_parts}

-- The text of a version: a major and a minor number, which strconv.Atoi reads, around the first dot.
pub record IsVersion (fcv : String) (p : ℤ × ℤ) : Type 0 where
  pub major_text : String
  pub minor_text : String
  pub dotted : fcv ≡ joined "." major_text minor_text
  pub first_dot : has_char b'.' major_text ≡ false
  pub is_major : atoi major_text ≡ some p.0
  pub is_minor : atoi minor_text ≡ some p.1

split_first-parts :
    (sep : Char) (s a b : String)
    → split_first (code sep) s ≡ some (a, b)
    → (s ≡ joined sep a b) × (has_char (code sep) a ≡ false)
unfolding split_first joined has_char
split_first-parts sep String.[] a b e = absurd (cc)
split_first-parts sep (String.◌∷◌ c s) a b e =
    let IsSplit : String → String → Type 0 =
      λ y x. (String.◌∷◌ c s ≡ joined sep x y) × (has_char (code sep) x ≡ false) in
    elim (Bool-cases (nat_beq (code c) (code sep))) [
      | inl y ↦
          let same_char : c ≡ sep = Char-path c sep (ground (arith, y)) in
          let none_before : String.[] ≡ a = ground (arith, e, y) in
          let rest : s ≡ b = ground (arith, e, y) in
          subst (IsSplit b) none_before
            (ap (λ k. String.◌∷◌ k s) same_char ∙ ap (λ t. String.◌∷◌ sep t) rest, refl)
      | inr n ↦ elim (Option-cases (split_first (code sep) s)) [
        | inl p ↦ absurd (ground (arith, e, n, p))
        | inr ((x, z), p) ↦
            let (same, clear) = split_first-parts sep s x z p in
            let before : String.◌∷◌ c x ≡ a = ground (arith, e, n, p) in
            let rest : z ≡ b = ground (arith, e, n, p) in
            subst (IsSplit b) before
              (ap (λ t. String.◌∷◌ c t) (same ∙ ap (joined sep x) rest), ground (arith, n, clear))
      ]
    ]

pub parse-IsVersion : (fcv : String) (p : ℤ × ℤ) → parse_fcv_parts fcv ≡ ok p → IsVersion fcv p
unfolding parse_fcv_parts
parse-IsVersion fcv p e = elim (Option-cases (split_first b'.' fcv)) [
  | inl s ↦ absurd (ground (arith, e, s))
  | inr ((a, b), s) ↦ elim (Option-cases (atoi a)) [
    | inl x ↦ absurd (ground (arith, e, s, x))
    | inr (major, x) ↦ elim (Option-cases (atoi b)) [
      | inl y ↦ absurd (ground (arith, e, s, x, y))
      | inr (minor, y) ↦
          let same : (major, minor) ≡ p = ground (arith, e, s, x, y) in
          let (whole, clear) = split_first-parts "." fcv a b s in
          record {
            major_text = a;
            minor_text = b;
            dotted = whole;
            first_dot = clear;
            is_major = x ∙ ap (λ z. some z.0) same;
            is_minor = y ∙ ap (λ z. some z.1) same;
          }
    ]
  ]
]

pub IsVersion-parse : (fcv : String) (p : ℤ × ℤ) → IsVersion fcv p → parse_fcv_parts fcv ≡ ok p
unfolding parse_fcv_parts
IsVersion-parse fcv (major, minor) v =
    let whole = v.dotted in
    let parts = split_first-joined "." v.major_text v.minor_text v.first_dot in
    let first = v.is_major in let second = v.is_minor in ground (arith, whole, parts, first, second)
