-- ===== src/Fcv/Order.antt =====
-- compareFCV (mongodb/resource_fcv.go) orders versions.
use terraform_provider_mongo.Prelude.{
  String, true, false, ◌≡◌, ◌↔◌, refl, sym, ap, ◌∙◌, subst, arith, ℤ, pos, negsuc, int_leb,
  int_leb_refl, int_leb_trans, Result, ok, err, Result-cases, Bool-cases, ◌⊎◌, inl, inr,
}
use terraform_provider_mongo.Discovery.{split_first}
use terraform_provider_mongo.Fcv.{
  FcvError, no_parts, Comparison, less, same, more, parse_fcv_parts, compare_parts, compare_fcv,
}
use terraform_provider_mongo.Fcv.Version.{IsVersion, parse-IsVersion, IsVersion-parse}

abbrev pub opposite : Comparison → Comparison
opposite less = more
opposite same = same
opposite more = less

-- The order of versions: by the major number, and by the minor one where the major ones are equal.
abbrev pub IsLower : ℤ × ℤ → ℤ × ℤ → Type 0
IsLower (major, minor) (major', minor') =
    (int_leb major' major ≡ false) ⊎ ((major ≡ major') × (int_leb minor' minor ≡ false))

-- Two texts of versions of which the first is lower.
abbrev pub Lowers : String → String → Type 0
Lowers a b = (p q : ℤ × ℤ) × IsVersion a p × IsVersion b q × IsLower p q

int_leb_total : (a b : ℤ) → int_leb a b ≡ false → int_leb b a ≡ true
int_leb_total (pos a) (pos b) e = ground arith
int_leb_total (pos a) (negsuc b) e = ground arith
int_leb_total (negsuc a) (pos b) e = ground arith
int_leb_total (negsuc a) (negsuc b) e = ground arith

int_leb_antisym : (a b : ℤ) → int_leb a b ≡ true → int_leb b a ≡ true → a ≡ b
int_leb_antisym (pos a) (pos b) e f = ground arith
int_leb_antisym (pos a) (negsuc b) e f = ground arith
int_leb_antisym (negsuc a) (pos b) e f = ground arith
int_leb_antisym (negsuc a) (negsuc b) e f = ground arith

parts_swap : (p q : ℤ × ℤ) → compare_parts q p ≡ opposite (compare_parts p q)
unfolding compare_parts
parts_swap (a, b) (c, d) =
    ground (arith, int_leb_total a c, int_leb_total c a, int_leb_total b d, int_leb_total d b)

parts_same : (p q : ℤ × ℤ) → compare_parts p q ≡ same → p ≡ q
unfolding compare_parts
parts_same (a, b) (c, d) e = ground (arith, int_leb_antisym a c, int_leb_antisym b d)

parts_IsLower : (p q : ℤ × ℤ) → compare_parts p q ≡ less → IsLower p q
unfolding compare_parts
parts_IsLower (a, b) (c, d) e = elim (Bool-cases (int_leb c a)) [
  | inr n ↦ inl n
  | inl y ↦ inr (ground (arith, int_leb_antisym a c), ground (arith, int_leb_total a c))
]

IsLower-parts : (p q : ℤ × ℤ) → IsLower p q → compare_parts p q ≡ less
unfolding compare_parts
IsLower-parts (a, b) (c, d) (inl n) = ground arith
IsLower-parts (a, b) (c, d) (inr (same_major, n)) =
    ground (arith, int_leb_refl a, int_leb_refl c, same_major)

parts_refl : (p : ℤ × ℤ) → compare_parts p p ≡ same
unfolding compare_parts
parts_refl (a, b) = ground (arith, int_leb_refl a, int_leb_refl b)

parts_trans :
    (p q r : ℤ × ℤ) → compare_parts p q ≡ less → compare_parts q r ≡ less → compare_parts p r ≡ less
unfolding compare_parts
parts_trans (a, b) (c, d) (x, y) e f = ground (
  arith,
  int_leb_total a c,
  int_leb_total c x,
  int_leb_trans c x a,
  int_leb_trans x a c,
  int_leb_trans a c x,
  int_leb_antisym a c,
  int_leb_antisym c x,
  int_leb_total b d,
  int_leb_total d y,
  int_leb_trans d y b,
  int_leb_trans y b d,
)

module _ (a b : String) where
  compare_parsed :
      (x : Comparison)
      → compare_fcv a b ≡ ok x
      → (p q : ℤ × ℤ) × (parse_fcv_parts a ≡ ok p)
        × (parse_fcv_parts b ≡ ok q)
        × (compare_parts p q ≡ x)
  unfolding compare_fcv
  compare_parsed x e = elim (Result-cases (parse_fcv_parts a)) [
    | inl (y, p) ↦ absurd (ground (arith, e, p))
    | inr (p, s) ↦ elim (Result-cases (parse_fcv_parts b)) [
      | inl (y, q) ↦ absurd (ground (arith, e, s, q))
      | inr (q, t) ↦ (p, q, s, t, ground (arith, e, s, t))
    ]
  ]

  compare_of_parts :
      (p q : ℤ × ℤ)
      → parse_fcv_parts a ≡ ok p
      → parse_fcv_parts b ≡ ok q
      → compare_fcv a b ≡ ok (compare_parts p q)
  unfolding compare_fcv
  compare_of_parts p q s t = ground (arith, s, t)

empty_unparsed : parse_fcv_parts "" ≡ err (no_parts "")
unfolding parse_fcv_parts split_first
empty_unparsed = refl

pub compare_empty : (a : String) → compare_fcv a "" ≡ ok less → ⊥
compare_empty a e =
    let (p, q, s, t, r) = compare_parsed a "" less e in let no = empty_unparsed in absurd (cc)

ok_inj : {A : Type 0} (x y : A) → ◌≡◌ {A = Result FcvError A} (ok x) (ok y) → x ≡ y
ok_inj x y e = cc

pub compare_less : (a b : String) → (compare_fcv a b ≡ ok less) ↔ Lowers a b
compare_less a b = (
  λ e.
      let (p, q, s, t, r) = compare_parsed a b less e in
      (p, q, parse-IsVersion a p s, parse-IsVersion b q t, parts_IsLower p q r),
  λ (p, q, s, t, l).
      compare_of_parts a b p q (IsVersion-parse a p s) (IsVersion-parse b q t)
      ∙ ap ok (IsLower-parts p q l),
)

-- compareFCV answers -1 exactly where both texts are versions, two numbers around the first dot, and the first is lower: by its major number,
-- or by its minor one where the major ones are equal. Exchanging the two exchanges -1 and +1, being lower
-- is transitive, and 0 is the answer exactly for two texts of the same major and minor number.
pub compare_fcv_order :
    (a b c : String)
    → ((compare_fcv a b ≡ ok less) ↔ Lowers a b)
      × ((x : Comparison) → compare_fcv a b ≡ ok x → compare_fcv b a ≡ ok (opposite x))
      × (compare_fcv a b ≡ ok less → compare_fcv b c ≡ ok less → compare_fcv a c ≡ ok less)
      × ((compare_fcv a b ≡ ok same) ↔ ((p : ℤ × ℤ) × IsVersion a p × IsVersion b p))
compare_fcv_order a b c = (
  compare_less a b,
  λ x e.
      let (p, q, s, t, r) = compare_parsed a b x e in
      compare_of_parts b a q p t s ∙ ap ok (parts_swap p q ∙ ap opposite r),
  λ e f.
      let (p, q, s, t, r) = compare_parsed a b less e in
      let (q', v, t', u, r') = compare_parsed b c less f in
      let middle : q' ≡ q = ok_inj q' q (sym t' ∙ t) in
      let step : compare_parts q v ≡ less = subst (λ z. compare_parts z v ≡ less) middle r' in
      compare_of_parts a c p v s u ∙ ap ok (parts_trans p q v r step),
  (
    λ e.
        let (p, q, s, t, r) = compare_parsed a b same e in
        (p, parse-IsVersion a p s, parse-IsVersion b p (t ∙ ap ok (sym (parts_same p q r)))),
    λ (p, s, t).
        compare_of_parts a b p p (IsVersion-parse a p s) (IsVersion-parse b p t)
        ∙ ap ok (parts_refl p),
  ),
)
