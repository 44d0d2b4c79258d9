-- ===== src/Balancer/Clock.antt =====
-- The times that validateHHMM (mongodb/resource_balancer_config.go) accepts.
use Prim.Native.Char.{Char, code}
use terraform_provider_mongo.Prelude.{
  ℕ, ◌+◌, ◌-◌, ◌*◌, ◌/◌, ◌%◌, ◌<◌, String, Bool, true, false, ◌&&◌, ◌≡◌, ◌↔◌, refl, subst, arith,
  nat_beq, Bool-cases, inl, inr,
}
use terraform_provider_mongo.Balancer.{validate_hhmm, is_hour, is_minute}

-- The two decimal digits of a number.
abbrev pub IsTwoDigits : ℕ → Char → Char → Type 0
IsTwoDigits n a b = (code a ≡ 48 + n / 10) × (code b ≡ 48 + n % 10)

-- An hour and a minute of a day, two digits each, with a colon between.
abbrev pub IsTime : String → Type 0
IsTime s =
    (hour minute : ℕ) × (a b c d e : Char) × (hour < 24)
    × (minute < 60)
    × IsTwoDigits hour a b
    × IsTwoDigits minute d e
    × (code c ≡ 58)
    × (s ≡ String.◌∷◌ a (String.◌∷◌ b (String.◌∷◌ c (String.◌∷◌ d (String.◌∷◌ e String.[])))))

is_hour_iff :
    (a b : Char) → (is_hour a b ≡ true) ↔ ((hour : ℕ) × (hour < 24) × IsTwoDigits hour a b)
is_hour_iff a b = (
  λ e. (10 * (code a - 48) + (code b - 48), ground arith, (ground arith, ground arith)),
  λ (hour, h, (p, q)). ground (arith, h, p, q),
)

is_minute_iff :
    (a b : Char) → (is_minute a b ≡ true) ↔ ((minute : ℕ) × (minute < 60) × IsTwoDigits minute a b)
is_minute_iff a b = (
  λ e. (10 * (code a - 48) + (code b - 48), ground arith, (ground arith, ground arith)),
  λ (minute, h, (p, q)). ground (arith, h, p, q),
)

not_time : (s : String) → validate_hhmm s ≡ false → IsTime s → ⊥
unfolding validate_hhmm
not_time s n (hour, minute, a, b, c, d, e, h, m, t, u, colon, same) =
    let hours = (is_hour_iff a b).1 (hour, h, t) in
    let minutes = (is_minute_iff d e).1 (minute, m, u) in
    let text = String.◌∷◌ a (String.◌∷◌ b (String.◌∷◌ c (String.◌∷◌ d (String.◌∷◌ e String.[])))) in
    let yes : validate_hhmm text ≡ true = ground (arith, hours, minutes, colon) in
    let no : validate_hhmm text ≡ false = subst (λ x. validate_hhmm x ≡ false) same n in absurd (cc)

all_true : (x y z : Bool) → (x && y && z) ≡ true → (x ≡ true) × (y ≡ true) × (z ≡ true)
all_true true true true e = (refl, refl, refl)
all_true true true false e = absurd (cc)
all_true true false z e = absurd (cc)
all_true false y z e = absurd (cc)

is_colon : (c : Char) → nat_beq (code c) 58 ≡ true → code c ≡ 58
is_colon c e = ground arith

is_time : (s : String) → validate_hhmm s ≡ true → IsTime s
unfolding validate_hhmm
is_time String.[] e = absurd (cc)
is_time (String.◌∷◌ a String.[]) e = absurd (cc)
is_time (String.◌∷◌ a (String.◌∷◌ b String.[])) e = absurd (cc)
is_time (String.◌∷◌ a (String.◌∷◌ b (String.◌∷◌ c String.[]))) e = absurd (cc)
is_time (String.◌∷◌ a (String.◌∷◌ b (String.◌∷◌ c (String.◌∷◌ d String.[])))) e = absurd (cc)
is_time (String.◌∷◌ a (String.◌∷◌ b (String.◌∷◌ c (String.◌∷◌ d (String.◌∷◌ x String.[]))))) e =
    let (p, q, r) = all_true (is_hour a b) (nat_beq (code c) 58) (is_minute d x) e in
    let (hour, h, t) = (is_hour_iff a b).0 p in
    let (minute, m, u) = (is_minute_iff d x).0 r in
    (hour, minute, a, b, c, d, x, h, m, t, u, is_colon c q, refl)
is_time (String.◌∷◌ a (String.◌∷◌ b (String.◌∷◌ c (String.◌∷◌ d (String.◌∷◌ x (String.◌∷◌ y s))))))
      e =
    absurd (cc)

-- validateHHMM accepts exactly the times of a day: an hour below 24 and a minute below 60, each in two
-- decimal digits, with a colon between them and nothing after.
pub validate_hhmm_iff : (s : String) → (validate_hhmm s ≡ true) ↔ IsTime s
validate_hhmm_iff s = (
  is_time s,
  λ t. elim (Bool-cases (validate_hhmm s)) [ inl y ↦ y | inr n ↦ absurd (not_time s n t) ],
)
