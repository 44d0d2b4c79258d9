-- ===== src/Prelude/Action.antt =====
-- Handlers: functions that pass a state on and end with a value or an error. What was changed before
-- an error stays changed.
use mathlib.Core.Path.{◌≡◌}
use mathlib.Core.Bool.{Bool, true, false}
use mathlib.Core.Option.{Option, none, some}
use mathlib.Core.Logic.{inl, inr}
use native.Mathlib.Omega.{arith}
use terraform_provider_mongo.Prelude.Lists.{Result, ok, err, Result-cases}
use terraform_provider_mongo.Prelude.Tests.{Option-cases}

abbrev pub Action : Type 0 → Type 0 → Type 0 → Type 0
Action W E A = W → Result E A × W

-- Terraform's data of the resource, and the servers.
pub record World (D S : Type 0) : Type 0 where
  pub resource : D
  pub server : S

infixl 5 ◌>>=◌ ◌>>◌
abbrev pub ◌>>=◌ : {W E A B : Type 0} → Action W E A → (A → Action W E B) → Action W E B
◌>>=◌ m f w = let (r, w') = m w in elim r [ err e ↦ (err e, w') | ok a ↦ f a w' ]

abbrev pub ◌>>◌ : {W E B : Type 0} → Action W E (Unit {0}) → Action W E B → Action W E B
m >> k = m >>= λ _. k

abbrev pub pure : {W E A : Type 0} → A → Action W E A
pure a w = (ok a, w)

abbrev pub raise : {W E A : Type 0} → E → Action W E A
raise e w = (err e, w)

-- The attributes of the resource.
abbrev pub get : {D S E : Type 0} → Action (World D S) E D
get w = (ok w.resource, w)

-- `data.Set` and `data.SetId`.
abbrev pub set : {D S E : Type 0} → (D → D) → Action (World D S) E (Unit {0})
set f w = (ok tt, record w { resource = f w.resource })

-- A call of the servers.
abbrev pub call : {D S E A : Type 0} → (S → Result E A × S) → Action (World D S) E A
call f w = let (r, s) = f w.server in (r, record w { server = s })

-- A command that gives an error or nothing, as a step with the error's place in the program.
abbrev pub checked :
    {D S X E : Type 0} → (X → E) → (S → Option X × S) → Action (World D S) E (Unit {0})
checked at f = call λ s. (let (r, s') = f s in (elim r [ some x ↦ err (at x) | none ↦ ok tt ], s'))

-- A command that gives an error or a value.
abbrev pub asked : {D S X E A : Type 0} → (X → E) → (S → Result X A × S) → Action (World D S) E A
asked at f = call λ s. (let (r, s') = f s in (elim r [ err x ↦ err (at x) | ok a ↦ ok a ], s'))

-- A step that is taken where a test holds.
abbrev pub when : {W E : Type 0} → Bool → Action W E (Unit {0}) → Action W E (Unit {0})
when b m w = elim b [ true ↦ m w | false ↦ (ok tt, w) ]

-- A sequence that ends with a value has been through both parts.
pub bind-ok :
    {W E A B : Type 0} (m : Action W E A) (f : A → Action W E B) (w : W) (b : B)
    → ((m >>= f) w).0 ≡ ok b
    → (a : A) × ((m w).0 ≡ ok a) × ((m >>= f) w ≡ f a (m w).1)
bind-ok m f w b e = elim (Result-cases (m w).0) [
  | inl (x, p) ↦ absurd (ground (arith, e, p))
  | inr (a, p) ↦ (a, p, ground (arith, p))
]

pub checked-ok :
    {D S X E : Type 0} (at : X → E) (f : S → Option X × S) (w : World D S) (u : Unit {0})
    → (checked at f w).0 ≡ ok u
    → (f w.server).0 ≡ none
checked-ok at f w u e = elim (Option-cases (f w.server).0) [
  | inl p ↦ p
  | inr (x, p) ↦ absurd (ground (arith, e, p))
]

pub asked-ok :
    {D S X E A : Type 0} (at : X → E) (f : S → Result X A × S) (w : World D S) (a : A)
    → (asked at f w).0 ≡ ok a
    → (f w.server).0 ≡ ok a
asked-ok at f w a e = elim (Result-cases (f w.server).0) [
  | inr (b, p) ↦ ground (arith, e, p)
  | inl (x, p) ↦ absurd (ground (arith, e, p))
]
