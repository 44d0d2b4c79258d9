-- ===== src/Members/NextId.antt =====
-- NextMemberID (mongodb/shard_members.go) gives an `_id` that no member has.
use mathlib.Core.List.{Mem, mem-cons}
use mathlib.Core.Logic.Or
use terraform_provider_mongo.Prelude.{
  zero, suc, ◌<◌, true, false, [], ◌∷◌, ◌≡◌, ◌⊎◌, inl, inr, refl, sym, subst, arith, ℤ, pos, negsuc,
  inc, int_leb, int_leb_refl, int_leb_trans, max_int, All, Bool-cases,
}
use terraform_provider_mongo.ReplSet.{ConfigMember, ConfigMembers}
use terraform_provider_mongo.Members.{next_id_from, next_member_id}

-- An `_id` below the largest 64-bit integer; the server allows 0 to 255.
abbrev pub IsSmall : ℤ → Type 0
IsSmall (pos n) = n < max_int
IsSmall (negsuc n) = Unit

inc-gt : (a : ℤ) → IsSmall a → (int_leb (inc a) a ≡ false) × (int_leb a (inc a) ≡ true)
unfolding inc
inc-gt (pos n) s = ground arith
inc-gt (negsuc zero) s = ground arith
inc-gt (negsuc (suc n)) s = ground arith

next_id_from-le :
    (next : ℤ) (ms : ConfigMembers)
    → All (λ m. IsSmall m.id) ms
    → int_leb next (next_id_from next ms) ≡ true
unfolding next_id_from
next_id_from-le next [] s = int_leb_refl next
next_id_from-le next (m ∷ ms) s = elim (Bool-cases (int_leb next m.id)) [
  | inl e ↦ rw e (
      int_leb_trans next (inc m.id) _ (int_leb_trans next m.id _ e (inc-gt m.id s.0).1)
        (next_id_from-le (inc m.id) ms s.1))
  | inr e ↦ rw e (next_id_from-le next ms s.1)
]

not-le : (a b c : ℤ) → int_leb a b ≡ true → int_leb a c ≡ false → int_leb b c ≡ false
not-le a b c h n = elim (Bool-cases (int_leb b c)) [
  | inl e ↦ absurd (cc (int_leb_trans a b c h e))
  | inr e ↦ e
]

next_up :
    (next : ℤ) (m : ConfigMember) (ms : ConfigMembers)
    → int_leb next m.id ≡ true
    → next_id_from next (m ∷ ms) ≡ next_id_from (inc m.id) ms
unfolding next_id_from
next_up next m ms e = rw e

next_same :
    (next : ℤ) (m : ConfigMember) (ms : ConfigMembers)
    → int_leb next m.id ≡ false
    → next_id_from next (m ∷ ms) ≡ next_id_from next ms
unfolding next_id_from
next_same next m ms e = rw e

abbrev AllBelow : ℤ → ConfigMembers → Type 0
AllBelow r = All (λ m. int_leb r m.id ≡ false)

next_id_from-fresh :
    (next : ℤ) (ms : ConfigMembers)
    → All (λ m. IsSmall m.id) ms
    → AllBelow (next_id_from next ms) ms
next_id_from-fresh next [] s = tt
next_id_from-fresh next (m ∷ ms) s = elim (Bool-cases (int_leb next m.id)) [
  | inl e ↦
      subst (λ r. AllBelow r (m ∷ ms)) (sym (next_up next m ms e))
        (
          not-le (inc m.id) _ m.id (next_id_from-le (inc m.id) ms s.1) (inc-gt m.id s.0).0,
          next_id_from-fresh (inc m.id) ms s.1,
        )
  | inr e ↦
      subst (λ r. AllBelow r (m ∷ ms)) (sym (next_same next m ms e))
        (not-le next _ m.id (next_id_from-le next ms s.1) e, next_id_from-fresh next ms s.1)
]

-- The greatest `_id` and one more, or what the count began with.
next_id_from-tight :
    (next : ℤ) (ms : ConfigMembers)
    → (next_id_from next ms ≡ next)
      ⊎ ((m : ConfigMember) × Mem m ms × (next_id_from next ms ≡ inc m.id))
unfolding next_id_from
next_id_from-tight next [] = inl refl
next_id_from-tight next (m ∷ ms) = elim (Bool-cases (int_leb next m.id)) [
  | inl e ↦ elim (next_id_from-tight (inc m.id) ms) [
    | inl q ↦ inr (m, mem-cons.1 (Or.inl refl), rw e q)
    | inr (x, at, q) ↦ inr (x, mem-cons.1 (Or.inr at), rw e q)
  ]
  | inr e ↦ elim (next_id_from-tight next ms) [
    | inl q ↦ inl (rw e q)
    | inr (x, at, q) ↦ inr (x, mem-cons.1 (Or.inr at), rw e q)
  ]
]

-- The next `_id` is greater than that of every member, is not negative, and is 0 or one more than
-- that of some member, as long as the members' own are below the largest 64-bit integer.
pub next_member_id-fresh :
    (ms : ConfigMembers)
    → All (λ m. IsSmall m.id) ms
    → All (λ m. int_leb (next_member_id ms) m.id ≡ false) ms
      × (int_leb (pos 0) (next_member_id ms) ≡ true)
      × ((next_member_id ms ≡ pos 0)
          ⊎ ((m : ConfigMember) × Mem m ms × (next_member_id ms ≡ inc m.id)))
unfolding next_member_id
next_member_id-fresh ms s =
    (next_id_from-fresh (pos 0) ms s, next_id_from-le (pos 0) ms s, next_id_from-tight (pos 0) ms)
