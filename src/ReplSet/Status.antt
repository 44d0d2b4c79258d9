-- ===== src/ReplSet/Status.antt =====
-- The queries on a status (mongodb/replica_set_types.go) against the rows they select.
use mathlib.Core.List.{append_assoc, append-nil}
use terraform_provider_mongo.Prelude.{
  ℕ, zero, suc, ◌+◌, Bool, false, ◌&&◌, Option, none, some, List, [], ◌∷◌, ◌++◌, ◌≡◌, refl, sym,
  ◌∙◌, arith, ℤ, int_beq, nat_beq, ltb, length, length-append, take, keep, Bool-cases, inl, inr,
  if◌then◌else◌,
}
use terraform_provider_mongo.ReplSet.{
  Member, ReplSetStatus, by_state_from, get_members_by_state, primary_of, only,
}
use terraform_provider_mongo.ReplSet.MemberState

abbrev pub in_state : ℤ → Member → Bool
in_state state m = int_beq m.state state

abbrev pub head? : List Member → Option Member
head? [] = none
head? (m ∷ ms) = some m

only-take : (ms : List Member) → only (take 1 ms) ≡ head? ms
only-take [] = refl
only-take (m ∷ ms) = refl

unlimited :
    (state : ℤ) (found ms : List Member)
    → by_state_from state 0 found ms ≡ found ++ keep (in_state state) ms
unfolding by_state_from
unlimited state found [] = sym (append-nil found)
unlimited state found (m ∷ ms) = elim (Bool-cases (int_beq m.state state)) [
  | inl e ↦ rw e (unlimited state (found ++ m ∷ []) ms ∙ append_assoc found (m ∷ []) _)
  | inr e ↦ rw e (unlimited state found ms)
]

-- `r` more members are wanted than the next one.
limited :
    (state : ℤ) (limit r : ℕ) (found ms : List Member)
    → length found + suc r ≡ limit
    → by_state_from state limit found ms ≡ found ++ take (suc r) (keep (in_state state) ms)
unfolding by_state_from
limited state limit r found [] h = sym (append-nil found)
limited state limit r found (m ∷ ms) h = elim (Bool-cases (int_beq m.state state)) [
  | inr e ↦ rw e (limited state limit r found ms h)
  | inl e ↦ rw e (at_match r h (λ k. limited state limit k (found ++ m ∷ []) ms))
]
  where
    wanted : (k : ℕ) → length found + suc k ≡ limit → length (found ++ m ∷ []) + k ≡ limit
    wanted k e = omega (arith, length-append found (m ∷ []))

    at_match :
        (k : ℕ)
        → length found + suc k ≡ limit
        → ((j : ℕ)
            → length (found ++ m ∷ []) + suc j ≡ limit
            → by_state_from state limit (found ++ m ∷ []) ms
              ≡ (found ++ m ∷ []) ++ take (suc j) (keep (in_state state) ms))
        → (if ltb 0 limit && nat_beq (length (found ++ m ∷ [])) limit
            then found ++ m ∷ []
            else by_state_from state limit (found ++ m ∷ []) ms)
          ≡ found ++ m ∷ take k (keep (in_state state) ms)
    at_match zero e rest = ground (arith, wanted zero e)
    at_match (suc k) e rest =
        let more : nat_beq (length (found ++ m ∷ [])) limit ≡ false =
          ground (arith, wanted (suc k) e) in
        rw more (
          ground (
            arith,
            rest k (wanted (suc k) e),
            append_assoc found (m ∷ []) (take (suc k) (keep (in_state state) ms)),
          ))

-- GetMembersByState returns the rows in the state asked for, in the order of the status: all of
-- them for a limit of 0, and else the first `limit` of them. Primary is the first primary.
pub get_members_by_state_lem :
    (s : ReplSetStatus) (state : ℤ) (limit : ℕ)
    → (get_members_by_state s state 0 ≡ keep (in_state state) s.members)
      × (get_members_by_state s state (suc limit)
          ≡ take (suc limit) (keep (in_state state) s.members))
      × (primary_of s ≡ head? (keep (in_state MemberState.primary) s.members))
unfolding get_members_by_state primary_of
get_members_by_state_lem s state limit = (
  unlimited state [] s.members,
  limited state (suc limit) limit [] s.members (omega arith),
  rw (limited MemberState.primary 1 0 [] s.members (omega arith)) (only-take _),
)
