-- ===== src/Reach.antt =====
-- waitUntilReachable and WaitForAddTargets of mongodb/shard_ready.go. The attempt, the context and the
-- pause, which ends with the context's error if the context ends first, are parameters; the loop has a
-- round for each unit of fuel, and `out_of_fuel` stands for one that has not ended yet.
pub mod Total
pub mod Last
mod Tests
use terraform_provider_mongo.Prelude.{
  ℕ, zero, suc, String, Bool, true, false, not, ◌&&◌, ◌⊎◌, All, Option, none, some, List, [], ◌∷◌,
  ◌≡◌, refl, sym, ◌∙◌, ap, subst, arith, inl, inr, Option-cases, Bool-cases, if◌then◌else◌,
}
use terraform_provider_mongo.Errors.{GoError, is_connection_error}
use terraform_provider_mongo.Members.{MemberOverride}

pub record ReachEnv (S : Type 0) : Type 0 where
  pub attempt : String → S → Option GoError × S
  pub context : S → Option GoError
  pub pause : S → Option GoError × S

-- The returns of waitUntilReachable; `not_ready` is its notReadyError, with the last answer and the
-- context's error.
pub data ReachEnd : Type 0 where
  reached : ReachEnd
  failed : GoError → ReachEnd
  not_ready : Option GoError → GoError → ReachEnd
  out_of_fuel : ReachEnd

-- `last` after a failed attempt: once the context has ended, only where there was none.
abbrev pub last_answer : Option GoError → GoError → Option GoError → Option GoError
last_answer last e none = some e
last_answer none e (some c) = some e
last_answer (some x) e (some c) = some x

abbrev pub is_over : Option GoError → Bool
is_over none = false
is_over (some c) = true

module _ {S : Type 0} (env : ReachEnv S) where
  unfoldable pub reach_rounds : ℕ → String → Option GoError → S → ReachEnd × S
  reach_rounds zero host last s = (out_of_fuel, s)
  reach_rounds (suc fuel) host last s =
      let (answer, s1) = env.attempt host s in
      elim answer [
        | none ↦ (reached, s1)
        | some e ↦
            if not (is_over (env.context s1)) && not (is_connection_error e)
            then (failed e, s1)
            else let last' = last_answer last e (env.context s1) in
              let (ended, s2) = env.pause s1 in
              elim ended [
                | some c ↦ (not_ready last' c, s2)
                | none ↦ reach_rounds fuel host last' s2
              ]
      ]

  -- waitUntilReachable
  unfoldable pub wait_until_reachable : ℕ → String → S → ReachEnd × S
  wait_until_reachable fuel host = reach_rounds fuel host none

  -- WaitForAddTargets: the first host whose wait ended with the context.
  unfoldable pub wait_for_add_targets : ℕ → List MemberOverride → S → ReachEnd × S
  wait_for_add_targets fuel [] s = (reached, s)
  wait_for_add_targets fuel (o ∷ os) s =
      let (end, s1) = wait_until_reachable fuel o.host s in
      elim end [
        | not_ready last c ↦ (not_ready last c, s1)
        | out_of_fuel ↦ (out_of_fuel, s1)
        | reached ↦ wait_for_add_targets fuel os s1
        | failed e ↦ wait_for_add_targets fuel os s1
      ]

  -- An attempt at the host gave an answer: a success, or an error that is no connection error.
  abbrev pub Answered : String → Type 0
  Answered host =
      (s : S) × (((env.attempt host s).0 ≡ none)
        ⊎ ((e : GoError) × ((env.attempt host s).0 ≡ some e) × (is_connection_error e ≡ false)))

  -- What a wait for one host ends with, when it is not cut short.
  abbrev pub is_answer : ReachEnd → Bool
  is_answer reached = true
  is_answer (failed e) = true
  is_answer (not_ready last c) = false
  is_answer out_of_fuel = false

  abbrev tried : String → S → Option GoError × S
  tried host s = env.attempt host s

  round_failed :
      (fuel : ℕ) (host : String) (last : Option GoError) (s : S) (e : GoError)
      → (tried host s).0 ≡ some e
      → is_connection_error e ≡ true
      → is_answer (reach_rounds (suc fuel) host last s).0 ≡ true
      → reach_rounds (suc fuel) host last s
        ≡ reach_rounds fuel host
            (last_answer last e (env.context (tried host s).1))
            (env.pause (tried host s).1).1
  unfolding reach_rounds
  round_failed fuel host last s e p n a = elim (Option-cases (env.pause (tried host s).1).0) [
    | inl r ↦ ground (arith, p, n, r)
    | inr (c, r) ↦ absurd (ground (arith, p, n, r, a))
  ]

  reach_rounds-Answered :
      (fuel : ℕ) (host : String) (last : Option GoError) (s : S)
      → is_answer (reach_rounds fuel host last s).0 ≡ true
      → Answered host
  unfolding reach_rounds
  reach_rounds-Answered zero host last s a = absurd (cc)
  reach_rounds-Answered (suc fuel) host last s a = elim (Option-cases (tried host s).0) [
    | inl p ↦ (s, inl p)
    | inr (e, p) ↦ elim (Bool-cases (is_connection_error e)) [
      | inr n ↦ (s, inr (e, p, n))
      | inl n ↦
          let same = round_failed fuel host last s e p n a in
          reach_rounds-Answered fuel host _ _ (sym (ap (λ r. is_answer r.0) same) ∙ a)
    ]
  ]

  waited :
      (fuel : ℕ) (host : String) (s : S)
      → is_answer (wait_until_reachable fuel host s).0 ≡ true
      → is_answer (reach_rounds fuel host none s).0 ≡ true
  unfolding wait_until_reachable
  waited fuel host s a = a

  targets_go :
      (fuel : ℕ) (o : MemberOverride) (os : List MemberOverride) (s : S)
      → (wait_for_add_targets fuel (o ∷ os) s).0 ≡ reached
      → (is_answer (wait_until_reachable fuel o.host s).0 ≡ true)
        × ((wait_for_add_targets fuel os (wait_until_reachable fuel o.host s).1).0 ≡ reached)
  unfolding wait_for_add_targets
  targets_go fuel o os s e = (ground arith, ground arith)

  -- When WaitForAddTargets lets the apply go on, every host to be added has answered an attempt: it
  -- accepted the connection, or failed with an error that is no connection error.
  pub wait_for_add_targets_lem :
      (fuel : ℕ) (os : List MemberOverride) (s : S)
      → (wait_for_add_targets fuel os s).0 ≡ reached
      → All (λ o. Answered o.host) os
  unfolding wait_for_add_targets
  wait_for_add_targets_lem fuel [] s e = tt
  wait_for_add_targets_lem fuel (o ∷ os) s e =
      let (answer, rest) = targets_go fuel o os s e in
      (
        reach_rounds-Answered fuel o.host none s (waited fuel o.host s answer),
        wait_for_add_targets_lem fuel os (wait_until_reachable fuel o.host s).1 rest,
      )
