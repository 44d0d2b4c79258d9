-- ===== src/Wait/Laws.antt =====
-- What the result of WaitForMemberState (mongodb/shard_members.go) says of the statuses it read.
use terraform_provider_mongo.Prelude.{
  pair_eq, ℕ, zero, suc, ◌+◌, ◌<◌, String, true, false, Option, none, some, List, [], ◌∷◌, ◌≡◌, ◌⊎◌,
  inl, inr, refl, sym, ap, ◌∙◌, subst, arith, ltb, ltb→lt, Result, ok, err, Bool-cases,
  Option-cases,
}
use terraform_provider_mongo.Errors.{GoError}
use terraform_provider_mongo.ReplSet.{Member, ReplSetStatus}
use terraform_provider_mongo.Wait.{
  WaitTarget, WaitResult, WaitEnv, WaitEnd, ended, no_result, observe_member, observe_rows,
  observe_row, take_status, wait_rounds, wait_for_member_state,
}

-- A member that met its target was reachable, and one that was reachable was observed.
pub record IsSound (res : WaitResult) : Type 0 where
  pub met_reachable : res.met ≡ true → res.ever_reachable ≡ true
  pub reachable_observed : res.ever_reachable ≡ true → res.observed ≡ true

observe_rows-up :
    (ms : List Member) (host : String) (target : WaitTarget)
    → (observe_rows ms host target).met ≡ true
    → (observe_rows ms host target).up ≡ true
unfolding observe_rows observe_row
observe_rows-up [] host target e = absurd (cc)
observe_rows-up (m ∷ ms) host target e = ground (arith, observe_rows-up ms host target)

observe_member-up :
    (status : ReplSetStatus) (host : String) (target : WaitTarget)
    → (observe_member status host target).met ≡ true
    → (observe_member status host target).up ≡ true
unfolding observe_member
observe_member-up status host target e = observe_rows-up status.members host target e

take_status-IsSound :
    (res : WaitResult) (r : Result GoError ReplSetStatus) (host : String) (target : WaitTarget)
    → IsSound res
    → IsSound (take_status res r host target)
unfolding take_status
take_status-IsSound res (err e) host target h = ground arith
take_status-IsSound res (ok status) host target h =
    ground (arith, observe_member-up status host target)

take_status-met :
    (res : WaitResult) (r : Result GoError ReplSetStatus) (host : String) (target : WaitTarget)
    → res.met ≡ false
    → (take_status res r host target).met ≡ true
    → (status : ReplSetStatus) × (r ≡ ok status) × ((observe_member status host target).met ≡ true)
unfolding take_status
take_status-met res (err e) host target n m = absurd (cc)
take_status-met res (ok status) host target n m = (status, refl, ground arith)

module _ {S : Type 0} (env : WaitEnv S) (host : String) (target : WaitTarget) where
  -- The wait's last command read a status at which the target was met.
  abbrev pub Reached : S → Type 0
  Reached after =
      (s : S) × (status : ReplSetStatus) × (env.get_status s ≡ (ok status, after))
      × ((observe_member status host target).met ≡ true)

  -- The context ended in a pause of the wait.
  abbrev pub Cancelled : GoError → S → Type 0
  Cancelled e s = (s0 : S) × (env.pause s0 ≡ (some e, s))

  -- What the end of a wait says.
  abbrev pub Conclusive : ℕ → WaitResult → Option GoError → S → Type 0
  Conclusive deadline res cancelled s =
      IsSound res
      × (res.met ≡ true → Reached s × (cancelled ≡ none))
      × (res.met ≡ false → (deadline < env.now s) ⊎ ((e : GoError) × (cancelled ≡ some e)))
      × ((e : GoError) → cancelled ≡ some e → Cancelled e s)

  abbrev next_result : WaitResult → S → WaitResult
  next_result res s = take_status res (env.get_status s).0 host target

  abbrev read_state : S → S
  read_state s = (env.get_status s).1

  module _ (fuel deadline : ℕ) (res : WaitResult) (s : S) where
    abbrev round : WaitEnd × S
    round = wait_rounds env (suc fuel) host target deadline res s

    round_met :
        (next_result res s).met ≡ true → round ≡ (ended (next_result res s) none, read_state s)
    unfolding wait_rounds
    round_met m = simp m

    round_late :
        (next_result res s).met ≡ false
        → ltb deadline (env.now (read_state s)) ≡ true
        → round ≡ (ended (next_result res s) none, read_state s)
    unfolding wait_rounds
    round_late m l = simp (m, l)

    round_cancelled :
        (x : GoError)
        → (next_result res s).met ≡ false
        → ltb deadline (env.now (read_state s)) ≡ false
        → (env.pause (read_state s)).0 ≡ some x
        → round ≡ (ended (next_result res s) (some x), (env.pause (read_state s)).1)
    unfolding wait_rounds
    round_cancelled x m l p = simp (m, l, p)

    round_again :
        (next_result res s).met ≡ false
        → ltb deadline (env.now (read_state s)) ≡ false
        → (env.pause (read_state s)).0 ≡ none
        → round
          ≡ wait_rounds env fuel host target deadline
              (next_result res s)
              (env.pause (read_state s)).1
    unfolding wait_rounds
    round_again m l p = simp (m, l, p)

  -- From an end that is written out to the end that the caller has.
  same_end :
      (deadline : ℕ) (a b : WaitResult) (c d : Option GoError) (s t : S) (p : WaitEnd × S)
      → p ≡ (ended a c, s)
      → p ≡ (ended b d, t)
      → Conclusive deadline a c s
      → Conclusive deadline b d t
  same_end deadline a b c d s t p e f h =
      let r : a ≡ b = cc in
      let k : c ≡ d = cc in
      let u : s ≡ t = cc in
      subst (λ z. Conclusive deadline b d z) u
        (subst (λ z. Conclusive deadline b z s) k (subst (λ z. Conclusive deadline z c s) r h))

  wait_rounds-Conclusive :
      (fuel deadline : ℕ) (res res' : WaitResult) (cancelled : Option GoError) (s s' : S)
      → IsSound res
      → res.met ≡ false
      → wait_rounds env fuel host target deadline res s ≡ (ended res' cancelled, s')
      → Conclusive deadline res' cancelled s'
  unfolding wait_rounds
  wait_rounds-Conclusive zero deadline res res' c s s' h n e = absurd (cc)
  wait_rounds-Conclusive (suc fuel) deadline res res' c s s' h n e =
      let res1 = next_result res s in
      let s1 = read_state s in
      let sound = take_status-IsSound res (env.get_status s).0 host target h in
      elim (Bool-cases res1.met) [
        | inl m ↦
            let (status, read, good) = take_status-met res (env.get_status s).0 host target n m in
            same_end deadline res1 res' none c s1 s' _ (round_met fuel deadline res s m) e (
              sound,
              λ _. ((s, status, pair_eq (env.get_status s) (ok status) read, good), refl),
              λ f. absurd (cc),
              λ y q. absurd (cc),
            )
        | inr m ↦ elim (Bool-cases (ltb deadline (env.now s1))) [
          | inl l ↦
              same_end deadline res1 res' none c s1 s' _ (round_late fuel deadline res s m l) e (
                sound,
                λ f. absurd (cc),
                λ _. inl (ltb→lt deadline (env.now s1) l),
                λ y q. absurd (cc),
              )
          | inr l ↦ elim (Option-cases (env.pause s1).0) [
            | inr (x, p) ↦
                same_end deadline res1 res' (some x) c (env.pause s1).1 s' _
                  (round_cancelled fuel deadline res s x m l p) e
                  (
                    sound,
                    λ f. absurd (cc),
                    λ _. inr (x, refl),
                    λ y q.
                        (s1, pair_eq (env.pause s1) (some x) p ∙ ap (λ z. (z, (env.pause s1).1)) q),
                  )
            | inl p ↦
                wait_rounds-Conclusive fuel deadline res1 res' c (env.pause s1).1 s' sound m
                  (sym (round_again fuel deadline res s m l p) ∙ e)
          ]
        ]
      ]

  -- The wait ends in one of three ways: the member has met its target, and then the status that
  -- the wait read last said so and no error is returned; or the target was not met and the deadline has
  -- passed; or the context has ended. An error that is returned is always the one with which the
  -- context ended the last pause, never one of replSetGetStatus. A member that met its target counts
  -- as reachable, and one that counts as reachable as observed.
  pub wait_for_member_state_lem :
      (fuel timeout : ℕ) (res : WaitResult) (cancelled : Option GoError) (s s' : S)
      → wait_for_member_state env fuel host target timeout s ≡ (ended res cancelled, s')
      → Conclusive (env.now s + timeout) res cancelled s'
  unfolding wait_for_member_state
  wait_for_member_state_lem fuel timeout res c s s' e =
      wait_rounds-Conclusive fuel (env.now s + timeout) no_result res c s s'
        (record { met_reachable = λ m. absurd (cc); reachable_observed = λ m. absurd (cc) }) refl e
