-- ===== src/Reconcile/Settled.antt =====
-- What AddMembersSequentially (mongodb/shard_members.go) has done for every block when it returns no
-- error.
mod First
pub mod One
use mathlib.Core.List.{Mem, mem-cons}
use mathlib.Core.Logic.Or
use terraform_provider_mongo.Prelude.{
  String, Bool, true, false, Option, none, some, List, [], ◌∷◌, ◌++◌, ◌||◌, ◌==◌, ◌≡◌, ◌⊎◌, inl,
  inr, refl, sym, ◌∙◌, ap, subst, arith, eq_iff, eq_refl, ℤ, map, contains, contains-append,
  Distinct, All, Result, ok, err, Option-cases, Result-cases, Bool-cases, if◌then◌else◌,
}
use terraform_provider_mongo.Errors.{GoError}
use terraform_provider_mongo.ReplSet.{ConfigMember, ConfigMembers, RsConfig}
use terraform_provider_mongo.Members.{
  MemberOverride, override_hosts, next_member_id, staged_member, needs_promotion,
}
use terraform_provider_mongo.Reconcile.{
  apply, MemberAddOps, MemberPending, MemberError, first_member, with_members, settle_member,
}
use terraform_provider_mongo.Reconcile.Loops.{
  and_pending, add_member, add_from, add_members_sequentially,
}
use terraform_provider_mongo.Reconcile.Server.{IsReplicaSet}
use terraform_provider_mongo.Reconcile.Steps.{Steps, here}
use terraform_provider_mongo.Reconcile.Evolution.{adding_all}
use terraform_provider_mongo.Reconcile.Evolution.Moves.{settling, adding_one}
use terraform_provider_mongo.Reconcile.Evolution.States.{
  add_call, add_done, add_go, added_state, staged_host,
}
use First.{first-append, Steps-first}
use One.{IsSettled, staged-IsSettled, settling_settles, SettledOr}

abbrev pub pending_hosts : List MemberPending → List String
pending_hosts = map (λ p. p.host)

-- No member has the host of a block.
abbrev pub Absent : ConfigMembers → List MemberOverride → Type 0
Absent ms = All (λ o. first_member o.host ms ≡ none)

-- The member of the block has its votes and priority, or the block is reported as pending.
abbrev pub IsDone : ConfigMembers → List MemberPending → MemberOverride → Type 0
IsDone ms pending o =
    (m : ConfigMember) × (first_member o.host ms ≡ some m)
    × (IsSettled o m ⊎ (contains (pending_hosts pending) o.host ≡ true))

Absent-kept :
    (h : String) (os : List MemberOverride) (ms ms' : ConfigMembers)
    → contains (override_hosts os) h ≡ false
    → ((k : String) → contains (h ∷ []) k ≡ false → first_member k ms' ≡ first_member k ms)
    → Absent ms os
    → Absent ms' os
Absent-kept h [] ms ms' c same a = tt
Absent-kept h (o ∷ os) ms ms' c same (a, rest) = (
  same o.host (ground (arith, eq_iff h o.host, eq_iff o.host h)) ∙ a,
  Absent-kept h os ms ms' (ground arith) same rest,
)

module _ {S : Type 0} (ops : MemberAddOps S) (live : S → ConfigMembers)
    (set : IsReplicaSet ops live) where
  pending_kept :
      (h : String) (pending : List MemberPending) (q : Option MemberPending)
      → contains (pending_hosts pending) h ≡ true
      → contains (pending_hosts (and_pending pending q)) h ≡ true
  pending_kept h pending none c = c
  pending_kept h [] (some p) c = absurd (cc)
  pending_kept h (x ∷ ps) (some p) c = ground (arith, pending_kept h ps (some p))

  pending_new :
      (pending : List MemberPending) (p : MemberPending)
      → contains (pending_hosts (and_pending pending (some p))) p.host ≡ true
  pending_new [] p = ground (arith, eq_refl p.host)
  pending_new (x ∷ ps) p = ground (arith, pending_new ps p)

  add_read :
      (o : MemberOverride) (s : S) (e : GoError)
      → (ops.get_config apply s).0 ≡ err e
      → (add_member ops o s).0 ≡ none
      → ⊥
  unfolding add_member
  add_read o s e p n = ground arith

  add_accepted :
      (o : MemberOverride) (s : S) (cfg : RsConfig)
      → (ops.get_config apply s).0 ≡ ok cfg
      → (add_member ops o s).0 ≡ none
      → (add_call ops o cfg s).0 ≡ none
  unfolding add_member
  add_accepted o s cfg p n = ground arith

  -- What the add of one block leaves.
  added_holds :
      (o : MemberOverride) (s : S)
      → first_member o.host (live s) ≡ none
      → (add_member ops o s).0 ≡ none
      → (id : ℤ) × (first_member o.host (live (added_state ops o s)) ≡ some (staged_member o id))
  added_holds o s a n = elim (Result-cases (ops.get_config apply s).0) [
    | inl (e, p) ↦ absurd (add_read o s e p n)
    | inr (cfg, p) ↦
        let id = next_member_id cfg.members in
        let staged = staged_member o id in
        let accepted = add_accepted o s cfg p n in
        let now : live (added_state ops o s) ≡ cfg.members ++ staged ∷ [] =
          ap live (add_done ops o s cfg p accepted)
          ∙ set.set_ok apply (with_members cfg (cfg.members ++ staged ∷ []))
              (ops.get_config apply s).1 accepted in
        let free : first_member o.host cfg.members ≡ none =
          ap (first_member o.host) (set.get_ok apply s cfg p) ∙ a in
        (
          id,
          ap (first_member o.host) now
              ∙ first-append o.host cfg.members staged free (staged_host o id),
        )
  ]

  -- The loop over the blocks that follow leaves the members of other hosts.
  rest_keeps :
      (pending : List MemberPending) (os : List MemberOverride) (s : S) (h : String)
      → contains (override_hosts os) h ≡ false
      → first_member h (live (add_from ops pending os s).1) ≡ first_member h (live s)
  rest_keeps pending os s h c =
      Steps-first ops [] os h c
        (adding_all ops live set [] os (live s) pending os s (λ o m. m) here)

  one_keeps :
      (o : MemberOverride) (s : S) (h : String)
      → contains (o.host ∷ []) h ≡ false
      → first_member h (live (settle_member ops o true (added_state ops o s)).1)
        ≡ first_member h (live s)
  one_keeps o s h c =
      let mine : Mem o (o ∷ []) = mem-cons.1 (Or.inl refl) in
      Steps-first ops [] (o ∷ []) h c (
        settling ops live set [] (o ∷ []) (live s) o true mine (λ _. mine) (added_state ops o s)
          (adding_one ops live set [] (o ∷ []) (live s) o s mine here))

  abbrev after_one : MemberOverride → S → S
  after_one o s = (settle_member ops o true (added_state ops o s)).1

  IsDone-of :
      (o : MemberOverride) (pending : List MemberPending) (q : Option MemberPending)
      (ms : ConfigMembers) (m m' : ConfigMember)
      → first_member o.host ms ≡ some m'
      → SettledOr ops live set o m q m'
      → IsDone ms (and_pending pending q) o
  IsDone-of o pending q ms m m' h (inl d) = (m', h, inl d)
  IsDone-of o pending q ms m m' h (inr (p, e, same, _)) = (
    m',
    h,
    inr (
        rw e (
          subst (λ k. contains (pending_hosts (and_pending pending (some p))) k ≡ true) same
            (pending_new pending p))),
  )

  -- A loop that returns no error has added and settled its first block, and goes on.
  go_on :
      (pending : List MemberPending) (o : MemberOverride) (os : List MemberOverride) (s : S)
      → (add_from ops pending (o ∷ os) s).0.1 ≡ none
      → (q : Option MemberPending) × ((add_member ops o s).0 ≡ none)
        × ((settle_member ops o true (added_state ops o s)).0 ≡ ok q)
        × (add_from ops pending (o ∷ os) s
            ≡ add_from ops (and_pending pending q) os (after_one o s))
  unfolding add_from
  go_on pending o os s n = elim (Option-cases (add_member ops o s).0) [
    | inr (e, p) ↦ absurd (ground (arith, p, n))
    | inl a ↦ elim (Result-cases (settle_member ops o true (added_state ops o s)).0) [
      | inl (e, p) ↦ absurd (ground (arith, p, a, n))
      | inr (q, p) ↦ (q, a, p, ground (arith, a, p))
    ]
  ]

  all_pending_kept :
      (h : String) (pending : List MemberPending) (os : List MemberOverride) (s : S)
      → (add_from ops pending os s).0.1 ≡ none
      → contains (pending_hosts pending) h ≡ true
      → contains (pending_hosts (add_from ops pending os s).0.0) h ≡ true
  unfolding add_from
  all_pending_kept h pending [] s n c = c
  all_pending_kept h pending (o ∷ os) s n c =
      let (q, _, _, e) = go_on pending o os s n in
      subst (λ r. contains (pending_hosts r.0.0) h ≡ true) (sym e)
        (all_pending_kept h (and_pending pending q) os (after_one o s) (sym (ap (λ r. r.0.1) e) ∙ n)
          (pending_kept h pending q c))

  -- What is done for a block stays done through the rest of the loop.
  IsDone-rest :
      (o : MemberOverride) (pending : List MemberPending) (os : List MemberOverride) (s : S)
      → contains (override_hosts os) o.host ≡ false
      → (add_from ops pending os s).0.1 ≡ none
      → IsDone (live s) pending o
      → IsDone (live (add_from ops pending os s).1) (add_from ops pending os s).0.0 o
  IsDone-rest o pending os s c n (m, h, d) = (
    m,
    rest_keeps pending os s o.host c ∙ h,
    elim d [ inl z ↦ inl z | inr k ↦ inr (all_pending_kept o.host pending os s n k) ],
  )

  adding_settles :
      (pending : List MemberPending) (os : List MemberOverride) (s : S)
      → Distinct (override_hosts os)
      → Absent (live s) os
      → (add_from ops pending os s).0.1 ≡ none
      → All (IsDone (live (add_from ops pending os s).1) (add_from ops pending os s).0.0) os
  adding_settles pending [] s d a n = tt
  adding_settles pending (o ∷ os) s (d, ds) (a, rest) n =
      let (q, added, settled, e) = go_on pending o os s n in
      let n' = sym (ap (λ r. r.0.1) e) ∙ n in
      let (id, h) = added_holds o s a added in
      let (m', h', z) =
        settling_settles ops live set o true (added_state ops o s) (staged_member o id) q h
          (staged-IsSettled o id) settled in
      let one = IsDone-of o pending q (live (after_one o s)) (staged_member o id) m' h' z in
      let others = Absent-kept o.host os (live s) (live (after_one o s)) d (one_keeps o s) rest in
      subst (λ r. All (IsDone (live r.1) r.0.0) (o ∷ os)) (sym e)
        (
          IsDone-rest o (and_pending pending q) os (after_one o s) d n' one,
          adding_settles (and_pending pending q) os (after_one o s) ds others n',
        )

  -- When the adds return no error, for blocks of distinct hosts that the set does not hold yet, every
  -- block has a member of its host in the set, which has the votes and the priority of the block, or
  -- the block's host is among the members reported as pending.
  pub adds_settled :
      (adds : List MemberOverride) (s : S)
      → Distinct (override_hosts adds)
      → Absent (live s) adds
      → (add_members_sequentially ops adds s).0.1 ≡ none
      → All
          (IsDone
            (live (add_members_sequentially ops adds s).1)
            (add_members_sequentially ops adds s).0.0)
          adds
  unfolding add_members_sequentially
  adds_settled adds s d a n = adding_settles [] adds s d a n
