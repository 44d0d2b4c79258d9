-- ===== src/Reconcile/Settled/One.antt =====
-- What settleMember (mongodb/shard_members.go) has done for its block when it returns no error.
use terraform_provider_mongo.Prelude.{
  Bool, true, false, Option, none, some, ◌&&◌, ◌≡◌, ◌⊎◌, inl, inr, refl, sym, ◌∙◌, ap, arith, ℤ,
  pos, int_beq, int_beq_iff, float_beq, zero_float, float_beq_sym, ok, err, Result-cases,
  Option-cases, Bool-cases,
}
use terraform_provider_mongo.Errors.{GoError}
use terraform_provider_mongo.ReplSet.{ConfigMember, ConfigMembers, RsConfig, deref_int}
use terraform_provider_mongo.Members.{
  MemberOverride, staged_member, build_config_member, needs_promotion,
}
use terraform_provider_mongo.Wait.{WaitResult, wait_target_for}
use terraform_provider_mongo.Reconcile.{
  apply, MemberAddOps, MemberPending, first_member, promote_first, promoted, with_members,
  promote_member, settle_cancelled, settle_unmet, settle_met, settle_member,
}
use terraform_provider_mongo.Reconcile.Server.{IsReplicaSet}
use terraform_provider_mongo.Reconcile.Settled.First.{first-promote_first}

-- The member has the votes and the priority of its block.
pub record IsSettled (o : MemberOverride) (m : ConfigMember) : Type 0 where
  pub votes_set : deref_int m.votes ≡ o.votes
  pub priority_set : (float_beq m.priority o.priority ≡ true) ⊎ (m.priority ≡ o.priority)

-- A staged member whose block asks for no more is settled.
pub staged-IsSettled :
    (o : MemberOverride) (id : ℤ) → needs_promotion o ≡ false → IsSettled o (staged_member o id)
unfolding needs_promotion staged_member build_config_member
staged-IsSettled o id n = elim (Bool-cases o.arbiter_only) [
  | inl a ↦ record { votes_set = ground arith; priority_set = inr (ground arith) }
  | inr a ↦ record {
    votes_set = ground (arith, int_beq_iff o.votes (pos 0));
    priority_set = inl (ground (arith, float_beq_sym o.priority zero_float));
  }
]

module _ {S : Type 0} (ops : MemberAddOps S) (live : S → ConfigMembers)
    (set : IsReplicaSet ops live) (o : MemberOverride) where
  -- The first member of the host is the one given.
  abbrev Holds : S → ConfigMember → Type 0
  Holds s m = first_member o.host (live s) ≡ some m

  promote_same :
      (s : S) (cfg : RsConfig) (m : ConfigMember)
      → (ops.get_config apply s).0 ≡ ok cfg
      → first_member o.host cfg.members ≡ some m
      → (float_beq m.priority o.priority && int_beq (deref_int m.votes) o.votes) ≡ true
      → (promote_member ops o s).1 ≡ (ops.get_config apply s).1
  unfolding promote_member
  promote_same s cfg m p f e = ground arith

  promote_set :
      (s : S) (cfg : RsConfig) (m : ConfigMember)
      → (ops.get_config apply s).0 ≡ ok cfg
      → first_member o.host cfg.members ≡ some m
      → (float_beq m.priority o.priority && int_beq (deref_int m.votes) o.votes) ≡ false
      → (promote_member ops o s).0 ≡ none
      → ((promote_member ops o s).1
          ≡ (ops.set_config apply
              (with_members cfg (promote_first o cfg.members))
              (ops.get_config apply s).1).1)
        × ((ops.set_config apply
              (with_members cfg (promote_first o cfg.members))
              (ops.get_config apply s).1).0
            ≡ none)
  unfolding promote_member
  promote_set s cfg m p f e n = (ground arith, ground arith)

  promote_unread :
      (s : S) (e : GoError)
      → (ops.get_config apply s).0 ≡ err e
      → (promote_member ops o s).0 ≡ none
      → ⊥
  unfolding promote_member
  promote_unread s e p n = ground arith

  promoting_settles :
      (s : S) (m : ConfigMember)
      → Holds s m
      → (promote_member ops o s).0 ≡ none
      → (m' : ConfigMember) × Holds (promote_member ops o s).1 m' × IsSettled o m'
  promoting_settles s m h n = elim (Result-cases (ops.get_config apply s).0) [
    | inl (e, p) ↦ absurd (promote_unread s e p n)
    | inr (cfg, p) ↦
        let f : first_member o.host cfg.members ≡ some m =
          ap (first_member o.host) (set.get_ok apply s cfg p) ∙ h in
        elim (Bool-cases (float_beq m.priority o.priority && int_beq (deref_int m.votes) o.votes)) [
          | inl e ↦ (
            m,
            ap (λ z. first_member o.host (live z)) (promote_same s cfg m p f e)
                ∙ ap (first_member o.host) (set.get_keeps apply s)
                ∙ h,
            record {
              votes_set = (int_beq_iff (deref_int m.votes) o.votes).0 (ground arith);
              priority_set = inl (ground arith);
            },
          )
          | inr e ↦
              let (state, accepted) = promote_set s cfg m p f e n in
              let s1 = (ops.get_config apply s).1 in
              let cfg' = with_members cfg (promote_first o cfg.members) in
              (
                promoted o m,
                ap (λ z. first_member o.host (live z)) state
                    ∙ ap (first_member o.host) (set.set_ok apply cfg' s1 accepted)
                    ∙ first-promote_first o cfg.members m f,
                record { votes_set = refl; priority_set = inr refl },
              )
        ]
  ]

  -- The member is settled, or is left pending as it was.
  abbrev pub SettledOr : ConfigMember → Option MemberPending → ConfigMember → Type 0
  SettledOr m q m' =
      IsSettled o m' ⊎ ((p : MemberPending) × (q ≡ some p) × (p.host ≡ o.host) × (m' ≡ m))

  abbrev waited : S → (WaitResult × Option GoError) × S
  waited s = ops.wait o.host (wait_target_for o) s

  cancelled_fails :
      (added : Bool) (s : S) (e : GoError) (q : Option MemberPending)
      → (waited s).0.1 ≡ some e
      → (settle_member ops o added s).0 ≡ ok q
      → ⊥
  unfolding settle_member settle_cancelled
  cancelled_fails added s e q c r = ground arith

  met_settles :
      (s : S) (m : ConfigMember) (q : Option MemberPending)
      → Holds s m
      → (needs_promotion o ≡ false → IsSettled o m)
      → (settle_met ops o s).0 ≡ ok q
      → (m' : ConfigMember) × Holds (settle_met ops o s).1 m' × SettledOr m q m'
  unfolding settle_met
  met_settles s m q h z r = elim (Bool-cases (needs_promotion o)) [
    | inr n ↦ (m, rw n h, inl (z n))
    | inl n ↦
        let fine : (promote_member ops o s).0 ≡ none = ground arith in
        let (m', h', d) = promoting_settles s m h fine in (m', rw n h', inl d)
  ]

  left_pending : WaitResult → MemberPending
  left_pending res = record {
    host = o.host;
    target = wait_target_for o;
    last = res.last;
    votes = o.votes;
    priority = o.priority;
    timeout = ops.timeout;
  }

  unmet_ok :
      (added : Bool) (res : WaitResult) (s : S) (q : Option MemberPending)
      → (settle_unmet ops o added res s).0 ≡ ok q
      → (q ≡ some (left_pending res)) × ((settle_unmet ops o added res s).1 ≡ s)
  unfolding settle_unmet left_pending
  unmet_ok added res s q r = (ground arith, ground arith)

  left_pending_host : (res : WaitResult) → (left_pending res).host ≡ o.host
  unfolding left_pending
  left_pending_host res = refl

  member_met :
      (added : Bool) (s : S)
      → (waited s).0.1 ≡ none
      → (waited s).0.0.met ≡ true
      → settle_member ops o added s ≡ settle_met ops o (waited s).1
  unfolding settle_member
  member_met added s c t = ground arith

  member_unmet :
      (added : Bool) (s : S)
      → (waited s).0.1 ≡ none
      → (waited s).0.0.met ≡ false
      → settle_member ops o added s ≡ settle_unmet ops o added (waited s).0.0 (waited s).1
  unfolding settle_member
  member_unmet added s c t = ground arith

  unmet_pending :
      (added : Bool) (res : WaitResult) (s : S) (m : ConfigMember) (q : Option MemberPending)
      → Holds s m
      → (settle_unmet ops o added res s).0 ≡ ok q
      → (m' : ConfigMember) × Holds (settle_unmet ops o added res s).1 m' × SettledOr m q m'
  unmet_pending added res s m q h r =
      let (e, same) = unmet_ok added res s q r in
      (
        m,
        ap (λ z. first_member o.host (live z)) same ∙ h,
        inr (left_pending res, e, left_pending_host res, refl),
      )

  pub settling_settles :
      (added : Bool) (s : S) (m : ConfigMember) (q : Option MemberPending)
      → Holds s m
      → (needs_promotion o ≡ false → IsSettled o m)
      → (settle_member ops o added s).0 ≡ ok q
      → (m' : ConfigMember) × Holds (settle_member ops o added s).1 m' × SettledOr m q m'
  settling_settles added s m q h z r =
      let s1 = (waited s).1 in
      let res = (waited s).0.0 in
      let h1 : Holds s1 m =
        ap (first_member o.host) (set.wait_keeps o.host (wait_target_for o) s) ∙ h in
      elim (Option-cases (waited s).0.1) [
        | inr (e, c) ↦ absurd (cancelled_fails added s e q c r)
        | inl c ↦ elim (Bool-cases res.met) [
          | inl t ↦
              let eq = member_met added s c t in
              let (m', h', d) = met_settles s1 m q h1 z (sym (ap (λ x. x.0) eq) ∙ r) in
              (m', ap (λ x. first_member o.host (live x.1)) eq ∙ h', d)
          | inr t ↦
              let eq = member_unmet added s c t in
              let (m', h', d) = unmet_pending added res s1 m q h1 (sym (ap (λ x. x.0) eq) ∙ r) in
              (m', ap (λ x. first_member o.host (live x.1)) eq ∙ h', d)
        ]
      ]
