-- ===== src/Reconcile/Evolution/Moves.antt =====
-- Each settled member and each add of mongodb/shard_members.go is a few steps.
use mathlib.Core.List.{Mem}
use terraform_provider_mongo.Prelude.{
  Bool, true, false, none, List, [], ◌∷◌, ◌++◌, ◌≡◌, ◌⊎◌, inl, inr, refl, sym, ◌∙◌, subst, arith,
  Option-cases, Result-cases, Bool-cases, if◌then◌else◌, ◌&&◌,
}
use terraform_provider_mongo.Errors.{GoError}
use terraform_provider_mongo.ReplSet.{ConfigMember, ConfigMembers}
use terraform_provider_mongo.Members.{
  MemberOverride, next_member_id, staged_member, needs_promotion,
}
use terraform_provider_mongo.Wait.{secondary, wait_target_for}
use terraform_provider_mongo.Reconcile.{
  Context, apply, rollback, MemberAddOps, without_host, promote_first, with_members,
  remove_member_by_host, settle_member, never_seen_up,
}
use terraform_provider_mongo.Reconcile.Loops.{undo_add, add_member}
use terraform_provider_mongo.Reconcile.Server.{IsReplicaSet}
use terraform_provider_mongo.Reconcile.Steps.{
  SeenSecondary, SeenDown, AddFailed, Step, Steps, add, promote, remove, next,
}
use terraform_provider_mongo.Reconcile.Evolution.States.{
  promotion_target, staged_host, settle_cancelled_step, settle_met_step, settle_unmet_step,
  cancelled_state, unmet_state, met_state, add_call, add_unread, add_done, add_undone,
}
use terraform_provider_mongo.Reconcile.Evolution.Live.{set_either, remove_live, promote_live}

module _ {S : Type 0} (ops : MemberAddOps S) (live : S → ConfigMembers)
    (set : IsReplicaSet ops live) where
  module _ (promotions adds : List MemberOverride) (ms0 : ConfigMembers) where
    -- The members have come from `ms0` by steps.
    abbrev pub From : S → Type 0
    From s = Steps ops promotions adds ms0 (live s)

    pub stay : (s s' : S) → live s' ≡ live s → From s → From s'
    stay s s' e f = subst (Steps ops promotions adds ms0) (sym e) f

    pub Step-to :
        (ms : ConfigMembers) (s s' : S)
        → (live s' ≡ live s) ⊎ (live s' ≡ ms)
        → Step ops promotions adds (live s) ms
        → From s
        → From s'
    Step-to ms s s' (inl e) st f = stay s s' e f
    Step-to ms s s' (inr e) st f = subst (Steps ops promotions adds ms0) (sym e) (next f st)

    pub From-if :
        (b : Bool) (s s' t : S)
        → t ≡ (if b then s else s')
        → (b ≡ true → From s)
        → (b ≡ false → From s')
        → From t
    From-if true s s' t e f g = subst From (sym e) (f refl)
    From-if false s s' t e f g = subst From (sym e) (g refl)

    pub removing :
        (c : Context) (o : MemberOverride) (s : S)
        → Mem o adds
        → SeenDown ops o ⊎ AddFailed ops o
        → From s
        → From (remove_member_by_host ops c o.host s).1
    removing c o s m why f =
        Step-to (without_host o.host (live s)) s _ (remove_live ops live set c o.host s)
          (remove o (live s) m why) f

    module _ (o : MemberOverride) (added_now : Bool) (known : Mem o (promotions ++ adds))
        (added : added_now ≡ true → Mem o adds) where
      pub seen_down :
          (s : S)
          → never_seen_up (ops.wait o.host (wait_target_for o) s).0.0 ≡ true
          → SeenDown ops o
      seen_down s e = (s, ground (arith, e), ground (arith, e))

      pub seen_secondary :
          (s : S)
          → needs_promotion o ≡ true
          → (ops.wait o.host (wait_target_for o) s).0.1 ≡ none
          → (ops.wait o.host (wait_target_for o) s).0.0.met ≡ true
          → SeenSecondary ops o.host
      seen_secondary s n c m =
          let target : wait_target_for o ≡ secondary = promotion_target o n in
          (s, rw target at m, rw target at c)

      pub settling : (s : S) → From s → From (settle_member ops o added_now s).1
      settling s f =
          let s1 = (ops.wait o.host (wait_target_for o) s).1 in
          let res = (ops.wait o.host (wait_target_for o) s).0.0 in
          let f1 = stay s s1 (set.wait_keeps o.host (wait_target_for o) s) f in
          elim (Option-cases (ops.wait o.host (wait_target_for o) s).0.1) [
            | inr (e, c) ↦
                From-if (added_now && never_seen_up res) _ s1 _
                  (settle_cancelled_step ops o added_now s e c
                    ∙ cancelled_state ops o added_now res e s1)
                  (λ b.
                    removing rollback o s1 (added (ground arith)) (inl (seen_down s (ground arith)))
                      f1)
                  (λ _. f1)
            | inl c ↦ elim (Bool-cases res.met) [
              | inl m ↦
                  From-if (needs_promotion o) _ s1 _
                    (settle_met_step ops o added_now s c m ∙ met_state ops o s1)
                    (λ n.
                      Step-to (promote_first o (live s1)) s1 _ (promote_live ops live set o s1)
                        (promote o (live s1) known n (seen_secondary s n c m)) f1)
                    (λ _. f1)
              | inr m ↦
                  From-if (added_now && never_seen_up res) _ s1 _
                    (settle_unmet_step ops o added_now s c m ∙ unmet_state ops o added_now res s1)
                    (λ b.
                      removing apply o s1 (added (ground arith)) (inl (seen_down s (ground arith)))
                        f1)
                    (λ _. f1)
            ]
          ]

    pub undoing :
        (o : MemberOverride) (id : ConfigMember) (e : GoError) (s : S)
        → id.host ≡ o.host
        → Mem o adds
        → AddFailed ops o
        → From s
        → From (undo_add ops o id e s).1
    unfolding undo_add
    undoing o m e s h a why f =
        subst (λ h. From (remove_member_by_host ops apply h s).1) (sym h)
          (removing apply o s a (inr why) f)

    pub adding_one :
        (o : MemberOverride) (s : S) → Mem o adds → From s → From (add_member ops o s).1
    adding_one o s a f =
        let s1 = (ops.get_config apply s).1 in
        let f1 = stay s s1 (set.get_keeps apply s) f in
        elim (Result-cases (ops.get_config apply s).0) [
          | inl (e, p) ↦ subst From (sym (add_unread ops o s e p)) f1
          | inr (cfg, p) ↦
              let staged = staged_member o (next_member_id cfg.members) in
              let now : cfg.members ≡ live s1 =
                set.get_ok apply s cfg p ∙ sym (set.get_keeps apply s) in
              let step =
                subst (λ ms. Step ops promotions adds ms (cfg.members ++ staged ∷ [])) now
                  (add o cfg.members a) in
              let f2 =
                Step-to (cfg.members ++ staged ∷ []) s1 (add_call ops o cfg s).1
                  (set_either ops live set apply (with_members cfg (cfg.members ++ staged ∷ [])) s1)
                  step f1 in
              elim (Option-cases (add_call ops o cfg s).0) [
                | inl q ↦ subst From (sym (add_done ops o s cfg p q)) f2
                | inr (e, q) ↦ subst From (sym (add_undone ops o s cfg e p q)) (
                    undoing o staged e (add_call ops o cfg s).1 (staged_host o _) a (s1, cfg, e, q)
                      f2)
              ]
        ]
