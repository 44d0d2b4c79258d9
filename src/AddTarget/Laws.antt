-- ===== src/AddTarget/Laws.antt =====
-- Which hosts PreflightAddTargets (mongodb/shard_members.go) lets through.
use terraform_provider_mongo.Prelude.{
  String, true, false, none, List, [], ◌∷◌, ◌≡◌, ◌≢◌, ◌↔◌, inl, inr, refl, sym, ◌∙◌, subst, err≢ok,
  arith, eq_iff, All, Result, ok, err, Result-cases,
}
use terraform_provider_mongo.Errors.{GoError}
use terraform_provider_mongo.ReplSet.{IsMasterResp}
use terraform_provider_mongo.Discovery.{classify_connection_type}
use terraform_provider_mongo.Members.{MemberOverride}
use terraform_provider_mongo.AddTarget.{accepted, unknown, check_add_target, preflight_add_targets}

-- A mongod that runs with --replSet and holds no configuration that it belongs to.
pub record IsFresh (resp : IsMasterResp) : Type 0 where
  pub not_mongos : resp.msg ≢ "isdbgrid"
  pub no_set : resp.set_name ≡ ""
  pub replicating : resp.is_replica_set ≡ true

-- A host that answers is fresh; one that does not answer is not to be an arbiter.
abbrev pub MayAdd : (String → Result GoError IsMasterResp) → MemberOverride → Type 0
MayAdd probe o =
    ((resp : IsMasterResp) → probe o.host ≡ ok resp → IsFresh resp)
    × ((e : GoError) → probe o.host ≡ err e → o.arbiter_only ≡ false)

check_accepted :
    (set : String) (resp : IsMasterResp)
    → set ≢ ""
    → (((check_add_target set (ok resp)).0 ≡ accepted) ↔ IsFresh resp)
      × ((check_add_target set (ok resp)).0 ≢ unknown)
unfolding check_add_target classify_connection_type
check_accepted set resp n = (
  (
    λ e. record {
      not_mongos =
          ground
            (arith, eq_iff resp.msg "isdbgrid", eq_iff resp.set_name "", eq_iff resp.set_name set);
      no_set =
          ground
            (arith, eq_iff resp.msg "isdbgrid", eq_iff resp.set_name "", eq_iff resp.set_name set);
      replicating =
          ground
            (arith, eq_iff resp.msg "isdbgrid", eq_iff resp.set_name "", eq_iff resp.set_name set);
    },
    λ f. ground (
      arith,
      eq_iff resp.msg "isdbgrid",
      eq_iff resp.set_name "",
      eq_iff resp.set_name set,
      f.not_mongos,
      f.no_set,
      f.replicating,
      n,
    ),
  ),
  ground arith,
)

module _ (set : String) (probe : String → Result GoError IsMasterResp) (o : MemberOverride) where
  abbrev Passes : List MemberOverride → Type 0
  Passes os = preflight_add_targets set os probe ≡ none

  no_answer_step :
      (os : List MemberOverride) (x : GoError)
      → probe o.host ≡ err x
      → Passes (o ∷ os) ↔ ((o.arbiter_only ≡ false) × Passes os)
  unfolding preflight_add_targets check_add_target
  no_answer_step os x p =
      (λ e. (ground (arith, p), ground (arith, p)), λ (a, rest). ground (arith, p, a, rest))

  answer_step :
      (os : List MemberOverride) (resp : IsMasterResp)
      → set ≢ ""
      → probe o.host ≡ ok resp
      → Passes (o ∷ os) ↔ (IsFresh resp × Passes os)
  unfolding preflight_add_targets
  answer_step os resp n p =
      let (fresh, known) = check_accepted set resp n in
      (
        λ e.
            let good : (check_add_target set (ok resp)).0 ≡ accepted = ground (arith, p, known) in
            (fresh.0 good, ground (arith, p, good)),
        λ (f, rest). ground (arith, p, fresh.1 f, rest),
      )

  MayAdd-iff :
      (os : List MemberOverride) → set ≢ "" → Passes (o ∷ os) ↔ (MayAdd probe o × Passes os)
  MayAdd-iff os n = elim (Result-cases (probe o.host)) [
    | inl (x, p) ↦
        let step = no_answer_step os x p in
        (
          λ e. let (a, rest) = step.0 e in ((λ r q. absurd (err≢ok (sym p ∙ q)), λ y q. a), rest),
          λ (m, rest). step.1 (m.1 x p, rest),
        )
    | inr (resp, p) ↦
        let step = answer_step os resp n p in
        (
          λ e.
              let (f, rest) = step.0 e in
              (
                (
                  λ r q. let same : resp ≡ r = cc in subst IsFresh same f,
                  λ y q. absurd (err≢ok (sym q ∙ p)),
                ),
                rest,
              ),
          λ (m, rest). step.1 (m.0 resp p, rest),
        )
  ]

-- No host is refused exactly when each that answers is a mongod with --replSet and no configuration
-- that it belongs to, and none that does not answer is to be an arbiter. (The set has a name.)
pub preflight_iff :
    (set : String) (probe : String → Result GoError IsMasterResp) (os : List MemberOverride)
    → set ≢ ""
    → (preflight_add_targets set os probe ≡ none) ↔ All (MayAdd probe) os
unfolding preflight_add_targets
preflight_iff set probe [] n = (λ e. tt, λ a. refl)
preflight_iff set probe (o ∷ os) n =
    let step = MayAdd-iff set probe o os n in
    let ih = preflight_iff set probe os n in
    (λ e. let (m, rest) = step.0 e in (m, ih.0 rest), λ a. step.1 (a.0, ih.1 a.1))
