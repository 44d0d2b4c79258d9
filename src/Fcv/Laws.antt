-- ===== src/Fcv/Laws.antt =====
-- What Create and Update of mongodb/resource_fcv.go leave in the data, and the warnings they give.
use terraform_provider_mongo.Prelude.{
  String, none, List, ◌≡◌, sym, ap, ◌∙◌, arith, ok, Result-cases, Option-cases, inl, inr,
}
use terraform_provider_mongo.Fcv.{
  FcvData, FcvServer, FcvWarning, get_fcv, read_fcv, warn_of_change, create_fcv,
}

-- The version that a cluster has: setting it works when it is accepted, and it is shown.
pub record KeepsVersion {S : Type 0} (server : FcvServer S) (version_of : S → String) : Type 0 where
  pub accepted :
      (v : String) (s : S) → (server.set_fcv v s).0 ≡ none → version_of (server.set_fcv v s).1 ≡ v
  pub shown : (s : S) (v : String) → get_fcv (server.show_fcv s).0 ≡ ok v → v ≡ version_of s

module _ {S : Type 0} (server : FcvServer S) (d : FcvData) (s : S) where
  abbrev warned : List FcvWarning × S
  warned = warn_of_change server d s

  create_accepted :
      (create_fcv server d s).0.failure ≡ none
      → ((server.set_fcv d.version warned.1).0 ≡ none)
        × (create_fcv server d s
            ≡ read_fcv server warned.0
                (record d { id = "fcv" })
                (server.set_fcv d.version warned.1).1)
  unfolding create_fcv
  create_accepted e = elim (Option-cases (server.set_fcv d.version warned.1).0) [
    | inl p ↦ (p, ground (arith, p))
    | inr (x, p) ↦ absurd (ground (arith, e, p))
  ]

  read_shown :
      (ws : List FcvWarning) (d' : FcvData) (s' : S)
      → (read_fcv server ws d' s').0.failure ≡ none
      → (v : String) × (get_fcv (server.show_fcv s').0 ≡ ok v)
        × ((read_fcv server ws d' s').0.data_after ≡ record d' { version = v })
        × ((read_fcv server ws d' s').0.warnings ≡ ws)
  unfolding read_fcv
  read_shown ws d' s' e = elim (Result-cases (get_fcv (server.show_fcv s').0)) [
    | inl (x, p) ↦ absurd (ground (arith, e, p))
    | inr (v, p) ↦ (v, p, ground (arith, p), ground (arith, p))
  ]

  -- Create and Update, where they succeed, have set the planned version: it is the one that Read finds and
  -- records, under the resource's fixed id.
  pub create_fcv_lem :
      (version_of : S → String)
      → KeepsVersion server version_of
      → (create_fcv server d s).0.failure ≡ none
      → (create_fcv server d s).0.data_after ≡ record d { id = "fcv" }
  create_fcv_lem version_of law e =
      let (p, same_run) = create_accepted e in
      let s2 = (server.set_fcv d.version warned.1).1 in
      let (v, q, data_same, _) =
        read_shown warned.0 (record d { id = "fcv" }) s2
          (sym (ap (λ r. r.0.failure) same_run) ∙ e) in
      let planned : v ≡ d.version = law.shown s2 v q ∙ law.accepted d.version warned.1 p in
      ap (λ r. r.0.data_after) same_run
      ∙ data_same
      ∙ ap (λ x. record d { id = "fcv"; version = x }) planned
