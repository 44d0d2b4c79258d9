-- ===== src/ReplSet/Oplog/Keeps.antt =====
-- ResizeOplogAcrossMembers (mongodb/replica_set_types.go) changes only what its callback changes.
use terraform_provider_mongo.Prelude.{
  ℕ, ◌+◌, String, Bool, List, [], ◌∷◌, ◌≡◌, refl, ap, ◌∙◌, arith, Result, ok, err, Result-cases,
  inl, inr, if◌then◌else◌,
}
use terraform_provider_mongo.Errors.{GoError}
use terraform_provider_mongo.ReplSet.{ConfigMembers}
use terraform_provider_mongo.ReplSet.Oplog.{
  oplog_member_hosts, resize_from, resize_oplog_across_members,
}

module _ {S L : Type 0} (live : S → L) (resize : String → S → Result GoError Bool × S)
    (keeps : (h : String) (s : S) → live (resize h s).1 ≡ live s) where
  resize_stop :
      (all hs : List String) (h : String) (n : ℕ) (s : S) (e : GoError)
      → (resize h s).0 ≡ err e
      → (resize_from resize all (h ∷ hs) n s).1 ≡ (resize h s).1
  unfolding resize_from
  resize_stop all hs h n s e p = ground arith

  resize_go :
      (all hs : List String) (h : String) (n : ℕ) (s : S) (done : Bool)
      → (resize h s).0 ≡ ok done
      → (resize_from resize all (h ∷ hs) n s).1
        ≡ (resize_from resize all hs (if done then n + 1 else n) (resize h s).1).1
  unfolding resize_from
  resize_go all hs h n s done p = ground arith

  resize_from-keeps :
      (all hosts : List String) (n : ℕ) (s : S) → live (resize_from resize all hosts n s).1 ≡ live s
  unfolding resize_from
  resize_from-keeps all [] n s = refl
  resize_from-keeps all (h ∷ hs) n s = elim (Result-cases (resize h s).0) [
    | inl (e, p) ↦ ap live (resize_stop all hs h n s e p) ∙ keeps h s
    | inr (done, p) ↦
        ap live (resize_go all hs h n s done p)
        ∙ resize_from-keeps all hs (if done then n + 1 else n) (resize h s).1
        ∙ keeps h s
  ]

  -- A part of the state that the callback keeps is kept by the fan-out.
  pub resize_oplog-keeps :
      (members : ConfigMembers) (primary_host : String) (s : S)
      → live (resize_oplog_across_members resize members primary_host s).1 ≡ live s
  unfolding resize_oplog_across_members
  resize_oplog-keeps members primary_host s =
      let hosts = oplog_member_hosts members primary_host in
      ground (arith, resize_from-keeps hosts hosts 0 s)
