-- ===== src/ReplSet/Oplog/Resize.antt =====
-- What ResizeOplogAcrossMembers (mongodb/replica_set_types.go) does on success and on failure, seen
-- through a `resize` that records the hosts it is called with.
use mathlib.Core.List.{append_assoc, append-nil}
use terraform_provider_mongo.Prelude.{
  ℕ, zero, suc, ◌+◌, ◌<◌, String, Bool, true, false, none, some, List, [], ◌∷◌, ◌++◌, ◌≡◌, sym, ◌∙◌,
  ap, arith, All, Result, ok, err, length, nat_beq, if◌then◌else◌, Result-cases, Bool-cases, inl,
  inr,
}
use terraform_provider_mongo.Errors.{GoError}
use terraform_provider_mongo.ReplSet.{ConfigMembers}
use terraform_provider_mongo.ReplSet.Oplog.{
  resizing, oplog_member_hosts, resize_from, resize_oplog_across_members,
}

-- A resize whose outcome depends on the host, and that records its calls.
abbrev pub recording :
    (String → Result GoError Bool) → String → List String → Result GoError Bool × List String
recording outcome host calls = (outcome host, calls ++ host ∷ [])

abbrev pub IsOk : Result GoError Bool → Type 0
IsOk r = (b : Bool) × (r ≡ ok b)

abbrev done_by : Result GoError Bool → ℕ
done_by (ok true) = 1
done_by _ = 0

-- How many of the hosts the outcome says were resized.
abbrev pub resized_of : (String → Result GoError Bool) → List String → ℕ
resized_of outcome [] = 0
resized_of outcome (h ∷ hs) = done_by (outcome h) + resized_of outcome hs

module _ (outcome : String → Result GoError Bool) where
  step_ok :
      (all hs : List String) (h : String) (n : ℕ) (calls : List String) (b : Bool)
      → outcome h ≡ ok b
      → resize_from (recording outcome) all (h ∷ hs) n calls
        ≡ resize_from (recording outcome) all hs (if b then n + 1 else n) (calls ++ h ∷ [])
  unfolding resize_from
  step_ok all hs h n calls b p = rw p

  step_err :
      (all hs : List String) (h : String) (n : ℕ) (calls : List String) (e : GoError)
      → outcome h ≡ err e
      → resize_from (recording outcome) all (h ∷ hs) n calls
        ≡ (some (resizing h e), calls ++ h ∷ [])
  unfolding resize_from
  step_err all hs h n calls e p = rw p

  count_ok :
      (h : String) (b : Bool) (n : ℕ) (hs : List String)
      → outcome h ≡ ok b
      → (if b then n + 1 else n) + resized_of outcome hs ≡ n + resized_of outcome (h ∷ hs)
  count_ok h true n hs p = rw p (omega arith)
  count_ok h false n hs p = rw p (omega arith)

  success_from :
      (all hosts : List String) (n : ℕ) (calls calls' : List String)
      → resize_from (recording outcome) all hosts n calls ≡ (none, calls')
      → (calls' ≡ calls ++ hosts)
        × All (λ h. IsOk (outcome h)) hosts
        × (0 < n + resized_of outcome hosts)
  unfolding resize_from
  success_from all [] zero calls calls' e = ground arith
  success_from all [] (suc n) calls calls' e = (cc (append-nil calls), tt, omega arith)
  success_from all (h ∷ hs) n calls calls' e = elim (Result-cases (outcome h)) [
    | inl (x, p) ↦ ground (arith, step_err all hs h n calls x p)
    | inr (b, p) ↦
        let n' = if b then n + 1 else n in
        let (q, oks, more) =
          success_from all hs n' (calls ++ h ∷ []) calls'
            (sym (step_ok all hs h n calls b p) ∙ e) in
        (q ∙ append_assoc calls (h ∷ []) hs, ((b, p), oks), omega (arith, count_ok h b n hs p))
  ]

  -- A failing host ends the loop: those before it were resized or skipped, those after it were not
  -- called.
  failure_from :
      (all hosts : List String) (n : ℕ) (calls calls' : List String) (host : String) (x : GoError)
      → resize_from (recording outcome) all hosts n calls ≡ (some (resizing host x), calls')
      → (before : List String) × (after : List String) × (hosts ≡ before ++ host ∷ after)
        × (calls' ≡ calls ++ (before ++ host ∷ []))
        × All (λ h. IsOk (outcome h)) before
        × (outcome host ≡ err x)
  unfolding resize_from
  failure_from all [] zero calls calls' host x e = absurd (ground arith)
  failure_from all [] (suc n) calls calls' host x e = absurd (ground arith)
  failure_from all (h ∷ hs) n calls calls' host x e = elim (Result-cases (outcome h)) [
    | inl (y, p) ↦
        let q = sym (step_err all hs h n calls y p) ∙ e in
        ([], hs, ground (arith, q), ground (arith, q), tt, ground (arith, q))
    | inr (b, p) ↦
        let n' = if b then n + 1 else n in
        let (before, after, q, r, oks, z) =
          failure_from all hs n' (calls ++ h ∷ []) calls' host x
            (sym (step_ok all hs h n calls b p) ∙ e) in
        (
          h ∷ before,
          after,
          ap (◌∷◌ h) q,
          r ∙ append_assoc calls (h ∷ []) (before ++ host ∷ []),
          ((b, p), oks),
          z,
        )
  ]

  -- A resize that ends without an error has called every host of OplogMemberHosts once, in that
  -- order, none of them failed, and at least one was resized.
  pub resize_success :
      (ms : ConfigMembers) (primary_host : String) (calls : List String)
      → resize_oplog_across_members (recording outcome) ms primary_host [] ≡ (none, calls)
      → (calls ≡ oplog_member_hosts ms primary_host)
        × All (λ h. IsOk (outcome h)) (oplog_member_hosts ms primary_host)
        × (0 < resized_of outcome (oplog_member_hosts ms primary_host))
  unfolding resize_oplog_across_members
  resize_success ms p calls e =
      let hosts = oplog_member_hosts ms p in
      elim (Bool-cases (nat_beq (length hosts) 0)) [
        | inl z ↦ absurd (ground arith)
        | inr z ↦
            let (q, oks, more) = success_from hosts hosts 0 [] calls (rw z at e) in
            (q, oks, omega arith)
      ]

  -- A resize that fails on a host has called the hosts of OplogMemberHosts up to that one, in that
  -- order, all before it without an error, and none after it; the error is that host's.
  pub resize_failure :
      (ms : ConfigMembers) (primary_host : String) (calls : List String) (host : String)
      (x : GoError)
      → resize_oplog_across_members (recording outcome) ms primary_host []
        ≡ (some (resizing host x), calls)
      → (before : List String) × (after : List String) × (oplog_member_hosts ms primary_host
          ≡ before ++ host ∷ after)
        × (calls ≡ before ++ host ∷ [])
        × All (λ h. IsOk (outcome h)) before
        × (outcome host ≡ err x)
  unfolding resize_oplog_across_members
  resize_failure ms p calls host x e =
      let hosts = oplog_member_hosts ms p in
      elim (Bool-cases (nat_beq (length hosts) 0)) [
        | inl z ↦ absurd (ground arith)
        | inr z ↦ failure_from hosts hosts 0 [] calls host x (rw z at e)
      ]
