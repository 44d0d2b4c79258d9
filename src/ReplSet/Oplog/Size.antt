-- ===== src/ReplSet/Oplog/Size.antt =====
-- What OplogSizeAcrossMembers (mongodb/replica_set_types.go) computes from the sizes that the
-- members report.
use mathlib.Core.List.{append_assoc, append-nil}
use terraform_provider_mongo.Prelude.{
  ℕ, suc, ◌+◌, ◌<◌, String, Bool, true, false, not, ◌&&◌, some, List, [], ◌∷◌, ◌++◌, ◌≡◌, refl, sym,
  ◌∙◌, ◌≢◌, ap, subst, arith, All, Result, ok, err, length, nat_beq, if◌then◌else◌, Result-cases,
  Bool-cases, inl, inr, Float64, float_beq, float_le_zero, float_beq-minus_one,
}
use terraform_provider_mongo.Errors.{GoError}
use terraform_provider_mongo.ReplSet.{ConfigMembers}
use terraform_provider_mongo.ReplSet.Oplog.{
  ReadError, unreadable, non_positive, SizeError, reading, no_data_bearing, Tally, start,
  tally_host, tally_from, member_size, conclude, oplog_size_mismatch, oplog_size_across_members,
}
use terraform_provider_mongo.ReplSet.Oplog.Order.{data_hosts, no_primary}

-- `size` after the members from the second on.
agree : Float64 → List Float64 → Float64
agree size [] = size
agree size (s ∷ ss) = agree (if not (float_beq s size) then oplog_size_mismatch else size) ss

-- All sizes equal the first one.
abbrev pub all_equal : Float64 → List Float64 → Bool
all_equal x [] = true
all_equal x (s ∷ ss) = float_beq s x && all_equal x ss

abbrev IsPositive : Float64 → Type 0
IsPositive s = float_le_zero s ≡ false

agree-mismatch :
    (ss : List Float64) → All IsPositive ss → agree oplog_size_mismatch ss ≡ oplog_size_mismatch
unfolding agree
agree-mismatch [] h = refl
agree-mismatch (s ∷ ss) h = rw (float_beq-minus_one s h.0) (agree-mismatch ss h.1)

agree-eq :
    (x : Float64) (ss : List Float64)
    → All IsPositive ss
    → agree x ss ≡ (if all_equal x ss then x else oplog_size_mismatch)
unfolding agree
agree-eq x [] h = refl
agree-eq x (s ∷ ss) h = elim (Bool-cases (float_beq s x)) [
  | inl e ↦ rw e (agree-eq x ss h.1)
  | inr e ↦ rw e (agree-mismatch ss h.1)
]

module _ (read : String → Result GoError Float64) where
  -- The positive sizes that the hosts report, in their order.
  abbrev pub readable : List String → List Float64
  readable [] = []
  readable (h ∷ hs) = elim (read h) [
    | err e ↦ readable hs
    | ok s ↦ if float_le_zero s then readable hs else s ∷ readable hs
  ]

  -- The hosts whose size cannot be read or is not positive, each with what it reports.

  abbrev pub unreadable_of : List String → List (String × ReadError)
  unreadable_of [] = []
  unreadable_of (h ∷ hs) = elim (read h) [
    | err e ↦ (h, unreadable e) ∷ unreadable_of hs
    | ok s ↦ if float_le_zero s then (h, non_positive s) ∷ unreadable_of hs else unreadable_of hs
  ]

  member_size-IsPositive : (h : String) (s : Float64) → member_size read h ≡ ok s → IsPositive s
  unfolding member_size
  member_size-IsPositive h s e = ground arith

  tally_err :
      (t : Tally) (h : String) (hs : List String) (e : ReadError)
      → member_size read h ≡ err e
      → tally_from read t (h ∷ hs) ≡ tally_from read (tally_host t h (err e)) hs
  unfolding tally_from
  tally_err t h hs e p = rw p

  tally_ok :
      (t : Tally) (h : String) (hs : List String) (s : Float64)
      → member_size read h ≡ ok s
      → tally_from read t (h ∷ hs) ≡ tally_from read (tally_host t h (ok s)) hs
  unfolding tally_from
  tally_ok t h hs s p = rw p

  readable_ok :
      (h : String) (hs : List String) (s : Float64)
      → member_size read h ≡ ok s
      → (readable (h ∷ hs) ≡ s ∷ readable hs) × (unreadable_of (h ∷ hs) ≡ unreadable_of hs)
  unfolding member_size
  readable_ok h hs s p = elim (Result-cases (read h)) [
    | inl (e, q) ↦ absurd (ground (arith, p, q))
    | inr (x, q) ↦ (ground (arith, p, q), ground (arith, p, q))
  ]

  readable_err :
      (h : String) (hs : List String) (e : ReadError)
      → member_size read h ≡ err e
      → (readable (h ∷ hs) ≡ readable hs) × (unreadable_of (h ∷ hs) ≡ (h, e) ∷ unreadable_of hs)
  unfolding member_size
  readable_err h hs e p = elim (Result-cases (read h)) [
    | inl (x, q) ↦ (ground (arith, p, q), ground (arith, p, q))
    | inr (x, q) ↦ (ground (arith, p, q), ground (arith, p, q))
  ]

  readable-IsPositive : (hs : List String) → All IsPositive (readable hs)
  readable-IsPositive [] = tt
  readable-IsPositive (h ∷ hs) = elim (Result-cases (member_size read h)) [
    | inl (e, p) ↦ subst (All IsPositive) (sym (readable_err h hs e p).0) (readable-IsPositive hs)
    | inr (s, p) ↦
        subst (All IsPositive) (sym (readable_ok h hs s p).0)
          (member_size-IsPositive h s p, readable-IsPositive hs)
  ]

  tally-skipped :
      (t : Tally) (hs : List String)
      → (tally_from read t hs).skipped ≡ t.skipped ++ unreadable_of hs
  unfolding tally_from
  tally-skipped t [] = sym (append-nil t.skipped)
  tally-skipped t (h ∷ hs) = elim (Result-cases (member_size read h)) [
    | inl (e, p) ↦
        ap (λ u. u.skipped) (tally_err t h hs e p)
        ∙ tally-skipped (tally_host t h (err e)) hs
        ∙ append_assoc t.skipped ((h, e) ∷ []) _
        ∙ ap (λ u. t.skipped ++ u) (sym (readable_err h hs e p).1)
    | inr (s, p) ↦
        ap (λ u. u.skipped) (tally_ok t h hs s p)
        ∙ tally-skipped (tally_host t h (ok s)) hs
        ∙ ap (λ u. t.skipped ++ u) (sym (readable_ok h hs s p).1)
  ]

  size_host :
      (t : Tally) (n : ℕ) (h : String) (s : Float64)
      → t.read_count ≡ suc n
      → (tally_host t h (ok s)).size
        ≡ (if not (float_beq s t.size) then oplog_size_mismatch else t.size)
  unfolding tally_host
  size_host t n h s c = ground arith

  first_host :
      (t : Tally) (h : String) (s : Float64) → t.read_count ≡ 0 → (tally_host t h (ok s)).size ≡ s
  unfolding tally_host
  first_host t h s c = ground arith

  count_host :
      (t : Tally) (h : String) (s : Float64) → (tally_host t h (ok s)).read_count ≡ t.read_count + 1
  unfolding tally_host
  count_host t h s = refl

  -- The tally after the first readable member.
  tally-agree :
      (t : Tally) (n : ℕ) (hs : List String)
      → t.read_count ≡ suc n
      → ((tally_from read t hs).size ≡ agree t.size (readable hs))
        × ((tally_from read t hs).read_count ≡ suc n + length (readable hs))
  unfolding tally_from agree
  tally-agree t n [] c = (refl, omega arith)
  tally-agree t n (h ∷ hs) c = elim (Result-cases (member_size read h)) [
    | inl (e, p) ↦
        rw (tally_err t h hs e p, (readable_err h hs e p).0)
          (tally-agree (tally_host t h (err e)) n hs c)
    | inr (s, p) ↦
        let next =
          tally-agree (tally_host t h (ok s)) (suc n) hs (omega (arith, count_host t h s)) in
        rw (tally_ok t h hs s p, (readable_ok h hs s p).0)
          (next.0 ∙ ap (λ x. agree x (readable hs)) (size_host t n h s c), omega (arith, next.1))
  ]

  -- The tally as long as nothing was read, after a first error.
  tally-none :
      (t : Tally) (hs : List String) (x : SizeError)
      → t.last_err ≡ some x
      → readable hs ≡ []
      → ((tally_from read t hs).read_count ≡ t.read_count)
        × ((y : SizeError) × ((tally_from read t hs).last_err ≡ some y))
  unfolding tally_from
  tally-none t [] x l r = (refl, (x, l))
  tally-none t (h ∷ hs) x l r = elim (Result-cases (member_size read h)) [
    | inl (e, p) ↦ rw (tally_err t h hs e p) (
        tally-none (tally_host t h (err e)) hs (reading h e) refl
          (sym (readable_err h hs e p).0 ∙ r))
    | inr (s, p) ↦ absurd (cc ((readable_ok h hs s p).0))
  ]

  -- The tally up to the first readable member, and after it.
  tally-first :
      (t : Tally) (hs : List String) (x : Float64) (xs : List Float64)
      → t.read_count ≡ 0
      → readable hs ≡ x ∷ xs
      → ((tally_from read t hs).size ≡ agree x xs) × (0 < (tally_from read t hs).read_count)
  unfolding tally_from
  tally-first t [] x xs c r = absurd (cc)
  tally-first t (h ∷ hs) x xs c r = elim (Result-cases (member_size read h)) [
    | inl (e, p) ↦
        rw (tally_err t h hs e p)
          (tally-first (tally_host t h (err e)) hs x xs c (sym (readable_err h hs e p).0 ∙ r))
    | inr (s, p) ↦
        let r' : s ∷ readable hs ≡ x ∷ xs = sym (readable_ok h hs s p).0 ∙ r in
        let next = tally-agree (tally_host t h (ok s)) 0 hs (omega (arith, count_host t h s)) in
        rw (tally_ok t h hs s p) (
          next.0 ∙ ap (λ z. agree z (readable hs)) (first_host t h s c) ∙ cc,
          omega (arith, next.1),
        )
  ]

  last_host :
      (t : Tally) (h : String) (e : ReadError)
      → (tally_host t h (err e)).last_err ≡ some (reading h e)
  unfolding tally_host
  last_host t h e = refl

  count_err :
      (t : Tally) (h : String) (e : ReadError) → (tally_host t h (err e)).read_count ≡ t.read_count
  unfolding tally_host
  count_err t h e = refl

  conclude_ok : (t : Tally) → 0 < t.read_count → conclude t ≡ ok t.size
  unfolding conclude
  conclude_ok t h = ground arith

  conclude_err :
      (t : Tally) (e : SizeError) → t.read_count ≡ 0 → t.last_err ≡ some e → conclude t ≡ err e
  unfolding conclude
  conclude_err t e c l = ground arith

  after_loop :
      (h : String) (hs : List String) (ms : ConfigMembers)
      → data_hosts ms ≡ h ∷ hs
      → oplog_size_across_members read ms
        ≡ (conclude (tally_from read start (h ∷ hs)), unreadable_of (h ∷ hs))
  unfolding oplog_size_across_members
  after_loop h hs ms e =
      let some_host : nat_beq (suc (length hs)) 0 ≡ false = ground arith in
      rw (no_primary ms ∙ e) (rw some_host (rw (tally-skipped start (h ∷ hs))))

  none_read :
      (ms : ConfigMembers) (hosts : List String)
      → data_hosts ms ≡ hosts
      → readable hosts ≡ []
      → hosts ≢ []
      → (e : SizeError) × (oplog_size_across_members read ms ≡ (err e, unreadable_of hosts))
  none_read ms [] d r n = absurd (n refl)
  none_read ms (h ∷ hs) d r n = elim (Result-cases (member_size read h)) [
    | inl (e, p) ↦
        let (c, (y, l)) =
          tally-none (tally_host start h (err e)) hs (reading h e) (last_host start h e)
            (sym (readable_err h hs e p).0 ∙ r) in
        (
          y,
          after_loop h hs ms d
              ∙ ap (λ z. (z, unreadable_of (h ∷ hs)))
                  (ap conclude (tally_err start h hs e p)
                    ∙ conclude_err _ y (c ∙ count_err start h e) l),
        )
    | inr (s, p) ↦ absurd (cc ((readable_ok h hs s p).0))
  ]

  some_read :
      (ms : ConfigMembers) (hosts : List String) (x : Float64) (xs : List Float64)
      → data_hosts ms ≡ hosts
      → readable hosts ≡ x ∷ xs
      → oplog_size_across_members read ms
        ≡ (ok (if all_equal x xs then x else oplog_size_mismatch), unreadable_of hosts)
  some_read ms [] x xs d r = absurd (cc)
  some_read ms (h ∷ hs) x xs d r =
      let (q, more) = tally-first start (h ∷ hs) x xs refl r in
      let positive : All IsPositive (x ∷ xs) =
        subst (All IsPositive) r (readable-IsPositive (h ∷ hs)) in
      after_loop h hs ms d
      ∙ ap (λ z. (z, unreadable_of (h ∷ hs)))
          (conclude_ok _ more ∙ ap ok (q ∙ agree-eq x xs positive.1))

  -- OplogSizeAcrossMembers reads every host that bears data, skips those that cannot be read or
  -- report no positive size, and hands each of them, in order, to `onSkip`. If the sizes it read are
  -- x and xs, the result is x where all of xs equal x, and else the mismatch sentinel; if it read
  -- none, the result is an error, and if there is no such host, that error.
  pub oplog_size_lem :
      (ms : ConfigMembers)
      → ((x : Float64) (xs : List Float64)
          → readable (data_hosts ms) ≡ x ∷ xs
          → oplog_size_across_members read ms ≡ (
            ok (if all_equal x xs then x else oplog_size_mismatch),
            unreadable_of (data_hosts ms),
          ))
        × (readable (data_hosts ms) ≡ []
            → data_hosts ms ≢ []
            → (e : SizeError) × (oplog_size_across_members read ms
                ≡ (err e, unreadable_of (data_hosts ms))))
        × (data_hosts ms ≡ [] → oplog_size_across_members read ms ≡ (err no_data_bearing, []))
  unfolding oplog_size_across_members
  oplog_size_lem ms = (
    λ x xs r. some_read ms (data_hosts ms) x xs refl r,
    λ r n. none_read ms (data_hosts ms) refl r n,
    λ e. rw (no_primary ms ∙ e),
  )
