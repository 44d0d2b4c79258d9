-- ===== src/Retry/Laws.antt =====
-- What an end of SetReplSetConfigWithRetry (mongodb/shard_init.go) says of the commands it sent.
use terraform_provider_mongo.Prelude.{
  pair_eq, ℕ, zero, suc, ◌+◌, ◌<◌, ◌≤◌, Option, none, some, ◌≡◌, sym, subst, arith, ltb, ltb→lt, ok,
  err, true, false, Option-cases, Result-cases, Bool-cases, inl, inr, ℤ, inc,
}
use terraform_provider_mongo.Errors.{GoError, is_retryable, is_version_conflict}
use terraform_provider_mongo.ReplSet.{RsConfig}
use terraform_provider_mongo.Retry.{
  RetryEnv, RetryEnd, out_of_fuel, installed, failed, rejected, not_resolved, not_reread, cancelled,
  with_version, max_time, next_config, retry_rounds, set_repl_set_config_with_retry,
}

module _ {S : Type 0} (env : RetryEnv S) (poll : ℕ) (cfg : RsConfig) (s0 : S) where
  -- A try: the configuration is sent at a version, with at least the poll interval.
  abbrev pub Try : ℤ → S → Option GoError → S → Type 0
  Try v s answer after =
      (t : ℕ) × (poll ≤ t) × (env.set_config (with_version cfg v) t s ≡ (answer, after))

  mutual
    -- The version at which a try is due in a state: the configuration's own at the start, and later the
    -- one that the last try has made due, after a pause.
    pub data Due : ℤ → S → Type 0 where
      at_start : Due cfg.version s0
      again : {v : ℤ} {s s' : S} → After v s → env.pause s ≡ (none, s') → Due v s'

    -- The version that a try has made due, which was refused with a transient error: after a version
    -- conflict the one that follows the version of the configuration that is read then, else the same.
    pub data After : ℤ → S → Type 0 where
      kept :
          {v : ℤ} {s s' : S} (e : GoError)
          → Due v s
          → Try v s (some e) s'
          → is_retryable e ≡ true
          → is_version_conflict e ≡ false
          → After v s'
      conflict :
          {v : ℤ} {s s' s'' : S} (e : GoError) (current : RsConfig)
          → Due v s
          → Try v s (some e) s'
          → is_retryable e ≡ true
          → is_version_conflict e ≡ true
          → env.get_config s' ≡ (ok current, s'')
          → After (inc current.version) s''

  -- A try that was due, with its answer.
  abbrev pub Sent : Option GoError → S → Type 0
  Sent answer after = (s : S) × (v : ℤ) × Due v s × Try v s answer after

  -- What each end says.
  abbrev pub Explains : ℕ → RetryEnd → S → Type 0
  Explains deadline end s = elim end [
    | installed ↦ Sent none s
    | out_of_fuel ↦ Unit
    | failed x ↦ elim x [
      | rejected e ↦ (is_retryable e ≡ false) × Sent (some e) s
      | not_resolved e ↦ (is_retryable e ≡ true) × (deadline < env.now s) × Sent (some e) s
      | not_reread e ↦
          (refused : GoError) × (s' : S) × (is_retryable refused ≡ true)
          × (is_version_conflict refused ≡ true)
          × Sent (some refused) s'
          × (env.get_config s' ≡ (err e, s))
      | cancelled e ↦ (v : ℤ) × (s' : S) × After v s' × (env.pause s' ≡ (some e, s))
    ]
  ]

module _ {S : Type 0} (env : RetryEnv S) (poll : ℕ) where
  max_time_poll : (deadline now : ℕ) → poll ≤ max_time poll deadline now
  unfolding max_time
  max_time_poll deadline now = ground arith

  pub next_version :
      (cfg : RsConfig) (v : ℤ) (e : GoError) (s : S) (cfg' : RsConfig)
      → (next_config env poll (with_version cfg v) e s).0 ≡ ok cfg'
      → (v' : ℤ) × (cfg' ≡ with_version cfg v')
  unfolding next_config
  next_version cfg v e s cfg' p = elim (Bool-cases (is_version_conflict e)) [
    | inr n ↦ (v, ground arith)
    | inl c ↦ elim (Result-cases (env.get_config s).0) [
      | inl (x, q) ↦ absurd (ground (arith, p, q, c))
      | inr (current, q) ↦ (inc current.version, ground (arith, p, q, c))
    ]
  ]

  next_failed :
      (cfg : RsConfig) (e x : GoError) (s : S)
      → (next_config env poll cfg e s).0 ≡ err x
      → (is_version_conflict e ≡ true)
        × (env.get_config s ≡ (err x, (next_config env poll cfg e s).1))
  unfolding next_config
  next_failed cfg e x s p = (ground arith, ground arith)

  -- After a try with a transient error the next configuration is at the version that is due.
  next_after :
      (cfg : RsConfig) (start : S) (v : ℤ) (s s1 : S) (e : GoError) (cfg' : RsConfig)
      → Due env poll cfg start v s
      → Try env poll cfg start v s (some e) s1
      → is_retryable e ≡ true
      → (next_config env poll (with_version cfg v) e s1).0 ≡ ok cfg'
      → (v' : ℤ) × (cfg' ≡ with_version cfg v')
        × After env poll cfg start v' (next_config env poll (with_version cfg v) e s1).1
  unfolding next_config
  next_after cfg start v s s1 e cfg' due sent n p = elim (Bool-cases (is_version_conflict e)) [
    | inr c ↦
        let here : (next_config env poll (with_version cfg v) e s1).1 ≡ s1 = ground (arith, c) in
        (v, ground arith, subst (After env poll cfg start v) (sym here) (kept e due sent n c))
    | inl c ↦ elim (Result-cases (env.get_config s1).0) [
      | inl (x, q) ↦ absurd (ground (arith, p, q, c))
      | inr (current, q) ↦
          let s2 = (env.get_config s1).1 in
          let here : (next_config env poll (with_version cfg v) e s1).1 ≡ s2 =
            ground (arith, q, c) in
          (
            inc current.version,
            ground (arith, p, q, c),
            subst (After env poll cfg start (inc current.version)) (sym here)
                (conflict e current due sent n c (pair_eq (env.get_config s1) (ok current) q)),
          )
    ]
  ]

  abbrev pub call : ℕ → RsConfig → S → Option GoError × S
  call deadline cfg s = env.set_config cfg (max_time poll deadline (env.now s)) s

  abbrev pub round : ℕ → ℕ → RsConfig → S → RetryEnd × S
  round fuel deadline cfg s = retry_rounds env poll (suc fuel) deadline cfg s

  module _ (fuel deadline : ℕ) (cfg : RsConfig) (s : S) where
    pub round_installed :
        (call deadline cfg s).0 ≡ none
        → round fuel deadline cfg s ≡ (installed, (call deadline cfg s).1)
    unfolding retry_rounds
    round_installed p = ground arith

    module _ (e : GoError) (p : (call deadline cfg s).0 ≡ some e) where
      abbrev after : S
      after = (call deadline cfg s).1

      pub round_rejected :
          is_retryable e ≡ false → round fuel deadline cfg s ≡ (failed (rejected e), after)
      unfolding retry_rounds
      round_rejected n = ground arith

      pub round_late :
          is_retryable e ≡ true
          → ltb deadline (env.now after) ≡ true
          → round fuel deadline cfg s ≡ (failed (not_resolved e), after)
      unfolding retry_rounds
      round_late n l = ground arith

      pub round_unread :
          (x : GoError)
          → is_retryable e ≡ true
          → ltb deadline (env.now after) ≡ false
          → (next_config env poll cfg e after).0 ≡ err x
          → round fuel deadline cfg s
            ≡ (failed (not_reread x), (next_config env poll cfg e after).1)
      unfolding retry_rounds
      round_unread x n l q = ground arith

      module _ (cfg' : RsConfig) (n : is_retryable e ≡ true)
          (l : ltb deadline (env.now after) ≡ false)
          (q : (next_config env poll cfg e after).0 ≡ ok cfg') where
        abbrev paused : Option GoError × S
        paused = env.pause (next_config env poll cfg e after).1

        pub round_cancelled :
            (x : GoError)
            → paused.0 ≡ some x
            → round fuel deadline cfg s ≡ (failed (cancelled x), paused.1)
        unfolding retry_rounds
        round_cancelled x c = ground arith

        pub round_again :
            paused.0 ≡ none
            → round fuel deadline cfg s ≡ retry_rounds env poll fuel deadline cfg' paused.1
        unfolding retry_rounds
        round_again c = ground arith

  explained :
      (fuel deadline : ℕ) (cfg : RsConfig) (start : S) (v : ℤ) (s : S)
      → Due env poll cfg start v s
      → let r = retry_rounds env poll fuel deadline (with_version cfg v) s in
        Explains env poll cfg start deadline r.0 r.1
  unfolding retry_rounds
  explained zero deadline cfg start v s due = tt
  explained (suc fuel) deadline cfg start v s due =
      let now = with_version cfg v in
      let t = max_time poll deadline (env.now s) in
      let s1 = (call deadline now s).1 in
      let tried : (a : Option GoError)
          → (call deadline now s).0 ≡ a
          → Try env poll cfg start v s a s1 =
        λ a p. (t, max_time_poll deadline (env.now s), pair_eq (call deadline now s) a p) in
      let sent : (a : Option GoError) → (call deadline now s).0 ≡ a → Sent env poll cfg start a s1 =
        λ a p. (s, v, due, tried a p) in
      let P : RetryEnd × S → Type 0 = λ r. Explains env poll cfg start deadline r.0 r.1 in
      elim (Option-cases (call deadline now s).0) [
        | inl p ↦ subst P (sym (round_installed fuel deadline now s p)) (sent none p)
        | inr (e, p) ↦ elim (Bool-cases (is_retryable e)) [
          | inr n ↦ subst P (sym (round_rejected fuel deadline now s e p n)) (n, sent (some e) p)
          | inl n ↦ elim (Bool-cases (ltb deadline (env.now s1))) [
            | inl l ↦
                subst P (sym (round_late fuel deadline now s e p n l))
                  (n, ltb→lt deadline (env.now s1) l, sent (some e) p)
            | inr l ↦ elim (Result-cases (next_config env poll now e s1).0) [
              | inl (x, q) ↦ subst P (sym (round_unread fuel deadline now s e p x n l q)) (
                e,
                s1,
                n,
                (next_failed now e x s1 q).0,
                sent (some e) p,
                (next_failed now e x s1 q).1,
              )
              | inr (cfg', q) ↦
                  let s2 = (next_config env poll now e s1).1 in
                  let (v', same, after_try) =
                    next_after cfg start v s s1 e cfg' due (tried (some e) p) n q in
                  elim (Option-cases (env.pause s2).0) [
                    | inr (x, c) ↦
                        subst P (sym (round_cancelled fuel deadline now s e p cfg' n l q x c))
                          (v', s2, after_try, pair_eq (env.pause s2) (some x) c)
                    | inl c ↦
                        let due' = again after_try (pair_eq (env.pause s2) none c) in
                        subst P (sym (round_again fuel deadline now s e p cfg' n l q c)) (
                          subst (λ z. P (retry_rounds env poll fuel deadline z (env.pause s2).1))
                            (sym same) (explained fuel deadline cfg start v' (env.pause s2).1 due'))
                  ]
            ]
          ]
        ]
      ]

  -- The first try has the configuration's own version. After a version conflict the configuration is
  -- read and the next try has the version that follows the one that was read; after another transient
  -- error the next try has the same version, and nothing is read. Success means that the server
  -- accepted such a try, in the state that is left. A failure is the answer of such a try, which is
  -- final, or transient with the timeout over, or it is the error of the read after a version
  -- conflict, or of the context in the pause after a transient error. The time limit of a try is at
  -- least the poll interval.
  pub retry_explained :
      (fuel : ℕ) (cfg : RsConfig) (timeout : ℕ) (s : S)
      → let r = set_repl_set_config_with_retry env poll fuel cfg timeout s in
        Explains env poll cfg s (env.now s + timeout) r.0 r.1
  unfolding set_repl_set_config_with_retry
  retry_explained fuel cfg timeout s =
      explained fuel (env.now s + timeout) cfg s cfg.version s at_start
