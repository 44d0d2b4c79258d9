-- ===== src/Retry/Keeps.antt =====
-- What every command of SetReplSetConfigWithRetry (mongodb/shard_init.go) keeps, its retries keep.
use terraform_provider_mongo.Prelude.{
  ℕ, zero, suc, ◌+◌, ◌≡◌, sym, subst, arith, ltb, Option-cases, Result-cases, Bool-cases, inl, inr,
  ℤ,
}
use terraform_provider_mongo.Errors.{GoError, is_retryable, is_version_conflict}
use terraform_provider_mongo.ReplSet.{RsConfig}
use terraform_provider_mongo.Retry.{
  RetryEnv, RetryEnd, with_version, max_time, next_config, retry_rounds,
  set_repl_set_config_with_retry,
}
use terraform_provider_mongo.Retry.Laws.{
  call, round_installed, round_rejected, round_late, round_unread, round_cancelled, round_again,
  next_version,
}

module _ {S : Type 0} (env : RetryEnv S) (poll : ℕ) (cfg : RsConfig) (P : S → Type 0)
    (set_keeps : (v : ℤ) (t : ℕ) (s : S) → P s → P (env.set_config (with_version cfg v) t s).1)
    (get_keeps : (s : S) → P s → P (env.get_config s).1)
    (pause_keeps : (s : S) → P s → P (env.pause s).1) where
  next-keeps : (now : RsConfig) (e : GoError) (s : S) → P s → P (next_config env poll now e s).1
  unfolding next_config
  next-keeps now e s h = elim (Bool-cases (is_version_conflict e)) [
    | inl c ↦
        let same : (next_config env poll now e s).1 ≡ (env.get_config s).1 = ground arith in
        subst P (sym same) (get_keeps s h)
    | inr n ↦ let same : (next_config env poll now e s).1 ≡ s = ground arith in subst P (sym same) h
  ]

  rounds-keep :
      (fuel deadline : ℕ) (v : ℤ) (s : S)
      → P s
      → P (retry_rounds env poll fuel deadline (with_version cfg v) s).1
  unfolding retry_rounds
  rounds-keep zero deadline v s h = h
  rounds-keep (suc fuel) deadline v s h =
      let now = with_version cfg v in
      let answer = call env poll deadline now s in
      let h1 = set_keeps v (max_time poll deadline (env.now s)) s h in
      let Q : RetryEnd × S → Type 0 = λ r. P r.1 in
      elim (Option-cases answer.0) [
        | inl p ↦ subst Q (sym (round_installed env poll fuel deadline now s p)) h1
        | inr (e, p) ↦ elim (Bool-cases (is_retryable e)) [
          | inr n ↦ subst Q (sym (round_rejected env poll fuel deadline now s e p n)) h1
          | inl n ↦ elim (Bool-cases (ltb deadline (env.now answer.1))) [
            | inl l ↦ subst Q (sym (round_late env poll fuel deadline now s e p n l)) h1
            | inr l ↦
                let next = next_config env poll now e answer.1 in
                let h2 = next-keeps now e answer.1 h1 in
                elim (Result-cases next.0) [
                  | inl (x, q) ↦
                      subst Q (sym (round_unread env poll fuel deadline now s e p x n l q)) h2
                  | inr (cfg', q) ↦
                      let h3 = pause_keeps next.1 h2 in
                      elim (Option-cases (env.pause next.1).0) [
                        | inr (x, c) ↦
                            subst Q
                              (sym
                                (round_cancelled env poll fuel deadline now s e p cfg' n l q x c))
                              h3
                        | inl c ↦
                            let (v', same) = next_version env poll cfg v e answer.1 cfg' q in
                            subst Q
                              (sym (round_again env poll fuel deadline now s e p cfg' n l q c))
                              (subst
                                (λ z.
                                  Q (retry_rounds env poll fuel deadline z (env.pause next.1).1))
                                (sym same) (rounds-keep fuel deadline v' (env.pause next.1).1 h3))
                      ]
                ]
          ]
        ]
      ]

  pub retry-keeps :
      (fuel timeout : ℕ) (s : S)
      → P s
      → P (set_repl_set_config_with_retry env poll fuel cfg timeout s).1
  unfolding set_repl_set_config_with_retry
  retry-keeps fuel timeout s h = rounds-keep fuel (env.now s + timeout) cfg.version s h
