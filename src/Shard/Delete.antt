-- ===== src/Shard/Delete.antt =====
-- What Delete of mongodb/resource_shard.go has seen when it succeeds, and that it ends, with the
-- shard removed where the server finishes draining in time.
use terraform_provider_mongo.Prelude.{
  pair_eq, ℕ, zero, suc, ◌+◌, ◌<◌, ◌≤◌, String, true, false, none, some, ◌==◌, pos, int_beq, ◌≡◌,
  ◌≢◌, ◌⊎◌, inl, inr, sym, ◌∙◌, ap, subst, arith, ltb, Result, ok, err, Option-cases, Bool-cases,
}
use terraform_provider_mongo.Prelude.Action.{World}
use terraform_provider_mongo.Errors.{GoError}
use terraform_provider_mongo.Commands.{Reply, command_error, undecodable, replied, Reply-cases}
use terraform_provider_mongo.Shard.{
  ShardRemoveResp, ShardResource, ShardServer, ShardError, out_of_fuel, remove_rounds, delete_shard,
}
use terraform_provider_mongo.Shard.Create.{HasClock}

module _ {S : Type 0} (env : ShardServer S) where
  -- A removeShard was answered as completed, and left this state.
  abbrev pub Completed : String → S → Type 0
  Completed name after =
      (before : S) × (r : ShardRemoveResp) × (env.remove_shard name before ≡ (replied r, after))
      × (int_beq r.ok (pos 1) ≡ true)
      × ((r.state == "completed") ≡ true)

  abbrev End : String → Result ShardError (Unit {0}) × S → Type 0
  End name r = (r.0 ≢ err out_of_fuel) × (r.0 ≡ ok tt → Completed name r.1)

  module _ (fuel deadline : ℕ) (name : String) (s : S) where
    abbrev once : Result ShardError (Unit {0}) × S
    once = remove_rounds env (suc fuel) deadline name s

    abbrev answer : Reply ShardRemoveResp × S
    answer = env.remove_shard name s

    remove_late : ltb deadline (env.now s) ≡ true → End name once
    unfolding remove_rounds
    remove_late l = (ground arith, ground arith)

    module _ (l : ltb deadline (env.now s) ≡ false) where
      remove_refusal : (e : GoError) → answer.0 ≡ command_error e → End name once
      unfolding remove_rounds
      remove_refusal e p = (ground arith, ground arith)

      remove_garbled : (e : GoError) → answer.0 ≡ undecodable e → End name once
      unfolding remove_rounds
      remove_garbled e p = (ground arith, ground arith)

      module _ (r : ShardRemoveResp) (p : answer.0 ≡ replied r) where
        remove_rejected : int_beq r.ok (pos 1) ≡ false → End name once
        unfolding remove_rounds
        remove_rejected n = (ground (arith, l, p, n), ground (arith, l, p, n))

        remove_completed :
            int_beq r.ok (pos 1) ≡ true → (r.state == "completed") ≡ true → once ≡ (ok tt, answer.1)
        unfolding remove_rounds
        remove_completed n c = ground (arith, l, p, n, c)

        remove_cut :
            (c : GoError)
            → int_beq r.ok (pos 1) ≡ true
            → (r.state == "completed") ≡ false
            → (env.pause answer.1).0 ≡ some c
            → End name once
        unfolding remove_rounds
        remove_cut c n o q = (ground (arith, l, p, n, o, q), ground (arith, l, p, n, o, q))

        remove_again :
            int_beq r.ok (pos 1) ≡ true
            → (r.state == "completed") ≡ false
            → (env.pause answer.1).0 ≡ none
            → once ≡ remove_rounds env fuel deadline name (env.pause answer.1).1
        unfolding remove_rounds
        remove_again n o q = ground (arith, l, p, n, o, q)

    abbrev Again : Type 0
    Again =
        (ltb deadline (env.now s) ≡ false)
        × ((env.pause answer.1).0 ≡ none)
        × (once ≡ remove_rounds env fuel deadline name (env.pause answer.1).1)

    remove_replied :
        (r : ShardRemoveResp)
        → ltb deadline (env.now s) ≡ false
        → answer.0 ≡ replied r
        → End name once ⊎ Again
    remove_replied r l p = elim (Bool-cases (int_beq r.ok (pos 1))) [
      | inr n ↦ inl (remove_rejected l r p n)
      | inl n ↦ elim (Bool-cases (r.state == "completed")) [
        | inl c ↦ inl (
            subst (End name) (sym (remove_completed l r p n c))
              ((λ e. absurd (cc e)), λ _. (s, r, pair_eq answer (replied r) p, n, c)))
        | inr o ↦ elim (Option-cases (env.pause answer.1).0) [
          | inr (c, q) ↦ inl (remove_cut l r p c n o q)
          | inl q ↦ inr (l, q, remove_again l r p n o q)
        ]
      ]
    ]

    -- A round ends the loop, or goes on after a pause.
    remove_round : End name once ⊎ Again
    remove_round = elim (Bool-cases (ltb deadline (env.now s))) [
      | inl l ↦ inl (remove_late l)
      | inr l ↦ elim (Reply-cases answer.0) [
        | inl (e, p) ↦ inl (remove_refusal l e p)
        | inr (inl (e, p)) ↦ inl (remove_garbled l e p)
        | inr (inr (r, p)) ↦ remove_replied r l p
      ]
    ]

  remove_rounds-Completed :
      (fuel deadline : ℕ) (name : String) (s : S)
      → (remove_rounds env fuel deadline name s).0 ≡ ok tt
      → Completed name (remove_rounds env fuel deadline name s).1
  unfolding remove_rounds
  remove_rounds-Completed zero deadline name s e = absurd (cc)
  remove_rounds-Completed (suc fuel) deadline name s e = elim (remove_round fuel deadline name s) [
    | inl end ↦ end.1 e
    | inr (_, _, same) ↦
        subst (λ r. Completed name r.1) (sym same)
          (remove_rounds-Completed fuel deadline name _ (sym (ap (λ r. r.0) same) ∙ e))
  ]

  remove_rounds_total :
      (clock : HasClock env) (fuel deadline : ℕ) (name : String) (s : S)
      → deadline < env.now s + fuel
      → (remove_rounds env (suc fuel) deadline name s).0 ≢ err out_of_fuel
  remove_rounds_total clock zero deadline name s h = elim (remove_round zero deadline name s) [
    | inl end ↦ end.0
    | inr (l, _, _) ↦ absurd (ground arith)
  ]
  remove_rounds_total clock (suc fuel) deadline name s h =
      elim (remove_round (suc fuel) deadline name s) [
        | inl end ↦ end.0
        | inr (l, p, same) ↦
            let s1 = (env.remove_shard name s).1 in
            subst (λ r. r.0 ≢ err out_of_fuel) (sym same)
              (remove_rounds_total clock fuel deadline name (env.pause s1).1
                (ground (arith, h, clock.remove_forward name s, clock.pause_forward s1 p)))
      ]

  module _ (fuel : ℕ) (w : World ShardResource S) where
    abbrev removing : Result ShardError (Unit {0}) × S
    removing =
        remove_rounds env fuel (env.now w.server + w.resource.remove_timeout) w.resource.id w.server

    delete_shard_result : delete_shard env fuel w ≡ (removing.0, record w { server = removing.1 })
    unfolding delete_shard
    delete_shard_result = ground arith

    -- Delete succeeds only when the last command was a removeShard of the resource's id that was
    -- answered with ok and the state "completed".
    pub delete_shard_lem :
        (delete_shard env fuel w).0 ≡ ok tt
        → Completed w.resource.id (delete_shard env fuel w).1.server
    delete_shard_lem o =
        subst (λ r. Completed w.resource.id r.1.server) (sym delete_shard_result)
          (remove_rounds-Completed fuel (env.now w.server + w.resource.remove_timeout) w.resource.id
            w.server (sym (ap (λ r. r.0) delete_shard_result) ∙ o))

  -- With fuel for two rounds more than its timeout has ticks, Delete ends, whatever the server
  -- answers: the clock does not go back, and a pause that is not cut short takes a tick.
  pub delete_shard_total :
      (w : World ShardResource S)
      → HasClock env
      → (delete_shard env (suc (suc w.resource.remove_timeout)) w).0 ≢ err out_of_fuel
  delete_shard_total w clock x =
      remove_rounds_total clock (suc w.resource.remove_timeout)
        (env.now w.server + w.resource.remove_timeout) w.resource.id w.server (omega arith)
        (sym (ap (λ r. r.0) (delete_shard_result (suc (suc w.resource.remove_timeout)) w)) ∙ x)

  -- A server that accepts each removeShard of the shard and has drained it by a time, with rounds that
  -- are not cut short and have a longest time.
  pub record DrainsBy (name : String) (drained round : ℕ) : Type 0 where
    pub accepted :
        (s : S)
        → (r : ShardRemoveResp) × ((env.remove_shard name s).0 ≡ replied r)
          × (int_beq r.ok (pos 1) ≡ true)
          × (drained ≤ env.now s → (r.state == "completed") ≡ true)
    pub uncut : (s : S) → (env.pause s).0 ≡ none
    pub ticks : (s : S) → env.now s < env.now (env.pause (env.remove_shard name s).1).1
    pub within : (s : S) → env.now (env.pause (env.remove_shard name s).1).1 ≤ env.now s + round

  module _ (name : String) (drained round deadline : ℕ) (law : DrainsBy name drained round) where
    DrainRound : ℕ → S → Type 0
    DrainRound fuel s =
        ((remove_rounds env (suc fuel) deadline name s).0 ≡ ok tt)
        ⊎ (let s2 = (env.pause (env.remove_shard name s).1).1 in
            (env.now s < drained)
            × (remove_rounds env (suc fuel) deadline name s
                ≡ remove_rounds env fuel deadline name s2))

    drain_round : (fuel : ℕ) (s : S) → env.now s ≤ deadline → DrainRound fuel s
    unfolding DrainRound
    drain_round fuel s h =
        let (r, p, n, done) = law.accepted s in
        let early : ltb deadline (env.now s) ≡ false = ground (arith, h) in
        elim (Bool-cases (r.state == "completed")) [
          | inl c ↦ inl (ap (λ x. x.0) (remove_completed fuel deadline name s early r p n c))
          | inr o ↦ inr (
            ground (arith, done, o),
            remove_again fuel deadline name s early r p n o (law.uncut _),
          )
        ]

    remove_rounds_complete :
        (fuel : ℕ) (s : S)
        → drained + round ≤ deadline
        → env.now s ≤ deadline
        → drained ≤ env.now s + fuel
        → (remove_rounds env (suc fuel) deadline name s).0 ≡ ok tt
    unfolding DrainRound
    remove_rounds_complete zero s long h f = elim (drain_round zero s h) [
      | inl o ↦ o
      | inr (early, _) ↦ absurd (omega (arith, early, f))
    ]
    remove_rounds_complete (suc fuel) s long h f = elim (drain_round (suc fuel) s h) [
      | inl o ↦ o
      | inr (early, same) ↦
          ap (λ r. r.0) same
          ∙ remove_rounds_complete fuel (env.pause (env.remove_shard name s).1).1 long
              (omega (arith, law.within s, long, early)) (omega (arith, law.ticks s, f))
    ]

  -- Where the server accepts every removeShard of the shard and has drained it by a time that leaves a
  -- round before the timeout, and no pause is cut short, Delete succeeds: it comes to see the removal
  -- completed.
  pub delete_shard_completes :
      (w : World ShardResource S) (drained round : ℕ)
      → DrainsBy w.resource.id drained round
      → drained + round ≤ env.now w.server + w.resource.remove_timeout
      → (delete_shard env (suc (suc w.resource.remove_timeout)) w).0 ≡ ok tt
  delete_shard_completes w drained round law long =
      ap (λ r. r.0) (delete_shard_result (suc (suc w.resource.remove_timeout)) w)
      ∙ remove_rounds_complete w.resource.id drained round
          (env.now w.server + w.resource.remove_timeout) law (suc w.resource.remove_timeout)
          w.server long (omega arith) (omega (arith, long))
