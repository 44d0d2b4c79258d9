-- ===== src/Shard/Create.antt =====
-- What Create of mongodb/resource_shard.go has done when it succeeds, and that it ends.
use terraform_provider_mongo.Prelude.{
  pair_eq, ℕ, zero, suc, ◌+◌, ◌<◌, ◌≤◌, String, true, ◌&&◌, none, some, List, ◌∷◌, ◌==◌, pos,
  int_beq, ◌≡◌, ◌≢◌, ◌⊎◌, inl, inr, refl, sym, ◌∙◌, ap, subst, arith, ltb, Result, ok, err,
  if◌then◌else◌, Option-cases, Result-cases, Bool-cases, err≢ok, eq_iff,
}
use terraform_provider_mongo.Prelude.Action.{World}
use terraform_provider_mongo.Errors.{GoError, is_read_preference_error}
use terraform_provider_mongo.Commands.{
  Reply, command_error, undecodable, replied, OkResponse, Reply-cases,
}
use terraform_provider_mongo.Discovery.{Shard}
use terraform_provider_mongo.Shard.{
  ShardResource, ShardServer, ShardError, out_of_fuel, build_shard_connection_string, find_row,
  fill_hosts, read_row, add_rounds, read_shard, create_shard, list_rows,
}

-- The clock does not go back, and a pause that is not cut short takes a tick or more.
pub record HasClock {S : Type 0} (env : ShardServer S) : Type 0 where
  pub add_forward : (conn : String) (s : S) → env.now s ≤ env.now (env.add_shard conn s).1
  pub remove_forward : (name : String) (s : S) → env.now s ≤ env.now (env.remove_shard name s).1
  pub pause_forward : (s : S) → (env.pause s).0 ≡ none → env.now s < env.now (env.pause s).1

module _ {S : Type 0} (env : ShardServer S) where
  -- An addShard with the connection string was accepted, and left this state.
  abbrev pub Added : String → S → Type 0
  Added conn after =
      (before : S) × (r : OkResponse) × (env.add_shard conn before ≡ (replied r, after))
      × (int_beq r.ok (pos 1) ≡ true)

  abbrev End : String → Result ShardError (Unit {0}) × S → Type 0
  End conn r = (r.0 ≢ err out_of_fuel) × (r.0 ≡ ok tt → Added conn r.1)

  module _ (fuel deadline : ℕ) (conn : String) (s : S) where
    abbrev once : Result ShardError (Unit {0}) × S
    once = add_rounds env (suc fuel) deadline conn s

    abbrev answer : Reply OkResponse × S
    answer = env.add_shard conn s

    add_refusal :
        (e : GoError)
        → answer.0 ≡ command_error e
        → End conn once
          ⊎ (((env.pause answer.1).0 ≡ none)
              × (ltb (env.now answer.1) deadline ≡ true)
              × (once ≡ add_rounds env fuel deadline conn (env.pause answer.1).1))
    unfolding add_rounds
    add_refusal e p =
        elim (Bool-cases (is_read_preference_error e && ltb (env.now answer.1) deadline)) [
          | inr n ↦ inl (ground (arith, p, n), ground (arith, p, n))
          | inl n ↦ elim (Option-cases (env.pause answer.1).0) [
            | inr (c, q) ↦ inl (ground (arith, p, n, q), ground (arith, p, n, q))
            | inl q ↦ inr (q, ground arith, ground (arith, p, n, q))
          ]
        ]

    add_reply_ends : (r : OkResponse) → answer.0 ≡ replied r → once.0 ≢ err out_of_fuel
    unfolding add_rounds
    add_reply_ends r p = ground arith

    add_reply_state : (r : OkResponse) → answer.0 ≡ replied r → once.1 ≡ answer.1
    unfolding add_rounds
    add_reply_state r p = ground arith

    add_reply_ok :
        (r : OkResponse) → answer.0 ≡ replied r → once.0 ≡ ok tt → int_beq r.ok (pos 1) ≡ true
    unfolding add_rounds
    add_reply_ok r p e = ground arith

    add_garbled : (e : GoError) → answer.0 ≡ undecodable e → End conn once
    unfolding add_rounds
    add_garbled e p = (ground arith, ground arith)

    -- A round ends the loop, or goes on after a pause and before the deadline.
    add_round :
        End conn once
        ⊎ (((env.pause answer.1).0 ≡ none)
            × (ltb (env.now answer.1) deadline ≡ true)
            × (once ≡ add_rounds env fuel deadline conn (env.pause answer.1).1))
    add_round = elim (Reply-cases answer.0) [
      | inl (e, p) ↦ add_refusal e p
      | inr (inl (e, p)) ↦ inl (add_garbled e p)
      | inr (inr (r, p)) ↦ inl (
        add_reply_ends r p,
        λ e.
            subst (Added conn) (sym (add_reply_state r p))
              (s, r, pair_eq answer (replied r) p, add_reply_ok r p e),
      )
    ]

  add_rounds-Added :
      (fuel deadline : ℕ) (conn : String) (s : S)
      → (add_rounds env fuel deadline conn s).0 ≡ ok tt
      → Added conn (add_rounds env fuel deadline conn s).1
  unfolding add_rounds
  add_rounds-Added zero deadline conn s e = absurd (cc)
  add_rounds-Added (suc fuel) deadline conn s e = elim (add_round fuel deadline conn s) [
    | inl end ↦ end.1 e
    | inr (_, _, same) ↦
        subst (λ r. Added conn r.1) (sym same)
          (add_rounds-Added fuel deadline conn _ (sym (ap (λ r. r.0) same) ∙ e))
  ]

  pub add_rounds_total :
      (clock : HasClock env) (fuel deadline : ℕ) (conn : String) (s : S)
      → deadline ≤ env.now s + fuel
      → (add_rounds env (suc fuel) deadline conn s).0 ≢ err out_of_fuel
  add_rounds_total clock zero deadline conn s h = elim (add_round zero deadline conn s) [
    | inl end ↦ end.0
    | inr (_, before, _) ↦ absurd (ground (arith, clock.add_forward conn s, before))
  ]
  add_rounds_total clock (suc fuel) deadline conn s h =
      elim (add_round (suc fuel) deadline conn s) [
        | inl end ↦ end.0
        | inr (p, before, same) ↦
            let s1 = (env.add_shard conn s).1 in
            subst (λ r. r.0 ≢ err out_of_fuel) (sym same)
              (add_rounds_total clock fuel deadline conn (env.pause s1).1
                (ground (arith, h, clock.add_forward conn s, clock.pause_forward s1 p)))
      ]

  -- What Read finds for a shard whose hosts are known: no row, or a row whose state it records.
  abbrev pub Recorded : String → List String → S → ShardResource → Type 0
  Recorded name hosts s d =
      (rows : List Shard) × ((env.list_shards s).0 ≡ ok rows)
      × (((find_row name rows ≡ none) × (d.id ≡ ""))
          ⊎ ((row : Shard) × (find_row name rows ≡ some row)
              × (d.id ≡ name)
              × (d.shard_name ≡ row.id)
              × (d.state ≡ row.state)
              × (d.hosts ≡ hosts)))

  module _ (w : World ShardResource S) (h : String) (hs : List String)
      (known : w.resource.hosts ≡ h ∷ hs) where
    abbrev wanted : String
    wanted = if w.resource.id == "" then w.resource.shard_name else w.resource.id

    read_missing :
        (rows : List Shard)
        → (env.list_shards w.server).0 ≡ ok rows
        → find_row wanted rows ≡ none
        → (read_shard env w).1.resource.id ≡ ""
    unfolding read_shard list_rows
    read_missing rows p q = ground (arith, p, q)

    read_unlisted :
        (e : GoError) → (env.list_shards w.server).0 ≡ err e → (read_shard env w).0 ≡ ok tt → ⊥
    unfolding read_shard list_rows
    read_unlisted e p o = ground (arith, p, o)

    read_found :
        (rows : List Shard) (row : Shard)
        → (env.list_shards w.server).0 ≡ ok rows
        → find_row wanted rows ≡ some row
        → (read_shard env w).1.resource
          ≡ record w.resource { state = row.state; shard_name = row.id }
    unfolding read_shard list_rows read_row fill_hosts
    read_found rows row p q = ground (arith, p, q, known)

    read_known :
        (name : String)
        → w.resource.id ≡ name
        → wanted ≡ name
        → (read_shard env w).0 ≡ ok tt
        → Recorded name (h ∷ hs) w.server (read_shard env w).1.resource
    read_known name i n o = elim (Result-cases (env.list_shards w.server).0) [
      | inl (e, p) ↦ absurd (read_unlisted e p o)
      | inr (rows, p) ↦ elim (Option-cases (find_row wanted rows)) [
        | inl q ↦ (rows, p, inl (ap (λ k. find_row k rows) (sym n) ∙ q, read_missing rows p q))
        | inr (row, q) ↦
            let same = read_found rows row p q in
            (
              rows,
              p,
              inr (
                row,
                ap (λ k. find_row k rows) (sym n) ∙ q,
                ap (λ d. d.id) same ∙ i,
                ap (λ d. d.shard_name) same,
                ap (λ d. d.state) same,
                ap (λ d. d.hosts) same ∙ known,
              ),
            )
      ]
    ]

  -- The resource and the servers after the shard was added.
  abbrev added_world : World ShardResource S → S → World ShardResource S
  added_world w s = record {
    resource = record w.resource { id = w.resource.shard_name };
    server = s;
  }

  module _ (fuel : ℕ) (w : World ShardResource S) where
    abbrev conn_of : String
    conn_of = build_shard_connection_string w.resource.shard_name w.resource.hosts

    abbrev adding : Result ShardError (Unit {0}) × S
    adding = add_rounds env fuel (env.now w.server + w.resource.add_timeout) conn_of w.server

    create_failed : (e : ShardError) → adding.0 ≡ err e → (create_shard env fuel w).0 ≡ err e
    unfolding create_shard
    create_failed e p = ground arith

    create_added :
        adding.0 ≡ ok tt → create_shard env fuel w ≡ read_shard env (added_world w adding.1)
    unfolding create_shard
    create_added p = ground arith

    -- Create of a shard with hosts succeeds only when the server accepted an addShard with the
    -- connection string of its name and hosts. The resource then has the name as its id, the state of
    -- the shard's row in listShards and its hosts as planned; or no row has the name, and the id is
    -- empty.
    pub create_shard_lem :
        (h : String) (hs : List String)
        → w.resource.hosts ≡ h ∷ hs
        → (create_shard env fuel w).0 ≡ ok tt
        → (s : S) × Added conn_of s
          × Recorded w.resource.shard_name (h ∷ hs) s (create_shard env fuel w).1.resource
    create_shard_lem h hs known o = elim (Result-cases adding.0) [
      | inl (e, p) ↦ absurd (err≢ok (sym (create_failed e p) ∙ o))
      | inr (u, p) ↦
          let same = create_added p in
          (
            adding.1,
            add_rounds-Added fuel (env.now w.server + w.resource.add_timeout) conn_of w.server p,
            subst (λ r. Recorded w.resource.shard_name (h ∷ hs) adding.1 r.1.resource) (sym same)
                (read_known (added_world w adding.1) h hs known w.resource.shard_name refl
                  (ground (arith, eq_iff w.resource.shard_name "")) (sym (ap (λ r. r.0) same) ∙ o)),
          )
    ]

  read_not_stuck : (w : World ShardResource S) → (read_shard env w).0 ≢ err out_of_fuel
  unfolding read_shard list_rows read_row fill_hosts
  read_not_stuck w = ground arith

  -- With fuel for one round more than its timeout has ticks, Create ends, whatever the server
  -- answers: the clock does not go back, and a pause that is not cut short takes a tick.
  pub create_shard_total :
      (w : World ShardResource S)
      → HasClock env
      → (create_shard env (suc w.resource.add_timeout) w).0 ≢ err out_of_fuel
  create_shard_total w clock =
      let fuel = suc w.resource.add_timeout in
      elim (Result-cases (adding fuel w).0) [
        | inl (e, p) ↦ λ x.
            add_rounds_total clock w.resource.add_timeout
              (env.now w.server + w.resource.add_timeout) (conn_of fuel w) w.server (omega arith)
              (p ∙ sym (create_failed fuel w e p) ∙ x)
        | inr (u, p) ↦ λ x.
            read_not_stuck (added_world w (adding fuel w).1)
              (sym (ap (λ r. r.0) (create_added fuel w p)) ∙ x)
      ]
