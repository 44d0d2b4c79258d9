-- ===== src/Shard.antt =====
-- mongodb/resource_shard.go: the resource that adds a shard to a cluster and removes it again. The
-- commands, the clock and the pause, which ends with the context's error if the context ends first,
-- are parameters; opening and closing the client is left out, and writes to the resource's data do not
-- fail. Each loop has a round for each unit of fuel, and `out_of_fuel` stands for one that has not
-- ended yet.
pub mod HostSet
pub mod Create
pub mod Delete
mod Tests
use terraform_provider_mongo.Prelude.{
  ℕ, zero, suc, ◌+◌, ◌-◌, String, Bool, true, false, not, ◌&&◌, Option, none, some, List, [], ◌∷◌,
  ◌==◌, ℤ, pos, int_beq, nat_beq, ltb, length, Result, ok, err, if◌then◌else◌,
}
use terraform_provider_mongo.Prelude.Action.{
  Action, World, ◌>>=◌, ◌>>◌, pure, raise, get, set, call,
}
use terraform_provider_mongo.Errors.{GoError, is_read_preference_error}
use terraform_provider_mongo.Commands.{Reply, command_error, undecodable, replied, OkResponse}
use terraform_provider_mongo.Discovery.{Shard, ParseError, parse_shard_host}
use terraform_provider_mongo.Discovery.HostPort.{joined, join_with}

-- ShardRemoveResp, with the count of chunks that are left.
pub record ShardRemoveResp : Type 0 where
  pub msg : String
  pub state : String
  pub chunks : ℤ
  pub ok : ℤ

pub record ShardResource : Type 0 where
  pub id : String
  pub shard_name : String
  pub hosts : List String
  pub state : ℤ
  pub add_timeout : ℕ
  pub remove_timeout : ℕ

pub record ShardServer (S : Type 0) : Type 0 where
  pub add_shard : String → S → Reply OkResponse × S
  pub remove_shard : String → S → Reply ShardRemoveResp × S
  pub list_shards : S → Result GoError (List Shard) × S
  pub now : S → ℕ
  pub pause : S → Option GoError × S

pub data ShardError : Type 0 where
  cancelled not_discovered add_failed undecodable_add not_listed : GoError → ShardError
  add_refused : String → ShardError
  bad_host : ParseError → ShardError
  not_removed : ShardError
  remove_failed undecodable_remove : GoError → ShardError
  remove_refused : String → ShardError
  out_of_fuel : ShardError

abbrev hosts_text : List String → String
hosts_text [] = ""
hosts_text (h ∷ hs) = join_with "," h hs

-- BuildShardConnectionString
unfoldable pub build_shard_connection_string : String → List String → String
build_shard_connection_string shard_name hosts = joined "/" shard_name (hosts_text hosts)

-- The loop over `b` in sameHostSet, with what is left of the counts.
unfoldable pub within_counts : (String → ℕ) → List String → Bool
within_counts counts [] = true
within_counts counts (h ∷ hs) =
    let rest = within_counts (λ k. if h == k then counts k - 1 else counts k) hs in
    if nat_beq (counts h) 0 then false else rest

-- How often a text stands in a list: `counts` after its first loop.
abbrev pub count : List String → String → ℕ
count [] h = 0
count (x ∷ xs) h = (if x == h then 1 else 0) + count xs h

-- sameHostSet
unfoldable pub same_host_set : List String → List String → Bool
same_host_set a b = if not (nat_beq (length a) (length b)) then false else within_counts (count a) b

-- blockHostSetChange: whether the plan is refused.
unfoldable pub block_host_set_change : String → List String → List String → Bool
block_host_set_change id old new = if id == "" then false else not (same_host_set old new)

abbrev pub find_row : String → List Shard → Option Shard
find_row name [] = none
find_row name (s ∷ shards) = if s.id == name then some s else find_row name shards

-- The hosts that Read takes from listShards, where the data has none.
unfoldable pub fill_hosts :
    {S : Type 0} → List String → String → Action (World ShardResource S) ShardError (Unit {0})
fill_hosts (h ∷ hs) host = pure tt
fill_hosts [] host = elim (parse_shard_host host) [
  | err e ↦ raise (bad_host e)
  | ok (_, hosts) ↦ set (λ d. record d { hosts = hosts })
]

-- The body of the loop in Read for the row of the shard.
unfoldable pub read_row :
    {S : Type 0} → Shard → Action (World ShardResource S) ShardError (Unit {0})
read_row row = do
  set (λ d. record d { state = row.state; shard_name = row.id })
  d ← get
  fill_hosts d.hosts row.host

module _ {S : Type 0} (env : ShardServer S) where
  -- The loop of Create, with its deadline.
  unfoldable pub add_rounds : ℕ → ℕ → String → S → Result ShardError (Unit {0}) × S
  add_rounds zero deadline conn s = (err out_of_fuel, s)
  add_rounds (suc fuel) deadline conn s =
      let (reply, s1) = env.add_shard conn s in
      elim reply [
        | command_error e ↦
            if is_read_preference_error e && ltb (env.now s1) deadline
            then (let (ended, s2) = env.pause s1 in
                elim ended [
                  | some c ↦ (err (cancelled c), s2)
                  | none ↦ add_rounds fuel deadline conn s2
                ])
            else (err (if is_read_preference_error e then not_discovered e else add_failed e), s1)
        | undecodable e ↦ (err (undecodable_add e), s1)
        | replied r ↦ (if int_beq r.ok (pos 1) then ok tt else err (add_refused r.errmsg), s1)
      ]

  -- The loop of Delete.
  unfoldable pub remove_rounds : ℕ → ℕ → String → S → Result ShardError (Unit {0}) × S
  remove_rounds zero deadline name s = (err out_of_fuel, s)
  remove_rounds (suc fuel) deadline name s =
      let (reply, s1) = env.remove_shard name s in
      let (ended, s2) = env.pause s1 in
      let next : Result ShardError (Unit {0}) × S = elim ended [
        | some c ↦ (err (cancelled c), s2)
        | none ↦ remove_rounds fuel deadline name s2
      ] in
      if ltb deadline (env.now s) then (err not_removed, s) else elim reply [
        | command_error e ↦ (err (remove_failed e), s1)
        | undecodable e ↦ (err (undecodable_remove e), s1)
        | replied r ↦
            if not (int_beq r.ok (pos 1))
            then (err (remove_refused r.msg), s1)
            else if r.state == "completed"
            then (ok tt, s1)
            else next
      ]

  list_rows : S → Result ShardError (List Shard) × S
  list_rows s =
      let (r, s1) = env.list_shards s in
      (elim r [ err e ↦ err (not_listed e) | ok rows ↦ ok rows ], s1)

  -- Read
  unfoldable pub read_shard : Action (World ShardResource S) ShardError (Unit {0})
  unfolding list_rows
  read_shard = do
    d ← get
    rows ← call list_rows
    elim (find_row (if d.id == "" then d.shard_name else d.id) rows) [
      | some row ↦ read_row row
      | none ↦ set (λ d. record d { id = "" })
    ]

  -- Create
  unfoldable pub create_shard : ℕ → Action (World ShardResource S) ShardError (Unit {0})
  create_shard fuel = do
    d ← get
    call (λ s.
        add_rounds fuel (env.now s + d.add_timeout)
          (build_shard_connection_string d.shard_name d.hosts) s)
    set (λ d. record d { id = d.shard_name })
    read_shard

  -- Delete
  unfoldable pub delete_shard : ℕ → Action (World ShardResource S) ShardError (Unit {0})
  delete_shard fuel = do
    d ← get
    call (λ s. remove_rounds fuel (env.now s + d.remove_timeout) d.id s)
