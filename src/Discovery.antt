-- ===== src/Discovery.antt =====
-- mongodb/shard_discovery.go: what the provider is connected to, and which host of a shard it dials.
pub mod HostPort
pub mod Resolve
use Prim.Native.Char.{Char, code}
use Prim.Native.String
use terraform_provider_mongo.Prelude.{
  ℕ, ℤ, String, Bool, true, false, not, Option, none, some, List, [], ◌∷◌, ◌++◌, ◌==◌, nat_beq,
  Result, ok, err, if◌then◌else◌,
}
use terraform_provider_mongo.ReplSet.{IsMasterResp}

pub data ConnectionType : Type 0 where
  mongos replica_set standalone : ConnectionType

-- classifyConnectionType
unfoldable pub classify_connection_type : IsMasterResp → ConnectionType
classify_connection_type resp =
    if resp.msg == "isdbgrid"
    then mongos
    else if not (resp.set_name == "")
    then replica_set
    else standalone

abbrev pub push_front : Char → Option (String × String) → Option (String × String)
push_front c none = none
push_front c (some (a, b)) = some (String.◌∷◌ c a, b)

-- The parts of a text before and after the first place of a character, `strings.Index`.
unfoldable pub split_first : ℕ → String → Option (String × String)
split_first sep String.[] = none
split_first sep (String.◌∷◌ c s) =
    let rest = push_front c (split_first sep s) in
    if nat_beq (code c) sep then some (String.[], s) else rest

-- The parts before and after the last place, `strings.LastIndex`.
unfoldable pub split_last : ℕ → String → Option (String × String)
split_last sep String.[] = none
split_last sep (String.◌∷◌ c s) = elim (split_last sep s) [
  | some (a, b) ↦ some (String.◌∷◌ c a, b)
  | none ↦ if nat_beq (code c) sep then some (String.[], s) else none
]

abbrev pub slash : ℕ
slash = b'/'

abbrev pub colon : ℕ
colon = b':'

abbrev pub comma : ℕ
comma = b','

abbrev extend_head : Char → List String → List String
extend_head c [] = []
extend_head c (part ∷ parts) = String.◌∷◌ c part ∷ parts

-- `strings.Split` by one character.
unfoldable pub split_all : ℕ → String → List String
split_all sep String.[] = String.[] ∷ []
split_all sep (String.◌∷◌ c s) =
    let parts = split_all sep s in
    if nat_beq (code c) sep then String.[] ∷ parts else extend_head c parts

pub data ParseError : Type 0 where
  missing_slash empty_set_name empty_hosts : String → ParseError
  empty_input : ParseError
  empty_host empty_port : String → ParseError

-- ParseShardHost
unfoldable pub parse_shard_host : String → Result ParseError (String × List String)
parse_shard_host s = elim (split_first slash s) [
  | none ↦ err (missing_slash s)
  | some (rs_name, hosts) ↦
      if rs_name == ""
      then err (empty_set_name s)
      else if hosts == ""
      then err (empty_hosts s)
      else ok (rs_name, split_all comma hosts)
]

-- SplitHostPort
unfoldable pub split_host_port : String → Result ParseError (String × String)
split_host_port s = if s == "" then err empty_input else elim (split_last colon s) [
  | none ↦ ok (s, "27017")
  | some (host, port) ↦
      if host == ""
      then err (empty_host s)
      else if port == ""
      then err (empty_port s)
      else ok (host, port)
]

-- A row of listShards.
pub record Shard : Type 0 where
  pub id : String
  pub host : String
  pub state : ℤ

find_shard : List Shard → String → List String → Result (List String) String
find_shard [] name available = err available
find_shard (s ∷ shards) name available =
    let rest = find_shard shards name (available ++ s.id ∷ []) in
    if s.id == name then ok s.host else rest

-- FindShardByName; the error has the names that are available.
unfoldable pub find_shard_by_name : List Shard → String → Result (List String) String
unfolding find_shard
find_shard_by_name shards name = find_shard shards name []
