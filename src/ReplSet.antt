-- ===== src/ReplSet.antt =====
-- mongodb/replica_set_types.go: the replica set's documents, as the provider decodes them, and
-- the queries on a status. A Go pointer that may be nil is an `Option`, and so is a map that the
-- code tests against nil; a map is a list of pairs. The `w` of a write concern, an `interface{}`,
-- is nil, a number or a text. Of a status row only the fields that the provider reads are kept.
pub mod MemberState
pub mod Oplog
pub mod Status
use terraform_provider_mongo.Prelude.{
  ℕ, ◌+◌, String, Bool, true, false, Option, none, some, List, [], ◌∷◌, ◌++◌, ◌&&◌, ℤ, pos, Float64,
  int_beq, nat_beq, ltb, length, if◌then◌else◌,
}

-- ReplsetTags
abbrev pub ReplsetTags : Type 0
ReplsetTags = List (String × String)

pub record ConfigMember : Type 0 where
  pub id : ℤ
  pub host : String
  pub arbiter_only : Option Bool
  pub build_indexes : Option Bool
  pub hidden : Option Bool
  pub priority : Float64
  pub tags : Option ReplsetTags
  pub slave_delay : Option ℤ
  pub votes : Option ℤ

-- ConfigMembers
abbrev pub ConfigMembers : Type 0
ConfigMembers = List ConfigMember

pub data WriteConcernValue : Type 0 where
  absent : WriteConcernValue
  number : ℤ → WriteConcernValue
  named : String → WriteConcernValue

pub record WriteConcern : Type 0 where
  pub write_concern : WriteConcernValue
  pub write_timeout : ℤ
  pub journal : Bool

pub record Settings : Type 0 where
  pub chaining_allowed : Bool
  pub heartbeat_interval_millis : ℤ
  pub heartbeat_timeout_secs : ℤ
  pub election_timeout_millis : ℤ
  pub catch_up_timeout_millis : ℤ
  pub get_last_error_modes : List (String × ReplsetTags)
  pub get_last_error_defaults : WriteConcern
  pub replica_set_id : String

pub record RsConfig : Type 0 where
  pub id : String
  pub version : ℤ
  pub members : ConfigMembers
  pub configsvr : Bool
  pub protocol_version : ℤ
  pub settings : Settings
  pub write_concern_majority_journal_default : Bool

pub record IsMasterResp : Type 0 where
  pub is_master : Bool
  pub secondary : Bool
  pub is_arbiter : Bool
  pub is_replica_set : Bool
  pub set_name : String
  pub primary : String
  pub me : String
  pub msg : String
  pub info : String
  pub errmsg : String
  pub ok : ℤ

-- A row of replSetGetStatus.
pub record Member : Type 0 where
  pub id : ℤ
  pub name : String
  pub health : ℤ
  pub state : ℤ
  pub state_str : String
  pub self : Bool

pub record ReplSetStatus : Type 0 where
  pub set : String
  pub my_state : ℤ
  pub members : List Member

-- MemberHealthUp
abbrev pub member_health_up : ℤ
member_health_up = pos 1

-- MemberStateStrings: a number that is not a key reads as the empty text.
unfoldable pub member_state_string : ℤ → String
member_state_string s =
    if int_beq s MemberState.startup
    then "STARTUP"
    else if int_beq s MemberState.primary
    then "PRIMARY"
    else if int_beq s MemberState.secondary
    then "SECONDARY"
    else if int_beq s MemberState.recovering
    then "RECOVERING"
    else if int_beq s MemberState.startup2
    then "STARTUP2"
    else if int_beq s MemberState.unknown
    then "UNKNOWN"
    else if int_beq s MemberState.arbiter
    then "ARBITER"
    else if int_beq s MemberState.down
    then "DOWN"
    else if int_beq s MemberState.rollback
    then "ROLLBACK"
    else if int_beq s MemberState.removed
    then "REMOVED"
    else ""

-- derefBool and derefInt
abbrev pub deref_bool : Option Bool → Bool
deref_bool none = false
deref_bool (some b) = b

abbrev pub deref_int : Option ℤ → ℤ
deref_int none = pos 0
deref_int (some n) = n

-- The loop of `GetMembersByState`, with the members found so far.
by_state_from : ℤ → ℕ → List Member → List Member → List Member
by_state_from state limit found [] = found
by_state_from state limit found (m ∷ ms) =
    let found' = found ++ m ∷ [] in
    let more = by_state_from state limit found' ms in
    let skip = by_state_from state limit found ms in
    if int_beq m.state state
    then (if ltb 0 limit && nat_beq (length found') limit then found' else more)
    else skip

-- A limit of 0 or less is none; the callers pass 0 and 1.
unfoldable pub get_members_by_state : ReplSetStatus → ℤ → ℕ → List Member
unfolding by_state_from
get_members_by_state s state limit = by_state_from state limit [] s.members

abbrev only : List Member → Option Member
only (m ∷ []) = some m
only _ = none

-- ReplSetStatus.Primary
unfoldable pub primary_of : ReplSetStatus → Option Member
unfolding get_members_by_state
primary_of s = only (get_members_by_state s MemberState.primary 1)

self_in : List Member → Option Member
self_in [] = none
self_in (m ∷ ms) = if m.self then some m else self_in ms

-- ReplSetStatus.GetSelf
unfoldable pub get_self : ReplSetStatus → Option Member
unfolding self_in
get_self s = self_in s.members
