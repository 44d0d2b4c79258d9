-- ===== src/Members.antt =====
-- The member blocks of mongodb/resource_shard_config.go and the functions on them there and in
-- mongodb/shard_members.go that need no server: validation, the split into members to change and to
-- add, the merge into the configuration and the read-back into state.
-- A Go map from hosts is a function of the list it was built from; where two entries have one key,
-- the later one counts. A host is compared as a whole, as in Go.
pub mod Lookup
pub mod Merge
pub mod NextId
pub mod Partition
pub mod Promotions
pub mod ReadBack
pub mod Validate
use terraform_provider_mongo.Prelude.{
  ℕ, zero, suc, ◌+◌, String, Bool, true, false, not, Option, none, some, List, [], ◌∷◌, ◌++◌, map,
  ◌&&◌, ◌||◌, ◌==◌, ℤ, pos, inc, int_beq, int_leb, Float64, float_beq, zero_float, nat_beq, leb,
  contains, Result, ok, err, if◌then◌else◌,
}
use terraform_provider_mongo.ReplSet.{
  ReplsetTags, ConfigMember, ConfigMembers, deref_bool, deref_int,
}

-- MemberOverride: the member blocks of the Terraform configuration.
pub record MemberOverride : Type 0 where
  pub host : String
  pub priority : Float64
  pub votes : ℤ
  pub hidden : Bool
  pub arbiter_only : Bool
  pub build_indexes : Bool
  pub tags : Option ReplsetTags

abbrev pub override_hosts : List MemberOverride → List String
override_hosts = map (λ o. o.host)

-- memberHosts
abbrev pub member_hosts : ConfigMembers → List String
member_hosts = map (λ m. m.host)

-- The map from hosts to members that HoldPromotions and RSConfigMembersToState build.
unfoldable pub lookup_member : String → ConfigMembers → Option ConfigMember
lookup_member host [] = none
lookup_member host (m ∷ ms) = elim (lookup_member host ms) [
  | some x ↦ some x
  | none ↦ if m.host == host then some m else none
]

-- PartitionMemberOverrides: the blocks whose host is in the set, and the others.
unfoldable pub partition_member_overrides :
    ConfigMembers → List MemberOverride → List MemberOverride × List MemberOverride
partition_member_overrides members [] = ([], [])
partition_member_overrides members (o ∷ os) =
    let (existing, missing) = partition_member_overrides members os in
    if contains (member_hosts members) o.host
    then (o ∷ existing, missing)
    else (existing, o ∷ missing)

-- One round of HoldPromotions: the block to hold, and the block to promote.
unfoldable pub hold_promotion : ConfigMembers → MemberOverride → MemberOverride × Bool
hold_promotion members o = elim (lookup_member o.host members) [
  | none ↦ (o, false)
  | some m ↦
      if int_leb o.votes (deref_int m.votes)
      then (o, false)
      else (record o { votes = deref_int m.votes; priority = m.priority }, true)
]

unfoldable pub hold_promotions :
    ConfigMembers → List MemberOverride → List MemberOverride × List MemberOverride
hold_promotions members [] = ([], [])
hold_promotions members (o ∷ os) =
    let (held, promote) = hold_promotions members os in
    let (pinned, raises) = hold_promotion members o in
    (pinned ∷ held, if raises then o ∷ promote else promote)

-- The loop of NextMemberID.
next_id_from : ℤ → ConfigMembers → ℤ
next_id_from next [] = next
next_id_from next (m ∷ ms) = next_id_from (if int_leb next m.id then inc m.id else next) ms

unfoldable pub next_member_id : ConfigMembers → ℤ
unfolding next_id_from
next_member_id members = next_id_from (pos 0) members

unfoldable pub build_config_member : MemberOverride → ℤ → ConfigMember
build_config_member o id = record {
  id = id;
  host = o.host;
  arbiter_only = some o.arbiter_only;
  build_indexes = some o.build_indexes;
  hidden = some o.hidden;
  priority = o.priority;
  tags = o.tags;
  slave_delay = none;
  votes = some o.votes;
}

unfoldable pub staged_member : MemberOverride → ℤ → ConfigMember
unfolding build_config_member
staged_member o id =
    if o.arbiter_only
    then build_config_member o id
    else build_config_member (record o { votes = pos 0; priority = zero_float }) id

unfoldable pub needs_promotion : MemberOverride → Bool
needs_promotion o =
    not o.arbiter_only && (not (int_beq o.votes (pos 0)) || not (float_beq o.priority zero_float))

-- The map `hostIndex` of MergeMembers, as a function of the hosts.
unfoldable pub host_index : List String → String → Option ℕ
host_index [] host = none
host_index (h ∷ hs) host = elim (host_index hs host) [
  | some i ↦ some (suc i)
  | none ↦ if h == host then some 0 else none
]

unfoldable pub update_at : ℕ → (ConfigMember → ConfigMember) → ConfigMembers → ConfigMembers
update_at i f [] = []
update_at zero f (m ∷ ms) = f m ∷ ms
update_at (suc i) f (m ∷ ms) = m ∷ update_at i f ms

-- The assignments to `rsMembers[idx]`.
abbrev pub override_member : MemberOverride → ConfigMember → ConfigMember
override_member o m = record m {
  priority = o.priority;
  votes = some o.votes;
  hidden = some o.hidden;
  arbiter_only = some o.arbiter_only;
  build_indexes = some o.build_indexes;
  tags = o.tags;
}

-- The error of MergeMembers: a host that is not in the set, and the hosts that are.
pub data MergeError : Type 0 where
  host_not_found : String → List String → MergeError

unfoldable pub merge_from :
    List String → ConfigMembers → List MemberOverride → Result MergeError ConfigMembers
merge_from hosts members [] = ok members
merge_from hosts members (o ∷ os) = elim (host_index hosts o.host) [
  | none ↦ err (host_not_found o.host (member_hosts members))
  | some i ↦ merge_from hosts (update_at i (override_member o) members) os
]

unfoldable pub merge_members : ConfigMembers → List MemberOverride → Result MergeError ConfigMembers
merge_members members overrides = merge_from (member_hosts members) members overrides

-- What the state records of a member.
pub record MemberBlock : Type 0 where
  pub host : String
  pub priority : Float64
  pub arbiter_only : Bool
  pub build_indexes : Bool
  pub hidden : Bool
  pub votes : ℤ
  pub tags : ReplsetTags

abbrev pub tags_or_empty : Option ReplsetTags → ReplsetTags
tags_or_empty none = []
tags_or_empty (some t) = t

-- The `memberMap` of RSConfigMembersToState.
abbrev pub member_block : ConfigMember → MemberBlock
member_block m = record {
  host = m.host;
  priority = m.priority;
  arbiter_only = deref_bool m.arbiter_only;
  build_indexes = deref_bool m.build_indexes;
  hidden = deref_bool m.hidden;
  votes = deref_int m.votes;
  tags = tags_or_empty m.tags;
}

unfoldable pub blocks_of : ConfigMembers → List String → List MemberBlock
blocks_of members [] = []
blocks_of members (host ∷ hosts) =
    let rest = blocks_of members hosts in
    elim (lookup_member host members) [ none ↦ rest | some m ↦ member_block m ∷ rest ]

-- RSConfigMembersToState: `none` is the nil slice.
unfoldable pub rs_config_members_to_state :
    ConfigMembers → Option (List String) → Option (List MemberBlock)
unfolding blocks_of
rs_config_members_to_state members none = none
rs_config_members_to_state members (some hosts) = some (blocks_of members hosts)
