-- ===== src/Members/ReadBack.antt =====
-- RSConfigMembersToState (mongodb/resource_shard_config.go) after MergeMembers: the state of the
-- blocks that were applied.
use terraform_provider_mongo.Prelude.{
  String, true, false, some, List, [], ◌∷◌, map, ◌≡◌, refl, ◌∙◌, ap, arith, eq_iff, eq_refl,
  contains, Distinct, All, ok,
}
use terraform_provider_mongo.ReplSet.{ConfigMember, ConfigMembers}
use terraform_provider_mongo.Members.{
  MemberOverride, MemberBlock, override_hosts, member_hosts, lookup_member, override_member,
  merge_members, blocks_of, rs_config_members_to_state, tags_or_empty,
}
use terraform_provider_mongo.Members.Lookup.{lookup_member-some, lookup_member-host}
use terraform_provider_mongo.Members.Merge.{
  find_override, merged_member, merge_members-lookup, host_index-contains,
}

-- The state of a block that was applied.
abbrev pub override_block : MemberOverride → MemberBlock
override_block o = record {
  host = o.host;
  priority = o.priority;
  arbiter_only = o.arbiter_only;
  build_indexes = o.build_indexes;
  hidden = o.hidden;
  votes = o.votes;
  tags = tags_or_empty o.tags;
}

-- Every block of `os` shows in the look-ups of `ms`.
Applied : ConfigMembers → List MemberOverride → Type 0
Applied ms = All (λ o.
    (m : ConfigMember) × (m.host ≡ o.host) × (lookup_member o.host ms ≡ some (override_member o m)))

blocks_of-Applied :
    (ms : ConfigMembers) (os : List MemberOverride)
    → Applied ms os
    → blocks_of ms (override_hosts os) ≡ map override_block os
unfolding blocks_of Applied
blocks_of-Applied ms [] a = refl
blocks_of-Applied ms (o ∷ os) a =
    let (m, same, found) = a.0 in ground (arith, found, same, blocks_of-Applied ms os a.1)

Finds : List MemberOverride → List MemberOverride → Type 0
Finds all = All (λ o. find_override o.host all ≡ some o)

Finds-later :
    (o : MemberOverride) (all os : List MemberOverride)
    → contains (override_hosts os) o.host ≡ false
    → Finds all os
    → Finds (o ∷ all) os
unfolding Finds
Finds-later o all [] c f = tt
Finds-later o all (x ∷ os) c f = (
  ground (arith, f.0, eq_iff x.host o.host, eq_iff o.host x.host),
  Finds-later o all os (ground arith) f.1,
)

-- With distinct hosts, each block is the block of its host.
Finds-self : (os : List MemberOverride) → Distinct (override_hosts os) → Finds os os
unfolding Finds
Finds-self [] d = tt
Finds-self (o ∷ os) d = (rw (eq_refl o.host), Finds-later o os os d.0 (Finds-self os d.1))

applied :
    (ms ms' : ConfigMembers) (all os : List MemberOverride)
    → ((h : String)
        → lookup_member h ms' ≡ merged_member (find_override h all) (lookup_member h ms))
    → All (λ o. contains (member_hosts ms) o.host ≡ true) os
    → Finds all os
    → Applied ms' os
unfolding Applied Finds
applied ms ms' all [] l c f = tt
applied ms ms' all (o ∷ os) l c f =
    let (i, p) = host_index-contains (member_hosts ms) o.host c.0 in
    let (m, found) = lookup_member-some o.host ms i p in
    (
      (m, lookup_member-host o.host ms m found, l o.host ∙ rw (f.0, found)),
      applied ms ms' all os l c.1 f.1,
    )

-- Where MergeMembers merges blocks of distinct hosts, each the host of a member, RSConfigMembersToState
-- gives for its result and these hosts the blocks again, in their order.
pub read_back-merge :
    (ms : ConfigMembers) (os : List MemberOverride) (ms' : ConfigMembers)
    → Distinct (override_hosts os)
    → All (λ o. contains (member_hosts ms) o.host ≡ true) os
    → merge_members ms os ≡ ok ms'
    → rs_config_members_to_state ms' (some (override_hosts os)) ≡ some (map override_block os)
unfolding rs_config_members_to_state
read_back-merge ms os ms' d c e = ap some (
    blocks_of-Applied ms' os
      (applied ms ms' os os (merge_members-lookup ms os ms' d e).1 c (Finds-self os d)))
