-- ===== src/Reconcile/Voters.antt =====
-- The number of voting members through the reconfigs of mongodb/shard_members.go. MongoDB refuses a
-- reconfig that adds or removes more than one voting member.
use terraform_provider_mongo.Prelude.{
  ℕ, ◌+◌, ◌≤◌, String, Bool, false, not, List, [], ◌∷◌, ◌++◌, ◌≡◌, refl, arith, ℤ, pos, int_beq,
  eq_iff, contains, Distinct, keep, length,
}
use terraform_provider_mongo.ReplSet.{ConfigMember, ConfigMembers, deref_int}
use terraform_provider_mongo.Members.{
  MemberOverride, member_hosts, next_member_id, staged_member, build_config_member,
}
use terraform_provider_mongo.Reconcile.{MemberAddOps, without_host, promote_first}
use terraform_provider_mongo.Reconcile.Steps.{Step, add, promote, remove}

abbrev pub is_voter : ConfigMember → Bool
is_voter m = not (int_beq (deref_int m.votes) (pos 0))

-- How many members have a vote.
abbrev pub voters : ConfigMembers → ℕ
voters ms = length (keep is_voter ms)

voters-append :
    (ms : ConfigMembers) (m : ConfigMember)
    → (voters (ms ++ m ∷ []) ≤ voters ms + 1) × (voters ms ≤ voters (ms ++ m ∷ []))
voters-append [] m = ground arith
voters-append (x ∷ ms) m = ground (arith, voters-append ms m)

voters-promote_first :
    (o : MemberOverride) (ms : ConfigMembers)
    → (voters (promote_first o ms) ≤ voters ms + 1) × (voters ms ≤ voters (promote_first o ms) + 1)
unfolding promote_first
voters-promote_first o [] = ground arith
voters-promote_first o (m ∷ ms) = ground (arith, voters-promote_first o ms)

without-absent :
    (h : String) (ms : ConfigMembers)
    → contains (member_hosts ms) h ≡ false
    → without_host h ms ≡ ms
without-absent h [] c = refl
without-absent h (m ∷ ms) c = ground (arith, without-absent h ms)

voters-without_host :
    (h : String) (ms : ConfigMembers)
    → Distinct (member_hosts ms)
    → (voters (without_host h ms) ≤ voters ms) × (voters ms ≤ voters (without_host h ms) + 1)
voters-without_host h [] d = ground arith
voters-without_host h (m ∷ ms) d =
    ground (arith, voters-without_host h ms d.1, without-absent h ms, eq_iff m.host h)

-- One reconfig of the reconciliation gives or takes at most one vote, in a set whose hosts are
-- distinct.
pub Step-voters :
    {S : Type 0} (ops : MemberAddOps S) (promotions adds : List MemberOverride)
    (ms ms' : ConfigMembers)
    → Distinct (member_hosts ms)
    → Step ops promotions adds ms ms'
    → (voters ms' ≤ voters ms + 1) × (voters ms ≤ voters ms' + 1)
Step-voters ops promotions adds ms ms' d (add o _ m) =
    omega (arith, voters-append ms (staged_member o (next_member_id ms)))
Step-voters ops promotions adds ms ms' d (promote o _ m n s) = voters-promote_first o ms
Step-voters ops promotions adds ms ms' d (remove o _ m w) =
    omega (arith, voters-without_host o.host ms d)

voters-append_nonvoter :
    (ms : ConfigMembers) (m : ConfigMember) → is_voter m ≡ false → voters (ms ++ m ∷ []) ≡ voters ms
voters-append_nonvoter [] m v = ground arith
voters-append_nonvoter (x ∷ ms) m v = ground (arith, voters-append_nonvoter ms m v)

staged-is_voter :
    (o : MemberOverride) (id : ℤ) → o.arbiter_only ≡ false → is_voter (staged_member o id) ≡ false
unfolding staged_member build_config_member
staged-is_voter o id a = ground arith

-- Adding the staged member of a block that is no arbiter leaves the number of voting members as it
-- is, whatever votes the block asks for; so a member has no vote while it syncs.
pub staged_member-voters :
    (o : MemberOverride) (ms : ConfigMembers)
    → o.arbiter_only ≡ false
    → voters (ms ++ staged_member o (next_member_id ms) ∷ []) ≡ voters ms
staged_member-voters o ms a =
    voters-append_nonvoter ms (staged_member o (next_member_id ms)) (staged-is_voter o _ a)
