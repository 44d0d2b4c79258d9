-- ===== src/Reconcile/Safety.antt =====
-- Which members the reconciliation of mongodb/shard_members.go leaves as they are.
use mathlib.Core.List.{append-nil, Mem, mem-append, mem-cons, not-mem-nil}
use mathlib.Core.Logic.Or
use terraform_provider_mongo.Prelude.{
  String, Bool, true, not, List, [], ◌∷◌, ◌++◌, ◌≡◌, refl, ◌∙◌, arith, eq_iff, eq_refl, contains,
  keep, keep-append,
}
use terraform_provider_mongo.ReplSet.{ConfigMembers}
use terraform_provider_mongo.Members.{
  MemberOverride, override_hosts, member_hosts, next_member_id, staged_member,
}
use terraform_provider_mongo.Reconcile.{MemberAddOps, without_host, promote_first}
use terraform_provider_mongo.Reconcile.Loops.{reconcile_members}
use terraform_provider_mongo.Reconcile.Server.{IsReplicaSet}
use terraform_provider_mongo.Reconcile.Steps.{Step, Steps, add, promote, remove, here, next}
use terraform_provider_mongo.Reconcile.Evolution.{reconcile-Steps}
use terraform_provider_mongo.Reconcile.Evolution.States.{staged_host}

-- The members whose host none of the texts is.
abbrev pub others : List String → ConfigMembers → ConfigMembers
others named = keep (λ m. not (contains named m.host))

true_prop : (b : Bool) → IsProp (b ≡ true)
true_prop b = hlevel

pub contains_of_mem :
    (o : MemberOverride) (os : List MemberOverride)
    → Mem o os
    → contains (override_hosts os) o.host ≡ true
contains_of_mem o [] m = absurd (not-mem-nil m)
contains_of_mem o (x ∷ os) m =
    Or.elim (true_prop _) (mem-cons.0 m) (λ e. rw (← e) (rw (eq_refl o.host)))
      (λ r. ground (arith, contains_of_mem o os r))

others-promote_first :
    (named : List String) (o : MemberOverride) (ms : ConfigMembers)
    → contains named o.host ≡ true
    → others named (promote_first o ms) ≡ others named ms
unfolding promote_first
others-promote_first named o [] c = refl
others-promote_first named o (m ∷ ms) c =
    ground (arith, eq_iff m.host o.host, others-promote_first named o ms c)

others-without_host :
    (named : List String) (h : String) (ms : ConfigMembers)
    → contains named h ≡ true
    → others named (without_host h ms) ≡ others named ms
others-without_host named h [] c = refl
others-without_host named h (m ∷ ms) c =
    ground (arith, eq_iff m.host h, others-without_host named h ms c)

hosts-promote_first :
    (o : MemberOverride) (ms : ConfigMembers) → member_hosts (promote_first o ms) ≡ member_hosts ms
unfolding promote_first
hosts-promote_first o [] = refl
hosts-promote_first o (m ∷ ms) = ground (arith, hosts-promote_first o ms)

module _ {S : Type 0} (ops : MemberAddOps S) (promotions adds : List MemberOverride) where
  abbrev named : List String
  named = override_hosts (promotions ++ adds)

  Step-others :
      {ms ms' : ConfigMembers}
      → Step ops promotions adds ms ms'
      → others named ms' ≡ others named ms
  Step-others (add o ms m) =
      let c = contains_of_mem o (promotions ++ adds) (mem-append.1 (Or.inr m)) in
      keep-append (λ x. not (contains named x.host)) ms (staged_member o (next_member_id ms) ∷ [])
      ∙ (simp (staged_host o (next_member_id ms), c) (append-nil (others named ms)))
  Step-others (promote o ms m n s) =
      others-promote_first named o ms (contains_of_mem o (promotions ++ adds) m)
  Step-others (remove o ms m w) =
      others-without_host named o.host ms
        (contains_of_mem o (promotions ++ adds) (mem-append.1 (Or.inr m)))

  Steps-others :
      {ms ms' : ConfigMembers}
      → Steps ops promotions adds ms ms'
      → others named ms' ≡ others named ms
  Steps-others here = refl
  Steps-others (next r s) = Step-others s ∙ Steps-others r

module _ {S : Type 0} (ops : MemberAddOps S) (promotions : List MemberOverride) where
  Steps-hosts :
      {ms ms' : ConfigMembers} → Steps ops promotions [] ms ms' → member_hosts ms' ≡ member_hosts ms
  Steps-hosts here = refl
  Steps-hosts (next r (add o ms m)) = absurd (not-mem-nil m)
  Steps-hosts (next r (promote o ms m n s)) = hosts-promote_first o ms ∙ Steps-hosts r
  Steps-hosts (next r (remove o ms m w)) = absurd (not-mem-nil m)

-- Whatever fails, a member whose host no block to promote or to add names is after the
-- reconciliation exactly what it was, in the same order; and where there is nothing to add, the set
-- has the same hosts in the same order.
pub reconcile_untouched :
    {S : Type 0} (ops : MemberAddOps S) (live : S → ConfigMembers)
    (promotions adds : List MemberOverride) (s : S)
    → IsReplicaSet ops live
    → (others
          (override_hosts (promotions ++ adds))
          (live (reconcile_members ops promotions adds s).1)
        ≡ others (override_hosts (promotions ++ adds)) (live s))
      × (member_hosts (live (reconcile_members ops promotions [] s).1) ≡ member_hosts (live s))
reconcile_untouched ops live promotions adds s set = (
  Steps-others ops promotions adds (reconcile-Steps ops live set promotions adds s),
  Steps-hosts ops promotions (reconcile-Steps ops live set promotions [] s),
)
