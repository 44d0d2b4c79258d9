-- ===== src/Reconcile/Settled/First.antt =====
-- The first member of a host through the reconfigs of mongodb/shard_members.go.
use mathlib.Core.List.{Mem, mem-append}
use mathlib.Core.Logic.Or
use terraform_provider_mongo.Prelude.{
  String, false, none, some, List, [], ◌∷◌, ◌++◌, ◌==◌, ◌≡◌, refl, ◌∙◌, ap, arith, eq_iff, contains,
  Bool-cases, inl, inr,
}
use terraform_provider_mongo.ReplSet.{ConfigMember, ConfigMembers}
use terraform_provider_mongo.Members.{MemberOverride, override_hosts, next_member_id, staged_member}
use terraform_provider_mongo.Reconcile.{
  MemberAddOps, without_host, first_member, promote_first, promoted,
}
use terraform_provider_mongo.Reconcile.Steps.{Step, Steps, add, promote, remove, here, next}
use terraform_provider_mongo.Reconcile.Evolution.States.{staged_host}
use terraform_provider_mongo.Reconcile.Safety.{contains_of_mem}

pub first-append :
    (h : String) (ms : ConfigMembers) (m : ConfigMember)
    → first_member h ms ≡ none
    → m.host ≡ h
    → first_member h (ms ++ m ∷ []) ≡ some m
unfolding first_member
first-append h [] m c e = ground (arith, eq_iff m.host h)
first-append h (x ∷ ms) m c e = ground (arith, first-append h ms m)

first-append_other :
    (h : String) (ms : ConfigMembers) (m : ConfigMember)
    → (m.host == h) ≡ false
    → first_member h (ms ++ m ∷ []) ≡ first_member h ms
unfolding first_member
first-append_other h [] m c = ground arith
first-append_other h (x ∷ ms) m c = ground (arith, first-append_other h ms m)

pub first-promote_first :
    (o : MemberOverride) (ms : ConfigMembers) (m : ConfigMember)
    → first_member o.host ms ≡ some m
    → first_member o.host (promote_first o ms) ≡ some (promoted o m)
unfolding first_member promote_first
first-promote_first o [] m e = absurd (cc)
first-promote_first o (x ∷ ms) m e = ground (arith, first-promote_first o ms m)

first-promote_other :
    (h : String) (o : MemberOverride) (ms : ConfigMembers)
    → (o.host == h) ≡ false
    → first_member h (promote_first o ms) ≡ first_member h ms
unfolding first_member promote_first
first-promote_other h o [] c = refl
first-promote_other h o (x ∷ ms) c =
    ground
      (arith, first-promote_other h o ms, eq_iff x.host o.host, eq_iff x.host h, eq_iff o.host h)

first-without_other :
    (h k : String) (ms : ConfigMembers)
    → (k == h) ≡ false
    → first_member h (without_host k ms) ≡ first_member h ms
unfolding first_member
first-without_other h k [] c = refl
first-without_other h k (x ∷ ms) c =
    ground (arith, first-without_other h k ms, eq_iff x.host k, eq_iff x.host h, eq_iff k h)

-- A block that is in a list of blocks has another host than one that the list does not name.
other_host :
    (h : String) (o : MemberOverride) (os : List MemberOverride)
    → contains (override_hosts os) h ≡ false
    → Mem o os
    → (o.host == h) ≡ false
other_host h o os c m = elim (Bool-cases (o.host == h)) [
  | inr e ↦ e
  | inl e ↦
      let same : o.host ≡ h = (eq_iff o.host h).0 e in
      absurd (cc (contains_of_mem o os m, ap (contains (override_hosts os)) same))
]

module _ {S : Type 0} (ops : MemberAddOps S) (promotions adds : List MemberOverride) (h : String)
    (c : contains (override_hosts (promotions ++ adds)) h ≡ false) where
  Step-first :
      {ms ms' : ConfigMembers}
      → Step ops promotions adds ms ms'
      → first_member h ms' ≡ first_member h ms
  Step-first (add o ms m) = first-append_other h ms (staged_member o (next_member_id ms)) (
      rw (staged_host o (next_member_id ms))
        (other_host h o (promotions ++ adds) c (mem-append.1 (Or.inr m))))
  Step-first (promote o ms m n s) =
      first-promote_other h o ms (other_host h o (promotions ++ adds) c m)
  Step-first (remove o ms m w) =
      first-without_other h o.host ms
        (other_host h o (promotions ++ adds) c (mem-append.1 (Or.inr m)))

  -- The member of a host that no block names stays.
  pub Steps-first :
      {ms ms' : ConfigMembers}
      → Steps ops promotions adds ms ms'
      → first_member h ms' ≡ first_member h ms
  Steps-first here = refl
  Steps-first (next r s) = Step-first s ∙ Steps-first r
