-- ===== src/ReplSet/Oplog/Order.antt =====
-- The order in which OplogMemberHosts lists the members (mongodb/replica_set_types.go).
use mathlib.Core.List.{append_assoc, append-nil}
use terraform_provider_mongo.Prelude.{
  String, Bool, true, false, not, List, [], ◌∷◌, ◌++◌, ◌&&◌, ◌==◌, ◌≡◌, refl, keep, Bool-cases,
  if◌then◌else◌, inl, inr, ◌∙◌, ap,
}
use terraform_provider_mongo.ReplSet.{ConfigMembers, deref_bool}
use terraform_provider_mongo.ReplSet.Oplog.{oplog_hosts_from, oplog_member_hosts}

-- The hosts of the members that bear data, in the order of the configuration.
abbrev pub data_hosts : ConfigMembers → List String
data_hosts [] = []
data_hosts (m ∷ ms) =
    let rest = data_hosts ms in if deref_bool m.arbiter_only then rest else m.host ∷ rest

abbrev pub is_primary : String → String → Bool
is_primary primary_host host = not (primary_host == "") && host == primary_host

oplog_hosts_from-eq :
    (p : String) (ms : ConfigMembers) (hosts primary : List String)
    → oplog_hosts_from p ms hosts primary
      ≡ (hosts ++ keep (λ h. not (is_primary p h)) (data_hosts ms))
        ++ (primary ++ keep (is_primary p) (data_hosts ms))
unfolding oplog_hosts_from
oplog_hosts_from-eq p [] hosts primary = simp append-nil
oplog_hosts_from-eq p (m ∷ ms) hosts primary = elim (Bool-cases (deref_bool m.arbiter_only)) [
  | inl a ↦ rw a (oplog_hosts_from-eq p ms hosts primary)
  | inr a ↦ elim (Bool-cases (is_primary p m.host)) [
    | inl b ↦
        rw (a, b) (oplog_hosts_from-eq p ms hosts (primary ++ m.host ∷ []) ∙ simp append_assoc)
    | inr b ↦
        rw (a, b) (oplog_hosts_from-eq p ms (hosts ++ m.host ∷ []) primary ∙ simp append_assoc)
  ]
]

keep-true : (xs : List String) → keep (λ h. true) xs ≡ xs
keep-true [] = refl
keep-true (x ∷ xs) = ap (◌∷◌ x) (keep-true xs)

keep-false : (xs : List String) → keep (λ h. false) xs ≡ []
keep-false [] = refl
keep-false (x ∷ xs) = keep-false xs

pub no_primary : (ms : ConfigMembers) → oplog_member_hosts ms "" ≡ data_hosts ms
unfolding oplog_member_hosts
no_primary ms = oplog_hosts_from-eq "" ms [] [] ∙ simp (keep-true, keep-false, append-nil)

-- OplogMemberHosts lists the hosts that bear data, those of arbiters left out: first those that
-- are not the primary's, then the primary's, each in the order of the configuration. An empty
-- primary host changes nothing in that order.
pub oplog_member_hosts_order :
    (ms : ConfigMembers) (p : String)
    → (oplog_member_hosts ms p
        ≡ keep (λ h. not (is_primary p h)) (data_hosts ms) ++ keep (is_primary p) (data_hosts ms))
      × (oplog_member_hosts ms "" ≡ data_hosts ms)
unfolding oplog_member_hosts
oplog_member_hosts_order ms p = (oplog_hosts_from-eq p ms [] [], no_primary ms)
