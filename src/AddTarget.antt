-- ===== src/AddTarget.antt =====
-- mongodb/shard_members.go: the inspection of the hosts to add, before any reconfig is sent. The
-- probe, which runs isMaster on a host, is a parameter. A reason that the source formats as text is
-- a value of `Reason`.
pub mod Laws
use terraform_provider_mongo.Prelude.{
  String, Bool, true, false, not, Option, none, some, List, [], ◌∷◌, ◌==◌, Result, ok, err,
  if◌then◌else◌,
}
use terraform_provider_mongo.Errors.{GoError}
use terraform_provider_mongo.ReplSet.{IsMasterResp}
use terraform_provider_mongo.Discovery.{
  ConnectionType, mongos, replica_set, standalone, classify_connection_type,
}
use terraform_provider_mongo.Members.{MemberOverride}

-- addTargetVerdict
pub data Verdict : Type 0 where
  accepted refused unknown : Verdict

-- isMasterRole
pub data Role : Type 0 where
  arbiter primary secondary neither : Role

unfoldable pub is_master_role : IsMasterResp → Role
is_master_role resp =
    if resp.is_arbiter
    then arbiter
    else if resp.is_master
    then primary
    else if resp.secondary
    then secondary
    else neither

-- `already_member` has the name that the host gives itself, if it gives one.
pub data Reason : Type 0 where
  no_answer : GoError → Reason
  is_a_mongos : Reason
  already_member : Option String → Role → Reason
  other_set : String → Reason
  not_initialized : Reason
  not_replicating : Reason

abbrev is_mongos : ConnectionType → Bool
is_mongos mongos = true
is_mongos replica_set = false
is_mongos standalone = false

-- CheckAddTarget
unfoldable pub check_add_target : String → Result GoError IsMasterResp → Verdict × Reason
unfolding is_master_role
check_add_target set (err e) = (unknown, no_answer e)
check_add_target set (ok resp) =
    if is_mongos (classify_connection_type resp)
    then (refused, is_a_mongos)
    else if resp.set_name == set
    then (
      refused,
      already_member (if not (resp.me == "") then some resp.me else none) (is_master_role resp),
    )
    else if not (resp.set_name == "")
    then (refused, other_set resp.set_name)
    else if resp.is_replica_set
    then (accepted, not_initialized)
    else (refused, not_replicating)

-- The two errors of PreflightAddTargets, with the host.
pub data AddError : Type 0 where
  cannot_add : String → Reason → AddError
  uninspected_arbiter : String → Reason → AddError

-- PreflightAddTargets: the first error, if any.
unfoldable pub preflight_add_targets :
    String → List MemberOverride → (String → Result GoError IsMasterResp) → Option AddError
preflight_add_targets set [] probe = none
preflight_add_targets set (o ∷ os) probe =
    let rest = preflight_add_targets set os probe in
    let (verdict, reason) = check_add_target set (probe o.host) in
    elim verdict [
      | refused ↦ some (cannot_add o.host reason)
      | unknown ↦ if o.arbiter_only then some (uninspected_arbiter o.host reason) else rest
      | accepted ↦ rest
    ]
