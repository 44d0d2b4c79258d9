-- ===== src/Reconcile/Server.antt =====
-- What the reconfigs of mongodb/shard_members.go rely on of the replica set: the documented behaviour
-- of replSetGetConfig and replSetReconfig, as far as the members go. It is a parameter of the
-- theorems; the server may change the version and fail at any call.
use terraform_provider_mongo.Prelude.{String, none, some, ◌≡◌, ◌⊎◌, ok}
use terraform_provider_mongo.Errors.{GoError}
use terraform_provider_mongo.ReplSet.{ConfigMembers, RsConfig}
use terraform_provider_mongo.Wait.{WaitTarget}
use terraform_provider_mongo.Reconcile.{Context, MemberAddOps}

-- `live` is the member list that the set holds. A read changes nothing and shows that list. A
-- reconfig that is accepted installs the list it was given; one that fails has installed it or
-- nothing. Waiting changes nothing. Lists are compared as the model has them; that a server shows empty
-- tags as an empty map, or an old slaveDelay as 0, is left out.
pub record IsReplicaSet {S : Type 0} (ops : MemberAddOps S) (live : S → ConfigMembers)
    : Type 0 where
  pub get_ok :
      (c : Context) (s : S) (cfg : RsConfig)
      → (ops.get_config c s).0 ≡ ok cfg
      → cfg.members ≡ live s
  pub get_keeps : (c : Context) (s : S) → live (ops.get_config c s).1 ≡ live s
  pub set_ok :
      (c : Context) (cfg : RsConfig) (s : S)
      → (ops.set_config c cfg s).0 ≡ none
      → live (ops.set_config c cfg s).1 ≡ cfg.members
  pub set_failed :
      (c : Context) (cfg : RsConfig) (s : S) (e : GoError)
      → (ops.set_config c cfg s).0 ≡ some e
      → (live (ops.set_config c cfg s).1 ≡ live s) ⊎ (live (ops.set_config c cfg s).1 ≡ cfg.members)
  pub wait_keeps : (h : String) (t : WaitTarget) (s : S) → live (ops.wait h t s).1 ≡ live s
