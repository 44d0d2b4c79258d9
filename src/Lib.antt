-- ===== src/Lib.antt =====
-- The Terraform provider for MongoDB: a model of how it manages replica sets, and what holds of it.
--
-- The provider's resources are handlers that read and change a MongoDB deployment through the Go
-- driver. The core is mongodb/resource_shard_config.go, which keeps the configuration of a replica set
-- as the Terraform blocks say: it reads the configuration, sends one reconfig with the settings and
-- the members that are already in the set, then promotes and adds members, one reconfig each, waits
-- for each of them, and records in the state what the server holds at the end. Around it stand the
-- waits for hosts that are starting, the inspection of hosts before they are added, the retries of
-- reconfigs, and the oplog fan-outs over the members.
--
-- Files and the code they model (a module has the definitions, its children the laws):
--   Prelude      shared names: Boolean tests, lists over native numbers, 64-bit integers, doubles as
--                their IEEE 754 bits; Prelude/Action has handlers that end with a value or an error.
--   ReplSet      mongodb/replica_set_types.go: the documents, GetMembersByState, Primary; ReplSet/Oplog
--                has OplogMemberHosts, ResizeOplogAcrossMembers and OplogSizeAcrossMembers.
--   Errors       the predicates on driver errors of mongodb/shard_init.go and mongodb/shard_ready.go.
--   Commands     what the replica set commands of mongodb/replica_set_types.go and InitiateReplicaSet
--                (mongodb/shard_init.go) make of their replies.
--   Members      the member blocks: MergeMembers, RSConfigMembersToState and validateMemberOverrides of
--                mongodb/resource_shard_config.go; PartitionMemberOverrides, HoldPromotions, NextMemberID
--                and stagedMember of mongodb/shard_members.go.
--   Discovery    mongodb/shard_discovery.go: connection types and the parsers of host texts; Resolve
--                has ResolveShardClient with the commands and the configuration it uses.
--   AddTarget    CheckAddTarget and PreflightAddTargets of mongodb/shard_members.go.
--   Wait         WaitForMemberState of mongodb/shard_members.go.
--   Reconcile    ReconcileMembers and what it calls in mongodb/shard_members.go: settleMember,
--                promoteMember, removeMemberByHost and the two loops; Reconcile/Steps has the single
--                reconfigs as a relation on member lists, and Reconcile/Client memberAddOpsForClient, which
--                builds the operations that the loops use from the commands, the retries and the wait.
--   Retry        SetReplSetConfigWithRetry of mongodb/shard_init.go.
--   Ready        WaitForShardClient of mongodb/shard_ready.go and WaitForPrimary of
--                mongodb/shard_init.go.
--   Reach        waitUntilReachable and WaitForAddTargets of mongodb/shard_ready.go.
--   ShardConfig  updateWithClient, Read, Import, applyOplogConfig and readOplogConfig of
--                mongodb/resource_shard_config.go, stage by stage; ShardConfig/Create has Create and
--                initializeReplicaSet, with ConnectForInit of mongodb/shard_init.go.
--   Ids          mongodb/parse_id.go, and the ids of mongodb/resource_shard_zone.go.
--   ShardZone    the handlers of mongodb/resource_shard_zone.go.
--   Shard        mongodb/resource_shard.go: Create with its retries, Read, Delete with its draining
--                loop, and the check that a plan keeps the hosts.
--   ZoneKeyRange the handlers and the ids of mongodb/resource_zone_key_range.go.
--   Balancer     the handlers of mongodb/resource_balancer_config.go over the documents of
--                config.settings, and the checks of its plan.
--   Fcv          mongodb/resource_fcv.go: the handlers, their warnings, and compareFCV; GetFCV of
--                mongodb/replica_set_types.go.
--   CollectionBalancing, Profiler, ServerParameter
--                the handlers of mongodb/resource_collection_balancing.go,
--                mongodb/resource_profiler.go and mongodb/resource_server_parameter.go.
--   Registry     the enable lists and requireFeature of mongodb/resource_registry.go.
--   Examples     small inputs; other parts have their own Tests.
--
-- State and operations. A handler is a function from a state of the servers to a result and a new
-- state; the commands of the driver are parameters that pass the state on, and may fail at any call.
-- What a theorem relies on of them is a record of laws (IsReplicaSet, IsReplicaSetServer, IsShard,
-- DrainsBy, HasClock, HasDeadline, and the records Keeps... of the resources). The operations that the
-- member phase relies on as IsReplicaSet are built from the commands in Reconcile/Client. An error
-- that the code formats as text is a constructor with the text's operands. A Go map
-- is a function of the list it is built from, a pointer that may be nil an option.
--
-- Loops that poll run on fuel, a unit for each round, and end in `out_of_fuel` without it. Where the
-- clock does not go back and a pause takes a tick, two rounds more than the timeout has ticks are
-- enough, as are for WaitForShardClient and for each host of WaitForAddTargets one round more than
-- the ticks to the context's deadline, and for Create of a shard one round more than its timeout.
--
-- Not modelled: the driver, TLS and proxy set-up in mongodb/config.go, logging, the texts of
-- diagnostics, most of the schemas; the Update of mongodb/resource_shard_config.go before its client is
-- open; the resources for users and roles; the command preview; the constructs under cdktn/ and the
-- linter.
pub mod Prelude
pub mod ReplSet
pub mod Errors
pub mod Members
pub mod Discovery
pub mod AddTarget
pub mod Wait
pub mod Reconcile
pub mod Retry
pub mod ShardConfig
pub mod Ready
pub mod Ids
pub mod Examples
pub mod ShardZone
pub mod ZoneKeyRange
pub mod Registry
pub mod Reach
pub mod Commands
pub mod Shard
pub mod Balancer
pub mod Fcv
pub mod Profiler
pub mod ServerParameter
pub mod CollectionBalancing
