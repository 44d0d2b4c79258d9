-- ===== src/ShardConfig/Create.antt =====
-- Create of mongodb/resource_shard_config.go, with initializeReplicaSet and ConnectForInit
-- (mongodb/shard_init.go): a replica set that exists is updated, and one that does not is initiated
-- with the first member block before it is. A client of the type `C` is what a connection opens; the
-- connections, the commands and the clock are parameters, and closing a client is left out.
pub mod Initiate
pub mod Laws
mod Tests
use terraform_provider_mongo.Prelude.{
  ℕ, suc, String, Bool, true, false, ◌||◌, Option, none, some, List, [], ◌∷◌, Result, ok, err,
  if◌then◌else◌,
}
use terraform_provider_mongo.Errors.{GoError, is_already_initialized, is_not_yet_initialized}
use terraform_provider_mongo.ReplSet.{RsConfig, ReplSetStatus}
use terraform_provider_mongo.Commands.{wrap, append_text}
use terraform_provider_mongo.Discovery.{ParseError, split_host_port}
use terraform_provider_mongo.Members.{MemberOverride}
use terraform_provider_mongo.Members.Validate.{ValidationError, validate_member_overrides}
use terraform_provider_mongo.Reach.{ReachEnv, ReachEnd, wait_until_reachable, reached, failed}
use terraform_provider_mongo.Reach
use terraform_provider_mongo.Ready.{
  ReadyEnv, NotReady, ClientEnd, PrimaryEnd, connected, no_auth, refused, elected, not_elected,
  cancelled, wait_for_shard_client, wait_for_primary,
}
use terraform_provider_mongo.Ready
use terraform_provider_mongo.ShardConfig.{ShardData, ShardEnv, extract_member_overrides}
use terraform_provider_mongo.ShardConfig.Update.{Outcome, update_with_client}

pub data CreateError : Type 0 where
  login_refused config_unread member_refused initiate_refused primary_cancelled :
      GoError → CreateError
  not_ready : NotReady → GoError → CreateError
  no_members : CreateError
  invalid : ValidationError → CreateError
  bad_first_host : String → ParseError → CreateError
  member_unreachable : Option GoError → GoError → CreateError
  no_primary no_client out_of_fuel : CreateError

-- `ready` has the provider's own connection, getShardClient, as `connect`; `connect_with_login` and
-- `connect_without_login` are MongoClientInit and MongoClientInitNoAuth to one member; `shard` has the
-- operations of a client, with the fallback to connections without a login or not.
pub record InitEnv (S C : Type 0) : Type 0 where
  pub ready : ReadyEnv S C
  pub shard : C → Bool → ShardEnv S
  pub read_config : C → S → Result GoError RsConfig × S
  pub status_of : C → S → Result GoError ReplSetStatus × S
  pub connect_with_login : String → String → S → Result GoError C × S
  pub connect_without_login : String → String → S → Result GoError C × S
  pub initiate : C → String → String → S → Option GoError × S

-- The checks of initializeReplicaSet on the blocks.
unfoldable pub first_target : ShardData → Result CreateError (String × String × String)
first_target d = elim (extract_member_overrides d.members) [
  | none ↦ err no_members
  | some [] ↦ err no_members
  | some (o ∷ os) ↦ elim (validate_member_overrides (o ∷ os)) [
    | some e ↦ err (invalid e)
    | none ↦ elim (split_host_port o.host) [
      | err e ↦ err (bad_first_host o.host e)
      | ok (host, port) ↦ ok (o.host, host, port)
    ]
  ]
]

module _ {S C : Type 0} (env : InitEnv S C) where
  abbrev pub Creating : Type 0
  Creating = Result CreateError Outcome × S

  -- ConnectForInit
  unfoldable pub connect_for_init : String → String → S → Result GoError C × S
  connect_for_init host port s =
      let (r, s1) = env.connect_with_login host port s in
      let (r2, s2) = env.connect_without_login host port s1 in
      let text = append_text "failed to connect to " (append_text host (append_text ":" port)) in
      elim r [
        | ok c ↦ (ok c, s1)
        | err _ ↦ (
          elim r2 [
            | ok c ↦ ok c
            | err e ↦ err (wrap (append_text text " (auth and no-auth both failed)") e)
          ],
          s2,
        )
      ]

  -- The wait for the first member. The state has the variable `initClient`, which each attempt assigns.
  abbrev pub init_reach : String → String → ReachEnv (S × Option C)
  init_reach host port = record {
    attempt = λ label st.
        (let (r, s1) = connect_for_init host port st.0 in
          elim r [ ok c ↦ (none, (s1, some c)) | err e ↦ (some e, (s1, none)) ]);
    context = λ st. env.ready.context st.0;
    pause = λ st. (let (ended, s1) = env.ready.pause st.0 in (ended, (s1, st.1)));
  }

  -- The return of updateWithClient.
  abbrev pub updated : C → Bool → ShardData → S → Creating
  updated c fallback d s =
      let (out, s1) = update_with_client (env.shard c fallback) d s in (ok out, s1)

  abbrev pub primary_env : C → ReadyEnv S C
  primary_env c = record env.ready { get_status = env.status_of c }

  abbrev pub primary_wait : C → ℕ → S → PrimaryEnd × S
  primary_wait c timeout = wait_for_primary (primary_env c) (suc (suc timeout)) timeout

  -- From InitiateReplicaSet on.
  unfoldable pub initiate_with : ℕ → C → String → ShardData → S → Creating
  initiate_with timeout c first_host d s =
      let (answer, s1) = env.initiate c d.shard_name first_host s in
      let (end, s2) = primary_wait c timeout s1 in
      let (login, s3) = env.ready.connect s1 in
      elim answer [
        | none ↦ elim end [
          | elected ↦ updated c true d s2
          | not_elected ↦ (err no_primary, s2)
          | cancelled e ↦ (err (primary_cancelled e), s2)
          | Ready.PrimaryEnd.out_of_fuel ↦ (err out_of_fuel, s2)
        ]
        | some e ↦
            if is_already_initialized e
            then elim login [ ok a ↦ updated a false d s3 | err _ ↦ updated c true d s3 ]
            else (err (initiate_refused e), s1)
      ]

  -- The wait for the first member, and what follows.
  unfoldable pub initiate_first : ℕ → ℕ → String → String → String → ShardData → S → Creating
  initiate_first fuel timeout first_host host port d s =
      let (end, st) = wait_until_reachable (init_reach host port) fuel first_host (s, none) in
      elim end [
        | reached ↦ elim st.1 [
          | none ↦ (err no_client, st.0)
          | some c ↦ initiate_with timeout c first_host d st.0
        ]
        | failed e ↦ (err (member_refused e), st.0)
        | Reach.not_ready last e ↦ (err (member_unreachable last e), st.0)
        | Reach.ReachEnd.out_of_fuel ↦ (err out_of_fuel, st.0)
      ]

  -- initializeReplicaSet
  unfoldable pub initialize_replica_set : ℕ → ℕ → ShardData → S → Creating
  initialize_replica_set fuel timeout d s = elim (first_target d) [
    | err e ↦ (err e, s)
    | ok (first_host, host, port) ↦ initiate_first fuel timeout first_host host port d s
  ]

  -- Create where the provider's own connection is there.
  unfoldable pub create_with : ℕ → ℕ → C → ShardData → S → Creating
  create_with fuel timeout c d s =
      let (r, s1) = env.read_config c s in
      elim r [
        | ok _ ↦ updated c false d s1
        | err e ↦
            if is_already_initialized e
            then updated c false d s1
            else if is_not_yet_initialized e
            then initialize_replica_set fuel timeout d s1
            else (err (config_unread e), s1)
      ]

  -- Create
  unfoldable pub create_shard_config : ℕ → ℕ → ShardData → S → Creating
  create_shard_config fuel timeout d s =
      let (end, s1) = wait_for_shard_client env.ready fuel s in
      elim end [
        | connected c ↦ create_with fuel timeout c d s1
        | no_auth ↦ initialize_replica_set fuel timeout d s1
        | refused e ↦ (err (login_refused e), s1)
        | Ready.not_ready n e ↦ (err (not_ready n e), s1)
        | Ready.ClientEnd.out_of_fuel ↦ (err out_of_fuel, s1)
      ]
