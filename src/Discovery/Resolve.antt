-- ===== src/Discovery/Resolve.antt =====
-- mongodb/shard_discovery.go: ResolveShardClient, which finds the client for a shard, with the commands
-- and the configuration that it uses. Running a command and opening a connection are parameters that pass
-- a state on; closing a client is left out.
pub mod Dials
pub mod Laws
mod Tests
use terraform_provider_mongo.Prelude.{
  String, Bool, true, false, not, Option, none, some, List, [], ◌∷◌, ◌==◌, pos, int_beq, Result, ok,
  err, if◌then◌else◌,
}
use terraform_provider_mongo.Errors.{GoError}
use terraform_provider_mongo.ReplSet.{IsMasterResp}
use terraform_provider_mongo.Commands.{
  Reply, command_error, undecodable, replied, OkResponse, wrap, plain_error, append_text,
}
use terraform_provider_mongo.Discovery.{
  ConnectionType, mongos, replica_set, standalone, classify_connection_type, ParseError,
  parse_shard_host, split_host_port, Shard, find_shard_by_name,
}

pub record ClientConfig : Type 0 where
  pub host : String
  pub port : String
  pub username : String
  pub password : String
  pub db : String
  pub ssl : Bool
  pub insecure_skip_verify : Bool
  pub replica_set_name : String
  pub retry_writes : Bool
  pub certificate : String
  pub client_certificate_key : String
  pub direct : Bool
  pub proxy : String

-- BuildShardClientConfig
unfoldable pub build_shard_client_config : ClientConfig → String → String → String → ClientConfig
build_shard_client_config provider host port rs_name = record provider {
  host = host;
  port = port;
  replica_set_name = rs_name;
  direct = true;
}

pub record ResolveServer (S C : Type 0) : Type 0 where
  pub is_master : C → S → Reply IsMasterResp × S
  pub list_shards : C → S → Reply (List Shard × OkResponse) × S
  pub connect : ClientConfig → S → Result GoError C × S

pub data ResolveError : Type 0 where
  undetected shards_unlisted : GoError → ResolveError
  unknown_shard : List String → ResolveError
  bad_shard_host : ParseError → ResolveError
  no_hosts : ResolveError
  bad_target : String → ParseError → ResolveError
  not_connected : String → String → String → GoError → ResolveError

-- DetectConnectionType, from the reply to isMaster.
unfoldable pub detect_connection_type : Reply IsMasterResp → Result GoError ConnectionType
detect_connection_type (command_error e) = err (wrap "isMaster failed" e)
detect_connection_type (undecodable e) = err (wrap "isMaster decode failed" e)
detect_connection_type (replied r) = ok (classify_connection_type r)

-- ListShards, from the reply to listShards.
unfoldable pub list_shards_reply : Reply (List Shard × OkResponse) → Result GoError (List Shard)
list_shards_reply (command_error e) = err (wrap "listShards failed" e)
list_shards_reply (undecodable e) = err (wrap "listShards decode failed" e)
list_shards_reply (replied (shards, r)) =
    if int_beq r.ok (pos 1)
    then ok shards
    else err (plain_error (append_text "listShards error: " r.errmsg))

-- The host to dial: the override, or the first host of the shard. `no_hosts` is the panic of `hosts[0]`
-- on an empty list.
unfoldable pub target_host : List String → String → Result ResolveError String
target_host [] host_override = err no_hosts
target_host (h ∷ hs) host_override = ok (if not (host_override == "") then host_override else h)

-- The configuration of the connection to a shard among these.
unfoldable pub shard_config_for :
    ClientConfig → String → String → List Shard → Result ResolveError ClientConfig
shard_config_for provider shard_name host_override shards =
    elim (find_shard_by_name shards shard_name) [
      | err available ↦ err (unknown_shard available)
      | ok shard_host ↦ elim (parse_shard_host shard_host) [
        | err e ↦ err (bad_shard_host e)
        | ok (rs_name, hosts) ↦ elim (target_host hosts host_override) [
          | err e ↦ err e
          | ok target ↦ elim (split_host_port target) [
            | err e ↦ err (bad_target target e)
            | ok (host, port) ↦ ok (build_shard_client_config provider host port rs_name)
          ]
        ]
      ]
    ]

module _ {S C : Type 0} (server : ResolveServer S C) where
  -- ResolveShardClient where the provider is connected to a mongos.
  unfoldable pub resolve_from_mongos :
      C → ClientConfig → String → String → S → Result ResolveError C × S
  resolve_from_mongos client provider shard_name host_override s =
      let (reply, s1) = server.list_shards client s in
      elim (list_shards_reply reply) [
        | err e ↦ (err (shards_unlisted e), s1)
        | ok shards ↦ elim (shard_config_for provider shard_name host_override shards) [
          | err e ↦ (err e, s1)
          | ok config ↦
              let (r, s2) = server.connect config s1 in
              (
                elim r [
                  | err e ↦ err (not_connected shard_name config.host config.port e)
                  | ok c ↦ ok c
                ],
                s2,
              )
        ]
      ]

  -- ResolveShardClient
  unfoldable pub resolve_shard_client :
      C → ClientConfig → String → String → S → Result ResolveError C × S
  resolve_shard_client client provider shard_name host_override s =
      let (reply, s1) = server.is_master client s in
      elim (detect_connection_type reply) [
        | err e ↦ (err (undetected e), s1)
        | ok mongos ↦ resolve_from_mongos client provider shard_name host_override s1
        | ok replica_set ↦ (ok client, s1)
        | ok standalone ↦ (ok client, s1)
      ]
