-- ===== src/Discovery/Resolve/Tests.antt =====
-- A provider on a mongos with one shard, and the theorem of ResolveShardClient
-- (mongodb/shard_discovery.go) at it.
use terraform_provider_mongo.Prelude.{
  ℕ, ◌+◌, String, true, false, [], ◌∷◌, ◌≡◌, ◌≢◌, ◌↔◌, ◌⊎◌, refl, pos, ok, err,
}
use terraform_provider_mongo.ReplSet.{IsMasterResp}
use terraform_provider_mongo.Commands.{replied, ok_reply}
use terraform_provider_mongo.Discovery.{
  classify_connection_type, parse_shard_host, split_host_port, split_first, split_last, split_all,
  find_shard_by_name,
}
use terraform_provider_mongo.Discovery.Resolve.{
  ClientConfig, ResolveServer, no_hosts, detect_connection_type, list_shards_reply, target_host,
  shard_config_for, resolve_from_mongos, resolve_shard_client, build_shard_client_config,
}
use terraform_provider_mongo.Discovery.Resolve.Laws.{
  OwnClient, DialedClient, resolve_shard_client_lem,
}

abbrev mongos_reply : IsMasterResp
mongos_reply = record {
  is_master = true;
  secondary = false;
  is_arbiter = false;
  is_replica_set = false;
  set_name = "";
  primary = "";
  me = "";
  msg = "isdbgrid";
  info = "";
  errmsg = "";
  ok = pos 1;
}

abbrev provider_config : ClientConfig
provider_config = record {
  host = "mongos";
  port = "27017";
  username = "admin";
  password = "secret";
  db = "admin";
  ssl = true;
  insecure_skip_verify = false;
  replica_set_name = "";
  retry_writes = true;
  certificate = "";
  client_certificate_key = "";
  direct = false;
  proxy = "";
}

-- A client is the host that it is connected to, and the state counts the connections.
abbrev one_shard : ResolveServer ℕ String
one_shard = record {
  is_master = λ c n. (replied mongos_reply, n);
  list_shards = λ c n.
      (replied (record { id = "rs1"; host = "rs1/a:1,b:2"; state = pos 1 } ∷ [], ok_reply), n);
  connect = λ config n. (ok config.host, n + 1);
}

to_first_host : (resolve_shard_client one_shard "mongos" provider_config "rs1" "" 0).0 ≡ ok "a"
unfolding resolve_shard_client resolve_from_mongos shard_config_for target_host
    detect_connection_type list_shards_reply classify_connection_type parse_shard_host
    split_host_port split_first split_last split_all find_shard_by_name build_shard_client_config
to_first_host = refl

to_override : (resolve_shard_client one_shard "mongos" provider_config "rs1" "b:2" 0).0 ≡ ok "b"
unfolding resolve_shard_client resolve_from_mongos shard_config_for target_host
    detect_connection_type list_shards_reply classify_connection_type parse_shard_host
    split_host_port split_first split_last split_all find_shard_by_name build_shard_client_config
to_override = refl

resolve_shard_client_lem_example :
    ((resolve_shard_client one_shard "mongos" provider_config "rs1" "" 0).0 ≢ err no_hosts)
    × ((c : String)
        → ((resolve_shard_client one_shard "mongos" provider_config "rs1" "" 0).0 ≡ ok c) ↔ (
            OwnClient one_shard "mongos" provider_config "rs1" "" c 0
            ⊎ DialedClient one_shard "mongos" provider_config "rs1" "" c 0))
resolve_shard_client_lem_example =
    resolve_shard_client_lem one_shard "mongos" provider_config "rs1" "" 0
