-- ===== src/Shard/Tests.antt =====
-- A cluster that discovers a new shard's primary at one time and has drained it at another, and the
-- theorems of mongodb/resource_shard.go at it.
use terraform_provider_mongo.Prelude.{
  ◌≤◌, true, ◌==◌, ℕ, ◌+◌, Bool, false, none, some, List, [], ◌∷◌, pos, ltb, ◌≡◌, ◌↔◌, refl, ap,
  arith, ok, if◌then◌else◌,
}
use mathlib.Core.Quot
use terraform_provider_mongo.Prelude.Action.{World}
use terraform_provider_mongo.Errors.{GoError, is_read_preference_error}
use terraform_provider_mongo.Discovery.{Shard}
use terraform_provider_mongo.Shard.{
  ShardRemoveResp, ShardResource, ShardServer, build_shard_connection_string, block_host_set_change,
  fill_hosts, read_row, add_rounds, remove_rounds, read_shard, create_shard, delete_shard,
  list_rows,
}
use terraform_provider_mongo.Commands.{command_error, replied, OkResponse}
use terraform_provider_mongo.Shard.HostSet.{HostBag, block_host_set_change_iff}
use terraform_provider_mongo.Shard.Create.{Added, Recorded, create_shard_lem}
use terraform_provider_mongo.Shard.Delete.{
  Completed, DrainsBy, delete_shard_lem, delete_shard_completes,
}

block_host_set_change_iff_example :
    (block_host_set_change "shard01" ("a:1" ∷ "b:1" ∷ []) ("b:1" ∷ "a:1" ∷ []) ≡ false)
    ↔ (◌≡◌ {A = HostBag} (Quot.mk ("a:1" ∷ "b:1" ∷ [])) (Quot.mk ("b:1" ∷ "a:1" ∷ [])))
block_host_set_change_iff_example =
    block_host_set_change_iff "shard01" ("a:1" ∷ "b:1" ∷ []) ("b:1" ∷ "a:1" ∷ []) refl

record Cluster : Type 0 where
  pub clock : ℕ
  pub rows : List Shard

abbrev no_primary : GoError
no_primary = record {
  command = some (record { code = pos 133; labels = [] });
  message = "no primary";
  is_timeout = false;
  is_network = false;
}

abbrev accepted_reply : OkResponse
accepted_reply = record { errmsg = ""; ok = pos 1 }

abbrev drain_reply : Bool → ShardRemoveResp
drain_reply done = record {
  msg = "";
  state = if done then "completed" else "ongoing";
  chunks = pos 0;
  ok = pos 1;
}

abbrev a_row : Shard
a_row = record { id = "shard01"; host = "shard01/a:1,b:1"; state = pos 1 }

abbrev test_cluster : ShardServer Cluster
test_cluster = record {
  add_shard = λ conn s. (
    (if ltb s.clock 2 then command_error no_primary else replied accepted_reply),
    if ltb s.clock 2 then s else record s { rows = a_row ∷ s.rows },
  );
  remove_shard = λ name s. (replied (drain_reply (ltb 2 s.clock)), s);
  list_shards = λ s. (ok s.rows, s);
  now = λ s. s.clock;
  pause = λ s. (none, record s { clock = s.clock + 1 });
}

not_before : (n : ℕ) → 3 ≤ n → ltb 2 n ≡ true
not_before n h = ground arith

cluster-DrainsBy : DrainsBy test_cluster "shard01" 3 1
cluster-DrainsBy = record {
  accepted = λ s. (
    drain_reply (ltb 2 s.clock),
    refl,
    refl,
    λ h. ap (λ b. (drain_reply b).state == "completed") (not_before s.clock h),
  );
  uncut = λ s. refl;
  ticks = λ s. ground arith;
  within = λ s. ground arith;
}

abbrev planned : World ShardResource Cluster
planned = record {
  resource = record {
    id = "";
    shard_name = "shard01";
    hosts = "a:1" ∷ "b:1" ∷ [];
    state = pos 0;
    add_timeout = 4;
    remove_timeout = 5;
  };
  server = record { clock = 0; rows = [] };
}

abbrev present : World ShardResource Cluster
present = record {
  resource = record planned.resource { id = "shard01"; state = pos 1 };
  server = record { clock = 0; rows = a_row ∷ [] };
}

create_runs : (create_shard test_cluster 5 planned).0 ≡ ok tt
unfolding create_shard add_rounds read_shard list_rows read_row fill_hosts
    build_shard_connection_string is_read_preference_error
create_runs = refl

create_shard_lem_example :
    (s : Cluster) × Added test_cluster
      (build_shard_connection_string "shard01" ("a:1" ∷ "b:1" ∷ []))
      s
    × Recorded test_cluster "shard01"
        ("a:1" ∷ "b:1" ∷ [])
        s
        (create_shard test_cluster 5 planned).1.resource
create_shard_lem_example =
    create_shard_lem test_cluster 5 planned "a:1" ("b:1" ∷ []) refl create_runs

delete_runs : (delete_shard test_cluster 7 present).0 ≡ ok tt
unfolding delete_shard remove_rounds
delete_runs = refl

delete_shard_lem_example :
    Completed test_cluster "shard01" (delete_shard test_cluster 7 present).1.server
delete_shard_lem_example = delete_shard_lem test_cluster 7 present delete_runs

delete_shard_completes_example : (delete_shard test_cluster 7 present).0 ≡ ok tt
delete_shard_completes_example =
    delete_shard_completes test_cluster present 3 1 cluster-DrainsBy (omega arith)
