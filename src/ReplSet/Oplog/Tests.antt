-- ===== src/ReplSet/Oplog/Tests.antt =====
-- Fan-outs over three members of mongodb/replica_set_types.go, and the theorems at them.
use terraform_provider_mongo.Prelude.{
  ◌<◌, String, Bool, true, false, none, some, List, [], ◌∷◌, ◌≡◌, ◌≢◌, refl, All, Float64,
  one_float, pos, Result, ok, err, ◌==◌, if◌then◌else◌,
}
use terraform_provider_mongo.Errors.{GoError}
use terraform_provider_mongo.ReplSet.{ConfigMember, ConfigMembers}
use terraform_provider_mongo.ReplSet.Oplog.{
  SizeError, no_data_bearing, oplog_hosts_from, oplog_member_hosts, resize_from,
  resize_oplog_across_members, oplog_size_across_members, oplog_size_mismatch,
}
use terraform_provider_mongo.ReplSet.Oplog.Order.{data_hosts}
use terraform_provider_mongo.ReplSet.Oplog.Resize.{IsOk, resized_of, resize_success}
use terraform_provider_mongo.ReplSet.Oplog.Size.{readable, unreadable_of, all_equal, oplog_size_lem}

abbrev member : String → Bool → ConfigMember
member host arbiter = record {
  id = pos 0;
  host = host;
  arbiter_only = some arbiter;
  build_indexes = none;
  hidden = none;
  priority = one_float;
  tags = none;
  slave_delay = none;
  votes = none;
}

abbrev three : ConfigMembers
three = member "a:27017" false ∷ member "b:27017" false ∷ member "c:27017" true ∷ []

abbrev down : GoError
down = record { command = none; message = ""; is_timeout = true; is_network = false }

abbrev all_resized : String → Result GoError Bool
all_resized host = ok true

abbrev sizes : String → Result GoError Float64
sizes host = if host == "a:27017" then err down else ok one_float

resize_success_example :
    ("b:27017" ∷ "a:27017" ∷ [] ≡ oplog_member_hosts three "a:27017")
    × All (λ h. IsOk (all_resized h)) (oplog_member_hosts three "a:27017")
    × (0 < resized_of all_resized (oplog_member_hosts three "a:27017"))
unfolding resize_oplog_across_members resize_from oplog_member_hosts oplog_hosts_from
resize_success_example =
    resize_success all_resized three "a:27017" ("b:27017" ∷ "a:27017" ∷ []) refl

oplog_size_lem_example :
    ((x : Float64) (xs : List Float64)
      → readable sizes (data_hosts three) ≡ x ∷ xs
      → oplog_size_across_members sizes three ≡ (
        ok (if all_equal x xs then x else oplog_size_mismatch),
        unreadable_of sizes (data_hosts three),
      ))
    × (readable sizes (data_hosts three) ≡ []
        → data_hosts three ≢ []
        → (e : SizeError) × (oplog_size_across_members sizes three
            ≡ (err e, unreadable_of sizes (data_hosts three))))
    × (data_hosts three ≡ [] → oplog_size_across_members sizes three ≡ (err no_data_bearing, []))
oplog_size_lem_example = oplog_size_lem sizes three
