-- ===== src/ShardZone.antt =====
-- mongodb/resource_shard_zone.go: the resource that assigns a shard to a zone. The commands and the
-- look-up in config.shards are parameters; opening and closing the client is left out, and writes to
-- the resource's data do not fail.
pub mod Laws
mod Tests
use terraform_provider_mongo.Prelude.{
  String, Bool, true, false, Option, none, some, List, ◌||◌, ◌==◌, contains, Result, ok, err,
  if◌then◌else◌,
}
use terraform_provider_mongo.Errors.{GoError}
use terraform_provider_mongo.Ids.{IdError, format_shard_zone_id, parse_shard_zone_id}

-- The resource's data; an empty id is a resource that is no longer in the state.
pub record ZoneData : Type 0 where
  pub id : String
  pub shard_name : String
  pub zone : String

-- `not_mongos` is requireMongos; `find_tags` reads the tags of a shard's document, if it finds one.
pub record ZoneEnv (S : Type 0) : Type 0 where
  pub not_mongos : S → Option GoError
  pub add_shard_to_zone : String → String → S → Option GoError × S
  pub remove_shard_from_zone : String → String → S → Option GoError × S
  pub find_tags : String → S → Option (List String)

pub data ZoneError : Type 0 where
  needs_mongos failed_add failed_remove : GoError → ZoneError
  bad_id : IdError → ZoneError

-- shardZoneImportState
unfoldable pub shard_zone_import_state : ZoneData → Result IdError ZoneData
shard_zone_import_state d = elim (parse_shard_zone_id d.id) [
  | err e ↦ err e
  | ok (shard_name, zone) ↦ ok (record d { shard_name = shard_name; zone = zone })
]

module _ {S : Type 0} (env : ZoneEnv S) where
  -- Read, with the names at hand.
  unfoldable pub read_named : ZoneData → String → String → S → ZoneData
  read_named d shard_name zone s = elim (env.find_tags shard_name s) [
    | none ↦ record d { id = "" }
    | some tags ↦
        if contains tags zone
        then record d { shard_name = shard_name; zone = zone }
        else record d { id = "" }
  ]

  -- Read; the names come from the id where the data has none.
  unfoldable pub read_zone : ZoneData → S → Result ZoneError ZoneData
  read_zone d s =
      if d.shard_name == "" || d.zone == ""
      then elim (parse_shard_zone_id d.id) [
        | err e ↦ err (bad_id e)
        | ok (shard_name, zone) ↦ ok (read_named d shard_name zone s)
      ]
      else ok (read_named d d.shard_name d.zone s)

  -- Create
  unfoldable pub create_zone : ZoneData → S → Result ZoneError ZoneData × S
  create_zone d s = elim (env.not_mongos s) [
    | some e ↦ (err (needs_mongos e), s)
    | none ↦
        let (failed, s1) = env.add_shard_to_zone d.shard_name d.zone s in
        (
          elim failed [
            | some e ↦ err (failed_add e)
            | none ↦ read_zone (record d { id = format_shard_zone_id d.shard_name d.zone }) s1
          ],
          s1,
        )
  ]

  -- Delete
  unfoldable pub delete_zone : ZoneData → S → Option ZoneError × S
  delete_zone d s =
      let (failed, s1) = env.remove_shard_from_zone d.shard_name d.zone s in
      (elim failed [ some e ↦ some (failed_remove e) | none ↦ none ], s1)
