-- ===== src/Ids.antt =====
-- The resource ids of mongodb/parse_id.go and mongodb/resource_shard_zone.go: two parts with a
-- character between them, of which the first place counts.
use terraform_provider_mongo.Prelude.{
  String, false, none, some, ◌||◌, ◌==◌, ◌≡◌, arith, Result, ok, err, if◌then◌else◌,
}
use terraform_provider_mongo.Discovery.{split_first, colon}
use terraform_provider_mongo.Discovery.HostPort.{joined, has_char, split_first-joined}

-- The error of both parsers, with the id.
pub data IdError : Type 0 where
  bad_format : String → IdError

-- formatResourceId
unfoldable pub format_resource_id : String → String → String
format_resource_id database name = joined "." database name

-- parseResourceId: the name and the database.
unfoldable pub parse_resource_id : String → Result IdError (String × String)
parse_resource_id id = elim (split_first b'.' id) [
  | none ↦ err (bad_format id)
  | some (database, name) ↦
      if database == "" || name == "" then err (bad_format id) else ok (name, database)
]

-- formatShardZoneID
unfoldable pub format_shard_zone_id : String → String → String
format_shard_zone_id shard_name zone = joined ":" shard_name zone

-- parseShardZoneID: the shard's name and the zone.
unfoldable pub parse_shard_zone_id : String → Result IdError (String × String)
parse_shard_zone_id id = elim (split_first colon id) [
  | none ↦ err (bad_format id)
  | some (shard_name, zone) ↦
      if shard_name == "" || zone == "" then err (bad_format id) else ok (shard_name, zone)
]

-- parseResourceId gives back the database and the name that formatResourceId was given, neither of them
-- empty, when the database has no dot; the name may have some.
pub parse_resource_id-format :
    (database name : String)
    → (database == "") ≡ false
    → (name == "") ≡ false
    → has_char b'.' database ≡ false
    → parse_resource_id (format_resource_id database name) ≡ ok (name, database)
unfolding parse_resource_id format_resource_id
parse_resource_id-format database name d n h =
    ground (arith, split_first-joined "." database name h, d, n)

-- parseShardZoneID gives back the shard and the zone that formatShardZoneID was given, neither of
-- them empty, when the shard's name has no colon; the zone may have some.
pub parse_shard_zone_id-format :
    (shard_name zone : String)
    → (shard_name == "") ≡ false
    → (zone == "") ≡ false
    → has_char colon shard_name ≡ false
    → parse_shard_zone_id (format_shard_zone_id shard_name zone) ≡ ok (shard_name, zone)
unfolding parse_shard_zone_id format_shard_zone_id
parse_shard_zone_id-format shard_name zone d n h =
    ground (arith, split_first-joined ":" shard_name zone h, d, n)
