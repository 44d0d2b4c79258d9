-- ===== src/ShardZone/Tests.antt =====
-- A shard whose tags are the state, and the theorems of mongodb/resource_shard_zone.go at it.
use terraform_provider_mongo.Prelude.{
  String, true, false, ◌↔◌, not, none, some, List, [], ◌∷◌, ◌==◌, ◌≡◌, refl, arith, eq_refl, keep,
  contains, ok,
}
use terraform_provider_mongo.Ids.{format_shard_zone_id}
use terraform_provider_mongo.ShardZone.{ZoneData, ZoneEnv, create_zone}
use terraform_provider_mongo.ShardZone.Laws.{KeepsZones, create_zone_lem}

abbrev test_zones : ZoneEnv (List String)
test_zones = record {
  not_mongos = λ s. none;
  add_shard_to_zone = λ shard zone s. (none, zone ∷ s);
  remove_shard_from_zone = λ shard zone s. (none, keep (λ z. not (z == zone)) s);
  find_tags = λ shard s. some s;
}

keep-contains :
    (zone : String) (s : List String) → contains (keep (λ z. not (z == zone)) s) zone ≡ false
keep-contains zone [] = refl
keep-contains zone (z ∷ s) = ground (arith, keep-contains zone s)

abbrev tags_of : List String → String → List String
tags_of s shard = s

test_zones-KeepsZones : KeepsZones test_zones tags_of
test_zones-KeepsZones = record {
  added = λ shard zone s e. ground (arith, eq_refl zone);
  removed = λ shard zone s e. keep-contains zone s;
  shown = λ shard s tags e. cc;
}

abbrev west : ZoneData
west = record { id = ""; shard_name = "shard01"; zone = "west" }

create_zone_example :
    let r = create_zone test_zones west [] in
    (((out : ZoneData) × (r.0 ≡ ok out)) ↔ (
      (test_zones.not_mongos [] ≡ none)
      × ((test_zones.add_shard_to_zone "shard01" "west" []).0 ≡ none)))
    × ((out : ZoneData)
        → r.0 ≡ ok out
        → (contains r.1 "west" ≡ true)
          × (test_zones.find_tags "shard01" r.1 ≡ none → out ≡ record west { id = "" })
          × ((tags : List String)
              → test_zones.find_tags "shard01" r.1 ≡ some tags
              → out ≡ record west { id = format_shard_zone_id "shard01" "west" }))
create_zone_example = create_zone_lem test_zones tags_of test_zones-KeepsZones west [] (refl, refl)
