-- ===== src/ZoneKeyRange/Tests.antt =====
-- A cluster with at most one range, and the theorems of mongodb/resource_zone_key_range.go at it.
use terraform_provider_mongo.Prelude.{String, Option, none, some, ◌≡◌, refl, arith, Result, ok}
use terraform_provider_mongo.Prelude.Action.{World}
use terraform_provider_mongo.Errors.{GoError}
use terraform_provider_mongo.Commands.{replied, ok_reply, append_text}
use terraform_provider_mongo.Discovery.HostPort.{has_char}
use terraform_provider_mongo.ZoneKeyRange.{
  RangeData, RangeServer, format_zone_key_range_id, taken, parse_zone_key_range_id, split_pair,
  read_range_at, read_range, create_range, delete_range,
}
use terraform_provider_mongo.ZoneKeyRange.IdParts.{parse_zone_key_range_id-format}
use terraform_provider_mongo.ZoneKeyRange.Laws.{
  KeepsRanges, Updated, create_range_lem, delete_range-read,
}

-- The zone of the one range; texts stand for documents and for their coding.
abbrev test_ranges : RangeServer (Option String) String
test_ranges = record {
  not_mongos = λ s. (none, s);
  update_range = λ namespace a b zone s. (replied ok_reply, zone);
  find_tag = λ namespace a b s. (ok (elim s [ none ↦ none | some zone ↦ some (some zone) ]), s);
  to_document = λ s. ok s;
  encode = λ s. s;
  decode = λ s. ok s;
}

abbrev zone_of : Option String → String → String → String → Option String
zone_of s namespace a b = s

found_zone :
    (s : Option String) (tag : Option String)
    → ◌≡◌ {A = Result GoError (Option (Option String))}
        (ok (elim s [ none ↦ none | some zone ↦ some (some zone) ]))
        (ok (some tag))
    → s ≡ some (elim tag [ none ↦ "" | some z ↦ z ])
found_zone none tag e = absurd (cc)
found_zone (some zone) tag e = ground (arith, e)

missing_zone :
    (s : Option String)
    → ◌≡◌ {A = Result GoError (Option (Option String))}
        (ok (elim s [ none ↦ none | some zone ↦ some (some zone) ]))
        (ok none)
    → s ≡ none
missing_zone none e = refl
missing_zone (some zone) e = absurd (cc)

test_ranges-KeepsRanges : KeepsRanges test_ranges zone_of
test_ranges-KeepsRanges = record {
  updated = λ namespace a b zone s r p o. refl;
  found = λ namespace a b s tag e. found_zone s tag e;
  missing = λ namespace a b s e. missing_zone s e;
}

abbrev planned : World RangeData (Option String)
planned = record {
  resource = record { id = ""; namespace = "db.users"; zone = "west"; min = "{a}"; max = "{b}" };
  server = none;
}

create_runs : (create_range test_ranges planned).0 ≡ ok tt
unfolding create_range read_range read_range_at
create_runs = refl

create_range_lem_example :
    let d = planned.resource in
    let r = (create_range test_ranges planned).1 in
    (a b : String) × (s : Option String) × (tag : Option String) × (test_ranges.to_document d.min
      ≡ ok a)
    × (test_ranges.to_document d.max ≡ ok b)
    × Updated test_ranges zone_of test_ranges-KeepsRanges planned a b s
    × (zone_of s d.namespace a b ≡ some d.zone)
    × (test_ranges.find_tag d.namespace a b s ≡ (ok (some tag), r.server))
    × (taken test_ranges tag ≡ d.zone)
    × (r.resource ≡ record d { id = format_zone_key_range_id test_ranges "db.users" "{a}" "{b}" })
create_range_lem_example =
    create_range_lem test_ranges zone_of test_ranges-KeepsRanges planned refl create_runs

abbrev present : World RangeData (Option String)
present = record planned { server = some "west" }

delete_range-read_example :
    (read_range test_ranges (delete_range test_ranges present).1).1.resource.id ≡ ""
unfolding read_range read_range_at delete_range
delete_range-read_example =
    delete_range-read test_ranges zone_of test_ranges-KeepsRanges present refl refl refl

parse_zone_key_range_id-format_example :
    parse_zone_key_range_id test_ranges
      (format_zone_key_range_id test_ranges "db.users" "{a}" "{b}")
    ≡ ok ("db.users", "{a}", "{b}")
unfolding has_char split_pair append_text
parse_zone_key_range_id-format_example =
    parse_zone_key_range_id-format test_ranges "db.users" "{a}" "{b}"
      (record { decodes = refl; colon_free = refl }) (record { decodes = refl; colon_free = refl })
      refl refl

-- A collection's name may have "::", which the id does not escape.
another_namespace :
    parse_zone_key_range_id test_ranges (format_zone_key_range_id test_ranges "db.a::b" "{a}" "{b}")
    ≡ ok ("db.a", "b", "{a}::{b}")
unfolding parse_zone_key_range_id format_zone_key_range_id split_pair append_text
another_namespace = refl
