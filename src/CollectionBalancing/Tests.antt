-- ===== src/CollectionBalancing/Tests.antt =====
-- A cluster with one collection, and the theorems of mongodb/resource_collection_balancing.go at it.
use terraform_provider_mongo.Prelude.{
  Bool, false, not, Option, none, some, [], ◌∷◌, ◌≡◌, refl, arith, pos, Result, ok,
}
use terraform_provider_mongo.Prelude.Action.{World}
use terraform_provider_mongo.Errors.{GoError}
use terraform_provider_mongo.Commands.{replied, ok_reply}
use terraform_provider_mongo.Discovery.{split_first}
use terraform_provider_mongo.Ids.{format_resource_id}
use terraform_provider_mongo.Fcv.{atoi, get_fcv}
use terraform_provider_mongo.CollectionBalancing.{
  CollectionData, CollectionServer, chunk_size_ignored, parse_fcv_major, read_collection,
  create_collection, delete_collection,
}
use terraform_provider_mongo.CollectionBalancing.Laws.{
  Stored, written, KeepsCollections, create_collection_lem,
}

-- The `noBalance` of the collection, on a cluster of version 5.0.
abbrev test_collections : CollectionServer (Option Bool)
test_collections = record {
  not_mongos = λ s. (none, s);
  show_fcv = λ s. (replied (record { version = "5.0"; response = ok_reply }), s);
  configure = λ ns on size s. (none, written (not on) s);
  set_no_balance = λ ns b s. (none, written b s);
  unset_no_balance = λ ns s. (none, written false s);
  find_collection = λ ns s. (ok (elim s [ none ↦ none | some b ↦ some (some b) ]), s);
}

abbrev stored : Option Bool → Stored
stored s ns = s

found_here :
    (s : Option Bool) (b : Option Bool)
    → ◌≡◌ {A = Result GoError (Option (Option Bool))}
        (ok (elim s [ none ↦ none | some b ↦ some (some b) ]))
        (ok (some b))
    → s ≡ some (elim b [ none ↦ false | some x ↦ x ])
found_here none b e = absurd (cc)
found_here (some x) b e = ground (arith, e)

missing_here :
    (s : Option Bool)
    → ◌≡◌ {A = Result GoError (Option (Option Bool))}
        (ok (elim s [ none ↦ none | some b ↦ some (some b) ]))
        (ok none)
    → s ≡ none
missing_here none e = refl
missing_here (some x) e = absurd (cc)

test_collections-KeepsCollections : KeepsCollections test_collections stored
test_collections-KeepsCollections = record {
  configured = λ ns on size s e. refl;
  set_ok = λ ns b s e. refl;
  unset_ok = λ ns s e. refl;
  found = λ ns s b e. found_here s b e;
  missing = λ ns s e. missing_here s e;
  mongos_keeps = λ ns s. refl;
  show_keeps = λ ns s. refl;
}

abbrev planned : World CollectionData (Option Bool)
planned = record {
  resource = record { id = ""; namespace = "db.users"; enabled = false; chunk_size = pos 64 };
  server = some false;
}

-- Below version 6.0 the chunk size is ignored with a warning.
create_runs : (create_collection test_collections planned).0 ≡ ok (chunk_size_ignored "5.0" ∷ [])
unfolding create_collection read_collection parse_fcv_major split_first atoi get_fcv
create_runs = refl

create_collection_lem_example :
    let d = (create_collection test_collections planned).1.resource in
    (stored (some false) "db.users" ≡ none → d ≡ record planned.resource { id = "" })
    × ((x : Bool)
        → stored (some false) "db.users" ≡ some x
        → d ≡ record planned.resource { id = format_resource_id "db.users" "balancing" })
create_collection_lem_example =
    create_collection_lem test_collections stored test_collections-KeepsCollections planned
      (chunk_size_ignored "5.0" ∷ []) create_runs

delete_runs : (delete_collection test_collections planned).0 ≡ ok tt
unfolding delete_collection parse_fcv_major split_first atoi get_fcv
delete_runs = refl
