-- ===== src/ShardZone/Laws.antt =====
-- The life of a shard's zone (mongodb/resource_shard_zone.go): what is created is read back, and what
-- is deleted is gone.
use terraform_provider_mongo.Prelude.{
  String, true, false, Option, none, some, List, ◌==◌, ◌≡◌, ◌↔◌, sym, ap, ◌∙◌, subst, refl, Result,
  err, arith, eq_refl, contains, ok, Option-cases, inl, inr,
}
use terraform_provider_mongo.Errors.{GoError}
use terraform_provider_mongo.Discovery.{colon}
use terraform_provider_mongo.Discovery.HostPort.{has_char}
use terraform_provider_mongo.Ids.{format_shard_zone_id, parse_shard_zone_id-format}
use terraform_provider_mongo.ShardZone.{
  ZoneData, ZoneEnv, ZoneError, needs_mongos, failed_add, shard_zone_import_state, read_named,
  read_zone, create_zone, delete_zone,
}

-- The tags of the shards in config.shards: an assignment that is accepted puts the zone among the
-- shard's tags, a removal that is accepted takes it out of them, and a look-up that finds the shard's
-- document shows its tags.
pub record KeepsZones {S : Type 0} (env : ZoneEnv S) (tags_of : S → String → List String)
    : Type 0 where
  pub added :
      (shard zone : String) (s : S)
      → (env.add_shard_to_zone shard zone s).0 ≡ none
      → contains (tags_of (env.add_shard_to_zone shard zone s).1 shard) zone ≡ true
  pub removed :
      (shard zone : String) (s : S)
      → (env.remove_shard_from_zone shard zone s).0 ≡ none
      → contains (tags_of (env.remove_shard_from_zone shard zone s).1 shard) zone ≡ false
  pub shown :
      (shard : String) (s : S) (tags : List String)
      → env.find_tags shard s ≡ some tags
      → tags ≡ tags_of s shard

ok_inj : {x y : ZoneData} → ◌≡◌ {A = Result ZoneError ZoneData} (ok x) (ok y) → x ≡ y
ok_inj e = cc

module _ {S : Type 0} (env : ZoneEnv S) (tags_of : S → String → List String)
    (keeps : KeepsZones env tags_of) where
  -- A resource whose shard and zone are not empty.
  abbrev pub IsNamed : ZoneData → Type 0
  IsNamed d = ((d.shard_name == "") ≡ false) × ((d.zone == "") ≡ false)

  module _ (d : ZoneData) (s : S) (named : IsNamed d) where
    abbrev sent : Option GoError × S
    sent = env.add_shard_to_zone d.shard_name d.zone s

    -- The data that Create plans.
    abbrev made : ZoneData
    made = record d { id = format_shard_zone_id d.shard_name d.zone }

    create_refused :
        (x : GoError)
        → (env.not_mongos s ≡ some x)
        → create_zone env d s ≡ (err (needs_mongos x), s)
    unfolding create_zone
    create_refused x m = ground (arith, m)

    create_failed :
        (x : GoError)
        → env.not_mongos s ≡ none
        → sent.0 ≡ some x
        → create_zone env d s ≡ (err (failed_add x), sent.1)
    unfolding create_zone
    create_failed x m a = ground (arith, m, a)

    create_read :
        env.not_mongos s ≡ none
        → sent.0 ≡ none
        → create_zone env d s ≡ (read_zone env made sent.1, sent.1)
    unfolding create_zone
    create_read m a = ground (arith, m, a)

    read_missing :
        (t : S)
        → env.find_tags d.shard_name t ≡ none
        → read_zone env made t ≡ ok (record d { id = "" })
    unfolding read_zone read_named
    read_missing t f = ground (arith, f, named)

    read_found :
        (t : S) (tags : List String)
        → env.find_tags d.shard_name t ≡ some tags
        → contains tags d.zone ≡ true
        → read_zone env made t ≡ ok made
    unfolding read_zone read_named
    read_found t tags f c = ground (arith, f, c, named)

    create_given :
        (out : ZoneData)
        → (create_zone env d s).0 ≡ ok out
        → (env.not_mongos s ≡ none) × (sent.0 ≡ none)
    create_given out e = elim (Option-cases (env.not_mongos s)) [
      | inr (x, m) ↦ let refused = create_refused x m in absurd (cc)
      | inl m ↦ elim (Option-cases sent.0) [
        | inr (x, a) ↦ let failed = create_failed x m a in absurd (cc)
        | inl a ↦ (m, a)
      ]
    ]

    -- What the data is after a read of the planned data in a state.
    abbrev Follows : S → ZoneData → Type 0
    Follows t out =
        (env.find_tags d.shard_name t ≡ none → out ≡ record d { id = "" })
        × ((tags : List String) → env.find_tags d.shard_name t ≡ some tags → out ≡ made)

    read_zone-Follows :
        sent.0 ≡ none → (out : ZoneData) × (read_zone env made sent.1 ≡ ok out) × Follows sent.1 out
    read_zone-Follows a = elim (Option-cases (env.find_tags d.shard_name sent.1)) [
      | inl f ↦ (record d { id = "" }, read_missing sent.1 f, (λ g. refl, λ tags g. absurd (cc)))
      | inr (tags, f) ↦
          let here = keeps.shown d.shard_name sent.1 tags f in
          let zone_there = keeps.added d.shard_name d.zone s a in
          (
            made,
            read_found sent.1 tags f (subst (λ l. contains l d.zone ≡ true) (sym here) zone_there),
            (λ g. absurd (cc), λ tags' g. refl),
          )
    ]

    -- Create of a resource whose shard and zone are not empty gives data exactly where the cluster is a
    -- mongos and accepts the assignment. Then the zone is among the shard's tags, and the data follows
    -- the look-up after it: where that finds the shard's document, it is the plan with the id that is
    -- made of the two names, and where it does not, for whatever reason, the id is empty, so that the
    -- resource is dropped from the state although the zone is assigned.
    pub create_zone_lem :
        let r = create_zone env d s in
        (((out : ZoneData) × (r.0 ≡ ok out)) ↔ ((env.not_mongos s ≡ none) × (sent.0 ≡ none)))
        × ((out : ZoneData)
            → r.0 ≡ ok out
            → (contains (tags_of r.1 d.shard_name) d.zone ≡ true)
              × (env.find_tags d.shard_name r.1 ≡ none → out ≡ record d { id = "" })
              × ((tags : List String)
                  → env.find_tags d.shard_name r.1 ≡ some tags
                  → out ≡ record d { id = format_shard_zone_id d.shard_name d.zone }))
    create_zone_lem = (
      (
        λ (out, e). create_given out e,
        λ (m, a).
            let (out, read, _) = read_zone-Follows a in
            (out, ap (λ r. r.0) (create_read m a) ∙ read),
      ),
      λ out e.
          let (m, a) = create_given out e in
          let run = create_read m a in
          let (out', read, follows) = read_zone-Follows a in
          let same_out : out' ≡ out = ok_inj (sym (ap (λ r. r.0) run ∙ read) ∙ e) in
          let after : sent.1 ≡ (create_zone env d s).1 = sym (ap (λ r. r.1) run) in
          let follows' =
            subst (λ t. Follows t out) after (subst (Follows sent.1) same_out follows) in
          (
            subst (λ t. contains (tags_of t d.shard_name) d.zone ≡ true) after
                (keeps.added d.shard_name d.zone s a),
            follows'.0,
            follows'.1,
          ),
    )

  -- After a Delete that the server accepted, a Read of the same data drops the resource from the
  -- state: its id is empty.
  pub delete_zone-read :
      (d : ZoneData) (s : S)
      → (d.shard_name == "") ≡ false
      → (d.zone == "") ≡ false
      → (delete_zone env d s).0 ≡ none
      → read_zone env d (delete_zone env d s).1 ≡ ok (record d { id = "" })
  unfolding delete_zone read_zone read_named
  delete_zone-read d s n z e =
      let s1 = (env.remove_shard_from_zone d.shard_name d.zone s).1 in
      elim (Option-cases (env.find_tags d.shard_name s1)) [
        | inl f ↦ ground (arith, f)
        | inr (tags, f) ↦
            let here : tags ≡ tags_of s1 d.shard_name = keeps.shown d.shard_name s1 tags f in
            let gone = keeps.removed d.shard_name d.zone s (ground arith) in
            ground (arith, f, here, gone)
      ]

-- An import by the id of a shard and a zone has their names in the data, and a Read of data that has
-- only that id looks for the same shard and zone; the shard's name has no colon, and neither is empty.
pub import-read_zone :
    {S : Type 0} (env : ZoneEnv S) (shard zone : String) (s : S)
    → (shard == "") ≡ false
    → (zone == "") ≡ false
    → has_char colon shard ≡ false
    → let id = format_shard_zone_id shard zone in
      (shard_zone_import_state (record { id = id; shard_name = ""; zone = "" })
        ≡ ok (record { id = id; shard_name = shard; zone = zone }))
      × (read_zone env (record { id = id; shard_name = ""; zone = "" }) s
          ≡ ok (read_named env (record { id = id; shard_name = ""; zone = "" }) shard zone s))
unfolding shard_zone_import_state read_zone
import-read_zone env shard zone s n z h = (
  ground (arith, parse_shard_zone_id-format shard zone n z h),
  ground (arith, parse_shard_zone_id-format shard zone n z h, eq_refl ""),
)
