-- ===== src/ZoneKeyRange/Laws.antt =====
-- What the handlers of mongodb/resource_zone_key_range.go do to the ranges and leave in the data.
use terraform_provider_mongo.Prelude.{
  pair_eq, String, Bool, true, false, ◌||◌, Option, none, some, ◌==◌, ◌≡◌, sym, ap, ◌∙◌, arith, pos,
  int_beq, ok, Result-cases, Option-cases, Bool-cases, inl, inr,
}
use terraform_provider_mongo.Prelude.Action.{World}
use terraform_provider_mongo.Commands.{replied, OkResponse, Reply-cases}
use terraform_provider_mongo.ZoneKeyRange.{
  RangeData, RangeServer, format_zone_key_range_id, taken, read_range_at, read_range, create_range,
  delete_range,
}

-- The ranges of a cluster. An updateZoneKeyRange that is accepted gives the range the zone or removes it,
-- and a look-up that succeeds shows the range's zone.
pub record KeepsRanges {S D : Type 0} (server : RangeServer S D)
    (zone_of : S → String → D → D → Option String) : Type 0 where
  pub updated :
      (namespace : String) (a b : D) (zone : Option String) (s : S) (r : OkResponse)
      → (server.update_range namespace a b zone s).0 ≡ replied r
      → int_beq r.ok (pos 1) ≡ true
      → zone_of (server.update_range namespace a b zone s).1 namespace a b ≡ zone
  pub found :
      (namespace : String) (a b : D) (s : S) (tag : Option String)
      → (server.find_tag namespace a b s).0 ≡ ok (some tag)
      → zone_of s namespace a b ≡ some (taken server tag)
  pub missing :
      (namespace : String) (a b : D) (s : S)
      → (server.find_tag namespace a b s).0 ≡ ok none
      → zone_of s namespace a b ≡ none

module _ {S D : Type 0} (server : RangeServer S D) (zone_of : S → String → D → D → Option String)
    (law : KeepsRanges server zone_of) where
  -- Whether every field that Read needs is in the data.
  abbrev pub incomplete : RangeData → Bool
  incomplete d = d.namespace == "" || d.min == "" || d.max == ""

  abbrev Worlds : Type 0
  Worlds = World RangeData S

  module _ (namespace min max : String) (w : World RangeData S) (u : Unit {0})
      (e : (read_range_at server namespace min max w).0 ≡ ok u) where
    -- A read at which the range has no zone removes the resource from the state.
    read_at_gone :
        (a b : D)
        → server.to_document min ≡ ok a
        → server.to_document max ≡ ok b
        → zone_of w.server namespace a b ≡ none
        → (read_range_at server namespace min max w).1.resource ≡ record w.resource { id = "" }
    unfolding read_range_at
    read_at_gone a b p q z = elim (Result-cases (server.find_tag namespace a b w.server).0) [
      | inl (x, r) ↦ absurd (ground (arith, e, p, q, r))
      | inr (none, r) ↦ ground (arith, p, q, r)
      | inr (some tag, r) ↦
          let here = law.found namespace a b w.server tag r in absurd (ground (arith, here, z))
    ]

    -- A read at which the range has a zone records it.
    read_at_zone :
        (a b : D) (zone : String)
        → server.to_document min ≡ ok a
        → server.to_document max ≡ ok b
        → zone_of w.server namespace a b ≡ some zone
        → (tag : Option String) × (server.find_tag namespace a b w.server
            ≡ (ok (some tag), (read_range_at server namespace min max w).1.server))
          × (taken server tag ≡ zone)
          × ((read_range_at server namespace min max w).1.resource
              ≡ record w.resource { namespace = namespace; zone = zone; min = min; max = max })
    unfolding read_range_at
    read_at_zone a b zone p q z = elim (Result-cases (server.find_tag namespace a b w.server).0) [
      | inl (x, r) ↦ absurd (ground (arith, e, p, q, r))
      | inr (none, r) ↦
          let gone = law.missing namespace a b w.server r in absurd (ground (arith, gone, z))
      | inr (some tag, r) ↦
          let same : taken server tag ≡ zone =
            ground (arith, law.found namespace a b w.server tag r, z) in
          let seen = server.find_tag namespace a b w.server in
          (
            tag,
            pair_eq seen (ok (some tag)) r ∙ ap (λ x. (ok (some tag), x)) (ground (arith, p, q, r)),
            same,
            ground (arith, p, q, r, same),
          )
    ]

  read_complete_at :
      (w : World RangeData S)
      → incomplete w.resource ≡ false
      → read_range server w
        ≡ read_range_at server w.resource.namespace w.resource.min w.resource.max w
  unfolding read_range
  read_complete_at w c = ground (arith, c)

  module _ (w : World RangeData S) where
    -- The server accepted the update that gives the range between two bounds the planned zone, in a state.
    abbrev pub Updated : D → D → S → Type 0
    Updated a b after =
        (s0 : S) × (reply : OkResponse) × (int_beq reply.ok (pos 1) ≡ true)
        × (server.update_range w.resource.namespace a b (some w.resource.zone) s0
            ≡ (replied reply, after))

    create_steps :
        (create_range server w).0 ≡ ok tt
        → (a b : D) × (s : S) × (server.to_document w.resource.min ≡ ok a)
          × (server.to_document w.resource.max ≡ ok b)
          × Updated a b s
          × (zone_of s w.resource.namespace a b ≡ some w.resource.zone)
          × (create_range server w
              ≡ read_range server (record {
                resource = record w.resource {
                  id =
                      format_zone_key_range_id server w.resource.namespace w.resource.min
                        w.resource.max;
                };
                server = s;
              }))
    unfolding create_range
    create_steps e =
        let d = w.resource in
        let s0 = (server.not_mongos w.server).1 in
        elim (Option-cases (server.not_mongos w.server).0) [
          | inr (x, m) ↦ absurd (ground (arith, e, m))
          | inl m ↦ elim (Result-cases (server.to_document d.min)) [
            | inl (x, p) ↦ absurd (ground (arith, e, m, p))
            | inr (a, p) ↦ elim (Result-cases (server.to_document d.max)) [
              | inl (x, q) ↦ absurd (ground (arith, e, m, p, q))
              | inr (b, q) ↦
                  elim (Reply-cases (server.update_range d.namespace a b (some d.zone) s0).0) [
                    | inl (x, r) ↦ absurd (ground (arith, e, m, p, q, r))
                    | inr (inl (x, r)) ↦ absurd (ground (arith, e, m, p, q, r))
                    | inr (inr (reply, r)) ↦ elim (Bool-cases (int_beq reply.ok (pos 1))) [
                      | inr n ↦ absurd (ground (arith, e, m, p, q, r, n))
                      | inl y ↦ (
                        a,
                        b,
                        (server.update_range d.namespace a b (some d.zone) s0).1,
                        p,
                        q,
                        (
                          s0,
                          reply,
                          y,
                          pair_eq (server.update_range d.namespace a b (some d.zone) s0)
                              (replied reply) r,
                        ),
                        law.updated d.namespace a b (some d.zone) s0 reply r y,
                        ground (arith, m, p, q, r, y),
                      )
                    ]
                  ]
            ]
          ]
        ]

    -- Create, where it succeeds and the plan has a namespace and bounds, has sent an updateZoneKeyRange of
    -- the two bounds with the planned zone that the server accepted, so that the range has the zone, and
    -- has then found the range with that zone in config.tags. The data keeps the plan and gets the
    -- range's id.
    pub create_range_lem :
        incomplete w.resource ≡ false
        → (create_range server w).0 ≡ ok tt
        → let d = w.resource in
          let r = (create_range server w).1 in
          (a b : D) × (s : S) × (tag : Option String) × (server.to_document d.min ≡ ok a)
          × (server.to_document d.max ≡ ok b)
          × Updated a b s
          × (zone_of s d.namespace a b ≡ some d.zone)
          × (server.find_tag d.namespace a b s ≡ (ok (some tag), r.server))
          × (taken server tag ≡ d.zone)
          × (r.resource ≡ record d { id = format_zone_key_range_id server d.namespace d.min d.max })
    create_range_lem c e =
        let d = w.resource in
        let (a, b, s, p, q, u, z, same) = create_steps e in
        let w1 : World RangeData S = record {
          resource = record d { id = format_zone_key_range_id server d.namespace d.min d.max };
          server = s;
        } in
        let run = same ∙ read_complete_at w1 c in
        let done : (read_range_at server d.namespace d.min d.max w1).0 ≡ ok tt =
          sym (ap (λ r. r.0) run) ∙ e in
        let (tag, found, zone_same, left) =
          read_at_zone d.namespace d.min d.max w1 tt done a b d.zone p q z in
        (
          a,
          b,
          s,
          tag,
          p,
          q,
          u,
          z,
          found ∙ ap (λ x. (ok (some tag), x)) (sym (ap (λ r. r.1.server) run)),
          zone_same,
          ap (λ r. r.1.resource) run ∙ left,
        )

    delete_steps :
        (delete_range server w).0 ≡ ok tt
        → (a b : D) × (server.to_document w.resource.min ≡ ok a)
          × (server.to_document w.resource.max ≡ ok b)
          × ((delete_range server w).1.resource ≡ w.resource)
          × (zone_of (delete_range server w).1.server w.resource.namespace a b ≡ none)
    unfolding delete_range
    delete_steps e =
        let d = w.resource in
        elim (Result-cases (server.to_document d.min)) [
          | inl (x, p) ↦ absurd (ground (arith, e, p))
          | inr (a, p) ↦ elim (Result-cases (server.to_document d.max)) [
            | inl (x, q) ↦ absurd (ground (arith, e, p, q))
            | inr (b, q) ↦
                elim (Reply-cases (server.update_range d.namespace a b none w.server).0) [
                  | inl (x, r) ↦ absurd (ground (arith, e, p, q, r))
                  | inr (inl (x, r)) ↦ absurd (ground (arith, e, p, q, r))
                  | inr (inr (reply, r)) ↦ elim (Bool-cases (int_beq reply.ok (pos 1))) [
                    | inr n ↦ absurd (ground (arith, e, p, q, r, n))
                    | inl y ↦
                        let after = server.update_range d.namespace a b none w.server in
                        let same : (delete_range server w).1 ≡ record w { server = after.1 } =
                          ground (arith, p, q, r, y) in
                        (
                          a,
                          b,
                          p,
                          q,
                          ap (λ x. x.resource) same,
                          ap (λ x. zone_of x.server d.namespace a b) same
                              ∙ law.updated d.namespace a b none w.server reply r y,
                        )
                  ]
                ]
          ]
        ]

    -- After a Delete that succeeds, Read, where it succeeds, no longer finds the range: it removes the
    -- resource from the state.
    pub delete_range-read :
        incomplete w.resource ≡ false
        → (delete_range server w).0 ≡ ok tt
        → let after = (delete_range server w).1 in
          (read_range server after).0 ≡ ok tt → (read_range server after).1.resource.id ≡ ""
    delete_range-read c e o =
        let d = w.resource in
        let after = (delete_range server w).1 in
        let (a, b, p, q, kept, z) = delete_steps e in
        let there : World RangeData S = record { resource = d; server = after.server } in
        let same : after ≡ there = ap (λ x. record { resource = x; server = after.server }) kept in
        let reads = ap (read_range server) same ∙ read_complete_at there c in
        let done : (read_range_at server d.namespace d.min d.max there).0 ≡ ok tt =
          sym (ap (λ r. r.0) reads) ∙ o in
        ap (λ r. r.1.resource.id) reads
        ∙ ap (λ x. x.id) (read_at_gone d.namespace d.min d.max there tt done a b p q z)
