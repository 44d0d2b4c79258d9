-- ===== src/CollectionBalancing/Laws.antt =====
-- What the handlers of mongodb/resource_collection_balancing.go do to a collection and leave in the data,
-- on clusters with the command and without it.
use terraform_provider_mongo.Prelude.{
  String, Bool, true, false, not, Option, none, some, List, ◌≡◌, refl, ap, ◌∙◌, arith, ℤ, pos,
  int_leb, ok, Result-cases, Option-cases, inl, inr,
}
use terraform_provider_mongo.Prelude.Action.{World}
use terraform_provider_mongo.Ids.{format_resource_id}
use terraform_provider_mongo.Fcv.{get_fcv}
use terraform_provider_mongo.CollectionBalancing.{
  CollectionData, CollectionServer, CollectionWarning, parse_fcv_major, fcv_threshold,
  chunk_size_of, write_balancing, reset_balancing, no_balance, read_collection, create_collection,
  delete_collection,
}

abbrev pub Stored : Type 0
Stored = String → Option Bool

-- A listed collection gets this `noBalance`; one that is not listed stays so.
abbrev pub written : Bool → Option Bool → Option Bool
written b none = none
written b (some x) = some b

-- The collections that a cluster lists, with their `noBalance`. The writes change it where the collection
-- is listed, the look-up shows it, and the other commands keep it.
pub record KeepsCollections {S : Type 0} (server : CollectionServer S) (stored : S → Stored)
    : Type 0 where
  pub configured :
      (ns : String) (on : Bool) (size : Option ℤ) (s : S)
      → (server.configure ns on size s).0 ≡ none
      → stored (server.configure ns on size s).1 ns ≡ written (not on) (stored s ns)
  pub set_ok :
      (ns : String) (b : Bool) (s : S)
      → (server.set_no_balance ns b s).0 ≡ none
      → stored (server.set_no_balance ns b s).1 ns ≡ written b (stored s ns)
  pub unset_ok :
      (ns : String) (s : S)
      → (server.unset_no_balance ns s).0 ≡ none
      → stored (server.unset_no_balance ns s).1 ns ≡ written false (stored s ns)
  pub found :
      (ns : String) (s : S) (b : Option Bool)
      → (server.find_collection ns s).0 ≡ ok (some b)
      → stored s ns ≡ some (no_balance server b)
  pub missing :
      (ns : String) (s : S) → (server.find_collection ns s).0 ≡ ok none → stored s ns ≡ none
  pub mongos_keeps : (ns : String) (s : S) → stored (server.not_mongos s).1 ns ≡ stored s ns
  pub show_keeps : (ns : String) (s : S) → stored (server.show_fcv s).1 ns ≡ stored s ns

not-not : (b : Bool) → not (not b) ≡ b
not-not true = refl
not-not false = refl

module _ {S : Type 0} (server : CollectionServer S) (stored : S → Stored)
    (law : KeepsCollections server stored) where
  write_stored :
      (d : CollectionData) (b : Bool) (s : S)
      → (write_balancing server d b s).0 ≡ none
      → stored (write_balancing server d b s).1 d.namespace
        ≡ written (not d.enabled) (stored s d.namespace)
  write_stored d true s e = law.configured d.namespace d.enabled (chunk_size_of server d) s e
  write_stored d false s e = law.set_ok d.namespace (not d.enabled) s e

  reset_stored :
      (d : CollectionData) (b : Bool) (s : S)
      → (reset_balancing server d b s).0 ≡ none
      → stored (reset_balancing server d b s).1 d.namespace ≡ written false (stored s d.namespace)
  reset_stored d true s e = law.configured d.namespace true (some (pos 0)) s e
  reset_stored d false s e = law.unset_ok d.namespace s e

  -- What Read makes of the collection.
  abbrev pub Seen : Option Bool → CollectionData → CollectionData → Type 0
  Seen c d d' =
      (c ≡ none → d' ≡ record d { id = "" })
      × ((b : Bool) → c ≡ some b → d' ≡ record d { enabled = not b })

  read_collection-Seen :
      (w : World CollectionData S)
      → (read_collection server w).0 ≡ ok tt
      → Seen (stored w.server w.resource.namespace) w.resource (read_collection server w).1.resource
  unfolding read_collection
  read_collection-Seen w e =
      let ns = w.resource.namespace in
      elim (Result-cases (server.find_collection ns w.server).0) [
        | inl (x, p) ↦ absurd (ground (arith, e, p))
        | inr (none, p) ↦
            let gone = law.missing ns w.server p in
            (λ q. ground (arith, p), λ b q. absurd (ground (arith, gone, q)))
        | inr (some b, p) ↦
            let here = law.found ns w.server b p in
            (λ q. absurd (ground (arith, here, q)), λ x q. ground (arith, p, here, q))
      ]

  -- The answer that tells whether the cluster has the command.
  abbrev Version : S → Bool → Type 0
  Version s b =
      (fcv : String) × (major : ℤ) × (get_fcv (server.show_fcv s).0 ≡ ok fcv)
      × (parse_fcv_major fcv ≡ some major)
      × (int_leb fcv_threshold major ≡ b)

  module _ (w : World CollectionData S) where
    abbrev s1 : S
    s1 = (server.not_mongos w.server).1

    abbrev s2 : S
    s2 = (server.show_fcv s1).1

    abbrev d : CollectionData
    d = w.resource

    create_steps :
        (ws : List CollectionWarning)
        → (create_collection server w).0 ≡ ok ws
        → (b : Bool) × Version s1 b
          × ((write_balancing server d b s2).0 ≡ none)
          × (let after : World CollectionData S = record {
            resource = record d { id = format_resource_id d.namespace "balancing" };
            server = (write_balancing server d b s2).1;
          } in
              ((read_collection server after).0 ≡ ok tt)
              × ((create_collection server w).1 ≡ (read_collection server after).1))
    unfolding create_collection
    create_steps ws e = elim (Option-cases (server.not_mongos w.server).0) [
      | inr (x, m) ↦ absurd (ground (arith, e, m))
      | inl m ↦ elim (Result-cases (get_fcv (server.show_fcv s1).0)) [
        | inl (x, v) ↦ absurd (ground (arith, e, m, v))
        | inr (fcv, v) ↦ elim (Option-cases (parse_fcv_major fcv)) [
          | inl p ↦ absurd (ground (arith, e, m, v, p))
          | inr (major, p) ↦
              let b = int_leb fcv_threshold major in
              let after : World CollectionData S = record {
                resource = record d { id = format_resource_id d.namespace "balancing" };
                server = (write_balancing server d b s2).1;
              } in
              elim (Option-cases (write_balancing server d b s2).0) [
                | inr (x, q) ↦ absurd (ground (arith, e, m, v, p, q))
                | inl q ↦ elim (Result-cases (read_collection server after).0) [
                  | inl (x, r) ↦ absurd (ground (arith, e, m, v, p, q, r))
                  | inr (u, r) ↦
                      (b, (fcv, major, v, p, refl), q, (r, ground (arith, m, v, p, q, r)))
                ]
              ]
        ]
      ]
    ]

    before_write : stored s2 d.namespace ≡ stored w.server d.namespace
    before_write = law.show_keeps d.namespace s1 ∙ law.mongos_keeps d.namespace w.server

    -- Create and Update, where they succeed, leave the planned switch in the data under the collection's id,
    -- as Read finds it in config.collections, on clusters with the command and without it; or the
    -- collection is not listed there, and the resource is removed from the state.
    pub create_collection_lem :
        (ws : List CollectionWarning)
        → (create_collection server w).0 ≡ ok ws
        → let d' = (create_collection server w).1.resource in
          (stored w.server d.namespace ≡ none → d' ≡ record d { id = "" })
          × ((x : Bool)
              → stored w.server d.namespace ≡ some x
              → d' ≡ record d { id = format_resource_id d.namespace "balancing" })
    create_collection_lem ws e =
        let (b, _, q, (r, same)) = create_steps ws e in
        let after : World CollectionData S = record {
          resource = record d { id = format_resource_id d.namespace "balancing" };
          server = (write_balancing server d b s2).1;
        } in
        let (gone, here) = read_collection-Seen after r in
        let now : stored after.server d.namespace
            ≡ written (not d.enabled) (stored w.server d.namespace) =
          write_stored d b s2 q ∙ ap (written (not d.enabled)) before_write in
        let data_same = ap (λ x. x.resource) same in
        (
          λ n. data_same ∙ gone (now ∙ ap (written (not d.enabled)) n),
          λ x n.
              data_same
              ∙ here (not d.enabled) (now ∙ ap (written (not d.enabled)) n)
              ∙ ap (λ y. record after.resource { enabled = y }) (not-not d.enabled),
        )

    -- Delete, where it succeeds, leaves the collection's balancing on, if it is listed, on clusters with
    -- the command and without it, and removes the resource from the state.
    pub delete_collection_lem :
        (delete_collection server w).0 ≡ ok tt
        → let after = (delete_collection server w).1 in
          (after.resource ≡ record d { id = "" })
          × (stored after.server d.namespace ≡ written false (stored w.server d.namespace))
    unfolding delete_collection
    delete_collection_lem e =
        let s3 = (server.show_fcv w.server).1 in
        elim (Result-cases (get_fcv (server.show_fcv w.server).0)) [
          | inl (x, v) ↦ absurd (ground (arith, e, v))
          | inr (fcv, v) ↦ elim (Option-cases (parse_fcv_major fcv)) [
            | inl p ↦ absurd (ground (arith, e, v, p))
            | inr (major, p) ↦
                let b = int_leb fcv_threshold major in
                elim (Option-cases (reset_balancing server d b s3).0) [
                  | inr (x, q) ↦ absurd (ground (arith, e, v, p, q))
                  | inl q ↦
                      let same : (delete_collection server w).1 ≡ record {
                        resource = record d { id = "" };
                        server = (reset_balancing server d b s3).1;
                      } =
                        ground (arith, v, p, q) in
                      (
                        ap (λ x. x.resource) same,
                        ap (λ x. stored x.server d.namespace) same
                            ∙ reset_stored d b s3 q
                            ∙ ap (written false) (law.show_keeps d.namespace w.server),
                      )
                ]
          ]
        ]
