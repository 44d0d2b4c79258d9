-- ===== src/Discovery/Resolve/Laws.antt =====
-- Which client ResolveShardClient (mongodb/shard_discovery.go) gives.
use terraform_provider_mongo.Prelude.{
  String, List, ◌≡◌, ◌≢◌, ◌↔◌, ◌⊎◌, inl, inr, refl, sym, ap, ◌∙◌, arith, ok, err, Result-cases,
}
use terraform_provider_mongo.Discovery.{ConnectionType, mongos, replica_set, standalone, Shard}
use terraform_provider_mongo.Discovery.Resolve.{
  ClientConfig, ResolveServer, no_hosts, detect_connection_type, list_shards_reply,
  shard_config_for, resolve_from_mongos, resolve_shard_client,
}
use terraform_provider_mongo.Discovery.Resolve.Dials.{
  Dials, shard_config_for_lem, Dials-shard_config_for,
}

module _ {S C : Type 0} (server : ResolveServer S C) (client : C) (provider : ClientConfig)
    (shard_name host_override : String) where
  -- The client is the provider's own, which is connected to no mongos.
  abbrev pub OwnClient : C → S → Type 0
  OwnClient c s =
      (t : ConnectionType) × (detect_connection_type (server.is_master client s).0 ≡ ok t)
      × (t ≢ mongos)
      × (c ≡ client)

  -- The provider is connected to a mongos, and the client comes from a connection to the shard.
  abbrev pub DialedClient : C → S → Type 0
  DialedClient c s =
      let s1 = (server.is_master client s).1 in
      let s2 = (server.list_shards client s1).1 in
      (shards : List Shard) × (config : ClientConfig) × (detect_connection_type
          (server.is_master client s).0
        ≡ ok mongos)
      × (list_shards_reply (server.list_shards client s1).0 ≡ ok shards)
      × Dials provider shard_name host_override shards config
      × ((server.connect config s2).0 ≡ ok c)

  from_mongos :
      (s1 : S)
      → let r = resolve_from_mongos server client provider shard_name host_override s1 in
        let s2 = (server.list_shards client s1).1 in
        (r.0 ≢ err no_hosts)
        × ((c : C)
            → r.0 ≡ ok c
            → (shards : List Shard) × (config : ClientConfig) × (list_shards_reply
                  (server.list_shards client s1).0
                ≡ ok shards)
              × Dials provider shard_name host_override shards config
              × ((server.connect config s2).0 ≡ ok c))
  unfolding resolve_from_mongos
  from_mongos s1 = elim (Result-cases (list_shards_reply (server.list_shards client s1).0)) [
    | inl (x, p) ↦ (ground (arith, p), λ c e. absurd (ground (arith, p, e)))
    | inr (shards, p) ↦
        let (never, dials) = shard_config_for_lem provider shard_name host_override shards in
        elim (Result-cases (shard_config_for provider shard_name host_override shards)) [
          | inl (x, q) ↦ (
            λ e. never (q ∙ ap err (ground (arith, p, q, e))),
            λ c e. absurd (ground (arith, p, q, e)),
          )
          | inr (config, q) ↦
              elim (Result-cases (server.connect config (server.list_shards client s1).1).0) [
                | inl (x, r) ↦ (ground (arith, p, q, r), λ c e. absurd (ground (arith, p, q, r, e)))
                | inr (c', r) ↦ (
                  ground (arith, p, q, r),
                  λ c e.
                      (shards, config, p, dials config q, r ∙ ap ok (ground (arith, p, q, r, e))),
                )
              ]
        ]
  ]

  OwnClient-resolved :
      (c : C) (s : S)
      → OwnClient c s
      → (resolve_shard_client server client provider shard_name host_override s).0 ≡ ok c
  unfolding resolve_shard_client
  OwnClient-resolved c s (mongos, p, other, same) = absurd (other refl)
  OwnClient-resolved c s (replica_set, p, other, same) = ground (arith, p, same)
  OwnClient-resolved c s (standalone, p, other, same) = ground (arith, p, same)

  DialedClient-resolved :
      (c : C) (s : S)
      → DialedClient c s
      → (resolve_shard_client server client provider shard_name host_override s).0 ≡ ok c
  unfolding resolve_shard_client resolve_from_mongos
  DialedClient-resolved c s (shards, config, p, q, d, t) =
      ground
        (arith, p, q, Dials-shard_config_for provider shard_name host_override shards config d, t)

  resolved :
      (s : S)
      → let r = resolve_shard_client server client provider shard_name host_override s in
        (r.0 ≢ err no_hosts) × ((c : C) → r.0 ≡ ok c → OwnClient c s ⊎ DialedClient c s)
  unfolding resolve_shard_client
  resolved s =
      let s1 = (server.is_master client s).1 in
      elim (Result-cases (detect_connection_type (server.is_master client s).0)) [
        | inl (x, p) ↦ (ground (arith, p), λ c e. absurd (ground (arith, p, e)))
        | inr (mongos, p) ↦
            let r = resolve_from_mongos server client provider shard_name host_override s1 in
            let same : resolve_shard_client server client provider shard_name host_override s ≡ r =
              ground (arith, p) in
            let (never, dials) = from_mongos s1 in
            (
              λ e. never (sym (ap (λ x. x.0) same) ∙ e),
              λ c e.
                  let (shards, config, q, d, t) = dials c (sym (ap (λ x. x.0) same) ∙ e) in
                  inr (shards, config, p, q, d, t),
            )
        | inr (replica_set, p) ↦ (
          ground (arith, p),
          λ c e. inl (replica_set, p, (λ x. absurd (cc)), ground (arith, p, e)),
        )
        | inr (standalone, p) ↦ (
          ground (arith, p),
          λ c e. inl (standalone, p, (λ x. absurd (cc)), ground (arith, p, e)),
        )
      ]

  -- ResolveShardClient gives the provider's own client when that is connected to no mongos. On a mongos it
  -- gives a client of a new direct connection to host_override, or, without one, to the first host that
  -- listShards has for the shard, under the set's name there and with the rest of the provider's
  -- configuration. It never takes a host from an empty list.
  pub resolve_shard_client_lem :
      (s : S)
      → let r = resolve_shard_client server client provider shard_name host_override s in
        (r.0 ≢ err no_hosts) × ((c : C) → (r.0 ≡ ok c) ↔ (OwnClient c s ⊎ DialedClient c s))
  resolve_shard_client_lem s =
      let (never, cases) = resolved s in
      (
        never,
        λ c. (
          cases c,
          λ e. elim e [
            | inl own ↦ OwnClient-resolved c s own
            | inr dialed ↦ DialedClient-resolved c s dialed
          ],
        ),
      )
