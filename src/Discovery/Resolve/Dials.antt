-- ===== src/Discovery/Resolve/Dials.antt =====
-- The configuration of the connection to a shard that ResolveShardClient (mongodb/shard_discovery.go)
-- makes.
use Prim.Native.Char.{code}
use terraform_provider_mongo.Prelude.{
  ℕ, nat_beq, String, true, not, List, [], ◌∷◌, ◌==◌, ◌≡◌, ◌≢◌, inl, inr, refl, ap, ◌∙◌, arith,
  Result, ok, err, Result-cases, Option-cases, Bool-cases, if◌then◌else◌,
}
use terraform_provider_mongo.Discovery.{
  parse_shard_host, split_host_port, split_first, split_all, slash, comma, Shard,
  find_shard_by_name,
}
use terraform_provider_mongo.Discovery.Resolve.{
  ClientConfig, build_shard_client_config, ResolveError, no_hosts, target_host, shard_config_for,
}

-- A split of a text has a first part.
split_all-head :
    (sep : ℕ) (s : String) → (h : String) × (hs : List String) × (split_all sep s ≡ h ∷ hs)
unfolding split_all
split_all-head sep String.[] = (String.[], [], refl)
split_all-head sep (String.◌∷◌ c s) =
    let (h, hs, same) = split_all-head sep s in
    elim (Bool-cases (nat_beq (code c) sep)) [
      | inl b ↦ (String.[], h ∷ hs, ground (arith, b, same))
      | inr b ↦ (String.◌∷◌ c h, hs, ground (arith, b, same))
    ]

parse_shard_host-head :
    (s rs_name : String) (hosts : List String)
    → parse_shard_host s ≡ ok (rs_name, hosts)
    → (h : String) × (hs : List String) × (hosts ≡ h ∷ hs)
unfolding parse_shard_host
parse_shard_host-head s rs_name hosts e = elim (Option-cases (split_first slash s)) [
  | inl p ↦ absurd (ground (arith, e, p))
  | inr ((a, b), p) ↦
      let (h, hs, same) = split_all-head comma b in
      let all : hosts ≡ split_all comma b = ground (arith, e, p) in (h, hs, all ∙ same)
]

-- The configuration of a connection to the shard: direct, to the override or to the first host of its row
-- in listShards, as a member of the row's set, and with the rest of the provider's configuration.
abbrev pub Dials : ClientConfig → String → String → List Shard → ClientConfig → Type 0
Dials provider shard_name host_override shards config =
    (row rs_name h host port : String) × (hs : List String) × (find_shard_by_name shards shard_name
      ≡ ok row)
    × (parse_shard_host row ≡ ok (rs_name, h ∷ hs))
    × (split_host_port (if not (host_override == "") then host_override else h) ≡ ok (host, port))
    × (config
        ≡ record provider { host = host; port = port; replica_set_name = rs_name; direct = true })

module _ (provider : ClientConfig) (shard_name host_override : String) (shards : List Shard) where
  abbrev chosen : Result ResolveError ClientConfig
  chosen = shard_config_for provider shard_name host_override shards

  pub shard_config_for_lem :
      (chosen ≢ err no_hosts)
      × ((config : ClientConfig)
          → chosen ≡ ok config
          → Dials provider shard_name host_override shards config)
  unfolding shard_config_for target_host build_shard_client_config
  shard_config_for_lem = elim (Result-cases (find_shard_by_name shards shard_name)) [
    | inl (x, p) ↦ (ground (arith, p), λ config e. absurd (ground (arith, p, e)))
    | inr (row, p) ↦ elim (Result-cases (parse_shard_host row)) [
      | inl (x, q) ↦ (ground (arith, p, q), λ config e. absurd (ground (arith, p, q, e)))
      | inr ((rs_name, hosts), q) ↦
          let (h, hs, same) = parse_shard_host-head row rs_name hosts q in
          let target = if not (host_override == "") then host_override else h in
          elim (Result-cases (split_host_port target)) [
            | inl (x, r) ↦ (
              ground (arith, p, q, same, r),
              λ config e. absurd (ground (arith, p, q, same, r, e)),
            )
            | inr ((host, port), r) ↦ (
              ground (arith, p, q, same, r),
              λ config e. (
                row,
                rs_name,
                h,
                host,
                port,
                hs,
                p,
                q ∙ ap (λ l. ok (rs_name, l)) same,
                r,
                ground (arith, p, q, same, r, e),
              ),
            )
          ]
    ]
  ]

  pub Dials-shard_config_for :
      (config : ClientConfig)
      → Dials provider shard_name host_override shards config
      → chosen ≡ ok config
  unfolding shard_config_for target_host build_shard_client_config
  Dials-shard_config_for config (row, rs_name, h, host, port, hs, p, q, r, same) =
      ground (arith, p, q, r, same)
