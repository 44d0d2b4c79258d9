-- ===== src/Registry/Tests.antt =====
-- A variable and a provider block that enable resources (mongodb/resource_registry.go).
use terraform_provider_mongo.Prelude.{true, none, some, [], ◌∷◌, ◌≡◌, ◌⊎◌, ◌↔◌, refl, contains}
use terraform_provider_mongo.Discovery.HostPort.{has_char, join_with, joined}
use terraform_provider_mongo.Members.Validate.{is_space, is_blank}
use terraform_provider_mongo.Registry.{
  trim_right, trim_space, merge_enable_lists, parse_enable_list, require_feature,
  require_feature_iff,
}

require_feature_iff_example :
    (require_feature "mongodb_shard" (
        some (
          merge_enable_lists
            (parse_enable_list (join_with "," "mongodb_shard_config" ("mongodb_shard" ∷ [])))
            ("mongodb_profiler" ∷ [])))
      ≡ none)
    ↔ ((contains ("mongodb_shard_config" ∷ "mongodb_shard" ∷ []) "mongodb_shard" ≡ true)
        ⊎ (contains ("mongodb_profiler" ∷ []) "mongodb_shard" ≡ true))
unfolding has_char join_with joined trim_space trim_right is_space is_blank
require_feature_iff_example =
    require_feature_iff "mongodb_shard" "mongodb_shard_config" ("mongodb_shard" ∷ [])
      ("mongodb_profiler" ∷ []) ((refl, refl), ((refl, refl), tt)) (refl, (refl, tt)) refl
