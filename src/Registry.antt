-- ===== src/Registry.antt =====
-- mongodb/resource_registry.go: which experimental resources a provider lets a plan use. A Go set of
-- names is the list that it is built from.
mod Tests
use Prim.Native.Char.{code}
use Prim.Native.String
use terraform_provider_mongo.Prelude.{
  String, Bool, true, false, Option, none, some, List, [], ◌∷◌, ◌++◌, ◌||◌, ◌==◌, ◌≡◌, ◌∙◌, ◌⊎◌,
  ◌↔◌, inl, inr, refl, sym, ap, arith, contains, contains-append, All, if◌then◌else◌,
}
use terraform_provider_mongo.Discovery.{comma, split_all}
use terraform_provider_mongo.Discovery.HostPort.{has_char, join_with, NoneHas, split_all-join}
use terraform_provider_mongo.Members.Validate.{is_space, is_blank}

-- The text without the white space at its end.
trim_right : String → String
trim_right String.[] = String.[]
trim_right (String.◌∷◌ c s) =
    let rest = trim_right s in if is_blank (String.◌∷◌ c s) then String.[] else String.◌∷◌ c rest

-- strings.TrimSpace
unfoldable pub trim_space : String → String
unfolding trim_right
trim_space String.[] = String.[]
trim_space (String.◌∷◌ c s) =
    let rest = trim_space s in if is_space (code c) then rest else trim_right (String.◌∷◌ c s)

-- The names of the parts of a text that are not blank.
unfoldable pub names_of : List String → List String
names_of [] = []
names_of (part ∷ parts) =
    let rest = names_of parts in
    let trimmed = trim_space part in if trimmed == "" then rest else trimmed ∷ rest

-- parseCommaSeparated
unfoldable pub parse_comma_separated : String → List String
parse_comma_separated raw = names_of (split_all comma raw)

-- parseEnableList, of the variable's value: an empty one enables nothing.
unfoldable pub parse_enable_list : String → List String
parse_enable_list raw = if raw == "" then [] else parse_comma_separated raw

-- mergeEnableLists
unfoldable pub merge_enable_lists : List String → List String → List String
merge_enable_lists env_list hcl_list = env_list ++ hcl_list

-- The error of requireFeature, with the resource's name.
pub data FeatureError : Type 0 where
  not_enabled : String → FeatureError

-- requireFeature; `none` is a provider that is not configured yet.
unfoldable pub require_feature : String → Option (List String) → Option FeatureError
require_feature name none = none
require_feature name (some enabled) =
    if contains enabled name then none else some (not_enabled name)

-- A name that the list of a variable can hold.
abbrev pub IsName : String → Type 0
IsName a = (trim_space a ≡ a) × ((a == "") ≡ false)

names_of_self : (parts : List String) → All IsName parts → names_of parts ≡ parts
unfolding names_of
names_of_self [] n = refl
names_of_self (a ∷ parts) ((t, e), n) = ground (arith, t, e, names_of_self parts n)

-- With the names that the variable lists between commas and those of the provider block enabled,
-- exactly the resources of either list pass; the names are not empty, have no comma and no white
-- space at their ends, and the variable lists at least one.
pub require_feature_iff :
    (name first : String) (others hcl : List String)
    → All IsName (first ∷ others)
    → NoneHas comma (first ∷ others)
    → (join_with "," first others == "") ≡ false
    → (require_feature name
          (some (merge_enable_lists (parse_enable_list (join_with "," first others)) hcl))
        ≡ none)
      ↔ ((contains (first ∷ others) name ≡ true) ⊎ (contains hcl name ≡ true))
unfolding require_feature merge_enable_lists parse_enable_list parse_comma_separated
require_feature_iff name first others hcl n c e =
    let parts = split_all-join "," first others c.0 c.1 in
    let names = ap names_of parts ∙ names_of_self (first ∷ others) n in
    let both = contains-append (first ∷ others) hcl name in ground (arith, e, names, both)
