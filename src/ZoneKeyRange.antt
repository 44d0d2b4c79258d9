-- ===== src/ZoneKeyRange.antt =====
-- mongodb/resource_zone_key_range.go: the resource that assigns a range of shard keys to a zone. Its
-- ids have the namespace and the bounds, each bound in base64. The commands, the base64 coding and the
-- reading of a bound as a document are parameters; opening the client is left out, and writes to the
-- resource's data do not fail.
pub mod IdParts
pub mod Laws
mod Tests
use Prim.Native.Char.{Char, code}
use terraform_provider_mongo.Prelude.{
  ℕ, String, Bool, true, false, ◌&&◌, ◌||◌, Option, none, some, ◌==◌, pos, int_beq, nat_beq, Result,
  ok, err, if◌then◌else◌,
}
use terraform_provider_mongo.Prelude.Action.{
  Action, World, ◌>>=◌, ◌>>◌, pure, raise, get, set, call, checked, asked,
}
use terraform_provider_mongo.Errors.{GoError}
use terraform_provider_mongo.Commands.{
  Reply, command_error, undecodable, replied, OkResponse, append_text,
}
use terraform_provider_mongo.Discovery.{colon}

pub record RangeData : Type 0 where
  pub id : String
  pub namespace : String
  pub zone : String
  pub min : String
  pub max : String

pub data IdError : Type 0 where
  bad_format empty_namespace : String → IdError
  bad_min bad_max : String → GoError → IdError

-- `update_range` is updateZoneKeyRange, with no zone where a range is removed; `find_tag` is the look-up
-- in config.tags, which gives the `tag` of the document where it is a text.
pub record RangeServer (S D : Type 0) : Type 0 where
  pub not_mongos : S → Option GoError × S
  pub update_range : String → D → D → Option String → S → Reply OkResponse × S
  pub find_tag : String → D → D → S → Result GoError (Option (Option String)) × S
  pub to_document : String → Result GoError D
  pub encode : String → String
  pub decode : String → Result GoError String

pub data RangeError : Type 0 where
  not_a_mongos invalid_min invalid_max not_updated undecodable_update tags_unread :
      GoError → RangeError
  refused : String → RangeError
  bad_id : IdError → RangeError

-- The rest of a text that starts with a colon.
abbrev after_colon : String → Option String
after_colon String.[] = none
after_colon (String.◌∷◌ c s) = if nat_beq (code c) colon then some s else none

-- A text at its first "::".
unfoldable pub split_pair : String → Option (String × String)
split_pair String.[] = none
split_pair (String.◌∷◌ c s) =
    let rest = split_pair s in
    elim (if nat_beq (code c) colon then after_colon s else none) [
      | some t ↦ some (String.[], t)
      | none ↦ elim rest [ none ↦ none | some (a, b) ↦ some (String.◌∷◌ c a, b) ]
    ]

-- `strings.SplitN(id, "::", 3)` where it has three parts.
abbrev pub split_id : String → Option (String × String × String)
split_id id = elim (split_pair id) [
  | none ↦ none
  | some (a, rest) ↦ elim (split_pair rest) [ none ↦ none | some (b, c) ↦ some (a, b, c) ]
]

module _ {S D : Type 0} (server : RangeServer S D) where
  -- formatZoneKeyRangeID
  unfoldable pub format_zone_key_range_id : String → String → String → String
  format_zone_key_range_id namespace min max =
      append_text namespace
        (append_text "::" (append_text (server.encode min) (append_text "::" (server.encode max))))

  -- parseZoneKeyRangeID
  unfoldable pub parse_zone_key_range_id : String → Result IdError (String × String × String)
  parse_zone_key_range_id id = elim (split_id id) [
    | none ↦ err (bad_format id)
    | some (namespace, min, max) ↦
        if namespace == "" then err (empty_namespace id) else elim (server.decode min) [
          | err e ↦ err (bad_min id e)
          | ok a ↦ elim (server.decode max) [
            | err e ↦ err (bad_max id e)
            | ok b ↦ ok (namespace, a, b)
          ]
        ]
  ]

  -- zoneKeyRangeImportState
  unfoldable pub zone_key_range_import_state : RangeData → Result IdError RangeData
  zone_key_range_import_state d = elim (parse_zone_key_range_id d.id) [
    | err e ↦ err e
    | ok (namespace, min, max) ↦ ok (record d { namespace = namespace; min = min; max = max })
  ]

  abbrev pub Handler : Type 0 → Type 0
  Handler A = Action (World RangeData S) RangeError A

  -- The two bounds as documents.
  abbrev pub bounds : String → String → Handler (D × D)
  bounds min max w = elim (server.to_document min) [
    | err e ↦ (err (invalid_min e), w)
    | ok a ↦ elim (server.to_document max) [
      | err e ↦ (err (invalid_max e), w)
      | ok b ↦ (ok (a, b), w)
    ]
  ]

  -- updateZoneKeyRange, with the checks of its reply.
  abbrev pub update : String → D → D → Option String → Handler (Unit {0})
  update namespace a b zone = call λ s.
      (let (reply, s1) = server.update_range namespace a b zone s in
        (
          elim reply [
            | command_error e ↦ err (not_updated e)
            | undecodable e ↦ err (undecodable_update e)
            | replied r ↦ if int_beq r.ok (pos 1) then ok tt else err (refused r.errmsg)
          ],
          s1,
        ))

  -- What Read looks for: the data's fields, or the parts of the id where one of them is empty.
  abbrev pub target : RangeData → Result IdError (String × String × String)
  target d =
      if d.namespace == "" || d.min == "" || d.max == ""
      then parse_zone_key_range_id d.id
      else ok (d.namespace, d.min, d.max)

  abbrev pub taken : Option String → String
  taken none = ""
  taken (some zone) = zone

  abbrev record_tag : String → String → String → Option (Option String) → Handler (Unit {0})
  record_tag namespace min max none = set (λ d. record d { id = "" })
  record_tag namespace min max (some tag) =
      set (λ d. record d { namespace = namespace; zone = taken tag; min = min; max = max })

  -- Read for a namespace and bounds.
  unfoldable pub read_range_at : String → String → String → Handler (Unit {0})
  read_range_at namespace min max = do
    docs ← bounds min max
    found ← asked tags_unread (server.find_tag namespace docs.0 docs.1)
    record_tag namespace min max found

  -- Read
  unfoldable pub read_range : Handler (Unit {0})
  read_range = do
    d ← get
    elim (target d) [
      | err e ↦ raise (bad_id e)
      | ok (namespace, min, max) ↦ read_range_at namespace min max
    ]

  -- Create
  unfoldable pub create_range : Handler (Unit {0})
  create_range = do
    checked not_a_mongos server.not_mongos
    d ← get
    docs ← bounds d.min d.max
    update d.namespace docs.0 docs.1 (some d.zone)
    set (λ d. record d { id = format_zone_key_range_id d.namespace d.min d.max })
    read_range

  -- Delete, which leaves the removal from the state to Terraform.
  unfoldable pub delete_range : Handler (Unit {0})
  delete_range = do d ← get; docs ← bounds d.min d.max; update d.namespace docs.0 docs.1 none
