-- ===== src/CollectionBalancing.antt =====
-- mongodb/resource_collection_balancing.go: the resource that switches the balancing of a collection,
-- with a command or, on clusters of a lower feature compatibility version, in config.collections. The
-- commands are parameters that pass a state on; opening the client is left out, and writes to the
-- resource's data do not fail. A run that ends with an error is that error, without its warnings.
pub mod Laws
mod Tests
use terraform_provider_mongo.Prelude.{
  String, Bool, true, false, not, ◌&&◌, Option, none, some, List, [], ◌∷◌, ◌==◌, ℤ, pos, int_beq,
  int_leb, Result, ok, err, if◌then◌else◌,
}
use terraform_provider_mongo.Prelude.Action.{
  Action, World, ◌>>=◌, ◌>>◌, pure, raise, get, set, checked, asked,
}
use terraform_provider_mongo.Errors.{GoError}
use terraform_provider_mongo.Commands.{Reply}
use terraform_provider_mongo.Discovery.{split_first}
use terraform_provider_mongo.Ids.{format_resource_id}
use terraform_provider_mongo.Fcv.{FcvReply, get_fcv, atoi}

pub record CollectionData : Type 0 where
  pub id : String
  pub namespace : String
  pub enabled : Bool
  pub chunk_size : ℤ

-- `configure` is configureCollectionBalancing with the chunk size, if one is sent; the next two are the
-- updates of `noBalance` in config.collections, and `find_collection` looks it up there, as far as it is
-- a Boolean.
pub record CollectionServer (S : Type 0) : Type 0 where
  pub not_mongos : S → Option GoError × S
  pub show_fcv : S → Reply FcvReply × S
  pub configure : String → Bool → Option ℤ → S → Option GoError × S
  pub set_no_balance : String → Bool → S → Option GoError × S
  pub unset_no_balance : String → S → Option GoError × S
  pub find_collection : String → S → Result GoError (Option (Option Bool)) × S

pub data CollectionError : Type 0 where
  not_a_mongos fcv_unread not_configured not_written collection_unread : GoError → CollectionError
  bad_fcv : String → CollectionError

-- chunk_size_mb was ignored, at this version.
pub data CollectionWarning : Type 0 where
  chunk_size_ignored : String → CollectionWarning

-- parseFCVMajor; an error is none.
unfoldable pub parse_fcv_major : String → Option ℤ
parse_fcv_major fcv = elim (split_first b'.' fcv) [ none ↦ none | some (a, b) ↦ atoi a ]

-- The ValidateFunc of the namespace.
unfoldable pub is_namespace : String → Bool
is_namespace v = elim (split_first b'.' v) [
  | none ↦ false
  | some (a, b) ↦ not (a == "") && not (b == "")
]

abbrev pub fcv_threshold : ℤ
fcv_threshold = pos 6

module _ {S : Type 0} (server : CollectionServer S) where
  abbrev pub Handler : Type 0 → Type 0
  Handler A = Action (World CollectionData S) CollectionError A

  abbrev pub show : S → Result GoError String × S
  show s = let (reply, s1) = server.show_fcv s in (get_fcv reply, s1)

  -- Whether the cluster has the command, with the version.
  abbrev pub ask_version : Handler (Bool × String)
  ask_version w =
      let (r, s1) = show w.server in
      let w1 : World CollectionData S = record w { server = s1 } in
      elim r [
        | err e ↦ (err (fcv_unread e), w1)
        | ok fcv ↦ elim (parse_fcv_major fcv) [
          | none ↦ (err (bad_fcv fcv), w1)
          | some major ↦ (ok (int_leb fcv_threshold major, fcv), w1)
        ]
      ]

  abbrev pub chunk_size_of : CollectionData → Option ℤ
  chunk_size_of d = if int_beq d.chunk_size (pos 0) then none else some d.chunk_size

  abbrev pub warnings_of : CollectionData → String → List CollectionWarning
  warnings_of d fcv = if int_beq d.chunk_size (pos 0) then [] else chunk_size_ignored fcv ∷ []

  -- The write of Create for a cluster that has the command or not.
  abbrev pub write_balancing : CollectionData → Bool → S → Option GoError × S
  write_balancing d has_command s =
      if has_command
      then server.configure d.namespace d.enabled (chunk_size_of d) s
      else server.set_no_balance d.namespace (not d.enabled) s

  abbrev pub no_balance : Option Bool → Bool
  no_balance none = false
  no_balance (some b) = b

  abbrev record_collection : String → Option (Option Bool) → Handler (Unit {0})
  record_collection namespace none = set (λ d. record d { id = "" })
  record_collection namespace (some b) =
      set (λ d. record d { enabled = not (no_balance b); namespace = namespace })

  -- resourceCollectionBalancingRead
  unfoldable pub read_collection : Handler (Unit {0})
  read_collection = do
    d ← get
    found ← asked collection_unread (server.find_collection d.namespace)
    record_collection d.namespace found

  -- resourceCollectionBalancingCreate, which is resourceCollectionBalancingUpdate too.
  unfoldable pub create_collection : Handler (List CollectionWarning)
  create_collection = do
    checked not_a_mongos server.not_mongos
    d ← get
    version ← ask_version
    checked (if version.0 then not_configured else not_written) (write_balancing d version.0)
    set (λ d. record d { id = format_resource_id d.namespace "balancing" })
    read_collection
    pure (if version.0 then [] else warnings_of d version.1)

  abbrev pub reset_balancing : CollectionData → Bool → S → Option GoError × S
  reset_balancing d has_command s =
      if has_command
      then server.configure d.namespace true (some (pos 0)) s
      else server.unset_no_balance d.namespace s

  -- resourceCollectionBalancingDelete
  unfoldable pub delete_collection : Handler (Unit {0})
  delete_collection = do
    d ← get
    version ← ask_version
    checked (if version.0 then not_configured else not_written) (reset_balancing d version.0)
    set (λ d. record d { id = "" })
