-- ===== src/Profiler.antt =====
-- mongodb/resource_profiler.go: the resource that sets a database's profiler. The `profile` command is
-- a parameter that passes a state on; opening the client is left out, and writes to the resource's data
-- do not fail.
mod Tests
use terraform_provider_mongo.Prelude.{
  String, Bool, true, false, Option, none, some, ◌==◌, ◌≡◌, refl, sym, ap, ◌∙◌, subst, arith, ℤ,
  pos, Result, ok, err, Option-cases, inl, inr,
}
use terraform_provider_mongo.Prelude.Action.{
  Action, World, ◌>>=◌, ◌>>◌, raise, get, set, checked, asked,
}
use terraform_provider_mongo.Errors.{GoError}
use terraform_provider_mongo.Discovery.HostPort.{has_char}
use terraform_provider_mongo.Ids.{
  IdError, format_resource_id, parse_resource_id, parse_resource_id-format,
}

pub record ProfilerData : Type 0 where
  pub id : String
  pub database : String
  pub level : ℤ
  pub slowms : ℤ
  pub ratelimit : ℤ

-- ProfileResponse, as far as it is read.
pub record ProfileResponse : Type 0 where
  pub was : ℤ
  pub slowms : ℤ
  pub ratelimit : ℤ

-- The three uses of `profile`: with settings, with the level -1, and with the level 0.
pub record ProfilerServer (S : Type 0) : Type 0 where
  pub profile : String → ProfileResponse → S → Option GoError × S
  pub show_profile : String → S → Result GoError ProfileResponse × S
  pub disable : String → S → Option GoError × S

pub data ProfilerError : Type 0 where
  not_profiled not_shown not_disabled : GoError → ProfilerError
  bad_id : IdError → ProfilerError

-- The settings of a plan.
abbrev pub settings_of : ProfilerData → ProfileResponse
settings_of d = record { was = d.level; slowms = d.slowms; ratelimit = d.ratelimit }

module _ {S : Type 0} (server : ProfilerServer S) where
  abbrev pub Handler : Type 0
  Handler = Action (World ProfilerData S) ProfilerError (Unit {0})

  -- The part of Read after the id.
  abbrev pub read_database : String → Handler
  read_database database = do
    r ← asked not_shown (server.show_profile database)
    set (λ d. record d {
      database = database;
      level = r.was;
      slowms = r.slowms;
      ratelimit = r.ratelimit;
    })

  -- resourceProfilerRead
  unfoldable pub read_profiler : Handler
  read_profiler = do
    d ← get
    elim (parse_resource_id d.id) [
      | err e ↦ raise (bad_id e)
      | ok (_, database) ↦ read_database database
    ]

  -- resourceProfilerCreate, which is resourceProfilerUpdate too.
  unfoldable pub create_profiler : Handler
  create_profiler = do
    d ← get
    checked not_profiled (server.profile d.database (settings_of d))
    set (λ d. record d { id = format_resource_id d.database "profiler" })
    read_profiler

  abbrev disable_database : String → Handler
  disable_database database = do
    checked not_disabled (server.disable database)
    set (λ d. record d { id = "" })

  -- resourceProfilerDelete
  unfoldable pub delete_profiler : Handler
  delete_profiler = do
    d ← get
    elim (parse_resource_id d.id) [
      | err e ↦ raise (bad_id e)
      | ok (_, database) ↦ disable_database database
    ]

-- The profiler's settings by database: the command sets those of its database, and they are shown.
pub record KeepsProfile {S : Type 0} (server : ProfilerServer S)
    (stored : S → String → ProfileResponse) : Type 0 where
  pub profiles :
      (database : String) (p : ProfileResponse) (s : S)
      → (server.profile database p s).0 ≡ none
      → stored (server.profile database p s).1 database ≡ p
  pub shown :
      (database : String) (s : S) (p : ProfileResponse)
      → (server.show_profile database s).0 ≡ ok p
      → p ≡ stored s database
  pub disables :
      (database : String) (s : S)
      → (server.disable database s).0 ≡ none
      → (stored (server.disable database s).1 database).was ≡ pos 0

module _ {S : Type 0} (server : ProfilerServer S) (stored : S → String → ProfileResponse)
    (law : KeepsProfile server stored) (w : World ProfilerData S) where
  -- Delete, where it succeeds on a resource with the id of such a database, leaves that database's profiler
  -- off.
  pub delete_profiler_lem :
      (database : String)
      → (database == "") ≡ false
      → has_char b'.' database ≡ false
      → w.resource.id ≡ format_resource_id database "profiler"
      → (delete_profiler server w).0 ≡ ok tt
      → ((delete_profiler server w).1.resource.id ≡ "")
        × ((stored (delete_profiler server w).1.server database).was ≡ pos 0)
  unfolding delete_profiler
  delete_profiler_lem database n h i e =
      let named = ap parse_resource_id i ∙ parse_resource_id-format database "profiler" n refl h in
      elim (Option-cases (server.disable database w.server).0) [
        | inr (x, p) ↦ absurd (ground (arith, e, p, named))
        | inl p ↦
            (ground (arith, p, named), ground (arith, p, named, law.disables database w.server p))
      ]
