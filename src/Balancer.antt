-- ===== src/Balancer.antt =====
-- mongodb/resource_balancer_config.go: the resource that switches a cluster's balancer and keeps its
-- settings in the documents of config.settings. The commands and the updates of documents are
-- parameters that pass a state on; opening the client is left out, and writes to the resource's data do
-- not fail. A value of a document that is no text, Boolean or number of the settings is `other`, with
-- its text; `other_text` is the text that Go gives any other value.
pub mod Settings
pub mod ReadBack
pub mod Laws
pub mod Clock
mod Tests
use Prim.Native.Char.{Char, code}
use terraform_provider_mongo.Prelude.{
  ℕ, suc, ◌+◌, ◌-◌, ◌*◌, ◌/◌, ◌%◌, ◌^◌, String, Bool, true, false, not, ◌&&◌, ◌||◌, Option, none,
  some, List, [], ◌∷◌, ◌==◌, ℤ, pos, negsuc, int_beq, int_leb, nat_beq, leb, ltb, Float64, Result,
  ok, err, if◌then◌else◌,
}
use terraform_provider_mongo.Prelude.Action.{
  Action, World, ◌>>=◌, ◌>>◌, pure, raise, get, set, call, checked, asked, when,
}
use terraform_provider_mongo.Errors.{GoError}

-- A value of a document; of a document the texts at `start` and `stop` are kept.
pub data Value : Type 0 where
  text : String → Value
  boolean : Bool → Value
  int32 int64 : ℤ → Value
  float64 : Float64 → Value
  document : Option String → Option String → Value
  other : String → Value

abbrev pub Document : Type 0
Document = String → Option Value

pub record BalancerData : Type 0 where
  pub id : String
  pub enabled : Bool
  pub window_start : String
  pub window_stop : String
  pub chunk_size : ℤ
  pub secondary_throttle : String
  pub wait_for_delete : Bool

-- `set_field` is the upsert of one field with `$set`, `unset_fields` the update with `$unset`.
pub record BalancerServer (S : Type 0) : Type 0 where
  pub not_mongos : S → Option GoError × S
  pub switch : Bool → S → Option GoError × S
  pub mode : S → Result GoError String × S
  pub set_field : String → String → Value → S → Option GoError × S
  pub unset_fields : String → List String → S → Option GoError × S
  pub delete_document : String → S → Option GoError × S
  pub find_document : String → S → Result GoError (Option Document) × S
  pub other_text : Value → String

pub data BalancerError : Type 0 where
  not_a_mongos not_switched no_window no_throttle no_wait no_chunk_size : GoError → BalancerError
  no_mode balancer_unread chunk_size_unread not_cleaned : GoError → BalancerError

abbrev pub balancer_id : String
balancer_id = "balancer"

abbrev pub chunk_size_id : String
chunk_size_id = "chunksize"

abbrev is_digit : Char → Bool
is_digit c = leb 48 (code c) && leb (code c) 57

-- The two hours of hhmmRegex: [01]\d or 2[0-3].
abbrev is_hour : Char → Char → Bool
is_hour a b =
    ((nat_beq (code a) 48 || nat_beq (code a) 49) && is_digit b)
    || (nat_beq (code a) 50 && leb 48 (code b) && leb (code b) 51)

-- The two minutes: [0-5]\d.
abbrev is_minute : Char → Char → Bool
is_minute a b = leb 48 (code a) && leb (code a) 53 && is_digit b

-- validateHHMM: whether the text matches hhmmRegex.
unfoldable pub validate_hhmm : String → Bool
validate_hhmm (String.◌∷◌ a (String.◌∷◌ b (String.◌∷◌ c (String.◌∷◌ d (String.◌∷◌ e String.[]))))) =
    is_hour a b && nat_beq (code c) 58 && is_minute d e
validate_hhmm _ = false

-- The ValidateFunc of chunk_size_mb.
unfoldable pub validate_chunk_size : ℤ → Bool
validate_chunk_size v = int_leb (pos 1) v && int_leb v (pos 1024)

-- The last function of CustomizeDiff: whether the plan is refused.
unfoldable pub half_window : String → String → Bool
half_window start stop = elim (start == "") [ true ↦ not (stop == "") | false ↦ stop == "" ]

-- `int(tv)` of a float64.
unfoldable pub truncated : Float64 → ℤ
truncated x =
    let e = x / 2 ^ 52 % 2048 in
    let m = x % 2 ^ 52 + 2 ^ 52 in
    let n = if ltb e 1075 then m / 2 ^ (1075 - e) else m * 2 ^ (e - 1075) in
    if leb (2 ^ 63) (x % 2 ^ 64) && ltb 0 n then negsuc (n - 1) else pos n

module _ {S : Type 0} (server : BalancerServer S) where
  abbrev pub Handler : Type 0
  Handler = Action (World BalancerData S) BalancerError (Unit {0})

  -- `fmt.Sprintf("%v", st)`
  abbrev pub value_text : Value → String
  value_text (text s) = s
  value_text (boolean true) = "true"
  value_text (boolean false) = "false"
  value_text (other s) = s
  value_text v = server.other_text v

  -- setBalancerWindow
  unfoldable pub set_balancer_window : String → String → S → Option GoError × S
  set_balancer_window start stop s =
      if not (start == "") && not (stop == "")
      then server.set_field balancer_id "activeWindow" (document (some start) (some stop)) s
      else server.unset_fields balancer_id ("activeWindow" ∷ []) s

  -- setBalancerField, and setChunkSize, whose number the driver stores as an int32.
  abbrev pub set_balancer_field : String → Value → S → Option GoError × S
  set_balancer_field = server.set_field balancer_id

  abbrev pub set_chunk_size : ℤ → S → Option GoError × S
  set_chunk_size size = server.set_field chunk_size_id "value" (int32 size)

  -- What Read takes from the balancer's document.
  abbrev pub read_window : Option Value → BalancerData → BalancerData
  read_window (some (document start stop)) d = record d {
    window_start = elim start [ some t ↦ t | none ↦ d.window_start ];
    window_stop = elim stop [ some t ↦ t | none ↦ d.window_stop ];
  }
  read_window _ d = record d { window_start = ""; window_stop = "" }

  abbrev pub read_throttle : Option Value → BalancerData → BalancerData
  read_throttle (some v) d = record d { secondary_throttle = value_text v }
  read_throttle none d = record d { secondary_throttle = "" }

  abbrev pub read_wait : Option Value → BalancerData → BalancerData
  read_wait (some (boolean b)) d = record d { wait_for_delete = b }
  read_wait _ d = d

  unfoldable pub read_balancer_document : Option Document → BalancerData → BalancerData
  read_balancer_document none d = d
  read_balancer_document (some doc) d =
      read_wait (doc "_waitForDelete")
        (read_throttle (doc "_secondaryThrottle") (read_window (doc "activeWindow") d))

  -- And from the document of the chunk size.
  abbrev pub read_size : Option Value → BalancerData → BalancerData
  read_size (some (int32 n)) d = record d { chunk_size = n }
  read_size (some (int64 n)) d = record d { chunk_size = n }
  read_size (some (float64 x)) d = record d { chunk_size = truncated x }
  read_size _ d = d

  unfoldable pub read_chunk_size : Option Document → BalancerData → BalancerData
  read_chunk_size none d = d
  read_chunk_size (some doc) d = read_size (doc "value") d

  -- resourceBalancerConfigRead
  unfoldable pub read_balancer : Handler
  read_balancer = do
    mode ← asked no_mode server.mode
    set (λ d. record d { enabled = mode == "full" })
    doc ← asked balancer_unread (server.find_document balancer_id)
    set (read_balancer_document doc)
    size ← asked chunk_size_unread (server.find_document chunk_size_id)
    set (read_chunk_size size)

  -- resourceBalancerConfigCreate, which is resourceBalancerConfigUpdate too.
  unfoldable pub write_balancer : BalancerData → Handler
  write_balancer d = do
    checked not_a_mongos server.not_mongos
    checked not_switched (server.switch d.enabled)
    checked no_window (set_balancer_window d.window_start d.window_stop)
    when (not (d.secondary_throttle == ""))
        (checked no_throttle (set_balancer_field "_secondaryThrottle" (text d.secondary_throttle)))
    when d.wait_for_delete (checked no_wait (set_balancer_field "_waitForDelete" (boolean true)))
    when (not (int_beq d.chunk_size (pos 0))) (checked no_chunk_size (set_chunk_size d.chunk_size))

  unfoldable pub create_balancer : Handler
  create_balancer = do
    d ← get
    write_balancer d
    set (λ d. record d { id = balancer_id })
    read_balancer

  -- resourceBalancerConfigDelete
  unfoldable pub delete_balancer : Handler
  delete_balancer = do
    checked not_switched (server.switch true)
    checked not_cleaned (
        server.unset_fields balancer_id
          ("activeWindow" ∷ "_secondaryThrottle" ∷ "_waitForDelete" ∷ []))
    checked not_cleaned (server.delete_document chunk_size_id)
    set (λ d. record d { id = "" })
