-- ===== src/Fcv.antt =====
-- mongodb/resource_fcv.go: the resource that keeps a cluster's feature compatibility version, with GetFCV
-- of mongodb/replica_set_types.go. The commands are parameters that pass a state on; opening the client
-- is left out, and writes to the resource's data do not fail.
pub mod Version
pub mod Order
pub mod Laws
mod Tests
use Prim.Native.Char.{Char, code}
use terraform_provider_mongo.Prelude.{
  ℕ, ◌+◌, ◌-◌, ◌*◌, ◌^◌, String, Bool, true, false, not, ◌&&◌, ◌||◌, Option, none, some, List, [],
  ◌∷◌, ◌==◌, ℤ, pos, negsuc, int_beq, int_leb, nat_beq, leb, ltb, Result, ok, err, if◌then◌else◌,
}
use terraform_provider_mongo.Errors.{GoError}
use terraform_provider_mongo.Commands.{
  Reply, command_error, undecodable, replied, OkResponse, wrap, plain_error, append_text,
}
use terraform_provider_mongo.Discovery.{split_first}

-- FCV: the version and the fields of every reply.
pub record FcvReply : Type 0 where
  pub version : String
  pub response : OkResponse

-- GetFCV
unfoldable pub get_fcv : Reply FcvReply → Result GoError String
get_fcv (command_error e) = err (wrap "getParameter featureCompatibilityVersion" e)
get_fcv (undecodable e) = err (wrap "failed to decode featureCompatibilityVersion" e)
get_fcv (replied r) =
    if int_beq r.response.ok (pos 1)
    then ok r.version
    else err
        (plain_error (append_text "getParameter featureCompatibilityVersion: " r.response.errmsg))

abbrev digits_from : ℕ → String → Option ℕ
digits_from n String.[] = some n
digits_from n (String.◌∷◌ c s) =
    let rest = digits_from (10 * n + (code c - 48)) s in
    if leb 48 (code c) && leb (code c) 57 then rest else none

abbrev digits : String → Option ℕ
digits String.[] = none
digits (String.◌∷◌ c s) = digits_from 0 (String.◌∷◌ c s)

abbrev positive : String → Option ℤ
positive s = elim (digits s) [
  | none ↦ none
  | some n ↦ if ltb n (2 ^ 63) then some (pos n) else none
]

abbrev negative : String → Option ℤ
negative s = elim (digits s) [
  | none ↦ none
  | some n ↦ if leb n (2 ^ 63) then some (if nat_beq n 0 then pos 0 else negsuc (n - 1)) else none
]

-- strconv.Atoi
unfoldable pub atoi : String → Option ℤ
atoi String.[] = none
atoi (String.◌∷◌ c s) =
    if nat_beq (code c) 45
    then negative s
    else if nat_beq (code c) 43
    then positive s
    else positive (String.◌∷◌ c s)

pub data FcvError : Type 0 where
  no_parts bad_major bad_minor : String → FcvError

-- parseFCVParts
unfoldable pub parse_fcv_parts : String → Result FcvError (ℤ × ℤ)
parse_fcv_parts fcv = elim (split_first b'.' fcv) [
  | none ↦ err (no_parts fcv)
  | some (a, b) ↦ elim (atoi a) [
    | none ↦ err (bad_major a)
    | some major ↦ elim (atoi b) [ none ↦ err (bad_minor b) | some minor ↦ ok (major, minor) ]
  ]
]

-- The numbers -1, 0 and +1 that compareFCV returns.
pub data Comparison : Type 0 where
  less same more : Comparison

abbrev pub int_ltb : ℤ → ℤ → Bool
int_ltb a b = not (int_leb b a)

-- The switch of compareFCV.
unfoldable pub compare_parts : ℤ × ℤ → ℤ × ℤ → Comparison
compare_parts (major, minor) (major', minor') =
    if int_ltb major major'
    then less
    else if int_ltb major' major
    then more
    else if int_ltb minor minor'
    then less
    else if int_ltb minor' minor
    then more
    else same

-- compareFCV
unfoldable pub compare_fcv : String → String → Result FcvError Comparison
compare_fcv a b = elim (parse_fcv_parts a) [
  | err e ↦ err e
  | ok p ↦ elim (parse_fcv_parts b) [ err e ↦ err e | ok q ↦ ok (compare_parts p q) ]
]

-- The last function of CustomizeDiff: whether the plan is refused.
unfoldable pub blocks_version_change : String → Bool → Bool → Bool
blocks_version_change id changed danger_mode =
    if id == "" then false else if not changed then false else not danger_mode

pub record FcvData : Type 0 where
  pub id : String
  pub version : String

pub record FcvServer (S : Type 0) : Type 0 where
  pub show_fcv : S → Reply FcvReply × S
  pub set_fcv : String → S → Option GoError × S

-- The warnings, with the version that is there and the one that is planned.
pub data FcvWarning : Type 0 where
  changing downgrading : String → String → FcvWarning

pub data FcvFailure : Type 0 where
  not_set : String → GoError → FcvFailure
  not_read : GoError → FcvFailure

-- The diagnostics and the data after a handler.
pub record Outcome : Type 0 where
  pub warnings : List FcvWarning
  pub failure : Option FcvFailure
  pub data_after : FcvData

-- The warnings of Create for the version that is there, which is empty where it could not be read.
unfoldable pub change_warnings : String → String → List FcvWarning
change_warnings old version =
    if old == "" || old == version then [] else elim (compare_fcv version old) [
      | err e ↦ []
      | ok less ↦ changing old version ∷ downgrading old version ∷ []
      | ok same ↦ changing old version ∷ []
      | ok more ↦ changing old version ∷ []
    ]

abbrev pub text_or_empty : Result GoError String → String
text_or_empty (err e) = ""
text_or_empty (ok v) = v

module _ {S : Type 0} (server : FcvServer S) where
  -- resourceFCVRead, with the warnings so far.
  unfoldable pub read_fcv : List FcvWarning → FcvData → S → Outcome × S
  read_fcv warnings d s =
      let (reply, s1) = server.show_fcv s in
      elim (get_fcv reply) [
        | err e ↦ (record { warnings = warnings; failure = some (not_read e); data_after = d }, s1)
        | ok v ↦ (
          record { warnings = warnings; failure = none; data_after = record d { version = v } },
          s1,
        )
      ]

  -- The part of Create for a resource that exists.
  unfoldable pub warn_of_change : FcvData → S → List FcvWarning × S
  warn_of_change d s =
      let (reply, s1) = server.show_fcv s in
      if d.id == ""
      then ([], s)
      else (change_warnings (text_or_empty (get_fcv reply)) d.version, s1)

  -- resourceFCVCreate, which is resourceFCVUpdate too.
  unfoldable pub create_fcv : FcvData → S → Outcome × S
  create_fcv d s =
      let (warnings, s1) = warn_of_change d s in
      let (refused, s2) = server.set_fcv d.version s1 in
      elim refused [
        | some e ↦
            (record { warnings = []; failure = some (not_set d.version e); data_after = d }, s2)
        | none ↦ read_fcv warnings (record d { id = "fcv" }) s2
      ]

-- resourceFCVDelete
unfoldable pub delete_fcv : FcvData → FcvData
delete_fcv d = record d { id = "" }
