-- ===== src/ReplSet/Oplog.antt =====
-- The oplog fan-outs of mongodb/replica_set_types.go. The two callbacks, which dial a member, are
-- parameters: `resize` passes the state of the servers on, and the concurrent reads of
-- OplogSizeAcrossMembers are independent, so `read` is a function of the host.
pub mod Keeps
pub mod Order
pub mod Resize
pub mod Size
mod Tests
use terraform_provider_mongo.Prelude.{
  ℕ, ◌+◌, String, Bool, true, false, not, Option, none, some, List, [], ◌∷◌, ◌++◌, ◌&&◌, ◌==◌,
  Float64, float_beq, float_le_zero, zero_float, minus_one_float, nat_beq, length, Result, ok, err,
  if◌then◌else◌,
}
use terraform_provider_mongo.Errors.{GoError}
use terraform_provider_mongo.ReplSet.{ConfigMember, ConfigMembers, deref_bool}

-- The loop of OplogMemberHosts, with its two slices.
oplog_hosts_from : String → ConfigMembers → List String → List String → List String
oplog_hosts_from primary_host [] hosts primary = hosts ++ primary
oplog_hosts_from primary_host (m ∷ ms) hosts primary =
    let skip = oplog_hosts_from primary_host ms hosts primary in
    let last = oplog_hosts_from primary_host ms hosts (primary ++ m.host ∷ []) in
    let next = oplog_hosts_from primary_host ms (hosts ++ m.host ∷ []) primary in
    if deref_bool m.arbiter_only
    then skip
    else if not (primary_host == "") && m.host == primary_host
    then last
    else next

unfoldable pub oplog_member_hosts : ConfigMembers → String → List String
unfolding oplog_hosts_from
oplog_member_hosts members primary_host = oplog_hosts_from primary_host members [] []

pub data OplogError : Type 0 where
  no_data_bearing : OplogError
  resizing : String → GoError → OplogError
  skipped_all : List String → OplogError

module _ {S : Type 0} (resize : String → S → Result GoError Bool × S) where
  -- The loop of ResizeOplogAcrossMembers, with the count of members that were resized; `all` is
  -- every host, for the error.
  resize_from : List String → List String → ℕ → S → Option OplogError × S
  resize_from all [] resized s = (if nat_beq resized 0 then some (skipped_all all) else none, s)
  resize_from all (host ∷ hosts) resized s =
      let (r, s') = resize host s in
      elim r [
        | err e ↦ (some (resizing host e), s')
        | ok done ↦ resize_from all hosts (if done then resized + 1 else resized) s'
      ]

  unfoldable pub resize_oplog_across_members : ConfigMembers → String → S → Option OplogError × S
  unfolding resize_from
  resize_oplog_across_members members primary_host s =
      let hosts = oplog_member_hosts members primary_host in
      if nat_beq (length hosts) 0 then (some no_data_bearing, s) else resize_from hosts hosts 0 s

pub data ReadError : Type 0 where
  unreadable : GoError → ReadError
  non_positive : Float64 → ReadError

pub data SizeError : Type 0 where
  no_data_bearing : SizeError
  reading : String → ReadError → SizeError

abbrev pub oplog_size_mismatch : Float64
oplog_size_mismatch = minus_one_float

-- What the loop of OplogSizeAcrossMembers carries, and the calls of `onSkip` that it made.
pub record Tally : Type 0 where
  pub size : Float64
  pub read_count : ℕ
  pub last_err : Option SizeError
  pub skipped : List (String × ReadError)

abbrev pub start : Tally
start = record { size = zero_float; read_count = 0; last_err = none; skipped = [] }

-- The body of the loop that aggregates what the reads gave.
unfoldable pub tally_host : Tally → String → Result ReadError Float64 → Tally
tally_host t host (err e) = record t {
  last_err = some (reading host e);
  skipped = t.skipped ++ (host, e) ∷ [];
}
tally_host t host (ok s) =
    let n = t.read_count + 1 in
    record t {
      read_count = n;
      size =
          if nat_beq n 1
          then s
          else if not (float_beq s t.size)
          then oplog_size_mismatch
          else t.size;
    }

-- The two returns after the loop; a nil `lastErr` is no error.
unfoldable pub conclude : Tally → Result SizeError Float64
conclude t =
    if nat_beq t.read_count 0
    then elim t.last_err [ some e ↦ err e | none ↦ ok zero_float ]
    else ok t.size

module _ (read : String → Result GoError Float64) where
  -- The body of the goroutine for one host.
  unfoldable pub member_size : String → Result ReadError Float64
  member_size host = elim (read host) [
    | err e ↦ err (unreadable e)
    | ok s ↦ if float_le_zero s then err (non_positive s) else ok s
  ]

  unfoldable pub tally_from : Tally → List String → Tally
  unfolding tally_host
  tally_from t [] = t
  tally_from t (host ∷ hosts) = tally_from (tally_host t host (member_size host)) hosts

  -- The size or the error, and the calls of `onSkip`.
  unfoldable pub oplog_size_across_members :
      ConfigMembers → Result SizeError Float64 × List (String × ReadError)
  oplog_size_across_members members =
      let hosts = oplog_member_hosts members "" in
      if nat_beq (length hosts) 0
      then (err no_data_bearing, [])
      else let t = tally_from start hosts in (conclude t, t.skipped)
