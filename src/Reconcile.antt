-- ===== src/Reconcile.antt =====
-- mongodb/shard_members.go: the reconfigs that promote and add members, one member at a time.
-- The server calls of memberAddOps are parameters that pass a state on; of the context they are given
-- it matters whether it is the apply's or the one that outlives a cancelled apply. An error that the
-- source formats as text is a value of `MemberError`, with the operands of the text.
pub mod Loops
pub mod Server
pub mod Client
pub mod Steps
pub mod Safety
pub mod Evolution
pub mod Voters
pub mod Settled
pub mod Tests
use terraform_provider_mongo.Prelude.{
  ℕ, ◌+◌, String, Bool, true, false, not, Option, none, some, List, [], ◌∷◌, ◌++◌, ◌==◌, ◌&&◌, ℤ,
  inc, int_beq, Float64, float_beq, nat_beq, length, keep, Result, ok, err, if◌then◌else◌,
}
use terraform_provider_mongo.Errors.{GoError}
use terraform_provider_mongo.ReplSet.{ConfigMember, ConfigMembers, RsConfig, deref_int}
use terraform_provider_mongo.Members.{
  MemberOverride, next_member_id, staged_member, needs_promotion,
}
use terraform_provider_mongo.Wait.{WaitTarget, WaitResult, Seen, wait_target_for}

-- The apply's context, and the one that outlives it for `rollbackGrace`.
pub data Context : Type 0 where
  apply rollback : Context

-- memberAddOps
pub record MemberAddOps (S : Type 0) : Type 0 where
  pub get_config : Context → S → Result GoError RsConfig × S
  pub set_config : Context → RsConfig → S → Option GoError × S
  pub wait : String → WaitTarget → S → (WaitResult × Option GoError) × S
  pub timeout : ℕ

-- memberPending
pub record MemberPending : Type 0 where
  pub host : String
  pub target : WaitTarget
  pub last : Seen
  pub votes : ℤ
  pub priority : Float64
  pub timeout : ℕ

pub data MemberError : Type 0 where
  reading_before_add : String → GoError → MemberError
  adding : String → ℤ → GoError → MemberError
  adding_unchecked : String → ℤ → GoError → GoError → MemberError
  adding_removed : String → ℤ → GoError → MemberError
  waiting : String → WaitTarget → GoError → MemberError
  waiting_removed : String → WaitTarget → GoError → MemberError
  waiting_not_removed : String → WaitTarget → GoError → GoError → MemberError
  status_unread_after_add : String → Seen → MemberError
  status_unread : String → Seen → MemberError
  unreachable_removed : String → Seen → MemberError
  unreachable_not_removed : String → Seen → GoError → MemberError
  unreachable : String → Seen → MemberError
  not_in_state : String → WaitTarget → Seen → MemberError
  reading_before_promotion : String → GoError → MemberError
  gone : String → MemberError
  promoting : String → ℤ → Float64 → GoError → MemberError

-- The members whose host is another.
abbrev pub without_host : String → ConfigMembers → ConfigMembers
without_host host = keep (λ m. not (m.host == host))

-- The first member of a host, `cfg.Members[idx]` in promoteMember.
unfoldable pub first_member : String → ConfigMembers → Option ConfigMember
first_member host [] = none
first_member host (m ∷ ms) = if m.host == host then some m else first_member host ms

abbrev pub promoted : MemberOverride → ConfigMember → ConfigMember
promoted o m = record m { priority = o.priority; votes = some o.votes }

-- The assignments of promoteMember to that member.
unfoldable pub promote_first : MemberOverride → ConfigMembers → ConfigMembers
promote_first o [] = []
promote_first o (m ∷ ms) =
    let rest = promote_first o ms in if m.host == o.host then promoted o m ∷ ms else m ∷ rest

-- A configuration with other members and the next version.
abbrev pub with_members : RsConfig → ConfigMembers → RsConfig
with_members cfg members = record cfg { members = members; version = inc cfg.version }

-- `neverSeenUp` in settleMember.
abbrev pub never_seen_up : WaitResult → Bool
never_seen_up res = res.observed && not res.ever_reachable

module _ {S : Type 0} (ops : MemberAddOps S) where
  -- removeMemberByHost
  unfoldable pub remove_member_by_host : Context → String → S → Result GoError Bool × S
  remove_member_by_host ctx host s =
      let (r, s1) = ops.get_config ctx s in
      elim r [
        | err e ↦ (err e, s1)
        | ok cfg ↦
            let kept = without_host host cfg.members in
            if nat_beq (length kept) (length cfg.members)
            then (ok false, s1)
            else let (failed, s2) = ops.set_config ctx (with_members cfg kept) s1 in
              (elim failed [ some e ↦ err e | none ↦ ok true ], s2)
      ]

  -- promoteMember
  unfoldable pub promote_member : MemberOverride → S → Option MemberError × S
  promote_member o s =
      let (r, s1) = ops.get_config apply s in
      elim r [
        | err e ↦ (some (reading_before_promotion o.host e), s1)
        | ok cfg ↦ elim (first_member o.host cfg.members) [
          | none ↦ (some (gone o.host), s1)
          | some m ↦
              if float_beq m.priority o.priority && int_beq (deref_int m.votes) o.votes
              then (none, s1)
              else let (failed, s2) =
                  ops.set_config apply (with_members cfg (promote_first o cfg.members)) s1 in
                (
                  elim failed [
                    | some e ↦ some (promoting o.host o.votes o.priority e)
                    | none ↦ none
                  ],
                  s2,
                )
        ]
      ]

  -- What settleMember returns: the error, or the member that is left pending, if any.
  abbrev pub Settling : Type 0
  Settling = Result MemberError (Option MemberPending) × S

  -- settleMember where the wait was cut short.
  unfoldable pub settle_cancelled : MemberOverride → Bool → WaitResult → GoError → S → Settling
  settle_cancelled o added_now res e s =
      let target = wait_target_for o in
      if added_now && never_seen_up res
      then (let (removed, s1) = remove_member_by_host rollback o.host s in
          (
            err (elim removed [
              | err rb ↦ waiting_not_removed o.host target e rb
              | ok _ ↦ waiting_removed o.host target e
            ]),
            s1,
          ))
      else (err (waiting o.host target e), s)

  -- The `switch` of settleMember, where the wait ended without the target.
  unfoldable pub settle_unmet : MemberOverride → Bool → WaitResult → S → Settling
  settle_unmet o added_now res s =
      if not res.observed
      then (
        err (
            if added_now
            then status_unread_after_add o.host res.last
            else status_unread o.host res.last),
        s,
      )
      else if never_seen_up res
      then (if added_now
          then (let (removed, s1) = remove_member_by_host apply o.host s in
              (
                err (elim removed [
                  | err rb ↦ unreachable_not_removed o.host res.last rb
                  | ok _ ↦ unreachable_removed o.host res.last
                ]),
                s1,
              ))
          else (err (unreachable o.host res.last), s))
      else if needs_promotion o
      then (
        ok (
            some (record {
              host = o.host;
              target = wait_target_for o;
              last = res.last;
              votes = o.votes;
              priority = o.priority;
              timeout = ops.timeout;
            })),
        s,
      )
      else (err (not_in_state o.host (wait_target_for o) res.last), s)

  -- The end of settleMember, where the target was met.
  unfoldable pub settle_met : MemberOverride → S → Settling
  settle_met o s =
      if needs_promotion o
      then (let (failed, s1) = promote_member o s in
          (elim failed [ some e ↦ err e | none ↦ ok none ], s1))
      else (ok none, s)

  unfoldable pub settle_member : MemberOverride → Bool → S → Settling
  settle_member o added_now s =
      let ((res, cancelled), s1) = ops.wait o.host (wait_target_for o) s in
      elim cancelled [
        | some e ↦ settle_cancelled o added_now res e s1
        | none ↦ if res.met then settle_met o s1 else settle_unmet o added_now res s1
      ]
