-- ===== src/Reconcile/Client.antt =====
-- memberAddOpsForClient (mongodb/shard_members.go): the operations that the member phase uses, from the
-- admin commands of the client and the loops that retry and wait. Running a command, the clock, the
-- pause of a poll, the poll interval and the text of a duration are parameters. A loop has as much fuel
-- as its timeout needs, and `stuck` is the error of one that has not ended with it.
pub mod Refines
pub mod Tests
use terraform_provider_mongo.Prelude.{ℕ, suc, ◌+◌, String, Option, none, some, Result}
use terraform_provider_mongo.Errors.{GoError}
use terraform_provider_mongo.ReplSet.{RsConfig, ReplSetStatus}
use terraform_provider_mongo.Commands.{
  Reply, OkResponse, ReplSetGetConfig, wrap, plain_error, append_text,
  set_repl_set_config_with_max_time, get_repl_set_status, get_repl_set_config,
}
use terraform_provider_mongo.Retry.{
  RetryEnv, RetryError, RetryEnd, rejected, not_resolved, not_reread, cancelled, installed, failed,
  set_repl_set_config_with_retry,
}
use terraform_provider_mongo.Wait.{
  WaitTarget, WaitResult, WaitEnv, WaitEnd, ended, no_result, wait_for_member_state,
}
use terraform_provider_mongo.Reconcile.{Context, MemberAddOps, apply}

pub record ReplicaSetServer (S : Type 0) : Type 0 where
  pub reconfig : Context → RsConfig → ℕ → S → Reply OkResponse × S
  pub show_config : Context → S → Reply ReplSetGetConfig × S
  pub show_status : Context → S → Reply (ReplSetStatus × OkResponse) × S
  pub now : S → ℕ
  pub pause : Context → S → Option GoError × S
  pub poll_interval : ℕ
  pub duration_text : ℕ → String

abbrev pub stuck : GoError
stuck = plain_error "out of fuel"

module _ {S : Type 0} (server : ReplicaSetServer S) where
  abbrev pub read_config : Context → S → Result GoError RsConfig × S
  read_config ctx s = let (reply, s1) = server.show_config ctx s in (get_repl_set_config reply, s1)

  -- What SetReplSetConfigWithRetry uses of the client.
  unfoldable pub retry_env : Context → RetryEnv S
  retry_env ctx = record {
    set_config = λ cfg t s.
        (let (reply, s1) = server.reconfig ctx cfg t s in
          (set_repl_set_config_with_max_time reply, s1));
    get_config = read_config ctx;
    now = server.now;
    pause = server.pause ctx;
  }

  -- What WaitForMemberState uses of the client.
  unfoldable pub wait_env : WaitEnv S
  wait_env = record {
    get_status =
        λ s. (let (reply, s1) = server.show_status apply s in (get_repl_set_status reply, s1));
    now = server.now;
    pause = server.pause apply;
  }

  -- The errors of SetReplSetConfigWithRetry.
  unfoldable pub retry_error : ℕ → RetryError → GoError
  retry_error timeout (rejected e) = e
  retry_error timeout (not_resolved e) =
      wrap
        (append_text "replSetReconfig: transient error not resolved within "
          (server.duration_text timeout))
        e
  retry_error timeout (not_reread e) =
      wrap "replSetReconfig version conflict and failed to re-read config" e
  retry_error timeout (cancelled e) = e

  retry_answer : ℕ → RetryEnd → Option GoError
  retry_answer timeout installed = none
  retry_answer timeout (failed e) = some (retry_error timeout e)
  retry_answer timeout RetryEnd.out_of_fuel = some stuck

  wait_answer : WaitEnd → WaitResult × Option GoError
  wait_answer (ended res cut) = (res, cut)
  wait_answer WaitEnd.out_of_fuel = (no_result, some stuck)

  abbrev pub retried : ℕ → Context → RsConfig → S → RetryEnd × S
  retried timeout ctx cfg =
      set_repl_set_config_with_retry (retry_env ctx) server.poll_interval (suc (suc timeout)) cfg
        timeout

  abbrev pub waited : ℕ → String → WaitTarget → S → WaitEnd × S
  waited timeout host target =
      wait_for_member_state wait_env (suc (suc timeout)) host target timeout

  -- memberAddOpsForClient
  unfoldable pub member_add_ops_for_client : ℕ → MemberAddOps S
  unfolding retry_answer wait_answer
  member_add_ops_for_client timeout = record {
    get_config = read_config;
    set_config =
        λ ctx cfg s. (let (end, s1) = retried timeout ctx cfg s in (retry_answer timeout end, s1));
    wait = λ host target s. (let (end, s1) = waited timeout host target s in (wait_answer end, s1));
    timeout = timeout;
  }
