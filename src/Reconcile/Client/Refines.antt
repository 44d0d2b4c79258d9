-- ===== src/Reconcile/Client/Refines.antt =====
-- The operations of memberAddOpsForClient (mongodb/shard_members.go) behave as the member phase relies
-- on, where the admin commands behave as documented, and they end.
use terraform_provider_mongo.Prelude.{
  ℕ, zero, suc, ◌+◌, ◌≤◌, ◌<◌, String, true, none, some, ◌≡◌, ◌≢◌, ◌⊎◌, inl, inr, refl, sym, ◌∙◌,
  ap, subst, arith, pos, int_beq, ok,
}
use terraform_provider_mongo.ReplSet.{ConfigMembers, RsConfig}
use terraform_provider_mongo.Commands.{
  Reply, command_error, undecodable, replied, OkResponse, ReplSetGetConfig,
  set_repl_set_config_with_max_time, get_repl_set_config,
}
use terraform_provider_mongo.Retry.{RetryEnd, installed, failed, with_version}
use terraform_provider_mongo.Retry.Laws.{Explains, retry_explained}
use terraform_provider_mongo.Retry.Total.{retry_total}
use terraform_provider_mongo.Retry.Keeps.{retry-keeps}
use terraform_provider_mongo.Wait
use terraform_provider_mongo.Wait.{
  WaitEnv, WaitTarget, WaitResult, wait_rounds, wait_for_member_state,
}
use terraform_provider_mongo.Wait.Total.{wait_for_member_state_total}
use terraform_provider_mongo.Reconcile.{Context, apply}
use terraform_provider_mongo.Reconcile.Server.{IsReplicaSet}
use terraform_provider_mongo.Reconcile.Client.{
  ReplicaSetServer, retry_env, wait_env, retry_answer, retried, waited, member_add_ops_for_client,
}

-- What the admin commands do to the members that the set holds. replSetGetConfig shows them, and
-- replSetReconfig installs the list it is given when it answers with ok 1, and otherwise that list or
-- nothing. A read and a pause change nothing.
pub record IsReplicaSetServer {S : Type 0} (server : ReplicaSetServer S) (live : S → ConfigMembers)
    : Type 0 where
  pub shown :
      (c : Context) (s : S) (r : ReplSetGetConfig) (cfg : RsConfig)
      → (server.show_config c s).0 ≡ replied r
      → r.config ≡ some cfg
      → cfg.members ≡ live s
  pub show_keeps : (c : Context) (s : S) → live (server.show_config c s).1 ≡ live s
  pub installs :
      (c : Context) (cfg : RsConfig) (t : ℕ) (s : S) (r : OkResponse)
      → (server.reconfig c cfg t s).0 ≡ replied r
      → int_beq r.ok (pos 1) ≡ true
      → live (server.reconfig c cfg t s).1 ≡ cfg.members
  pub either :
      (c : Context) (cfg : RsConfig) (t : ℕ) (s : S)
      → (live (server.reconfig c cfg t s).1 ≡ live s)
        ⊎ (live (server.reconfig c cfg t s).1 ≡ cfg.members)
  pub status_keeps : (c : Context) (s : S) → live (server.show_status c s).1 ≡ live s
  pub pause_keeps : (c : Context) (s : S) → live (server.pause c s).1 ≡ live s

-- The clock does not go back, and a pause that is not cut short takes a tick or more.
pub record HasClock {S : Type 0} (server : ReplicaSetServer S) : Type 0 where
  pub reconfig_forward :
      (c : Context) (cfg : RsConfig) (t : ℕ) (s : S)
      → server.now s ≤ server.now (server.reconfig c cfg t s).1
  pub show_forward : (c : Context) (s : S) → server.now s ≤ server.now (server.show_config c s).1
  pub status_forward : (c : Context) (s : S) → server.now s ≤ server.now (server.show_status c s).1
  pub pause_forward :
      (c : Context) (s : S)
      → (server.pause c s).0 ≡ none
      → server.now s < server.now (server.pause c s).1

-- A wait keeps what its polls and pauses keep.
wait_rounds-keep :
    {S A : Type 0} (env : WaitEnv S) (f : S → A) (status : (s : S) → f (env.get_status s).1 ≡ f s)
    (pause : (s : S) → f (env.pause s).1 ≡ f s) (fuel : ℕ) (host : String) (target : WaitTarget)
    (deadline : ℕ) (res : WaitResult) (s : S)
    → f (wait_rounds env fuel host target deadline res s).1 ≡ f s
unfolding wait_rounds
wait_rounds-keep env f status pause zero host target deadline res s = refl
wait_rounds-keep env f status pause (suc fuel) host target deadline res s =
    let s1 = (env.get_status s).1 in
    let rest = wait_rounds-keep env f status pause fuel host target deadline in
    ground (
      arith,
      status s,
      pause s1,
      rest (Wait.take_status res (env.get_status s).0 host target) (env.pause s1).1,
    )

reconfig_accepted :
    (r : Reply OkResponse)
    → set_repl_set_config_with_max_time r ≡ none
    → (a : OkResponse) × (r ≡ replied a) × (int_beq a.ok (pos 1) ≡ true)
unfolding set_repl_set_config_with_max_time
reconfig_accepted (command_error e) p = absurd (cc)
reconfig_accepted (undecodable e) p = absurd (cc)
reconfig_accepted (replied a) p = (a, refl, ground arith)

config_shown :
    (r : Reply ReplSetGetConfig) (cfg : RsConfig)
    → get_repl_set_config r ≡ ok cfg
    → (a : ReplSetGetConfig) × (r ≡ replied a) × (a.config ≡ some cfg)
unfolding get_repl_set_config
config_shown (command_error e) cfg p = absurd (cc)
config_shown (undecodable e) cfg p = absurd (cc)
config_shown (replied a) cfg p = (a, refl, ground arith)

retry_answer_ok :
    {S : Type 0} (server : ReplicaSetServer S) (timeout : ℕ) (end : RetryEnd)
    → retry_answer server timeout end ≡ none
    → end ≡ installed
unfolding retry_answer
retry_answer_ok server timeout installed e = refl
retry_answer_ok server timeout (failed x) e = absurd (cc)
retry_answer_ok server timeout RetryEnd.out_of_fuel e = absurd (cc)

module _ {S : Type 0} (server : ReplicaSetServer S) (live : S → ConfigMembers)
    (set : IsReplicaSetServer server live) (timeout : ℕ) where
  -- The members of a try, at whatever version, were there or are the ones that are sent.
  Held : RsConfig → S → S → Type 0
  Held cfg s0 s = (live s ≡ live s0) ⊎ (live s ≡ cfg.members)

  retried-Held :
      (c : Context) (cfg : RsConfig) (s : S) → Held cfg s (retried server timeout c cfg s).1
  unfolding Held retry_env
  retried-Held c cfg s =
      retry-keeps (retry_env server c) server.poll_interval cfg (Held cfg s)
        (λ v t s1 h. elim (set.either c (with_version cfg v) t s1) [
          | inl same ↦ elim h [ inl a ↦ inl (same ∙ a) | inr b ↦ inr (same ∙ b) ]
          | inr new ↦ inr new
        ])
        (λ s1 h. elim h [
          | inl a ↦ inl (set.show_keeps c s1 ∙ a)
          | inr b ↦ inr (set.show_keeps c s1 ∙ b)
        ])
        (λ s1 h. elim h [
          | inl a ↦ inl (set.pause_keeps c s1 ∙ a)
          | inr b ↦ inr (set.pause_keeps c s1 ∙ b)
        ])
        (suc (suc timeout)) timeout s (inl refl)

  retried_installed :
      (c : Context) (cfg : RsConfig) (s : S)
      → (retried server timeout c cfg s).0 ≡ installed
      → live (retried server timeout c cfg s).1 ≡ cfg.members
  unfolding retry_env
  retried_installed c cfg s p =
      let r = retried server timeout c cfg s in
      let (s0, v, _, (t, _, sent)) =
        subst
          (λ x.
            Explains (retry_env server c) server.poll_interval cfg s (server.now s + timeout) x r.1)
          p
          (retry_explained (retry_env server c) server.poll_interval (suc (suc timeout)) cfg timeout
            s) in
      let (a, same, one) =
        reconfig_accepted (server.reconfig c (with_version cfg v) t s0).0 (ap (λ x. x.0) sent) in
      ap (λ x. live x.1) (sym sent) ∙ set.installs c (with_version cfg v) t s0 a same one

  -- The operations that memberAddOpsForClient builds from the admin commands, the retries and the wait
  -- are a replica set as the member phase relies on it, whatever versions conflict and whatever is
  -- tried again, where the commands show and install members as documented.
  pub member_add_ops_for_client-IsReplicaSet :
      IsReplicaSet (member_add_ops_for_client server timeout) live
  unfolding member_add_ops_for_client Held wait_env wait_for_member_state
  member_add_ops_for_client-IsReplicaSet = record {
    get_ok = λ c s cfg e.
        let (a, same, one) = config_shown (server.show_config c s).0 cfg e in
        set.shown c s a cfg same one;
    get_keeps = set.show_keeps;
    set_ok = λ c cfg s e.
        retried_installed c cfg s
          (retry_answer_ok server timeout (retried server timeout c cfg s).0 e);
    set_failed = λ c cfg s e p. retried-Held c cfg s;
    wait_keeps = λ h t s.
        wait_rounds-keep (wait_env server) live (set.status_keeps apply) (set.pause_keeps apply)
          (suc (suc timeout)) h t (server.now s + timeout) Wait.no_result s;
  }

module _ {S : Type 0} (server : ReplicaSetServer S) (clock : HasClock server) where
  -- The loops behind the operations of memberAddOpsForClient end with the fuel they have, whatever the
  -- server answers: the clock does not go back, and a pause that is not cut short takes a tick.
  pub member_add_ops_for_client_total :
      (timeout : ℕ) (c : Context) (cfg : RsConfig) (host : String) (target : WaitTarget) (s : S)
      → ((retried server timeout c cfg s).0 ≢ RetryEnd.out_of_fuel)
        × ((waited server timeout host target s).0 ≢ Wait.WaitEnd.out_of_fuel)
  unfolding retry_env wait_env
  member_add_ops_for_client_total timeout c cfg host target s = (
    retry_total (retry_env server c) server.poll_interval
        (record {
          set_forward = clock.reconfig_forward c;
          get_forward = clock.show_forward c;
          pause_forward = clock.pause_forward c;
        })
        cfg timeout s,
    wait_for_member_state_total (wait_env server) host target timeout s (record {
      status_forward = clock.status_forward apply;
      pause_forward = clock.pause_forward apply;
    }),
  )
