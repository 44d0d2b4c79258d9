-- ===== src/Ready.antt =====
-- The waits of mongodb/shard_ready.go and WaitForPrimary of mongodb/shard_init.go. What they call, the
-- clock and the pause, which ends with the context's error if the context ends first, are parameters;
-- each loop has a round for each unit of fuel, and `out_of_fuel` stands for one that has not ended yet.
pub mod Laws
pub mod Total
use terraform_provider_mongo.Prelude.{
  ℕ, zero, suc, ◌+◌, String, Bool, true, false, not, Option, none, some, ltb, int_beq, ◌≡◌, ◌⊎◌,
  inl, inr, refl, Result, ok, err, if◌then◌else◌,
}
use terraform_provider_mongo.Errors.{
  GoError, is_auth_error, is_connection_error, AuthRequirement, required, not_enforced, unknown,
  classify_auth_probe,
}
use terraform_provider_mongo.ReplSet.{ReplSetStatus}
use terraform_provider_mongo.ReplSet.MemberState

-- `Msg` and `Detail` of notReadyError in WaitForShardClient.
pub data NotReadyMsg : Type 0 where
  no_connections refused_credentials : NotReadyMsg

pub data NotReadyDetail : Type 0 where
  no_detail auth_enforced no_probe_answer : NotReadyDetail

-- notReadyError, without the time that passed and the cause.
pub record NotReady : Type 0 where
  pub msg : NotReadyMsg
  pub detail : NotReadyDetail
  pub last : Option GoError

abbrev pub not_ready_yet : NotReady
not_ready_yet = record { msg = no_connections; detail = no_detail; last = none }

-- What the waits use of their surroundings. A client of the type `C` is what `connect` opens; `context`
-- is `ctx.Err()`, and `probe` the replSetGetStatus without credentials.
pub record ReadyEnv (S C : Type 0) : Type 0 where
  pub connect : S → Result GoError C × S
  pub probe : S → Option GoError × S
  pub context : S → Option GoError
  pub get_status : S → Result GoError ReplSetStatus × S
  pub now : S → ℕ
  pub pause : S → Option GoError × S

-- The returns of WaitForShardClient.
pub data ClientEnd (C : Type 0) : Type 0 where
  connected : C → ClientEnd C
  no_auth : ClientEnd C
  refused : GoError → ClientEnd C
  not_ready : NotReady → GoError → ClientEnd C
  out_of_fuel : ClientEnd C

-- How the body of the loop goes on: a return, or the pause.
pub data Next : Type 0 where
  return_no_auth : Next
  return_error : GoError → Next
  again : NotReady → Next

pub Next-cases :
    (x : Next)
    → (x ≡ return_no_auth)
      ⊎ ((e : GoError) × (x ≡ return_error e))
      ⊎ ((n : NotReady) × (x ≡ again n))
Next-cases return_no_auth = inl refl
Next-cases (return_error e) = inr (inl (e, refl))
Next-cases (again n) = inr (inr (n, refl))

-- The switch on the probe after a refused login.
unfoldable pub after_probe : NotReady → GoError → AuthRequirement → Next
after_probe n e not_enforced = return_no_auth
after_probe n e required =
    again (record n { msg = refused_credentials; detail = auth_enforced; last = some e })
after_probe n e unknown =
    again (record n { msg = refused_credentials; detail = no_probe_answer; last = some e })

-- The ends of WaitForPrimary.
pub data PrimaryEnd : Type 0 where
  elected : PrimaryEnd
  not_elected : PrimaryEnd
  cancelled : GoError → PrimaryEnd
  out_of_fuel : PrimaryEnd

module _ {S C : Type 0} (env : ReadyEnv S C) where
  -- What WaitForShardClient makes of a failed connection.
  unfoldable pub after_failure : NotReady → GoError → S → Next × S
  after_failure n e s =
      let (answer, s1) = env.probe s in
      elim (env.context s) [
        | some _ ↦ (again (elim n.last [ none ↦ record n { last = some e } | some _ ↦ n ]), s)
        | none ↦
            if is_auth_error e
            then (after_probe n e (classify_auth_probe answer), s1)
            else if is_connection_error e
            then (again (record { msg = no_connections; detail = no_detail; last = some e }), s)
            else (return_error e, s)
      ]

  unfoldable pub client_rounds : ℕ → NotReady → S → ClientEnd C × S
  client_rounds zero n s = (out_of_fuel, s)
  client_rounds (suc fuel) n s =
      let (r, s1) = env.connect s in
      elim r [
        | ok client ↦ (connected client, s1)
        | err e ↦
            let (next, s2) = after_failure n e s1 in
            elim next [
              | return_no_auth ↦ (no_auth, s2)
              | return_error x ↦ (refused x, s2)
              | again n' ↦
                  let (ended, s3) = env.pause s2 in
                  elim ended [ some c ↦ (not_ready n' c, s3) | none ↦ client_rounds fuel n' s3 ]
            ]
      ]

  -- WaitForShardClient
  unfoldable pub wait_for_shard_client : ℕ → S → ClientEnd C × S
  wait_for_shard_client fuel = client_rounds fuel not_ready_yet

  unfoldable pub primary_rounds : ℕ → ℕ → S → PrimaryEnd × S
  primary_rounds zero deadline s = (out_of_fuel, s)
  primary_rounds (suc fuel) deadline s =
      if ltb deadline (env.now s)
      then (not_elected, s)
      else let (r, s1) = env.get_status s in
        let (ended, s2) = env.pause s1 in
        if (elim r [ err e ↦ false | ok status ↦ int_beq status.my_state MemberState.primary ])
        then (elected, s1)
        else elim ended [ some c ↦ (cancelled c, s2) | none ↦ primary_rounds fuel deadline s2 ]

  -- WaitForPrimary
  unfoldable pub wait_for_primary : ℕ → ℕ → S → PrimaryEnd × S
  wait_for_primary fuel timeout s = primary_rounds fuel (env.now s + timeout) s
