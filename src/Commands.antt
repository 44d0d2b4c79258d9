-- ===== src/Commands.antt =====
-- The admin commands of mongodb/replica_set_types.go and of InitiateReplicaSet (mongodb/shard_init.go):
-- what each makes of a command's reply. Running a command is a parameter that passes a state on.
pub mod Classified
use terraform_provider_mongo.Prelude.{
  ℕ, String, Bool, true, false, not, Option, none, some, List, [], ◌∷◌, ℤ, pos, int_beq, Result, ok,
  err, if◌then◌else◌, ◌≡◌, ◌⊎◌, refl, ap, inl, inr,
}
use terraform_provider_mongo.Errors.{GoError}
use terraform_provider_mongo.ReplSet.{RsConfig, ReplSetStatus, IsMasterResp}

-- `a + b`
unfoldable pub append_text : String → String → String
append_text String.[] b = b
append_text (String.◌∷◌ c a) b = String.◌∷◌ c (append_text a b)

-- What a command gives: its error, a reply that does not decode, or a reply.
pub data Reply (A : Type 0) : Type 0 where
  command_error undecodable : GoError → Reply A
  replied : A → Reply A

pub Reply-cases :
    {A : Type 0} (r : Reply A)
    → ((e : GoError) × (r ≡ command_error e))
      ⊎ ((e : GoError) × (r ≡ undecodable e))
      ⊎ ((a : A) × (r ≡ replied a))
Reply-cases (command_error e) = inl (e, refl)
Reply-cases (undecodable e) = inr (inl (e, refl))
Reply-cases (replied a) = inr (inr (a, refl))

-- OKResponse
pub record OkResponse : Type 0 where
  pub errmsg : String
  pub ok : ℤ

abbrev pub ok_reply : OkResponse
ok_reply = record { errmsg = ""; ok = pos 1 }

-- ReplSetGetConfig
pub record ReplSetGetConfig : Type 0 where
  pub config : Option RsConfig
  pub response : OkResponse

-- `errors.Wrap(err, text)`: the chain is kept, the text is put before.
abbrev pub wrap : String → GoError → GoError
wrap text e = record e { message = append_text (append_text text ": ") e.message }

-- An error that has no other in its chain.
abbrev pub plain_error : String → GoError
plain_error text = record { command = none; message = text; is_timeout = false; is_network = false }

abbrev mongo_says : OkResponse → GoError
mongo_says r = plain_error (append_text "mongo says: " r.errmsg)

-- SetReplSetConfigWithMaxTime, from the reply to replSetReconfig.
unfoldable pub set_repl_set_config_with_max_time : Reply OkResponse → Option GoError
set_repl_set_config_with_max_time (command_error e) = some (wrap "replSetReconfig" e)
set_repl_set_config_with_max_time (undecodable e) =
    some (wrap "failed to decode to replSetReconfigResponse" e)
set_repl_set_config_with_max_time (replied r) =
    if int_beq r.ok (pos 1) then none else some (mongo_says r)

-- GetReplSetStatus
unfoldable pub get_repl_set_status :
    Reply (ReplSetStatus × OkResponse) → Result GoError ReplSetStatus
get_repl_set_status (command_error e) = err (wrap "replSetGetStatus" e)
get_repl_set_status (undecodable e) = err (wrap "failed to decode replSetGetStatus" e)
get_repl_set_status (replied (status, r)) =
    if int_beq r.ok (pos 1) then ok status else err (mongo_says r)

-- GetIsMaster
unfoldable pub get_is_master : Reply IsMasterResp → Result GoError IsMasterResp
get_is_master (command_error e) = err (wrap "isMaster" e)
get_is_master (undecodable e) = err (wrap "failed to decode isMaster" e)
get_is_master (replied r) =
    if int_beq r.ok (pos 1)
    then ok r
    else err (mongo_says (record { errmsg = r.errmsg; ok = r.ok }))

-- GetReplSetConfig: a reply without a configuration is an error, whatever its `ok`.
unfoldable pub get_repl_set_config : Reply ReplSetGetConfig → Result GoError RsConfig
get_repl_set_config (command_error e) = err (wrap "replSetGetConfig" e)
get_repl_set_config (undecodable e) = err (wrap "failed to decode to replSetGetConfig" e)
get_repl_set_config (replied r) = elim r.config [
  | some config ↦ ok config
  | none ↦ err (mongo_says r.response)
]

-- InitiateReplicaSet, from the reply to replSetInitiate.
unfoldable pub initiate_replica_set : Reply OkResponse → Option GoError
initiate_replica_set (command_error e) = some (wrap "replSetInitiate" e)
initiate_replica_set (undecodable e) = some (wrap "replSetInitiate decode" e)
initiate_replica_set (replied r) =
    if int_beq r.ok (pos 1)
    then none
    else some (plain_error (append_text "replSetInitiate failed: " r.errmsg))
