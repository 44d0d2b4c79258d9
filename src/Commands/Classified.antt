-- ===== src/Commands/Classified.antt =====
-- The errors of the admin commands keep the class that the command's own error has.
use terraform_provider_mongo.Prelude.{
  String, true, some, ◌≡◌, refl, arith, err, Option-cases, inl, inr,
}
use terraform_provider_mongo.Errors.{
  GoError, text_contains, is_retryable, is_version_conflict, is_not_write_ready,
  is_current_config_not_committed, is_auth_error, is_not_yet_initialized, is_already_initialized,
  is_read_preference_error,
}
use terraform_provider_mongo.Commands.{
  append_text, wrap, command_error, set_repl_set_config_with_max_time, get_repl_set_status,
  get_is_master, get_repl_set_config, initiate_replica_set,
}

-- The answers that an error's code or chain gives are the same, and what its text shows is still shown.
abbrev pub KeepsClass : GoError → GoError → Type 0
KeepsClass e e' =
    (is_retryable e' ≡ is_retryable e)
    × (is_version_conflict e' ≡ is_version_conflict e)
    × (is_not_yet_initialized e' ≡ is_not_yet_initialized e)
    × (is_already_initialized e' ≡ is_already_initialized e)
    × (is_auth_error e ≡ true → is_auth_error e' ≡ true)
    × (is_read_preference_error e ≡ true → is_read_preference_error e' ≡ true)

text_contains-append :
    (a b t : String) → text_contains b t ≡ true → text_contains (append_text a b) t ≡ true
unfolding text_contains append_text
text_contains-append String.[] b t h = h
text_contains-append (String.◌∷◌ c a) b t h = ground (arith, text_contains-append a b t h)

wrap-KeepsClass : (text : String) (e : GoError) → KeepsClass e (wrap text e)
unfolding is_retryable is_version_conflict is_not_write_ready is_current_config_not_committed
    is_not_yet_initialized is_already_initialized is_auth_error is_read_preference_error
wrap-KeepsClass text e =
    let before = append_text text ": " in
    let shown = text_contains-append before e.message in
    elim (Option-cases e.command) [
      | inr (c, p) ↦ (refl, refl, refl, refl, ground (arith, p), ground (arith, p))
      | inl p ↦ (
        refl,
        refl,
        refl,
        refl,
        ground (arith, p, shown "AuthenticationFailed", shown "auth error"),
        ground (arith, p, shown "FailedToSatisfyReadPreference"),
      )
    ]

-- Whatever text it gets, a command's error comes out of each of the five commands as an error of its
-- class: the answers by its code are the same, and a refused login or an unmet read preference is
-- still recognized.
pub command_errors_classified :
    (e : GoError)
    → ((e' : GoError) × (set_repl_set_config_with_max_time (command_error e) ≡ some e')
        × KeepsClass e e')
      × ((e' : GoError) × (get_repl_set_status (command_error e) ≡ err e') × KeepsClass e e')
      × ((e' : GoError) × (get_is_master (command_error e) ≡ err e') × KeepsClass e e')
      × ((e' : GoError) × (get_repl_set_config (command_error e) ≡ err e') × KeepsClass e e')
      × ((e' : GoError) × (initiate_replica_set (command_error e) ≡ some e') × KeepsClass e e')
unfolding set_repl_set_config_with_max_time get_repl_set_status get_is_master get_repl_set_config
    initiate_replica_set
command_errors_classified e = (
  (wrap "replSetReconfig" e, refl, wrap-KeepsClass "replSetReconfig" e),
  (wrap "replSetGetStatus" e, refl, wrap-KeepsClass "replSetGetStatus" e),
  (wrap "isMaster" e, refl, wrap-KeepsClass "isMaster" e),
  (wrap "replSetGetConfig" e, refl, wrap-KeepsClass "replSetGetConfig" e),
  (wrap "replSetInitiate" e, refl, wrap-KeepsClass "replSetInitiate" e),
)
