-- ===== src/Errors.antt =====
-- mongodb/shard_init.go and mongodb/shard_ready.go: how the provider tells the errors of the MongoDB
-- driver apart. A Go error is what those tests can see of it: the `mongo.CommandError` that
-- `errors.As` finds in its chain, its text, and the answers of the driver's `IsTimeout` and
-- `IsNetworkError`.
pub mod Classes
use Prim.Native.String.{[], ◌∷◌}
use text.Mathlib.Text.{starts_with}
use terraform_provider_mongo.Prelude.{
  String, Bool, true, false, Option, none, some, List, ◌==◌, ◌||◌, ◌&&◌, not, ℤ, pos, int_beq,
  contains, if◌then◌else◌,
}

pub record CommandError : Type 0 where
  pub code : ℤ
  pub labels : List String

pub record GoError : Type 0 where
  pub command : Option CommandError
  pub message : String
  pub is_timeout : Bool
  pub is_network : Bool

abbrev pub mongo_err_unauthorized : ℤ
mongo_err_unauthorized = pos 13

abbrev pub mongo_err_authentication_failed : ℤ
mongo_err_authentication_failed = pos 18

abbrev pub mongo_err_already_initialized : ℤ
mongo_err_already_initialized = pos 23

abbrev pub mongo_err_not_yet_initialized : ℤ
mongo_err_not_yet_initialized = pos 94

abbrev pub mongo_err_version_conflict : ℤ
mongo_err_version_conflict = pos 103

abbrev pub mongo_err_failed_read_preference : ℤ
mongo_err_failed_read_preference = pos 133

abbrev pub mongo_err_current_config_not_committed : ℤ
mongo_err_current_config_not_committed = pos 308

abbrev pub mongo_err_not_write_ready : ℤ
mongo_err_not_write_ready = pos 17405

-- strings.Contains
unfoldable pub text_contains : String → String → Bool
text_contains [] t = t == ""
text_contains (c ∷ s) t = starts_with (c ∷ s) t || text_contains s t

-- `errors.As(err, &cmdErr)` and the test of its code, which the predicates share.
abbrev code_is : ℤ → GoError → Bool
code_is code e = elim e.command [ none ↦ false | some c ↦ int_beq c.code code ]

unfoldable pub is_not_yet_initialized : GoError → Bool
is_not_yet_initialized = code_is mongo_err_not_yet_initialized

unfoldable pub is_already_initialized : GoError → Bool
is_already_initialized = code_is mongo_err_already_initialized

unfoldable pub is_not_write_ready : GoError → Bool
is_not_write_ready = code_is mongo_err_not_write_ready

unfoldable pub is_version_conflict : GoError → Bool
is_version_conflict = code_is mongo_err_version_conflict

unfoldable pub is_current_config_not_committed : GoError → Bool
is_current_config_not_committed = code_is mongo_err_current_config_not_committed

-- A nil error is not an argument here: the callers test for it first.
unfoldable pub is_auth_error : GoError → Bool
is_auth_error e = elim e.command [
  | some c ↦ int_beq c.code mongo_err_unauthorized || int_beq c.code mongo_err_authentication_failed
  | none ↦ text_contains e.message "AuthenticationFailed" || text_contains e.message "auth error"
]

unfoldable pub is_read_preference_error : GoError → Bool
is_read_preference_error e = elim e.command [
  | some c ↦ int_beq c.code mongo_err_failed_read_preference
  | none ↦ text_contains e.message "FailedToSatisfyReadPreference"
]

unfoldable pub is_connection_error : GoError → Bool
is_connection_error e = if is_auth_error e then false else elim e.command [
  | some c ↦ contains c.labels "NetworkError"
  | none ↦ e.is_timeout || e.is_network
]

-- The errors after which SetReplSetConfigWithRetry tries again.
unfoldable pub is_retryable : GoError → Bool
unfolding is_not_write_ready is_version_conflict is_current_config_not_committed
is_retryable e = is_not_write_ready e || is_version_conflict e || is_current_config_not_committed e

-- authRequirement
pub data AuthRequirement : Type 0 where
  required not_enforced unknown : AuthRequirement

-- classifyAuthProbe: `none` is a probe that the host answered.
unfoldable pub classify_auth_probe : Option GoError → AuthRequirement
classify_auth_probe none = not_enforced
classify_auth_probe (some e) =
    if is_auth_error e then required else elim e.command [ some c ↦ not_enforced | none ↦ unknown ]
