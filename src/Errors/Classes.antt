-- ===== src/Errors/Classes.antt =====
-- The classes of errors exclude one another (mongodb/shard_init.go, mongodb/shard_ready.go).
use terraform_provider_mongo.Prelude.{true, false, ◌≡◌, arith}
use terraform_provider_mongo.Errors.{
  GoError, is_retryable, is_auth_error, is_connection_error, is_not_yet_initialized,
  is_already_initialized,
}

-- No error is in two of the four classes that the provider reacts to in different ways: a
-- transient reconfig error, a refused login, an uninitialized set, an initialized one; and a
-- connection error is never a refused login.
pub error_classes_disjoint :
    (e : GoError)
    → (is_retryable e ≡ true
        → (is_auth_error e ≡ false)
          × (is_not_yet_initialized e ≡ false)
          × (is_already_initialized e ≡ false))
      × (is_auth_error e ≡ true
          → (is_connection_error e ≡ false)
            × (is_not_yet_initialized e ≡ false)
            × (is_already_initialized e ≡ false))
      × (is_not_yet_initialized e ≡ true → is_already_initialized e ≡ false)
unfolding is_retryable is_auth_error is_connection_error is_not_yet_initialized
    is_already_initialized
error_classes_disjoint e = ground arith
