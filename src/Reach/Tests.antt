-- ===== src/Reach/Tests.antt =====
-- Hosts that refuse connections until the third tick (mongodb/shard_ready.go).
use terraform_provider_mongo.Prelude.{
  ℕ, suc, ltb, true, false, none, some, List, [], ◌∷◌, refl, pos, All, if◌then◌else◌,
}
use terraform_provider_mongo.Errors.{GoError, is_connection_error, is_auth_error, text_contains}
use terraform_provider_mongo.Members.{MemberOverride}
use terraform_provider_mongo.Reconcile.Tests.{block}
use terraform_provider_mongo.Reach.{
  ReachEnv, reach_rounds, wait_until_reachable, wait_for_add_targets, Answered,
  wait_for_add_targets_lem,
}

abbrev refused : GoError
refused = record { command = none; message = ""; is_timeout = true; is_network = false }

abbrev test_hosts : ReachEnv ℕ
test_hosts = record {
  attempt = λ host s. if ltb s 3 then (some refused, s) else (none, s);
  context = λ s. none;
  pause = λ s. (none, suc s);
}

abbrev two_new : List MemberOverride
two_new = block "b:27017" (pos 1) ∷ block "c:27017" (pos 0) ∷ []

wait_for_add_targets_lem_example : All (λ o. Answered test_hosts o.host) two_new
unfolding wait_for_add_targets wait_until_reachable reach_rounds is_connection_error is_auth_error
    text_contains
wait_for_add_targets_lem_example = wait_for_add_targets_lem test_hosts 5 two_new 0 refl
