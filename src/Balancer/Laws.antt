-- ===== src/Balancer/Laws.antt =====
-- What Create and Delete (mongodb/resource_balancer_config.go) leave in the data and on the cluster.
use terraform_provider_mongo.Prelude.{
  String, Bool, true, none, List, [], ◌∷◌, ◌≡◌, ap, ◌∙◌, arith, ok,
}
use terraform_provider_mongo.Prelude.Action.{World, Action}
use terraform_provider_mongo.Balancer.{
  BalancerData, BalancerServer, balancer_id, chunk_size_id, delete_balancer,
}
use terraform_provider_mongo.Balancer.Settings.{
  Setting, window, throttle, wait, size, Stored, KeepsSettings,
}

module _ {S : Type 0} (server : BalancerServer S) (stored : S → Stored) (full : S → Bool)
    (law : KeepsSettings server stored full) where
  -- Delete, where its commands succeed, leaves the balancer on and none of the settings stored, and
  -- removes the resource from the state.
  pub delete_balancer_lem :
      (w : World BalancerData S)
      → (delete_balancer server w).0 ≡ ok tt
      → let after = (delete_balancer server w).1 in
        (after.resource.id ≡ "")
        × (full after.server ≡ true)
        × ((k : Setting) → stored after.server k ≡ none)
  unfolding delete_balancer
  delete_balancer_lem w e =
      let names : List String = "activeWindow" ∷ "_secondaryThrottle" ∷ "_waitForDelete" ∷ [] in
      let s1 = (server.switch true w.server).1 in
      let s2 = (server.unset_fields balancer_id names s1).1 in
      let s3 = (server.delete_document chunk_size_id s2).1 in
      let p1 : (server.switch true w.server).0 ≡ none = ground (arith, e) in
      let p2 : (server.unset_fields balancer_id names s1).0 ≡ none = ground (arith, e, p1) in
      let p3 : (server.delete_document chunk_size_id s2).0 ≡ none = ground (arith, e, p1, p2) in
      let same : (delete_balancer server w).1
          ≡ record { resource = record w.resource { id = "" }; server = s3 } =
        ground (arith, p1, p2, p3) in
      let gone : (k : Setting) → stored s3 k ≡ none = λ k. elim k as (λ k. stored s3 k ≡ none) [
        | window ↦ ground (
          arith,
          law.deletes chunk_size_id s2 window p3,
          law.unsets balancer_id names s1 window p2,
        )
        | throttle ↦ ground (
          arith,
          law.deletes chunk_size_id s2 throttle p3,
          law.unsets balancer_id names s1 throttle p2,
        )
        | wait ↦
            ground
              (arith, law.deletes chunk_size_id s2 wait p3, law.unsets balancer_id names s1 wait p2)
        | size ↦ ground (arith, law.deletes chunk_size_id s2 size p3)
      ] in
      (
        ap (λ x. x.resource.id) same,
        ap (λ x. full x.server) same
            ∙ law.delete_full chunk_size_id s2
            ∙ law.unset_full balancer_id names s1
            ∙ law.switches true w.server p1,
        λ k. ap (λ x. stored x.server k) same ∙ gone k,
      )
