-- ===== src/Reconcile/Evolution/Live.antt =====
-- What the reconfigs of mongodb/shard_members.go make of the members that the set holds.
use terraform_provider_mongo.Prelude.{String, ◌≡◌, ◌⊎◌, inl, inr, arith, Option-cases, Result-cases}
use terraform_provider_mongo.ReplSet.{ConfigMembers, RsConfig}
use terraform_provider_mongo.Members.{MemberOverride}
use terraform_provider_mongo.Reconcile.{
  Context, apply, MemberAddOps, without_host, promote_first, with_members, remove_member_by_host,
  promote_member,
}
use terraform_provider_mongo.Reconcile.Server.{IsReplicaSet}

module _ {S : Type 0} (ops : MemberAddOps S) (live : S → ConfigMembers)
    (set : IsReplicaSet ops live) where
  pub set_either :
      (c : Context) (cfg : RsConfig) (s : S)
      → (live (ops.set_config c cfg s).1 ≡ live s) ⊎ (live (ops.set_config c cfg s).1 ≡ cfg.members)
  set_either c cfg s = elim (Option-cases (ops.set_config c cfg s).0) [
    | inl p ↦ inr (set.set_ok c cfg s p)
    | inr (e, p) ↦ set.set_failed c cfg s e p
  ]

  pub remove_live :
      (c : Context) (h : String) (s : S)
      → (live (remove_member_by_host ops c h s).1 ≡ live s)
        ⊎ (live (remove_member_by_host ops c h s).1 ≡ without_host h (live s))
  unfolding remove_member_by_host
  remove_live c h s =
      let s1 = (ops.get_config c s).1 in
      elim (Result-cases (ops.get_config c s).0) [
        | inl (e, p) ↦ ground (arith, p, set.get_keeps c s)
        | inr (cfg, p) ↦ ground (
          arith,
          p,
          set.get_keeps c s,
          set.get_ok c s cfg p,
          set_either c (with_members cfg (without_host h cfg.members)) s1,
        )
      ]

  pub promote_live :
      (o : MemberOverride) (s : S)
      → (live (promote_member ops o s).1 ≡ live s)
        ⊎ (live (promote_member ops o s).1 ≡ promote_first o (live s))
  unfolding promote_member
  promote_live o s =
      let s1 = (ops.get_config apply s).1 in
      elim (Result-cases (ops.get_config apply s).0) [
        | inl (e, p) ↦ ground (arith, p, set.get_keeps apply s)
        | inr (cfg, p) ↦ ground (
          arith,
          p,
          set.get_keeps apply s,
          set.get_ok apply s cfg p,
          set_either apply (with_members cfg (promote_first o cfg.members)) s1,
        )
      ]
