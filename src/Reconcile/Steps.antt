-- ===== src/Reconcile/Steps.antt =====
-- The steps that mongodb/shard_members.go takes the members of a replica set through.
use mathlib.Core.List.{Mem}
use terraform_provider_mongo.Prelude.{
  String, true, false, none, some, List, [], ◌∷◌, ◌++◌, ◌≡◌, ◌⊎◌,
}
use terraform_provider_mongo.Errors.{GoError}
use terraform_provider_mongo.ReplSet.{ConfigMembers, RsConfig}
use terraform_provider_mongo.Members.{
  MemberOverride, next_member_id, staged_member, needs_promotion,
}
use terraform_provider_mongo.Wait.{secondary, wait_target_for}
use terraform_provider_mongo.Reconcile.{
  apply, MemberAddOps, without_host, promote_first, with_members,
}

module _ {S : Type 0} (ops : MemberAddOps S) where
  -- A wait reported the host SECONDARY (or PRIMARY).
  abbrev pub SeenSecondary : String → Type 0
  SeenSecondary host =
      (s : S) × ((ops.wait host secondary s).0.0.met ≡ true)
      × ((ops.wait host secondary s).0.1 ≡ none)

  -- A wait read the status of the host and never found it up.
  abbrev pub SeenDown : MemberOverride → Type 0
  SeenDown o =
      (s : S) × ((ops.wait o.host (wait_target_for o) s).0.0.observed ≡ true)
      × ((ops.wait o.host (wait_target_for o) s).0.0.ever_reachable ≡ false)

  -- The reconfig that adds the member of the block failed.
  abbrev pub AddFailed : MemberOverride → Type 0
  AddFailed o =
      (s : S) × (cfg : RsConfig) × (e : GoError) × ((ops.set_config apply
          (with_members cfg (cfg.members ++ staged_member o (next_member_id cfg.members) ∷ [])) s).0
        ≡ some e)

  -- One reconfig. `add` appends one staged member with the next `_id`; `promote` gives one member,
  -- seen SECONDARY, the votes and priority of its block; `remove` takes out the host of a block that
  -- was to be added, because its reconfig failed or its member was seen down.
  pub data Step (promotions adds : List MemberOverride)
      : ConfigMembers → ConfigMembers → Type 0 where
    add :
        (o : MemberOverride) (ms : ConfigMembers)
        → Mem o adds
        → Step promotions adds ms (ms ++ staged_member o (next_member_id ms) ∷ [])
    promote :
        (o : MemberOverride) (ms : ConfigMembers)
        → Mem o (promotions ++ adds)
        → needs_promotion o ≡ true
        → SeenSecondary o.host
        → Step promotions adds ms (promote_first o ms)
    remove :
        (o : MemberOverride) (ms : ConfigMembers)
        → Mem o adds
        → SeenDown o ⊎ AddFailed o
        → Step promotions adds ms (without_host o.host ms)

  pub data Steps (promotions adds : List MemberOverride) (ms : ConfigMembers)
      : ConfigMembers → Type 0 where
    here : Steps promotions adds ms ms
    next :
        {ms' ms'' : ConfigMembers}
        → Steps promotions adds ms ms'
        → Step promotions adds ms' ms''
        → Steps promotions adds ms ms''
