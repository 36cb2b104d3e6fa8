-- ===== src/Drift/Reasons.antt =====
-- When `IsDrifted` reports no drift.
use karpenter_provider_aliba.Prelude.{
  Bool, List, Option, String, [], ap, arith, if◌then◌else◌, map, member, none, not, refl, some,
  str_eq, str_eq_iff, sym, true, ◌||◌, ◌↔◌, ◌∙◌, ◌∷◌, ◌≡◌,
}
use karpenter_provider_aliba.Drift.{
  DriftReason, drift_reason, image_drift, is_image_allowed, is_security_group_allowed,
  is_vswitch_allowed, node_class_drift, security_group_drift, vswitch_drift,
}
use karpenter_provider_aliba.Instance.Api.{Instance}
use karpenter_provider_aliba.NodeClass.{EcsNodeClassStatus, Image, VSwitch}
use karpenter_provider_aliba.NodeClass.Labels.{annotation_ecs_node_class_hash}
use karpenter_provider_aliba.Utils.SecurityGroups.Equality.{equal_ids_iff}
use karpenter_provider_aliba.Utils.Tags.{Tags, tag_value}

is_image_allowed-member :
    (id : String) (images : List Image)
    → is_image_allowed id images ≡ member id (map (λ i. i.id) images)
unfolding is_image_allowed member
is_image_allowed-member id [] = refl
is_image_allowed-member id (i ∷ images) =
    ap (λ b. str_eq i.id id || b) (is_image_allowed-member id images)

is_vswitch_allowed-member :
    (id : String) (vswitches : List VSwitch)
    → is_vswitch_allowed id vswitches ≡ member id (map (λ v. v.id) vswitches)
unfolding is_vswitch_allowed member
is_vswitch_allowed-member id [] = refl
is_vswitch_allowed-member id (v ∷ vswitches) =
    ap (λ b. str_eq v.id id || b) (is_vswitch_allowed-member id vswitches)

-- The chain of the four checks.
abbrev first_reason : Bool → Bool → Bool → Bool → Option DriftReason
first_reason hash image vswitch groups =
    if not hash
    then some node_class_drift
    else if not image
    then some image_drift
    else if not vswitch
    then some vswitch_drift
    else if not groups
    then some security_group_drift
    else none

first_reason-none :
    (a b c d : Bool)
    → first_reason a b c d ≡ none
    → (a ≡ true) × (b ≡ true) × (c ≡ true) × (d ≡ true)
first_reason-none a b c d h = ground arith

-- An instance that fits its node class.
pub record Fits (current_hash : String) (status : EcsNodeClassStatus) (annotations : Tags)
    (inst : Instance) : Type 0 where
  pub same_hash : current_hash ≡ tag_value annotation_ecs_node_class_hash annotations
  pub image_listed : member inst.image_id (map (λ i. i.id) status.images) ≡ true
  pub vswitch_listed : member inst.vswitch_id (map (λ v. v.id) status.vswitches) ≡ true
  pub same_groups :
      (id : String)
      → member id inst.security_group_ids ≡ member id (map (λ g. g.id) status.security_groups)

-- IsDrifted gives no reason exactly when the NodeClaim carries the hash of its node class, the status of
-- the node class lists the image and the vSwitch of the instance, and the instance has the same security
-- groups as the status, in whatever order and number.
pub drift_reason-Fits :
    (current_hash : String) (status : EcsNodeClassStatus) (annotations : Tags) (inst : Instance)
    → (drift_reason current_hash status annotations inst ≡ none)
      ↔ Fits current_hash status annotations inst
unfolding drift_reason is_security_group_allowed
drift_reason-Fits current_hash status annotations inst = (
  λ h.
      let (a, b, c, d) = first_reason-none _ _ _ _ h in
      record {
        same_hash = (str_eq_iff _ _).0 a;
        image_listed = sym (is_image_allowed-member inst.image_id status.images) ∙ b;
        vswitch_listed = sym (is_vswitch_allowed-member inst.vswitch_id status.vswitches) ∙ c;
        same_groups =
            (equal_ids_iff inst.security_group_ids (map (λ g. g.id) status.security_groups)).0 d;
      },
  λ fits.
      rw
        (
          (str_eq_iff _ _).1 fits.same_hash,
          is_image_allowed-member inst.image_id status.images ∙ fits.image_listed,
          is_vswitch_allowed-member inst.vswitch_id status.vswitches ∙ fits.vswitch_listed,
          (equal_ids_iff inst.security_group_ids (map (λ g. g.id) status.security_groups)).1
              fits.same_groups,
        )
        refl,
)
