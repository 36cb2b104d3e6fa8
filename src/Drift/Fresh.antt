-- ===== src/Drift/Fresh.antt =====
-- An instance does not drift from the node class that it was just launched by.
use mathlib.Core.List.{Memᴰ}
use karpenter_provider_aliba.Prelude.{
  Bool, Bool-cases, List, Option, Option-cases, Outcome-cases, String, [], ap, arith, false, inl,
  inr, map, member, none, ok_injective, refl, some, str_eq, str_eq_refl, sym, true, ◌||◌, ◌∙◌, ◌∷◌,
  ◌≡◌,
}
use karpenter_provider_aliba.Drift.{drift_reason}
use karpenter_provider_aliba.Drift.Reasons.{drift_reason-Fits}
use karpenter_provider_aliba.Instance.{CreateOptions}
use karpenter_provider_aliba.Instance.Api.{Instance}
use karpenter_provider_aliba.Launch.Fallback.{LaunchRequest, TypeName, options_for, plan_launch}
use karpenter_provider_aliba.Launch.Fallback.Cases.{Started, options}
use karpenter_provider_aliba.Launch.Options.{
  LaunchPlan, base_options, validate_ram_role_for_create, with_vswitch,
}
use karpenter_provider_aliba.Launch.Requirements.{
  filter_vswitches_by_zones, keep_zones, matching_image, select_image_for_architecture, zone_of,
  zones_from_requirements,
}
use karpenter_provider_aliba.NodeClass.{Image, SecurityGroup, VSwitch}
use karpenter_provider_aliba.NodeClass.Disks.{normalize_disks}
use karpenter_provider_aliba.NodeClass.Labels.{annotation_ecs_node_class_hash}
use karpenter_provider_aliba.Utils.Capacity.{kube_architecture}
use karpenter_provider_aliba.Utils.SecurityGroups.{normalize_ids}
use karpenter_provider_aliba.Utils.SecurityGroups.Equality.{member-normalize_ids}
use karpenter_provider_aliba.Utils.Tags.{Tags, tag_value}

-- How `Create` fills in a launch from the status of the node class.
pub record FromStatus (r : LaunchRequest) : Type 0 where
  pub images_of : r.images ≡ r.node_class.status.images
  pub groups_of : r.security_groups ≡ r.node_class.status.security_groups
  pub vswitches_of :
      r.vswitches
      ≡ filter_vswitches_by_zones r.node_class.status.vswitches
          (zones_from_requirements r.requirements)

-- An instance that ECS made as it was asked to.
pub record MadeOf (opts : CreateOptions) (inst : Instance) : Type 0 where
  pub image_of : inst.image_id ≡ opts.image_id
  pub vswitch_of : inst.vswitch_id ≡ opts.vswitch_id
  pub security_groups_of : inst.security_group_ids ≡ opts.security_group_ids

abbrev image_ids : List Image → List String
image_ids images = map (λ i. i.id) images

abbrev vswitch_ids : List VSwitch → List String
vswitch_ids vswitches = map (λ v. v.id) vswitches

matching_image-listed :
    (images : List Image) (arch : String) (img : Image)
    → matching_image images arch ≡ some img
    → member img.id (image_ids images) ≡ true
unfolding matching_image member
matching_image-listed [] arch img h = cc
matching_image-listed (i ∷ images) arch img h =
    elim (Bool-cases (str_eq (kube_architecture i.architecture) arch)) [
      | inl found ↦
          let same : i ≡ img = some_same (rw found at h) in
          ground (arith, str_eq_refl i.id, ap (λ j. str_eq i.id j.id) same)
      | inr other ↦ ground (arith, matching_image-listed images arch img (rw other at h))
    ]
  where
    some_same : {a b : Image} → ◌≡◌ {A = Option Image} (some a) (some b) → a ≡ b
    some_same e = cc

first-listed :
    (first : Image) (images : List Image) → member first.id (image_ids (first ∷ images)) ≡ true
unfolding member
first-listed first images = ground (arith, str_eq_refl first.id)

-- The image of the options is one of those of the launch.
selected-listed :
    (first : Image) (images : List Image) (plan : LaunchPlan) (it : TypeName)
    → member (options_for plan first images it).image_id (image_ids (first ∷ images)) ≡ true
unfolding options_for select_image_for_architecture base_options
selected-listed first images plan it =
    elim (Option-cases (matching_image (first ∷ images) it.architecture)) [
      | inl n ↦ rw (n, options_for) (first-listed first images)
      | inr (img, n) ↦
          rw (n, options_for) (matching_image-listed (first ∷ images) it.architecture img n)
    ]

or_imp : (a p q : Bool) → (p ≡ true → q ≡ true) → (a || p) ≡ true → (a || q) ≡ true
or_imp true p q f h = refl
or_imp false p q f h = f h

kept_in_zones :
    (id : String) (zones : List String) (vswitches : List VSwitch)
    → member id (vswitch_ids (keep_zones zones vswitches)) ≡ true
    → member id (vswitch_ids vswitches) ≡ true
unfolding keep_zones member
kept_in_zones id zones [] h = h
kept_in_zones id zones (v ∷ vswitches) h = elim (Bool-cases (member (zone_of v) zones)) [
  | inl kept ↦
      or_imp (str_eq v.id id) _ _ (kept_in_zones id zones vswitches) (rw (kept, keep_zones) at h)
  | inr dropped ↦ ground (arith, kept_in_zones id zones vswitches (rw (dropped, keep_zones) at h))
]

kept-listed :
    (id : String) (vswitches : List VSwitch) (zones : List String)
    → member id (vswitch_ids (filter_vswitches_by_zones vswitches zones)) ≡ true
    → member id (vswitch_ids vswitches) ≡ true
unfolding filter_vswitches_by_zones
kept-listed id vswitches [] h = h
kept-listed id vswitches (z ∷ zones) h = kept_in_zones id (z ∷ zones) vswitches h

vswitch-listed :
    (v : VSwitch) (vswitches : List VSwitch)
    → Memᴰ v vswitches
    → member v.id (vswitch_ids vswitches) ≡ true
unfolding member
vswitch-listed v [] m = elim m [ ]
vswitch-listed v (u ∷ vswitches) (Memᴰ.head h) =
    ground (arith, str_eq_refl v.id, ap (λ (x : VSwitch). str_eq x.id v.id) h)
vswitch-listed v (u ∷ vswitches) (Memᴰ.tail m) = ground (arith, vswitch-listed v vswitches m)

planned_groups :
    (r : LaunchRequest) (s : Started r)
    → s.plan.security_group_ids ≡ normalize_ids (map (λ g. g.id) r.security_groups)
unfolding plan_launch
planned_groups r s = elim (Outcome-cases (validate_ram_role_for_create r.node_class)) [
  | inr (e, refused_role) ↦ ground (arith, rw (refused_role, plan_launch) at s.planned)
  | inl (role, valid) ↦ elim (Outcome-cases (normalize_disks r.node_class.spec)) [
    | inr (e, bad) ↦ ground (arith, rw (valid, bad, plan_launch) at s.planned)
    | inl (disks, normal) ↦
        let made = rw (valid, normal, plan_launch) at s.planned in
        ap (λ (p : LaunchPlan). p.security_group_ids) (sym (ok_injective made))
  ]
]

-- An instance that was made by a request of a launch from a node class has not drifted from it, as long
-- as the node class stays as it is: for each instance type, and each vSwitch that the launch may use.
pub options-no_drift :
    (r : LaunchRequest) (s : Started r) (it : TypeName) (v : VSwitch) (inst : Instance)
    (current_hash : String) (annotations : Tags)
    → FromStatus r
    → Memᴰ v r.vswitches
    → MadeOf (with_vswitch (options r s it) v.id) inst
    → tag_value annotation_ecs_node_class_hash annotations ≡ current_hash
    → drift_reason current_hash r.node_class.status annotations inst ≡ none
unfolding options_for base_options
options-no_drift r s it v inst current_hash annotations from m made hash =
    (drift_reason-Fits current_hash r.node_class.status annotations inst).1 (record {
      same_hash = sym hash;
      image_listed =
          ap (λ id. member id (image_ids r.node_class.status.images)) made.image_of
          ∙ (ap (λ images. member (options r s it).image_id (image_ids images))
                (sym from.images_of ∙ s.images_are)
              ∙ selected-listed s.first s.images s.plan it);
      vswitch_listed =
          ap (λ id. member id (vswitch_ids r.node_class.status.vswitches)) made.vswitch_of
          ∙ kept-listed v.id r.node_class.status.vswitches (zones_from_requirements r.requirements)
              (ap (λ vs. member v.id (vswitch_ids vs)) (sym from.vswitches_of)
                ∙ vswitch-listed v r.vswitches m);
      same_groups = λ id.
          ap (member id) made.security_groups_of
          ∙ (ap (member id) (planned_groups r s)
              ∙ (member-normalize_ids id (map (λ g. g.id) r.security_groups)
                  ∙ ap (λ gs. member id (map (λ (g : SecurityGroup). g.id) gs)) from.groups_of));
    })
