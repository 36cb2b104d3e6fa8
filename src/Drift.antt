-- ===== src/Drift.antt =====
-- `IsDrifted` of pkg/cloudprovider/cloudprovider.go, and the hash of a node class that it compares.
pub mod Reasons
pub mod Fresh
use karpenter_provider_aliba.Prelude.{
  Bool, List, Option, Outcome, String, [], append_text, decimal, err, false, if◌then◌else◌, map,
  none, not, ok, some, str_eq, ℕ, ◌||◌, ◌∷◌,
}
use karpenter_provider_aliba.Instance.Api.{Instance}
use karpenter_provider_aliba.Instance.Calls.{Ecs, InstanceError, Provider, get}
use karpenter_provider_aliba.NodeClaim.{KubeError, NodeClaim}
use karpenter_provider_aliba.NodeClass.{
  DataDiskSpec, EcsNodeClass, EcsNodeClassSpec, EcsNodeClassStatus, Image, ImageSelectorTerm,
  KubeletConfiguration, MetadataOptions, SecurityGroup, SecurityGroupSelectorTerm, SystemDiskSpec,
  VSwitch, VSwitchSelectorTerm,
}
use karpenter_provider_aliba.NodeClass.Labels.{annotation_ecs_node_class_hash}
use karpenter_provider_aliba.ProviderId.{from_provider_id}
use karpenter_provider_aliba.Utils.SecurityGroups.{equal_ids}
use karpenter_provider_aliba.Utils.Tags.{Tags, tag_value}

-- `NodeClassHashInput`
pub record HashInput : Type 0 where
  pub vswitch_selector_terms : List VSwitchSelectorTerm
  pub security_group_selector_terms : List SecurityGroupSelectorTerm
  pub image_selector_terms : List ImageSelectorTerm
  pub image_family : Option String
  pub user_data : Option String
  pub kubelet : Option KubeletConfiguration
  pub tags : Tags
  pub role : Option String
  pub metadata_options : Option MetadataOptions
  pub system_disk : Option SystemDiskSpec
  pub data_disks : List DataDiskSpec
  pub instance_store_policy : Option String

unfoldable pub hash_input : EcsNodeClassSpec → HashInput
hash_input spec = record {
  vswitch_selector_terms = spec.vswitch_selector_terms;
  security_group_selector_terms = spec.security_group_selector_terms;
  image_selector_terms = spec.image_selector_terms;
  image_family = none;
  user_data = spec.user_data;
  kubelet = spec.kubelet;
  tags = spec.tags;
  role = spec.role;
  metadata_options = spec.metadata_options;
  system_disk = spec.system_disk;
  data_disks = spec.data_disks;
  instance_store_policy = spec.instance_store_policy;
}

-- `digest` is `json.Marshal` followed by the first 8 bytes of the SHA-256 sum in hexadecimal; it is
-- `none` where the former fails.
unfoldable pub calculate_node_class_hash :
    (HashInput → Option String) → ℕ → EcsNodeClassSpec → String
unfolding hash_input decimal
calculate_node_class_hash digest generation spec = elim (digest (hash_input spec)) [
  | none ↦ append_text "error-" (decimal generation)
  | some hash ↦ hash
]

unfoldable pub is_image_allowed : String → List Image → Bool
is_image_allowed id [] = false
is_image_allowed id (img ∷ images) = str_eq img.id id || is_image_allowed id images

unfoldable pub is_vswitch_allowed : String → List VSwitch → Bool
is_vswitch_allowed id [] = false
is_vswitch_allowed id (vs ∷ vswitches) = str_eq vs.id id || is_vswitch_allowed id vswitches

unfoldable pub is_security_group_allowed : List String → List SecurityGroup → Bool
unfolding equal_ids
is_security_group_allowed ids groups = equal_ids ids (map (λ g. g.id) groups)

-- `cloudprovider.DriftReason`; the empty reason is `none`.
pub data DriftReason : Type 0 where
  node_class_drift image_drift vswitch_drift security_group_drift : DriftReason

-- The checks 3 and 4 of `IsDrifted`, by the current hash.
unfoldable pub drift_reason : String → EcsNodeClassStatus → Tags → Instance → Option DriftReason
unfolding is_image_allowed is_vswitch_allowed is_security_group_allowed tag_value
drift_reason current_hash status annotations inst =
    if not (str_eq current_hash (tag_value annotation_ecs_node_class_hash annotations))
    then some node_class_drift
    else if not (is_image_allowed inst.image_id status.images)
    then some image_drift
    else if not (is_vswitch_allowed inst.vswitch_id status.vswitches)
    then some vswitch_drift
    else if not (is_security_group_allowed inst.security_group_ids status.security_groups)
    then some security_group_drift
    else none

pub data DriftError : Type 0 where
  node_class_unread : KubeError → DriftError
  invalid_provider_id : String → DriftError
  drift_instance_unread : InstanceError → DriftError

module _ {W : Type 0} (ecs : Ecs W) (digest : HashInput → Option String) where
  -- The end of `IsDrifted`, once the instance is read.
  unfoldable pub judge_instance :
      ℕ
      → EcsNodeClass
      → Tags
      → Outcome InstanceError Instance
      → Outcome DriftError (Option DriftReason)
  unfolding drift_reason calculate_node_class_hash
  judge_instance generation class annotations (err e) = err (drift_instance_unread e)
  judge_instance generation class annotations (ok inst) = ok (
      drift_reason (calculate_node_class_hash digest generation class.spec) class.status annotations
        inst)

  -- `IsDrifted`. The node class comes with its generation.
  unfoldable pub is_drifted :
      ℕ
      → ℕ
      → Outcome KubeError (EcsNodeClass × ℕ)
      → NodeClaim
      → Provider W
      → Outcome DriftError (Option DriftReason) × Provider W
  unfolding judge_instance from_provider_id get
  is_drifted ttl now (err e) claim p = (err (node_class_unread e), p)
  is_drifted ttl now (ok (class, generation)) claim p =
      let id = from_provider_id claim.provider_id in
      if str_eq id ""
      then (err (invalid_provider_id claim.provider_id), p)
      else let (found, p') = get ecs ttl now id false p in
        (judge_instance generation class claim.annotations found, p')
