-- ===== src/Hash.antt =====
-- The hash controller, pkg/controllers/nodeclass/hash/controller.go. The client of Kubernetes, with a
-- state `K`, and `retry.RetryOnConflict` are parameters.
pub mod Settled
use karpenter_provider_aliba.Prelude.{
  Bool, List, Option, Outcome, String, append_text, err, if◌then◌else◌, insert, none, ok, some,
  str_eq, ◌&&◌,
}
use karpenter_provider_aliba.NodeClaim.{KubeError, kube_failed, kube_not_found}
use karpenter_provider_aliba.NodeClass.{
  CapacityReservationSelectorTerm, DataDiskSpec, EcsNodeClassSpec, ImageSelectorTerm,
  KubeletConfiguration, MetadataOptions, SecurityGroupSelectorTerm, SystemDiskSpec,
  VSwitchSelectorTerm,
}
use karpenter_provider_aliba.NodeClass.Labels.{
  annotation_ecs_node_class_hash, annotation_ecs_node_class_hash_version,
}
use karpenter_provider_aliba.Utils.Tags.{Tags, tag_value}

-- `nodeClassHashInput`
pub record NodeClassHashInput : Type 0 where
  pub vswitch_selector_terms : List VSwitchSelectorTerm
  pub security_group_selector_terms : List SecurityGroupSelectorTerm
  pub image_selector_terms : List ImageSelectorTerm
  pub user_data : Option String
  pub kubelet : Option KubeletConfiguration
  pub system_disk : Option SystemDiskSpec
  pub data_disks : List DataDiskSpec
  pub instance_store_policy : Option String
  pub tags : Tags
  pub role : Option String
  pub capacity_reservation_preference : Option String
  pub capacity_reservation_selector_terms : List CapacityReservationSelectorTerm
  pub metadata_options : Option MetadataOptions

unfoldable pub node_class_hash_input : EcsNodeClassSpec → NodeClassHashInput
node_class_hash_input spec = record {
  vswitch_selector_terms = spec.vswitch_selector_terms;
  security_group_selector_terms = spec.security_group_selector_terms;
  image_selector_terms = spec.image_selector_terms;
  user_data = spec.user_data;
  kubelet = spec.kubelet;
  system_disk = spec.system_disk;
  data_disks = spec.data_disks;
  instance_store_policy = spec.instance_store_policy;
  tags = spec.tags;
  role = spec.role;
  capacity_reservation_preference = spec.capacity_reservation_preference;
  capacity_reservation_selector_terms = spec.capacity_reservation_selector_terms;
  metadata_options = spec.metadata_options;
}

-- A node class with its annotations.
pub record AnnotatedClass : Type 0 where
  pub spec : EcsNodeClassSpec
  pub annotations : Tags

pub data HashError : Type 0 where
  class_unread : KubeError → HashError
  hash_failed : String → HashError
  class_unwritten : KubeError → HashError

pub record ClassStore (K : Type 0) : Type 0 where
  pub get_class : K → Outcome KubeError AnnotatedClass
  pub update_class : AnnotatedClass → K → Option KubeError × K

-- Whether the annotations hold this hash and the version of the hashes.
unfoldable pub is_hashed : String → Tags → Bool
unfolding tag_value
is_hashed hash annotations =
    str_eq (tag_value annotation_ecs_node_class_hash annotations) hash
    && str_eq (tag_value annotation_ecs_node_class_hash_version annotations) "v1"

unfoldable pub set_hash : String → AnnotatedClass → AnnotatedClass
unfolding insert
set_hash hash class = record {
  spec = class.spec;
  annotations =
      insert annotation_ecs_node_class_hash_version "v1"
        (insert annotation_ecs_node_class_hash hash class.annotations);
}

-- `digest` is `json.Marshal` followed by the first 8 bytes of the SHA-256 sum in hexadecimal.
module _ {K : Type 0} (store : ClassStore K)
    (digest : NodeClassHashInput → Outcome String String) where
  -- `computeHash`
  unfoldable pub compute_hash : EcsNodeClassSpec → Outcome String String
  unfolding node_class_hash_input
  compute_hash spec = digest (node_class_hash_input spec)

  -- The attempt, once the hash is computed.
  unfoldable pub write_hash : AnnotatedClass → Outcome String String → K → Option HashError × K
  unfolding is_hashed set_hash
  write_hash latest (err m) k = (some (hash_failed (append_text "failed to compute hash: " m)), k)
  write_hash latest (ok hash) k =
      if is_hashed hash latest.annotations
      then (none, k)
      else let (failure, k') = store.update_class (set_hash hash latest) k in
        (elim failure [ none ↦ none | some e ↦ some (class_unwritten e) ], k')

  -- One attempt of `updateNodeClass`.
  unfoldable pub update_once : K → Option HashError × K
  unfolding compute_hash write_hash
  update_once k = elim (store.get_class k) [
    | err e ↦ (some (class_unread e), k)
    | ok latest ↦ write_hash latest (compute_hash latest.spec) k
  ]

  -- `Reconcile`, with `retry.RetryOnConflict`.
  unfoldable pub reconcile_hash :
      ((K → Option HashError × K) → K → Option HashError × K) → K → Option HashError × K
  unfolding update_once
  reconcile_hash retry k = elim (store.get_class k) [
    | err kube_not_found ↦ (none, k)
    | err (kube_failed m) ↦ (some (class_unread (kube_failed m)), k)
    | ok class ↦ retry update_once k
  ]
