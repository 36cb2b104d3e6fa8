-- ===== src/Launch/Requirements.antt =====
-- What pkg/cloudprovider/cloudprovider.go reads from the requirements of a NodeClaim, and the image for
-- an architecture. Taking `images[0]` of no images panics: the result is then `none`.
use karpenter_provider_aliba.Prelude.{
  Bool, List, Option, String, [], false, if◌then◌else◌, member, none, some, str_eq, true, ◌&&◌, ◌∷◌,
}
use karpenter_provider_aliba.NodeClass.{Image, VSwitch}
use karpenter_provider_aliba.NodeClass.Labels.{label_capacity_type, label_topology_zone}
use karpenter_provider_aliba.Utils.Capacity.{
  capacity_type_on_demand, capacity_type_spot, kube_architecture,
}

-- `corev1.NodeSelectorOperator`
pub data NodeSelectorOp : Type 0 where
  op_in op_not_in op_exists op_does_not_exist op_gt op_lt : NodeSelectorOp

abbrev pub is_op_in : NodeSelectorOp → Bool
is_op_in op_in = true
is_op_in _ = false

pub record Requirement : Type 0 where
  pub key : String
  pub operator : NodeSelectorOp
  pub values : List String

unfoldable pub zones_from_requirements : List Requirement → List String
zones_from_requirements [] = []
zones_from_requirements (req ∷ reqs) =
    let rest = zones_from_requirements reqs in
    if str_eq req.key label_topology_zone && is_op_in req.operator then req.values else rest

unfoldable pub capacity_type_from_requirements : List Requirement → String
unfolding member
capacity_type_from_requirements [] = capacity_type_on_demand
capacity_type_from_requirements (req ∷ reqs) =
    let rest = capacity_type_from_requirements reqs in
    if str_eq req.key label_capacity_type
      && is_op_in req.operator
      && member capacity_type_spot req.values
    then capacity_type_spot
    else rest

-- The zone that a vSwitch is compared by.
unfoldable pub zone_of : VSwitch → String
zone_of vs = if str_eq vs.zone_id "" then vs.zone else vs.zone_id

-- The loop of `filterVSwitchesByZones`.
unfoldable pub keep_zones : List String → List VSwitch → List VSwitch
unfolding member zone_of
keep_zones allowed [] = []
keep_zones allowed (vs ∷ vss) =
    let rest = keep_zones allowed vss in if member (zone_of vs) allowed then vs ∷ rest else rest

unfoldable pub filter_vswitches_by_zones : List VSwitch → List String → List VSwitch
unfolding keep_zones
filter_vswitches_by_zones vswitches [] = vswitches
filter_vswitches_by_zones vswitches (z ∷ zs) = keep_zones (z ∷ zs) vswitches

-- The loop of `selectImageForArchitecture`.
unfoldable pub matching_image : List Image → String → Option Image
unfolding kube_architecture
matching_image [] target_arch = none
matching_image (img ∷ images) target_arch =
    let rest = matching_image images target_arch in
    if str_eq (kube_architecture img.architecture) target_arch then some img else rest

unfoldable pub select_image_for_architecture : List Image → String → Option Image
unfolding matching_image
select_image_for_architecture [] target_arch = none
select_image_for_architecture (img ∷ images) target_arch =
    elim (matching_image (img ∷ images) target_arch) [ none ↦ some img | some found ↦ some found ]
