-- ===== src/InstanceTypes/Filter.antt =====
-- `Filter` of pkg/providers/instancetype/instancetype.go, and the conversion of a NodePool's requirements
-- by `filterInstanceTypesByRequirements` of pkg/cloudprovider/cloudprovider.go.
use karpenter_provider_aliba.Prelude.{
  Bool, List, Option, String, [], false, if◌then◌else◌, lookup, member, none, not, some, str_eq,
  true, ◌&&◌, ◌||◌, ◌∷◌,
}
use karpenter_provider_aliba.InstanceTypes.{InstanceType, ZoneInfo}
use karpenter_provider_aliba.InstanceTypes.Names.{
  gpu_count, gpu_manufacturer, gpu_memory, gpu_model, instance_category, instance_family,
  instance_generation, instance_size, quantity_mib, quantity_value,
}
use karpenter_provider_aliba.Launch.Requirements.{
  NodeSelectorOp, Requirement, op_does_not_exist, op_exists, op_gt, op_in, op_lt, op_not_in,
}
use karpenter_provider_aliba.NodeClass.Labels.{
  label_architecture, label_capacity_reservation_id, label_capacity_reservation_type,
  label_capacity_type, label_instance_category, label_instance_cpu, label_instance_family,
  label_instance_family_canonical, label_instance_generation, label_instance_gpu_count,
  label_instance_gpu_manufacturer, label_instance_gpu_memory, label_instance_gpu_name,
  label_instance_memory, label_instance_size, label_instance_size_canonical, label_instance_type,
  label_os, label_region, label_topology_zone, os_linux,
}
use karpenter_provider_aliba.Utils.Capacity.{
  capacity_type_on_demand, capacity_type_spot, kube_architecture,
}

pub data InstanceTypeOperator : Type 0 where
  it_in it_not_in it_exists it_does_not_exist : InstanceTypeOperator

pub record InstanceTypeRequirement : Type 0 where
  pub key : String
  pub operator : InstanceTypeOperator
  pub values : List String

unfoldable pub matches_string_requirement : String → InstanceTypeOperator → List String → Bool
unfolding member
matches_string_requirement value it_in values = member value values
matches_string_requirement value it_not_in values = not (member value values)
matches_string_requirement value it_exists values = not (str_eq value "")
matches_string_requirement value it_does_not_exist values = str_eq value ""

-- `zoneInfo, exists := it.Zones[value]; exists && zoneInfo.Available`
unfoldable pub is_available_in : String → List (String × ZoneInfo) → Bool
unfolding lookup
is_available_in zone zones = elim (lookup zone zones) [ none ↦ false | some info ↦ info.available ]

-- Whether a loop over the values meets a zone that is available.
unfoldable pub is_available_in_one : List String → List (String × ZoneInfo) → Bool
unfolding is_available_in
is_available_in_one [] zones = false
is_available_in_one (value ∷ values) zones =
    is_available_in value zones || is_available_in_one values zones

-- Whether a loop over the zones meets one that is available.
unfoldable pub is_available_somewhere : List (String × ZoneInfo) → Bool
is_available_somewhere [] = false
is_available_somewhere ((zone, info) ∷ zones) = info.available || is_available_somewhere zones

unfoldable pub matches_zone_requirement :
    List (String × ZoneInfo) → InstanceTypeOperator → List String → Bool
unfolding is_available_in_one is_available_somewhere
matches_zone_requirement zones it_in values = is_available_in_one values zones
matches_zone_requirement zones it_not_in values = not (is_available_in_one values zones)
matches_zone_requirement zones it_exists values = is_available_somewhere zones
matches_zone_requirement zones it_does_not_exist values = not (is_available_somewhere zones)

-- The texts that the cases of `matchesRequirement` compare, by key: each text that may match. A key that
-- is unknown matches, and that of the zone is compared otherwise.
pub data Attribute : Type 0 where
  text_attribute : String → Attribute
  capacity_type_attribute : Attribute
  zone_attribute : Attribute
  unknown_key : Attribute

-- The `switch` on the key.
unfoldable pub attribute_of : String → InstanceType → String → Attribute
unfolding instance_family instance_category instance_generation instance_size quantity_value
    quantity_mib gpu_model gpu_manufacturer gpu_count gpu_memory kube_architecture
attribute_of region it key =
    if str_eq key label_instance_type
    then text_attribute it.name
    else if str_eq key label_instance_family || str_eq key label_instance_family_canonical
    then text_attribute (instance_family it.name)
    else if str_eq key label_instance_category
    then text_attribute (instance_category it.name)
    else if str_eq key label_instance_generation
    then text_attribute (instance_generation it.name)
    else if str_eq key label_instance_size || str_eq key label_instance_size_canonical
    then text_attribute (instance_size it.name)
    else if str_eq key label_instance_cpu
    then text_attribute (quantity_value it.cpu)
    else if str_eq key label_instance_memory
    then text_attribute (quantity_mib it.memory)
    else if str_eq key label_instance_gpu_name
    then text_attribute (gpu_model it.gpu)
    else if str_eq key label_instance_gpu_manufacturer
    then text_attribute (gpu_manufacturer it.gpu)
    else if str_eq key label_instance_gpu_count
    then text_attribute (gpu_count it.gpu)
    else if str_eq key label_instance_gpu_memory
    then text_attribute (gpu_memory it.gpu)
    else if str_eq key label_architecture
    then text_attribute (kube_architecture it.architecture)
    else if str_eq key label_os
    then text_attribute os_linux
    else if str_eq key label_region
    then text_attribute region
    else if str_eq key label_capacity_type
    then capacity_type_attribute
    else if str_eq key label_capacity_reservation_id || str_eq key label_capacity_reservation_type
    then text_attribute ""
    else if str_eq key label_topology_zone
    then zone_attribute
    else unknown_key

unfoldable pub matches_attribute :
    InstanceType → Attribute → InstanceTypeOperator → List String → Bool
unfolding matches_string_requirement matches_zone_requirement
matches_attribute it (text_attribute value) operator values =
    matches_string_requirement value operator values
matches_attribute it capacity_type_attribute operator values =
    matches_string_requirement capacity_type_on_demand operator values
    || matches_string_requirement capacity_type_spot operator values
matches_attribute it zone_attribute operator values =
    matches_zone_requirement it.zones operator values
matches_attribute it unknown_key operator values = true

unfoldable pub matches_requirement : String → InstanceType → InstanceTypeRequirement → Bool
unfolding attribute_of matches_attribute
matches_requirement region it req =
    matches_attribute it (attribute_of region it req.key) req.operator req.values

-- The inner loop of `Filter`.
unfoldable pub matches_all : String → InstanceType → List InstanceTypeRequirement → Bool
unfolding matches_requirement
matches_all region it [] = true
matches_all region it (req ∷ reqs) = matches_requirement region it req && matches_all region it reqs

unfoldable pub filter_types :
    String → List InstanceType → List InstanceTypeRequirement → List InstanceType
unfolding matches_all
filter_types region [] reqs = []
filter_types region (it ∷ its) reqs =
    let rest = filter_types region its reqs in
    if matches_all region it reqs then it ∷ rest else rest

-- The operators that `Filter` knows; a requirement with another operator is skipped.
abbrev pub convert_operator : NodeSelectorOp → Option InstanceTypeOperator
convert_operator op_in = some it_in
convert_operator op_not_in = some it_not_in
convert_operator op_exists = some it_exists
convert_operator op_does_not_exist = some it_does_not_exist
convert_operator op_gt = none
convert_operator op_lt = none

unfoldable pub convert_requirements : List Requirement → List InstanceTypeRequirement
convert_requirements [] = []
convert_requirements (req ∷ reqs) =
    let rest = convert_requirements reqs in
    elim (convert_operator req.operator) [
      | none ↦ rest
      | some operator ↦ record { key = req.key; operator = operator; values = req.values } ∷ rest
    ]

unfoldable pub filter_instance_types_by_requirements :
    String → List InstanceType → List Requirement → List InstanceType
unfolding filter_types convert_requirements
filter_instance_types_by_requirements region its requirements =
    filter_types region its (convert_requirements requirements)
