-- ===== src/InstanceTypes/Offerings.antt =====
-- `GetInstanceTypes` of pkg/cloudprovider/cloudprovider.go. The client of Kubernetes and the conditions
-- of its library are a parameter.
pub mod Stocked
pub mod Exact
pub mod Known
pub mod Dropped
use karpenter_provider_aliba.Prelude.{
  Bool, List, Option, Outcome, String, [], append_text, err, false, if◌then◌else◌, insert, is_empty,
  map, member, none, not, ok, some, true, ℕ, ◌++◌, ◌∷◌,
}
use karpenter_provider_aliba.Instance.Listing.Complete.{listed}
use karpenter_provider_aliba.InstanceTypes.{InstanceType, ZoneInfo}
use karpenter_provider_aliba.InstanceTypes.Capacity.{
  InstanceTypeOverhead, NetworkConfig, OverheadOptions, Quantities, ResourceList,
  calculate_capacity_and_allocatable, calculate_overhead, split_overhead,
}
use karpenter_provider_aliba.InstanceTypes.Filter.{filter_instance_types_by_requirements}
use karpenter_provider_aliba.InstanceTypes.Inventory.{CapacityTypes}
use karpenter_provider_aliba.InstanceTypes.Labels.{resolved_labels}
use karpenter_provider_aliba.InstanceTypes.Listing.{TypeProvider, TypesApi, list}
use karpenter_provider_aliba.Launch.Requirements.{Requirement, op_in, zone_of}
use karpenter_provider_aliba.NodeClass.{
  ConditionStatus, EcsNodeClass, Float64, VSwitch, condition_false, condition_true,
  condition_unknown,
}
use karpenter_provider_aliba.NodeClass.Labels.{
  label_architecture, label_capacity_type, label_instance_type, label_os, label_region,
  label_topology_zone, os_linux,
}
use karpenter_provider_aliba.Utils.Capacity.{kube_architecture}
use karpenter_provider_aliba.Utils.SecurityGroups.{collect_seen}
use karpenter_provider_aliba.Utils.Tags.{Tags}

-- The requirements of an offering are its zone and its capacity type; its price is always zero.
pub record Offering : Type 0 where
  pub zone : String
  pub capacity_type : String
  pub price : Float64
  pub available : Bool

-- `cloudprovider.InstanceType` of Karpenter.
pub record CoreInstanceType : Type 0 where
  pub name : String
  pub capacity : ResourceList
  pub offerings : List Offering
  pub requirements : List Requirement
  pub overhead : InstanceTypeOverhead

-- `capTypeAvailability[ct] = b` for each capacity type of a slice.
unfoldable pub set_each : Bool → List String → CapacityTypes → CapacityTypes
unfolding insert
set_each b [] types = types
set_each b (ct ∷ cts) types = set_each b cts (insert ct b types)

unfoldable pub cap_type_availability : ZoneInfo → CapacityTypes
unfolding set_each
cap_type_availability info =
    set_each true info.capacity_types (set_each false info.known_capacity_types [])

abbrev pub offerings_of : String → CapacityTypes → List Offering
offerings_of zone_id types =
    map (λ e. record { zone = zone_id; capacity_type = e.0; price = 0; available = e.1 }) types

-- The loop over the zones of an instance type, of which those without a vSwitch are skipped.
unfoldable pub offerings_in : List String → List (String × ZoneInfo) → List Offering
unfolding cap_type_availability member
offerings_in available_zones [] = []
offerings_in available_zones ((zone_id, info) ∷ zones) =
    let rest = offerings_in available_zones zones in
    if not (member zone_id available_zones)
    then rest
    else offerings_of zone_id (cap_type_availability info) ++ rest

abbrev pub requirement_in : String → List String → Requirement
requirement_in key values = record { key = key; operator = op_in; values = values }

-- A requirement for each label.
abbrev pub label_requirements : Tags → List Requirement
label_requirements labels = map (λ e. requirement_in e.0 (e.1 ∷ [])) labels

-- The keys of the labels differ from those of the first six requirements, so that `Add` appends them.
unfoldable pub build_instance_type_requirements :
    InstanceType → String → List String → List String → List Requirement
unfolding kube_architecture resolved_labels
build_instance_type_requirements it region zones capacity_types =
    (requirement_in label_instance_type (it.name ∷ [])
      ∷ requirement_in label_architecture (kube_architecture it.architecture ∷ [])
      ∷ requirement_in label_os (os_linux ∷ [])
      ∷ requirement_in label_region (region ∷ [])
      ∷ requirement_in label_topology_zone zones
      ∷ requirement_in label_capacity_type capacity_types
      ∷ [])
    ++ label_requirements (resolved_labels (some it))

-- The settings that the conversion reads.
pub record TypeSettings : Type 0 where
  pub quantities : Quantities
  pub overhead_options : OverheadOptions
  pub network : Option NetworkConfig
  pub region : String

-- `lo.Keys` of a set, in some order.
abbrev pub distinct_texts : List String → List String
distinct_texts texts = collect_seen [] texts

unfoldable pub core_type :
    TypeSettings → InstanceType → List Offering → ResourceList → CoreInstanceType
unfolding build_instance_type_requirements split_overhead calculate_overhead collect_seen
core_type settings it offerings capacity = record {
  name = it.name;
  capacity = capacity;
  offerings = offerings;
  requirements =
      build_instance_type_requirements it settings.region
        (distinct_texts (map (λ o. o.zone) offerings))
        (distinct_texts (map (λ o. o.capacity_type) offerings));
  overhead =
      split_overhead settings.quantities
        (calculate_overhead settings.quantities settings.overhead_options it);
}

-- The body of the loop of `GetInstanceTypes`; `none` skips the instance type.
unfoldable pub offered_type : TypeSettings → List String → InstanceType → Option CoreInstanceType
unfolding calculate_capacity_and_allocatable offerings_in core_type
offered_type settings available_zones it =
    elim (calculate_capacity_and_allocatable settings.quantities settings.overhead_options
      settings.network it) [
        | none ↦ none
        | some (capacity, allocatable) ↦
            if is_empty (offerings_in available_zones it.zones)
            then none
            else some (core_type settings it (offerings_in available_zones it.zones) capacity)
      ]

unfoldable pub offered_types :
    TypeSettings → List String → List InstanceType → List CoreInstanceType
unfolding offered_type
offered_types settings available_zones [] = []
offered_types settings available_zones (it ∷ its) =
    let rest = offered_types settings available_zones its in
    elim (offered_type settings available_zones it) [ none ↦ rest | some core ↦ core ∷ rest ]

-- The zones of the vSwitches of the node class.
abbrev pub available_zones_of : List VSwitch → List String
available_zones_of vswitches = map zone_of vswitches

pub data TypesError : Type 0 where
  node_class_not_found : String → TypesError
  node_class_not_ready : String → TypesError
  node_class_readiness_unknown : String → TypesError
  list_types_failed : String → TypesError
  no_instance_types : TypesError

-- The Ready condition as the library reads it, with its message.
abbrev pub Readiness : Type 0
Readiness = ConditionStatus × String

-- The tests of `GetInstanceTypes` and `Create` before they list the instance types.
unfoldable pub readiness_error : Readiness → Option TypesError
readiness_error (condition_true, message) = none
readiness_error (condition_false, message) =
    some (node_class_not_ready (append_text "node class is not ready: " message))
readiness_error (condition_unknown, message) = some (
    node_class_readiness_unknown
      (append_text "resolving nodeclass readiness, nodeclass is in Ready=Unknown: " message))

-- What follows the list of the instance types.
unfoldable pub types_result :
    TypeSettings
    → List Requirement
    → List VSwitch
    → List InstanceType
    → Outcome TypesError (List CoreInstanceType)
unfolding offered_types filter_instance_types_by_requirements zone_of
types_result settings requirements vswitches its =
    let offered =
      offered_types settings (available_zones_of vswitches)
        (filter_instance_types_by_requirements settings.region its requirements) in
    if is_empty offered then err no_instance_types else ok offered

unfoldable pub get_instance_types :
    {W : Type 0}
    → TypesApi W
    → TypeSettings
    → ℕ
    → String
    → Outcome String EcsNodeClass
    → (EcsNodeClass → Readiness)
    → List Requirement
    → TypeProvider W
    → Outcome TypesError (List CoreInstanceType) × TypeProvider W
unfolding readiness_error types_result list
get_instance_types api settings now name (err e) ready_of requirements p =
    (err (node_class_not_found (append_text "failed to get nodeclass: " e)), p)
get_instance_types api settings now name (ok node_class) ready_of requirements p =
    elim (readiness_error (ready_of node_class)) [
      | some e ↦ (err e, p)
      | none ↦
          if is_empty node_class.status.vswitches
          then (
            err (
                node_class_not_ready (
                  append_text "nodeclass "
                    (append_text name " has no vswitches - status not ready"))),
            p,
          )
          else let (listed, p') = list api now p in
            elim listed [
              | err e ↦
                  (err (list_types_failed (append_text "failed to list instance types: " e)), p')
              | ok its ↦ (types_result settings requirements node_class.status.vswitches its, p')
            ]
    ]
