-- ===== src/Witnesses/Types.antt =====
-- Examples for the instance types and their offerings.
use mathlib.Core.List.{Memᴰ}
use karpenter_provider_aliba.Prelude.{
  All, List, Option, String, [], arith, decimal, false, has_prefix, insert, lookup, member, negsuc,
  none, ok, pos, refl, some, split_dots, str_eq, true, ℤ, ◌+◌, ◌-ℤ◌, ◌/◌, ◌∷◌, ◌≡◌,
}
use karpenter_provider_aliba.InstanceTypes.{InstanceType, ZoneInfo}
use karpenter_provider_aliba.InstanceTypes.Capacity.{
  ResourceList, calculate_capacity_and_allocatable, calculate_overhead, new_quantity, resource_cpu,
  split_overhead,
}
use karpenter_provider_aliba.InstanceTypes.Capacity.Reserved.{core_type-reserved_cpu, reserved}
use karpenter_provider_aliba.InstanceTypes.Convert.{EcsInstanceType, convert_ecs_instance_type}
use karpenter_provider_aliba.InstanceTypes.Filter.{
  convert_requirements, filter_instance_types_by_requirements, it_in, matches_all,
  matches_requirement, matches_string_requirement,
}
use karpenter_provider_aliba.InstanceTypes.Inventory.{AvailableZone, inventory_of, or_empty}
use karpenter_provider_aliba.InstanceTypes.Inventory.Seen.{
  stock_at, stock_at-inventory_of, zones_say,
}
use karpenter_provider_aliba.InstanceTypes.Labels.{resolved_labels}
use karpenter_provider_aliba.InstanceTypes.Labels.Consistent.{
  matches_requirement-resolved_labels, resolved_keys,
}
use karpenter_provider_aliba.InstanceTypes.Listing.{it_zones, listed_types}
use karpenter_provider_aliba.InstanceTypes.Offerings.{
  CoreInstanceType, TypeSettings, available_zones_of, offered_types, types_result,
}
use karpenter_provider_aliba.InstanceTypes.Offerings.Dropped.{
  IsOutOfStock, types_result-dropped, zones_required,
}
use karpenter_provider_aliba.InstanceTypes.Offerings.Known.{
  find_type, instance_type_not_found, types_result-known,
}
use karpenter_provider_aliba.InstanceTypes.Offerings.Stocked.{find_offering, region_has}
use karpenter_provider_aliba.Launch.Requirements.{Requirement, zone_of}
use karpenter_provider_aliba.NodeClass.Labels.{
  label_instance_cpu, label_instance_family, label_instance_memory,
}
use karpenter_provider_aliba.Utils.Capacity.{kube_architecture}
use karpenter_provider_aliba.Utils.Tags.{tag_value}
use karpenter_provider_aliba.Witnesses.Data.{vswitch_a}

-- One entry of an answer about one zone.
abbrev zone_answer : String → String → String → Option AvailableZone
zone_answer zone it status = some (record {
  zone_id = some zone;
  available_resources = some (
      some (record {
        resource_type = some "InstanceType";
        supported_resources =
            some (some (record { value = some it; status_category = some status }) ∷ []);
      })
      ∷ []);
})

abbrev on_demand_answer : Option (List (Option AvailableZone))
on_demand_answer = some (
    zone_answer "cn-hangzhou-a" "ecs.g7.large" "WithoutStock"
    ∷ zone_answer "cn-hangzhou-b" "ecs.g7.large" "WithStock"
    ∷ none
    ∷ [])

abbrev spot_answer : Option (List (Option AvailableZone))
spot_answer = some (zone_answer "cn-hangzhou-a" "ecs.g7.large" "SoldOut" ∷ [])

abbrev sample_zones : List (String × ZoneInfo)
sample_zones =
    ("cn-hangzhou-a", record { available = true; capacity_types = []; known_capacity_types = [] })
    ∷ []

abbrev pub large_type : EcsInstanceType
large_type = record {
  instance_type_id = some "ecs.g7.large";
  instance_type_family = some "ecs.g7";
  cpu_core_count = some (pos 2);
  memory_size = some 8192;
  cpu_architecture = some "X86";
  gpu_amount = none;
  gpu_spec = none;
  eni_quantity = some (pos 3);
  eni_private_ip_address_quantity = some (pos 6);
}

abbrev large_listed : InstanceType
large_listed = record {
  name = "ecs.g7.large";
  architecture = "amd64";
  cpu = some (pos 2);
  memory = some (pos 8589934592);
  storage = some (pos 0);
  gpu = none;
  zones =
      (
        "cn-hangzhou-a",
        record { available = false; capacity_types = []; known_capacity_types = "on-demand" ∷ [] },
      )
      ∷ [];
  eni_quantity = pos 3;
  eni_private_ip_address_quantity = pos 6;
}

abbrev round_up : ℤ → ℤ
round_up (pos n) = pos ((n + 999) / 1000)
round_up (negsuc n) = negsuc n

abbrev sample_settings : TypeSettings
sample_settings = record {
  quantities = record {
    parse_quantity = λ s. none;
    value = round_up;
    ceil_percent = λ percent bytes. pos 0;
  };
  overhead_options = record { vm_memory_overhead_percent = 0; vm_memory_overhead = "100Mi" };
  network = none;
  region = "cn-hangzhou";
}

stock_at-inventory_of_example :
    (lookup "on-demand"
        (stock_at "ecs.g7.large" "cn-hangzhou-b" (inventory_of on_demand_answer spot_answer))
      ≡ zones_say "ecs.g7.large" "cn-hangzhou-b" (or_empty on_demand_answer))
    × (lookup "spot"
          (stock_at "ecs.g7.large" "cn-hangzhou-b" (inventory_of on_demand_answer spot_answer))
        ≡ zones_say "ecs.g7.large" "cn-hangzhou-b" (or_empty spot_answer))
    × ((other : String)
        → str_eq "on-demand" other ≡ false
        → str_eq "spot" other ≡ false
        → lookup other
            (stock_at "ecs.g7.large" "cn-hangzhou-b" (inventory_of on_demand_answer spot_answer))
          ≡ none)
stock_at-inventory_of_example =
    stock_at-inventory_of "ecs.g7.large" "cn-hangzhou-b" on_demand_answer spot_answer

large_converted :
    convert_ecs_instance_type large_type
      (it_zones "ecs.g7.large" (some (inventory_of on_demand_answer spot_answer)) sample_zones)
    ≡ some large_listed
unfolding convert_ecs_instance_type it_zones inventory_of lookup kube_architecture
large_converted = refl

known_without_stock :
    lookup "on-demand"
      (stock_at "ecs.g7.large" "cn-hangzhou-a" (inventory_of on_demand_answer spot_answer))
    ≡ some false
unfolding inventory_of lookup
known_without_stock = refl

in_region : region_has "cn-hangzhou-a" sample_zones ≡ true
unfolding region_has
in_region = refl

in_vswitches : member "cn-hangzhou-a" (available_zones_of (vswitch_a ∷ [])) ≡ true
unfolding member zone_of
in_vswitches = refl

large_meets : matches_all "cn-hangzhou" large_listed (convert_requirements []) ≡ true
unfolding matches_all convert_requirements
large_meets = refl

types_result-known_example :
    (offered : List CoreInstanceType) × (c : CoreInstanceType) × (types_result sample_settings []
        (vswitch_a ∷ [])
        (listed_types sample_zones
          (some (inventory_of on_demand_answer spot_answer))
          (some large_type ∷ []))
      ≡ ok offered)
    × (find_type "ecs.g7.large" offered ≡ some c)
    × (find_offering "cn-hangzhou-a" "on-demand" c.offerings ≡ some false)
    × (instance_type_not_found "ecs.g7.large" "cn-hangzhou-a" "on-demand" offered ≡ false)
types_result-known_example =
    types_result-known sample_settings sample_zones on_demand_answer spot_answer
      (some large_type ∷ []) [] (vswitch_a ∷ []) large_type large_listed "ecs.g7.large"
      "cn-hangzhou-a" "on-demand" false (Memᴰ.head refl) refl large_converted large_meets in_region
      in_vswitches known_without_stock

-- Another instance type that has stock in the zone.
abbrev both_answer : Option (List (Option AvailableZone))
both_answer = some (
    zone_answer "cn-hangzhou-a" "ecs.g7.large" "WithoutStock"
    ∷ zone_answer "cn-hangzhou-a" "ecs.c7.large" "WithStock"
    ∷ [])

abbrev compute_type : EcsInstanceType
compute_type = record {
  instance_type_id = some "ecs.c7.large";
  instance_type_family = some "ecs.c7";
  cpu_core_count = some (pos 2);
  memory_size = some 4096;
  cpu_architecture = none;
  gpu_amount = none;
  gpu_spec = none;
  eni_quantity = none;
  eni_private_ip_address_quantity = none;
}

abbrev both_types : List (Option EcsInstanceType)
both_types = some large_type ∷ none ∷ some compute_type ∷ []

abbrev zone_a_only : List Requirement
zone_a_only = zones_required ("cn-hangzhou-a" ∷ []) ∷ []

abbrev offered_in_a : List CoreInstanceType
offered_in_a = offered_types sample_settings (available_zones_of (vswitch_a ∷ [])) (
    filter_instance_types_by_requirements "cn-hangzhou"
      (listed_types sample_zones (some (inventory_of both_answer none)) both_types) zone_a_only)

offered_in_a_only :
    types_result sample_settings zone_a_only
      (vswitch_a ∷ [])
      (listed_types sample_zones (some (inventory_of both_answer none)) both_types)
    ≡ ok offered_in_a
unfolding types_result inventory_of listed_types lookup kube_architecture
offered_in_a_only = refl

IsOutOfStock-large : IsOutOfStock (inventory_of both_answer none) "ecs.g7.large" "cn-hangzhou-a"
unfolding inventory_of lookup
IsOutOfStock-large ct h = ground arith

types_result-dropped_example :
    instance_type_not_found "ecs.g7.large" "cn-hangzhou-a" "on-demand" offered_in_a ≡ true
types_result-dropped_example =
    types_result-dropped sample_settings sample_zones both_answer none both_types zone_a_only
      (vswitch_a ∷ []) "ecs.g7.large" ("cn-hangzhou-a" ∷ []) offered_in_a (Memᴰ.head refl)
      (IsOutOfStock-large, tt) offered_in_a_only "cn-hangzhou-a" "on-demand"

core_type-reserved_cpu_example :
    (reserved resource_cpu (
        split_overhead sample_settings.quantities (
          calculate_overhead sample_settings.quantities sample_settings.overhead_options
            large_listed))
      ≡ pos 0)
    × (capacity : ResourceList) × (allocatable : ResourceList) × (calculate_capacity_and_allocatable
          sample_settings.quantities sample_settings.overhead_options none large_listed
        ≡ some (capacity, allocatable))
    × (lookup resource_cpu capacity ≡ some (new_quantity (pos 2)))
    × (lookup resource_cpu allocatable ≡ some (new_quantity (pos 2) -ℤ pos 100))
core_type-reserved_cpu_example =
    core_type-reserved_cpu sample_settings.quantities sample_settings.overhead_options none
      large_listed (pos 2) (pos 8589934592) (λ n. refl) refl refl

matches_requirement-resolved_labels_example :
    All
      (λ key.
        matches_requirement "cn-hangzhou" large_listed
          (record { key = key; operator = it_in; values = "g7" ∷ "2" ∷ [] })
        ≡ matches_string_requirement
            (tag_value key (resolved_labels (some large_listed)))
            it_in
            ("g7" ∷ "2" ∷ []))
      resolved_keys
matches_requirement-resolved_labels_example =
    matches_requirement-resolved_labels "cn-hangzhou" large_listed it_in ("g7" ∷ "2" ∷ [])

-- The family and the cores of "ecs.g7.large" with 2 cores.
labels_test :
    (tag_value label_instance_family (resolved_labels (some large_listed)) ≡ "g7")
    × (tag_value label_instance_cpu (resolved_labels (some large_listed)) ≡ "2")
    × (tag_value label_instance_memory (resolved_labels (some large_listed)) ≡ "8192")
unfolding tag_value resolved_labels has_prefix split_dots decimal lookup insert
labels_test = (refl, refl, refl)
