-- ===== src/InstanceTypes/Inventory.antt =====
-- The loops of `getInventory` of pkg/providers/instancetype/instancetype.go over the answers of
-- `DescribeAvailableResource`. A pointer of the SDK is an `Option`; the response, its body and its list
-- of zones are one `Option`.
pub mod Seen
pub mod Distinct
use karpenter_provider_aliba.Prelude.{
  Bool, List, Option, String, [], false, if◌then◌else◌, insert, lookup, none, not, some, str_eq,
  ◌&&◌, ◌||◌, ◌∷◌,
}
use karpenter_provider_aliba.Utils.Capacity.{capacity_type_on_demand, capacity_type_spot}

pub record SupportedResource : Type 0 where
  pub value : Option String
  pub status_category : Option String

pub record AvailableResource : Type 0 where
  pub resource_type : Option String
  pub supported_resources : Option (List (Option SupportedResource))

pub record AvailableZone : Type 0 where
  pub zone_id : Option String
  pub available_resources : Option (List (Option AvailableResource))

abbrev pub stock_status_with_stock : String
stock_status_with_stock = "WithStock"

abbrev pub stock_status_closed_with_stock : String
stock_status_closed_with_stock = "ClosedWithStock"

abbrev pub stock_status_without_stock : String
stock_status_without_stock = "WithoutStock"

abbrev pub stock_status_closed_without_stock : String
stock_status_closed_without_stock = "ClosedWithoutStock"

-- Whether each capacity type has stock, by zone, by instance type.
abbrev pub CapacityTypes : Type 0
CapacityTypes = List (String × Bool)

abbrev pub ZoneStock : Type 0
ZoneStock = List (String × CapacityTypes)

abbrev pub Stock : Type 0
Stock = List (String × ZoneStock)

-- A map that is nil reads as an empty one.
abbrev pub or_empty {ℓ} : {A : Type ℓ} → Option (List A) → List A
or_empty none = []
or_empty (some xs) = xs

-- A capacity type with stock is not downgraded by a later entry.
unfoldable pub upgrade : String → Bool → CapacityTypes → CapacityTypes
unfolding lookup insert
upgrade capacity_type has_stock types = elim (lookup capacity_type types) [
  | none ↦ insert capacity_type has_stock types
  | some existing ↦
      if not existing && has_stock then insert capacity_type has_stock types else types
]

-- The entry of one instance type in one zone.
unfoldable pub record_stock : String → String → String → Bool → Stock → Stock
unfolding upgrade
record_stock it_id zone_id capacity_type has_stock inventory =
    let zones = or_empty (lookup it_id inventory) in
    let types = or_empty (lookup zone_id zones) in
    insert it_id (insert zone_id (upgrade capacity_type has_stock types) zones) inventory

abbrev pub has_stock_status : String → Bool
has_stock_status status =
    str_eq status stock_status_with_stock || str_eq status stock_status_closed_with_stock

abbrev pub is_without_stock : String → Bool
is_without_stock status =
    str_eq status stock_status_without_stock || str_eq status stock_status_closed_without_stock

-- The body of the innermost loop.
unfoldable pub record_supported : String → String → Option SupportedResource → Stock → Stock
unfolding record_stock
record_supported capacity_type zone_id none inventory = inventory
record_supported capacity_type zone_id (some sr) inventory = elim sr.value [
  | none ↦ inventory
  | some it_id ↦ elim sr.status_category [
    | none ↦ inventory
    | some status ↦
        if not (has_stock_status status) && not (is_without_stock status)
        then inventory
        else record_stock it_id zone_id capacity_type (has_stock_status status) inventory
  ]
]

unfoldable pub record_all_supported :
    String → String → List (Option SupportedResource) → Stock → Stock
unfolding record_supported
record_all_supported capacity_type zone_id [] inventory = inventory
record_all_supported capacity_type zone_id (sr ∷ srs) inventory =
    record_all_supported capacity_type zone_id srs
      (record_supported capacity_type zone_id sr inventory)

abbrev pub is_instance_type : Option String → Bool
is_instance_type none = false
is_instance_type (some t) = str_eq t "InstanceType"

unfoldable pub record_resources : String → String → List (Option AvailableResource) → Stock → Stock
unfolding record_all_supported
record_resources capacity_type zone_id [] inventory = inventory
record_resources capacity_type zone_id (none ∷ ars) inventory =
    record_resources capacity_type zone_id ars inventory
record_resources capacity_type zone_id (some ar ∷ ars) inventory =
    record_resources capacity_type zone_id ars (
      if is_instance_type ar.resource_type
      then record_all_supported capacity_type zone_id (or_empty ar.supported_resources) inventory
      else inventory)

unfoldable pub record_zones : String → List (Option AvailableZone) → Stock → Stock
unfolding record_resources
record_zones capacity_type [] inventory = inventory
record_zones capacity_type (none ∷ azs) inventory = record_zones capacity_type azs inventory
record_zones capacity_type (some az ∷ azs) inventory =
    record_zones capacity_type azs (elim az.zone_id [
      | none ↦ inventory
      | some zone_id ↦
          record_resources capacity_type zone_id (or_empty az.available_resources) inventory
    ])

-- The loop over the two queries, each with its response.
unfoldable pub inventory_of :
    Option (List (Option AvailableZone)) → Option (List (Option AvailableZone)) → Stock
unfolding record_zones
inventory_of on_demand spot =
    record_zones capacity_type_spot (or_empty spot)
      (record_zones capacity_type_on_demand (or_empty on_demand) [])
