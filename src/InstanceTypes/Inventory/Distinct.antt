-- ===== src/InstanceTypes/Inventory/Distinct.antt =====
-- Every map of capacity types in an inventory has each capacity type once.
use karpenter_provider_aliba.Prelude.{
  Bool, Distinct, List, Option, String, [], if_intro, if◌then◌else◌, insert, insert-Distinct, keys,
  lookup, none, not, some, str_eq, ◌&&◌, ◌∷◌,
}
use karpenter_provider_aliba.InstanceTypes.Inventory.{
  AvailableResource, AvailableZone, CapacityTypes, Stock, SupportedResource, has_stock_status,
  inventory_of, is_instance_type, is_without_stock, or_empty, record_all_supported,
  record_resources, record_stock, record_supported, record_zones, upgrade,
}
use karpenter_provider_aliba.InstanceTypes.Inventory.Seen.{stock_at, stock_at-record_stock}
use karpenter_provider_aliba.Utils.Capacity.{capacity_type_on_demand, capacity_type_spot}

module _ {ℓ} (P : Stock → Type ℓ)
    (record_keeps : (id z ct : String) (has : Bool) (inventory : Stock)
      → P inventory
      → P (record_stock id z ct has inventory)) where
  record_supported-keeps :
      (ct z : String) (sr : Option SupportedResource) (inventory : Stock)
      → P inventory
      → P (record_supported ct z sr inventory)
  unfolding record_supported
  record_supported-keeps ct z none inventory p = p
  record_supported-keeps ct z (some sr) inventory p = entry sr.value sr.status_category
    where
      entry :
          (value status : Option String)
          → P (elim value [
            | none ↦ inventory
            | some it_id ↦ elim status [
              | none ↦ inventory
              | some s ↦
                  if not (has_stock_status s) && not (is_without_stock s)
                  then inventory
                  else record_stock it_id z ct (has_stock_status s) inventory
            ]
          ])
      entry none status = p
      entry (some id) none = p
      entry (some id) (some s) =
          if_intro P (not (has_stock_status s) && not (is_without_stock s)) _ _ (λ h. p)
            λ h. record_keeps id z ct (has_stock_status s) inventory p

  record_all_supported-keeps :
      (ct z : String) (srs : List (Option SupportedResource)) (inventory : Stock)
      → P inventory
      → P (record_all_supported ct z srs inventory)
  unfolding record_all_supported
  record_all_supported-keeps ct z [] inventory p = p
  record_all_supported-keeps ct z (sr ∷ srs) inventory p =
      record_all_supported-keeps ct z srs (record_supported ct z sr inventory)
        (record_supported-keeps ct z sr inventory p)

  record_resources-keeps :
      (ct z : String) (ars : List (Option AvailableResource)) (inventory : Stock)
      → P inventory
      → P (record_resources ct z ars inventory)
  unfolding record_resources
  record_resources-keeps ct z [] inventory p = p
  record_resources-keeps ct z (none ∷ ars) inventory p = record_resources-keeps ct z ars inventory p
  record_resources-keeps ct z (some ar ∷ ars) inventory p = record_resources-keeps ct z ars _ (
      if_intro P (is_instance_type ar.resource_type) _ _
        (λ h. record_all_supported-keeps ct z (or_empty ar.supported_resources) inventory p) λ h. p)

  record_zones-keeps :
      (ct : String) (azs : List (Option AvailableZone)) (inventory : Stock)
      → P inventory
      → P (record_zones ct azs inventory)
  unfolding record_zones
  record_zones-keeps ct [] inventory p = p
  record_zones-keeps ct (none ∷ azs) inventory p = record_zones-keeps ct azs inventory p
  record_zones-keeps ct (some az ∷ azs) inventory p = record_zones-keeps ct azs _ (after az.zone_id)
    where
      after :
          (id : Option String)
          → P (elim id [
            | none ↦ inventory
            | some z ↦ record_resources ct z (or_empty az.available_resources) inventory
          ])
      after none = p
      after (some z) = record_resources-keeps ct z (or_empty az.available_resources) inventory p

abbrev HasDistinctKeys : CapacityTypes → Type 0
HasDistinctKeys types = Distinct (keys types)

upgrade-Distinct :
    (ct : String) (has : Bool) (types : CapacityTypes)
    → Distinct (keys types)
    → Distinct (keys (upgrade ct has types))
unfolding upgrade
upgrade-Distinct ct has types d = entry (lookup ct types)
  where
    entry :
        (o : Option Bool)
        → HasDistinctKeys (elim o [
          | none ↦ insert ct has types
          | some existing ↦ if not existing && has then insert ct has types else types
        ])
    entry none = insert-Distinct ct has types d
    entry (some existing) =
        if_intro HasDistinctKeys (not existing && has) _ _ (λ h. insert-Distinct ct has types d)
          λ h. d

abbrev pub HasDistinctTypes : Stock → Type 0
HasDistinctTypes inventory = (it zone : String) → Distinct (keys (stock_at it zone inventory))

record_stock-Distinct :
    (id z ct : String) (has : Bool) (inventory : Stock)
    → HasDistinctTypes inventory
    → HasDistinctTypes (record_stock id z ct has inventory)
record_stock-Distinct id z ct has inventory d it zone =
    rw (stock_at-record_stock id z ct has inventory it zone) (
      if_intro (λ m. Distinct (keys m)) (str_eq id it && str_eq z zone) _ _
        (λ h. upgrade-Distinct ct has (stock_at it zone inventory) (d it zone)) λ h. d it zone)

pub inventory_of-Distinct :
    (on_demand spot : Option (List (Option AvailableZone)))
    → HasDistinctTypes (inventory_of on_demand spot)
unfolding inventory_of lookup
inventory_of-Distinct on_demand spot =
    record_zones-keeps HasDistinctTypes record_stock-Distinct capacity_type_spot (or_empty spot) _ (
      record_zones-keeps HasDistinctTypes record_stock-Distinct capacity_type_on_demand
        (or_empty on_demand) [] (λ it zone. tt))
