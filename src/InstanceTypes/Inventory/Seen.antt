-- ===== src/InstanceTypes/Inventory/Seen.antt =====
-- What an inventory says of one instance type in one zone, against a reading of the answers of ECS.
use karpenter_provider_aliba.Prelude.{
  Bool, List, Option, Option-cases, String, [], ap, arith, false, if◌then◌else◌, inl, inr, insert,
  lookup, lookup-insert, none, not, refl, some, str_eq, str_eq_iff, sym, true, ◌&&◌, ◌||◌, ◌∙◌, ◌∷◌,
  ◌≡◌,
}
use karpenter_provider_aliba.InstanceTypes.Inventory.{
  AvailableResource, AvailableZone, CapacityTypes, Stock, SupportedResource, has_stock_status,
  inventory_of, is_instance_type, is_without_stock, or_empty, record_all_supported,
  record_resources, record_stock, record_supported, record_zones, upgrade,
}
use karpenter_provider_aliba.Utils.Capacity.{capacity_type_on_demand, capacity_type_spot}

-- The capacity types of an instance type in a zone.
abbrev pub stock_at : String → String → Stock → CapacityTypes
stock_at it zone inventory = or_empty (lookup zone (or_empty (lookup it inventory)))

-- What two entries say together: stock, where one of them has stock.
abbrev pub either_stock : Option Bool → Option Bool → Option Bool
either_stock none o = o
either_stock (some a) none = some a
either_stock (some a) (some b) = some (a || b)

-- What one entry of an answer says of an instance type.
abbrev pub supported_says : String → Option SupportedResource → Option Bool
supported_says it none = none
supported_says it (some sr) = elim sr.value [
  | none ↦ none
  | some value ↦ elim sr.status_category [
    | none ↦ none
    | some status ↦
        if str_eq value it && (has_stock_status status || is_without_stock status)
        then some (has_stock_status status)
        else none
  ]
]

pub all_supported_say : String → List (Option SupportedResource) → Option Bool
all_supported_say it [] = none
all_supported_say it (sr ∷ srs) = either_stock (supported_says it sr) (all_supported_say it srs)

pub resources_say : String → List (Option AvailableResource) → Option Bool
unfolding all_supported_say
resources_say it [] = none
resources_say it (none ∷ ars) = resources_say it ars
resources_say it (some ar ∷ ars) =
    either_stock
      (if is_instance_type ar.resource_type
        then all_supported_say it (or_empty ar.supported_resources)
        else none)
      (resources_say it ars)

abbrev pub zone_says : String → String → AvailableZone → Option Bool
zone_says it zone az = elim az.zone_id [
  | none ↦ none
  | some id ↦ if str_eq id zone then resources_say it (or_empty az.available_resources) else none
]

-- What the answer to one query says of an instance type in a zone.
pub zones_say : String → String → List (Option AvailableZone) → Option Bool
unfolding resources_say
zones_say it zone [] = none
zones_say it zone (none ∷ azs) = zones_say it zone azs
zones_say it zone (some az ∷ azs) = either_stock (zone_says it zone az) (zones_say it zone azs)

either_stock_assoc :
    (a b c : Option Bool) → either_stock (either_stock a b) c ≡ either_stock a (either_stock b c)
either_stock_assoc a b c = ground arith

lookup-upgrade :
    (set read : String) (has : Bool) (types : CapacityTypes)
    → lookup read (upgrade set has types)
      ≡ (if str_eq set read then either_stock (lookup read types) (some has) else lookup read types)
unfolding upgrade
lookup-upgrade set read has types =
    ground (arith, lookup-insert set read has types, str_eq_iff set read)

pub stock_at-record_stock :
    (id z ct : String) (has : Bool) (inventory : Stock) (it zone : String)
    → stock_at it zone (record_stock id z ct has inventory) ≡ (
        if str_eq id it && str_eq z zone
        then upgrade ct has (stock_at it zone inventory)
        else stock_at it zone inventory)
unfolding record_stock
stock_at-record_stock id z ct has inventory it zone =
    let zones = or_empty (lookup id inventory) in
    let types = upgrade ct has (or_empty (lookup z zones)) in
    rw (lookup-insert id it (insert z types zones) inventory)
      (ground (arith, lookup-insert z zone types zones, str_eq_iff id it, str_eq_iff z zone))

abbrev told : Bool → Option Bool → Option Bool
told true o = o
told false o = none

either_stock-none : (o : Option Bool) → either_stock o none ≡ o
either_stock-none none = refl
either_stock-none (some a) = refl

-- What is told by a part, and then by the rest.
told-either_stock :
    (b : Bool) (old first rest : Option Bool)
    → either_stock (either_stock old (told b first)) (told b rest)
      ≡ either_stock old (told b (either_stock first rest))
told-either_stock true old first rest = either_stock_assoc old first rest
told-either_stock false old first rest = either_stock-none (either_stock old none)

module _ (it zone read : String) where
  -- What the inventory says of one capacity type.
  abbrev view : Stock → Option Bool
  view inventory = lookup read (stock_at it zone inventory)

  view-record_stock :
      (ct z id : String) (has : Bool) (inventory : Stock)
      → view (record_stock id z ct has inventory)
        ≡ either_stock
            (view inventory)
            (told (str_eq ct read && str_eq z zone) (if str_eq id it then some has else none))
  view-record_stock ct z id has inventory =
      rw (stock_at-record_stock id z ct has inventory it zone) (
        ground (
          arith,
          lookup-upgrade ct read has (stock_at it zone inventory),
          either_stock-none (view inventory),
        ))

  nothing_told : (b : Bool) (old : Option Bool) → old ≡ either_stock old (told b none)
  nothing_told true old = sym (either_stock-none old)
  nothing_told false old = sym (either_stock-none old)

  view-status :
      (ct z id : String) (has without : Bool) (inventory : Stock)
      → view (if not has && not without then inventory else record_stock id z ct has inventory)
        ≡ either_stock (view inventory) (
            told
              (str_eq ct read && str_eq z zone)
              (if str_eq id it && (has || without) then some has else none))
  view-status ct z id true without inventory =
      view-record_stock ct z id true inventory ∙ ground arith
  view-status ct z id false true inventory =
      view-record_stock ct z id false inventory ∙ ground arith
  view-status ct z id false false inventory =
      ground (arith, nothing_told (str_eq ct read && str_eq z zone) (view inventory))

  view-record_supported :
      (ct z : String) (sr : Option SupportedResource) (inventory : Stock)
      → view (record_supported ct z sr inventory)
        ≡ either_stock
            (view inventory)
            (told (str_eq ct read && str_eq z zone) (supported_says it sr))
  unfolding record_supported
  view-record_supported ct z none inventory =
      nothing_told (str_eq ct read && str_eq z zone) (view inventory)
  view-record_supported ct z (some sr) inventory = elim (Option-cases sr.value) [
    | inl n ↦ rw n (nothing_told (str_eq ct read && str_eq z zone) (view inventory))
    | inr (id, v) ↦ elim (Option-cases sr.status_category) [
      | inl n ↦ rw (v, n) (nothing_told (str_eq ct read && str_eq z zone) (view inventory))
      | inr (status, w) ↦
          rw (v, w)
            (view-status ct z id (has_stock_status status) (is_without_stock status) inventory)
    ]
  ]

  view-record_all_supported :
      (ct z : String) (srs : List (Option SupportedResource)) (inventory : Stock)
      → view (record_all_supported ct z srs inventory)
        ≡ either_stock
            (view inventory)
            (told (str_eq ct read && str_eq z zone) (all_supported_say it srs))
  unfolding record_all_supported all_supported_say
  view-record_all_supported ct z [] inventory =
      nothing_told (str_eq ct read && str_eq z zone) (view inventory)
  view-record_all_supported ct z (sr ∷ srs) inventory =
      view-record_all_supported ct z srs (record_supported ct z sr inventory)
      ∙ (ap
            (λ o.
              either_stock o (told (str_eq ct read && str_eq z zone) (all_supported_say it srs)))
            (view-record_supported ct z sr inventory)
          ∙ told-either_stock (str_eq ct read && str_eq z zone) (view inventory)
              (supported_says it sr) (all_supported_say it srs))

  view-record_resources :
      (ct z : String) (ars : List (Option AvailableResource)) (inventory : Stock)
      → view (record_resources ct z ars inventory)
        ≡ either_stock
            (view inventory)
            (told (str_eq ct read && str_eq z zone) (resources_say it ars))
  unfolding record_resources resources_say
  view-record_resources ct z [] inventory =
      nothing_told (str_eq ct read && str_eq z zone) (view inventory)
  view-record_resources ct z (none ∷ ars) inventory = view-record_resources ct z ars inventory
  view-record_resources ct z (some ar ∷ ars) inventory =
      let here =
        if is_instance_type ar.resource_type
        then record_all_supported ct z (or_empty ar.supported_resources) inventory
        else inventory in
      let says : Option Bool =
        if is_instance_type ar.resource_type
        then all_supported_say it (or_empty ar.supported_resources)
        else none in
      view-record_resources ct z ars here
      ∙ (ap (λ o. either_stock o (told (str_eq ct read && str_eq z zone) (resources_say it ars)))
            (step (is_instance_type ar.resource_type))
          ∙ told-either_stock (str_eq ct read && str_eq z zone) (view inventory) says
              (resources_say it ars))
    where
      step :
          (b : Bool)
          → view (
              if b
              then record_all_supported ct z (or_empty ar.supported_resources) inventory
              else inventory)
            ≡ either_stock (view inventory) (
                told
                  (str_eq ct read && str_eq z zone)
                  (if b then all_supported_say it (or_empty ar.supported_resources) else none))
      step true = view-record_all_supported ct z (or_empty ar.supported_resources) inventory
      step false = nothing_told (str_eq ct read && str_eq z zone) (view inventory)

  view-record_zones :
      (ct : String) (azs : List (Option AvailableZone)) (inventory : Stock)
      → view (record_zones ct azs inventory)
        ≡ either_stock (view inventory) (told (str_eq ct read) (zones_say it zone azs))
  unfolding record_zones zones_say
  view-record_zones ct [] inventory = nothing_told (str_eq ct read) (view inventory)
  view-record_zones ct (none ∷ azs) inventory = view-record_zones ct azs inventory
  view-record_zones ct (some az ∷ azs) inventory =
      view-record_zones ct azs (after az.zone_id)
      ∙ (ap (λ o. either_stock o (told (str_eq ct read) (zones_say it zone azs))) (step az.zone_id)
          ∙ told-either_stock (str_eq ct read) (view inventory) (zone_says it zone az)
              (zones_say it zone azs))
    where
      after : Option String → Stock
      after none = inventory
      after (some id) = record_resources ct id (or_empty az.available_resources) inventory

      joint : (a b : Bool) (o : Option Bool) → told (a && b) o ≡ told a (if b then o else none)
      joint true true o = refl
      joint true false o = refl
      joint false b o = refl

      step :
          (id : Option String)
          → view (after id)
            ≡ either_stock (view inventory) (
                told (str_eq ct read) (elim id [
                  | none ↦ none
                  | some z ↦
                      if str_eq z zone
                      then resources_say it (or_empty az.available_resources)
                      else none
                ]))
      step none = nothing_told (str_eq ct read) (view inventory)
      step (some z) =
          view-record_resources ct z (or_empty az.available_resources) inventory
          ∙ ap (either_stock (view inventory)) (
              joint (str_eq ct read) (str_eq z zone)
                (resources_say it (or_empty az.available_resources)))

-- The inventory says of each instance type, zone and capacity type what the answers of ECS say: nothing,
-- if no entry with a known status names them; else whether one of these entries has stock. Only
-- on-demand and spot capacity are in it, each from the answer to its own query.
pub stock_at-inventory_of :
    (it zone : String) (on_demand spot : Option (List (Option AvailableZone)))
    → (lookup capacity_type_on_demand (stock_at it zone (inventory_of on_demand spot))
        ≡ zones_say it zone (or_empty on_demand))
      × (lookup capacity_type_spot (stock_at it zone (inventory_of on_demand spot))
          ≡ zones_say it zone (or_empty spot))
      × ((other : String)
          → str_eq capacity_type_on_demand other ≡ false
          → str_eq capacity_type_spot other ≡ false
          → lookup other (stock_at it zone (inventory_of on_demand spot)) ≡ none)
unfolding inventory_of lookup
stock_at-inventory_of it zone on_demand spot = (
  told_by capacity_type_on_demand ∙ either_stock-none (zones_say it zone (or_empty on_demand)),
  told_by capacity_type_spot,
  λ other h k. told_by other ∙ rw (h, k) refl,
)
  where
    told_by :
        (read : String)
        → lookup read (stock_at it zone (inventory_of on_demand spot))
          ≡ either_stock
              (told (str_eq capacity_type_on_demand read) (zones_say it zone (or_empty on_demand)))
              (told (str_eq capacity_type_spot read) (zones_say it zone (or_empty spot)))
    told_by read =
        let first = record_zones capacity_type_on_demand (or_empty on_demand) [] in
        view-record_zones it zone read capacity_type_spot (or_empty spot) first
        ∙ ap
            (λ o.
              either_stock o
                (told (str_eq capacity_type_spot read) (zones_say it zone (or_empty spot))))
            (view-record_zones it zone read capacity_type_on_demand (or_empty on_demand) [])
