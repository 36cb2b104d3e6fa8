-- ===== src/InstanceTypes/Listing.antt =====
-- `List` of the instance type provider, pkg/providers/instancetype/instancetype.go, with its
-- cache. The API of ECS is a parameter, with a state `W` of the cloud; times are in seconds.
use karpenter_provider_aliba.Prelude.{
  List, Option, Outcome, String, [], append_text, err, if◌then◌else◌, insert, is_empty, keys,
  lookup, ltb, none, not, ok, remove, some, true, ℕ, ◌+◌, ◌∷◌,
}
use karpenter_provider_aliba.InstanceTypes.{InstanceType, ZoneInfo}
use karpenter_provider_aliba.InstanceTypes.Convert.{EcsInstanceType, convert_ecs_instance_type}
use karpenter_provider_aliba.InstanceTypes.Inventory.{
  AvailableZone, CapacityTypes, Stock, inventory_of,
}
use karpenter_provider_aliba.Utils.Capacity.{
  capacity_type_on_demand, capacity_type_spot, spot_strategy_as_price_go, spot_strategy_no_spot,
}

pub data CachedValue : Type 0 where
  zones_value : List (String × ZoneInfo) → CachedValue
  inventory_value : Stock → CachedValue
  types_value : List InstanceType → CachedValue
  type_value : Option InstanceType → CachedValue

pub record CacheEntry : Type 0 where
  pub value : CachedValue
  pub expires_at : ℕ

abbrev pub TypeCache : Type 0
TypeCache = List (String × CacheEntry)

abbrev pub cache_ttl_zones : ℕ
cache_ttl_zones = 7200

abbrev pub cache_ttl_inventory : ℕ
cache_ttl_inventory = 300

abbrev pub cache_ttl_instance_types : ℕ
cache_ttl_instance_types = 300

unfoldable pub get_cached_value : ℕ → String → TypeCache → Option CachedValue × TypeCache
unfolding lookup remove
get_cached_value now key cache = elim (lookup key cache) [
  | none ↦ (none, cache)
  | some entry ↦
      if ltb entry.expires_at now then (none, remove key cache) else (some entry.value, cache)
]

unfoldable pub set_cached_value : ℕ → ℕ → String → CachedValue → TypeCache → TypeCache
unfolding insert
set_cached_value now ttl key value cache =
    insert key (record { value = value; expires_at = now + ttl }) cache

-- The type assertions on a cached value.
abbrev pub as_zones : Option CachedValue → Option (List (String × ZoneInfo))
as_zones (some (zones_value zones)) = some zones
as_zones _ = none

abbrev pub as_inventory : Option CachedValue → Option Stock
as_inventory (some (inventory_value inventory)) = some inventory
as_inventory _ = none

abbrev pub as_types : Option CachedValue → Option (List InstanceType)
as_types (some (types_value types)) = some types
as_types _ = none

abbrev pub as_type : Option CachedValue → Option (Option InstanceType)
as_type (some (type_value it)) = some it
as_type _ = none

-- The capacity types that have stock.
unfoldable pub with_stock : CapacityTypes → List String
with_stock [] = []
with_stock ((ct, has_stock) ∷ types) =
    let rest = with_stock types in if has_stock then ct ∷ rest else rest

unfoldable pub zone_info_of : CapacityTypes → ZoneInfo
unfolding with_stock
zone_info_of types = record {
  available = not (is_empty (with_stock types));
  capacity_types = with_stock types;
  known_capacity_types = keys types;
}

-- What a zone offers while the inventory is unknown.
abbrev pub optimistic_zone : ZoneInfo
optimistic_zone = record {
  available = true;
  capacity_types = capacity_type_on_demand ∷ capacity_type_spot ∷ [];
  known_capacity_types = capacity_type_on_demand ∷ capacity_type_spot ∷ [];
}

-- What the inventory says of a zone of the region; `none` skips the zone.
unfoldable pub zone_offer : String → String → Option Stock → Option ZoneInfo
unfolding lookup zone_info_of
zone_offer it_id zone_id none = some optimistic_zone
zone_offer it_id zone_id (some inventory) = elim (lookup it_id inventory) [
  | none ↦ none
  | some inv_zones ↦ elim (lookup zone_id inv_zones) [
    | none ↦ none
    | some types ↦ some (zone_info_of types)
  ]
]

-- The loop that fills `itZones`. The keys of `zones` are distinct, so each makes an entry.
unfoldable pub it_zones :
    String → Option Stock → List (String × ZoneInfo) → List (String × ZoneInfo)
unfolding zone_offer
it_zones it_id inventory [] = []
it_zones it_id inventory ((zone_id, info) ∷ zones) =
    let rest = it_zones it_id inventory zones in
    if info.available
    then (elim (zone_offer it_id zone_id inventory) [
      | none ↦ rest
      | some offer ↦ (zone_id, offer) ∷ rest
    ])
    else rest

-- The body of the loop of `List` over the answer; `none` skips the instance type.
unfoldable pub listed_type :
    List (String × ZoneInfo) → Option Stock → Option EcsInstanceType → Option InstanceType
unfolding it_zones convert_ecs_instance_type
listed_type zones inventory none = none
listed_type zones inventory (some it) = elim it.instance_type_id [
  | none ↦ none
  | some it_id ↦
      if is_empty (it_zones it_id inventory zones)
      then none
      else convert_ecs_instance_type it (it_zones it_id inventory zones)
]

unfoldable pub listed_types :
    List (String × ZoneInfo) → Option Stock → List (Option EcsInstanceType) → List InstanceType
unfolding listed_type
listed_types zones inventory [] = []
listed_types zones inventory (it ∷ its) =
    let rest = listed_types zones inventory its in
    elim (listed_type zones inventory it) [ none ↦ rest | some listed ↦ listed ∷ rest ]

abbrev pub type_key : String → String
type_key name = append_text "instance-type-" name

-- The loop that caches each instance type by its name.
unfoldable pub cache_each : ℕ → List InstanceType → TypeCache → TypeCache
unfolding set_cached_value
cache_each now [] cache = cache
cache_each now (it ∷ its) cache =
    cache_each now its (
      set_cached_value now cache_ttl_instance_types (type_key it.name) (type_value (some it)) cache)

-- Each zone of the answer to `DescribeZones` is marked as available.
unfoldable pub zones_of : List String → List (String × ZoneInfo) → List (String × ZoneInfo)
unfolding insert
zones_of [] zones = zones
zones_of (zone_id ∷ ids) zones = zones_of ids (
    insert zone_id (record { available = true; capacity_types = []; known_capacity_types = [] })
      zones)

pub record TypesApi (W : Type 0) : Type 0 where
  pub describe_zones : W → Outcome String (List String) × W
  pub describe_available_resource :
      String → W → Outcome String (Option (List (Option AvailableZone))) × W
  pub describe_instance_types : List String → W → Outcome String (List (Option EcsInstanceType)) × W

pub record TypeProvider (W : Type 0) : Type 0 where
  pub cache : TypeCache
  pub cloud : W

module _ {W : Type 0} (api : TypesApi W) where
  -- `getAvailableZones` after the look into the cache.
  unfoldable pub fetch_zones :
      ℕ → TypeProvider W → Outcome String (List (String × ZoneInfo)) × TypeProvider W
  unfolding zones_of set_cached_value
  fetch_zones now p =
      let (response, w) = api.describe_zones p.cloud in
      elim response [
        | err e ↦ (
          err (append_text "failed to describe zones: " e),
          record { cache = p.cache; cloud = w },
        )
        | ok ids ↦ (
          ok (zones_of ids []),
          record {
            cache =
                set_cached_value now cache_ttl_zones "zones" (zones_value (zones_of ids []))
                  p.cache;
            cloud = w;
          },
        )
      ]

  unfoldable pub get_available_zones :
      ℕ → TypeProvider W → Outcome String (List (String × ZoneInfo)) × TypeProvider W
  unfolding fetch_zones get_cached_value
  get_available_zones now p =
      let (cached, cache) = get_cached_value now "zones" p.cache in
      let p' : TypeProvider W = record { cache = cache; cloud = p.cloud } in
      elim (as_zones cached) [ some zones ↦ (ok zones, p') | none ↦ fetch_zones now p' ]

  -- `getInventory` after the look into the cache: two queries, of which an error of either makes the
  -- inventory unknown.
  unfoldable pub fetch_inventory : ℕ → TypeProvider W → Option Stock × TypeProvider W
  unfolding inventory_of set_cached_value
  fetch_inventory now p =
      let (on_demand, w) = api.describe_available_resource spot_strategy_no_spot p.cloud in
      elim on_demand [
        | err e ↦ (none, record { cache = p.cache; cloud = w })
        | ok first ↦
            let (spot, w') = api.describe_available_resource spot_strategy_as_price_go w in
            elim spot [
              | err e ↦ (none, record { cache = p.cache; cloud = w' })
              | ok second ↦ (
                some (inventory_of first second),
                record {
                  cache =
                      set_cached_value now cache_ttl_inventory "inventory"
                        (inventory_value (inventory_of first second)) p.cache;
                  cloud = w';
                },
              )
            ]
      ]

  unfoldable pub get_inventory : ℕ → TypeProvider W → Option Stock × TypeProvider W
  unfolding fetch_inventory get_cached_value
  get_inventory now p =
      let (cached, cache) = get_cached_value now "inventory" p.cache in
      let p' : TypeProvider W = record { cache = cache; cloud = p.cloud } in
      elim (as_inventory cached) [
        | some inventory ↦ (some inventory, p')
        | none ↦ fetch_inventory now p'
      ]

  -- `List` once the zones and the inventory are there.
  unfoldable pub list_described :
      ℕ
      → List (String × ZoneInfo)
      → Option Stock × TypeProvider W
      → Outcome String (List InstanceType) × TypeProvider W
  unfolding listed_types cache_each set_cached_value
  list_described now zones (inventory, p) =
      let (response, w) = api.describe_instance_types [] p.cloud in
      elim response [
        | err e ↦ (
          err (append_text "failed to describe instance types: " e),
          record { cache = p.cache; cloud = w },
        )
        | ok its ↦ (
          ok (listed_types zones inventory its),
          record {
            cache = cache_each now (listed_types zones inventory its) (
                set_cached_value now cache_ttl_instance_types "instance-types"
                  (types_value (listed_types zones inventory its)) p.cache);
            cloud = w;
          },
        )
      ]

  unfoldable pub list_fresh :
      ℕ → TypeProvider W → Outcome String (List InstanceType) × TypeProvider W
  unfolding get_available_zones get_inventory list_described
  list_fresh now p =
      let (zones, p') = get_available_zones now p in
      elim zones [
        | err e ↦ (err (append_text "failed to get available zones: " e), p')
        | ok found ↦ list_described now found (get_inventory now p')
      ]

  -- `List`
  unfoldable pub list : ℕ → TypeProvider W → Outcome String (List InstanceType) × TypeProvider W
  unfolding list_fresh get_cached_value
  list now p =
      let (cached, cache) = get_cached_value now "instance-types" p.cache in
      let p' : TypeProvider W = record { cache = cache; cloud = p.cloud } in
      elim (as_types cached) [ some types ↦ (ok types, p') | none ↦ list_fresh now p' ]
