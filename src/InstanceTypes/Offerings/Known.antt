-- ===== src/InstanceTypes/Offerings/Known.antt =====
-- What GetInstanceTypes returns of an instance type that the inventory knows, and the check of
-- Karpenter's drift controller, as the comments of pkg/cloudprovider/cloudprovider.go describe it.
use mathlib.Core.List.{Memᴰ}
use karpenter_provider_aliba.Prelude.{
  All, Bool, Bool-cases, List, Option, Option-cases, String, [], ap, arith, false, if◌then◌else◌,
  inl, inr, is_empty, is_set, lookup, member, none, not, ok, refl, some, str_eq, str_eq_iff, sym,
  true, ◌&&◌, ◌∙◌, ◌∷◌, ◌≡◌,
}
use karpenter_provider_aliba.Instance.Api.{deref_string}
use karpenter_provider_aliba.Instance.Listing.Complete.{listed}
use karpenter_provider_aliba.InstanceTypes.{InstanceType, ZoneInfo}
use karpenter_provider_aliba.InstanceTypes.Capacity.{
  calculate_capacity_and_allocatable, capacity_of,
}
use karpenter_provider_aliba.InstanceTypes.Convert.{EcsInstanceType, convert_ecs_instance_type}
use karpenter_provider_aliba.InstanceTypes.Filter.{
  convert_requirements, filter_instance_types_by_requirements, matches_all,
}
use karpenter_provider_aliba.InstanceTypes.Inventory.{AvailableZone, inventory_of}
use karpenter_provider_aliba.InstanceTypes.Inventory.Distinct.{inventory_of-Distinct}
use karpenter_provider_aliba.InstanceTypes.Inventory.Seen.{stock_at}
use karpenter_provider_aliba.InstanceTypes.Listing.{it_zones, listed_type, listed_types}
use karpenter_provider_aliba.InstanceTypes.Offerings.{
  CoreInstanceType, Offering, TypeSettings, available_zones_of, core_type, offered_type,
  offered_types, offerings_in, types_result,
}
use karpenter_provider_aliba.InstanceTypes.Offerings.Exact.{
  IsExact, filter_types-FromStock, filter_types-Memᴰ, listed_types-FromStock, listed_types-Memᴰ,
  offered_type-fields, offered_types-IsExact, offered_types-Memᴰ,
}
use karpenter_provider_aliba.InstanceTypes.Offerings.Stocked.{
  find_offering, find_offering-it_zones, region_has,
}
use karpenter_provider_aliba.Launch.Requirements.{Requirement}
use karpenter_provider_aliba.NodeClass.{VSwitch}

-- `lo.Find` by name.
unfoldable pub find_type : String → List CoreInstanceType → Option CoreInstanceType
find_type name [] = none
find_type name (c ∷ cs) =
    let rest = find_type name cs in if str_eq c.name name then some c else rest

-- `instanceTypeNotFound`: no instance type of the name, or no offering for the zone and the capacity
-- type, available or not.
unfoldable pub instance_type_not_found : String → String → String → List CoreInstanceType → Bool
unfolding find_type find_offering
instance_type_not_found name zone ct types = elim (find_type name types) [
  | none ↦ true
  | some c ↦ not (is_set (find_offering zone ct c.offerings))
]

find_type-found :
    (P : CoreInstanceType → Type 0) (name : String) (c : CoreInstanceType)
    (cs : List CoreInstanceType)
    → Memᴰ c cs
    → c.name ≡ name
    → All P cs
    → (found : CoreInstanceType) × (find_type name cs ≡ some found) × (found.name ≡ name) × P found
unfolding find_type
find_type-found P name c [] m e h = elim m [ ]
find_type-found P name c (d ∷ cs) m e h = elim (Bool-cases (str_eq d.name name)) [
  | inl same ↦
      let at : find_type name (d ∷ cs) ≡ some d = rw same refl in
      (d, at, (str_eq_iff d.name name).0 same, h.0)
  | inr other ↦
      let (found, at, n, p) = find_type-found P name c cs (behind m other) e h.1 in
      let at' : find_type name (d ∷ cs) ≡ some found = rw other at in (found, at', n, p)
]
  where
    behind : Memᴰ c (d ∷ cs) → str_eq d.name name ≡ false → Memᴰ c cs
    behind (Memᴰ.head k) other =
        let same = (str_eq_iff d.name name).1 (sym (ap (λ (x : CoreInstanceType). x.name) k) ∙ e) in
        cc
    behind (Memᴰ.tail k) other = k

module _ (settings : TypeSettings) (zones : List (String × ZoneInfo))
    (on_demand spot : Option (List (Option AvailableZone))) (its : List (Option EcsInstanceType))
    (requirements : List Requirement) (vswitches : List VSwitch) where
  abbrev region_types : List CoreInstanceType
  region_types = offered_types settings (available_zones_of vswitches) (
      filter_instance_types_by_requirements settings.region
        (listed_types zones (some (inventory_of on_demand spot)) its) requirements)

  region_types-IsExact :
      All
        (IsExact zones
          (inventory_of on_demand spot)
          settings
          (available_zones_of vswitches)
          (inventory_of-Distinct on_demand spot))
        region_types
  unfolding filter_instance_types_by_requirements
  region_types-IsExact =
      let inventory = inventory_of on_demand spot in
      offered_types-IsExact zones inventory settings (available_zones_of vswitches)
        (inventory_of-Distinct on_demand spot) _
        (filter_types-FromStock zones inventory settings.region _ _
          (listed_types-FromStock zones inventory its))

-- What the conversion of an instance type leaves.
convert-fields :
    (it : EcsInstanceType) (zones : List (String × ZoneInfo)) (t : InstanceType)
    → convert_ecs_instance_type it zones ≡ some t
    → (t.name ≡ deref_string it.instance_type_id)
      × (t.zones ≡ zones)
      × (is_set t.cpu ≡ true)
      × (is_set t.memory ≡ true)
unfolding convert_ecs_instance_type
convert-fields it zones t h = (ground arith, ground arith, ground arith, ground arith)

offered_type-some :
    (settings : TypeSettings) (available_zones : List String) (t : InstanceType)
    → is_set t.cpu ≡ true
    → is_set t.memory ≡ true
    → is_empty (offerings_in available_zones t.zones) ≡ false
    → (c : CoreInstanceType) × (offered_type settings available_zones t ≡ some c)
unfolding offered_type calculate_capacity_and_allocatable
offered_type-some settings available_zones t cpu memory offered = elim (Option-cases t.cpu) [
  | inl n ↦ absurd (ground arith)
  | inr (cores, c) ↦ elim (Option-cases t.memory) [
    | inl n ↦ absurd (ground arith)
    | inr (bytes, m) ↦ (
      core_type settings t (offerings_in available_zones t.zones)
          (capacity_of settings.network t cores bytes),
      rw (c, m, offered) refl,
    )
  ]
]

found-nonempty :
    (zone ct : String) (b : Bool) (offerings : List Offering)
    → find_offering zone ct offerings ≡ some b
    → is_empty offerings ≡ false
unfolding find_offering
found-nonempty zone ct b [] h = cc
found-nonempty zone ct b (o ∷ os) h = refl

offerings_in-nonempty :
    (available_zones : List String) (zones : List (String × ZoneInfo))
    → is_empty (offerings_in available_zones zones) ≡ false
    → is_empty zones ≡ false
unfolding offerings_in
offerings_in-nonempty available_zones [] h = cc
offerings_in-nonempty available_zones (z ∷ zones) h = refl

Memᴰ-nonempty {ℓ} : {A : Type ℓ} (a : A) (xs : List A) → Memᴰ a xs → is_empty xs ≡ false
Memᴰ-nonempty a [] m = elim m [ ]
Memᴰ-nonempty a (x ∷ xs) m = refl

not_found-found :
    (name zone ct : String) (b : Bool) (types : List CoreInstanceType) (c : CoreInstanceType)
    → find_type name types ≡ some c
    → find_offering zone ct c.offerings ≡ some b
    → instance_type_not_found name zone ct types ≡ false
unfolding instance_type_not_found
not_found-found name zone ct b types c at offers = ground arith

-- If an instance type can be converted and meets the requirements, and the inventory knows it with a
-- capacity type in a zone of the region that has a vSwitch, with stock or without, then
-- GetInstanceTypes returns the instance type with an offering for the zone and the capacity type, which
-- is available exactly if there is stock: the drift check of Karpenter finds it.
pub types_result-known :
    (settings : TypeSettings) (zones : List (String × ZoneInfo))
    (on_demand spot : Option (List (Option AvailableZone))) (its : List (Option EcsInstanceType))
    (requirements : List Requirement) (vswitches : List VSwitch) (it : EcsInstanceType)
    (t : InstanceType) (name zone ct : String) (b : Bool)
    → Memᴰ (some it) its
    → it.instance_type_id ≡ some name
    → convert_ecs_instance_type it (it_zones name (some (inventory_of on_demand spot)) zones)
      ≡ some t
    → matches_all settings.region t (convert_requirements requirements) ≡ true
    → region_has zone zones ≡ true
    → member zone (available_zones_of vswitches) ≡ true
    → lookup ct (stock_at name zone (inventory_of on_demand spot)) ≡ some b
    → (offered : List CoreInstanceType) × (c : CoreInstanceType) × (types_result settings
          requirements vswitches
          (listed_types zones (some (inventory_of on_demand spot)) its)
        ≡ ok offered)
      × (find_type name offered ≡ some c)
      × (find_offering zone ct c.offerings ≡ some b)
      × (instance_type_not_found name zone ct offered ≡ false)
unfolding types_result listed_type instance_type_not_found filter_instance_types_by_requirements
types_result-known settings zones on_demand spot its requirements vswitches it t name zone ct b
      listed id converted meets in_region in_vswitch known =
    let inventory = inventory_of on_demand spot in
    let avail = available_zones_of vswitches in
    let fields = convert-fields it (it_zones name (some inventory) zones) t converted in
    let named : t.name ≡ name = fields.0 ∙ ap deref_string id in
    let says : find_offering zone ct (offerings_in avail (it_zones name (some inventory) zones))
        ≡ some b =
      find_offering-it_zones zone ct avail name inventory zones
        (inventory_of-Distinct on_demand spot)
      ∙ rw (in_vswitch, in_region) known in
    let some_offering = found-nonempty zone ct b _ says in
    let zoned = offerings_in-nonempty avail (it_zones name (some inventory) zones) some_offering in
    let listed_as : listed_type zones (some inventory) (some it) ≡ some t =
      rw (id, zoned) converted in
    let (c, made) =
      offered_type-some settings avail t fields.2 fields.3
        (ap (λ z. is_empty (offerings_in avail z)) fields.1 ∙ some_offering) in
    let m =
      offered_types-Memᴰ zones inventory settings avail (inventory_of-Distinct on_demand spot) t c _
        (filter_types-Memᴰ settings.region t _ (convert_requirements requirements)
          (listed_types-Memᴰ zones (some inventory) (some it) t its listed listed_as) meets)
        made in
    let c_named =
      (offered_type-fields zones inventory settings avail (inventory_of-Distinct on_demand spot) t c
        made).1
      ∙ named in
    let (found, at, n, exact) =
      find_type-found
        (IsExact zones inventory settings avail (inventory_of-Distinct on_demand spot)) name c _ m
        c_named (region_types-IsExact settings zones on_demand spot its requirements vswitches) in
    let offers : find_offering zone ct found.offerings ≡ some b =
      exact zone ct
      ∙ (ap
            (λ x.
              if member zone avail && region_has zone zones
              then lookup ct (stock_at x zone inventory)
              else none)
            n
          ∙ rw (in_vswitch, in_region) known) in
    (
      region_types settings zones on_demand spot its requirements vswitches,
      found,
      rw (Memᴰ-nonempty c _ m) refl,
      at,
      offers,
      not_found-found name zone ct b _ found at offers,
    )
