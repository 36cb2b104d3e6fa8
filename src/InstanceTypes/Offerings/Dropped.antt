-- ===== src/InstanceTypes/Offerings/Dropped.antt =====
-- A NodePool that names its zones: an instance type that is out of stock in them is not returned at all.
use mathlib.Core.List.{Memᴰ}
use mathlib.Core.Path.{subst}
use karpenter_provider_aliba.Prelude.{
  All, Bool-cases, Distinct, List, Option, Option-cases, String, [], ap, arith, err, false,
  if_intro, if◌then◌else◌, inl, inr, is_empty, keys, lookup, lookup-none_of_not-member, none, ok,
  ok_injective, refl, some, str_eq, str_eq_iff, str_eq_refl, sym, true, ◌∙◌, ◌∷◌, ◌≡◌, ◌≢◌,
}
use karpenter_provider_aliba.InstanceTypes.{InstanceType, ZoneInfo}
use karpenter_provider_aliba.InstanceTypes.Convert.{EcsInstanceType}
use karpenter_provider_aliba.InstanceTypes.Filter.{
  InstanceTypeOperator, InstanceTypeRequirement, attribute_of, convert_operator,
  convert_requirements, filter_instance_types_by_requirements, filter_types, is_available_in,
  is_available_in_one, it_in, matches_all, matches_attribute, matches_requirement,
  matches_zone_requirement,
}
use karpenter_provider_aliba.InstanceTypes.Inventory.{
  AvailableZone, CapacityTypes, Stock, inventory_of,
}
use karpenter_provider_aliba.InstanceTypes.Inventory.Distinct.{
  HasDistinctTypes, inventory_of-Distinct,
}
use karpenter_provider_aliba.InstanceTypes.Inventory.Seen.{stock_at}
use karpenter_provider_aliba.InstanceTypes.Listing.{
  it_zones, listed_types, with_stock, zone_info_of, zone_offer,
}
use karpenter_provider_aliba.InstanceTypes.Offerings.{
  CoreInstanceType, TypeSettings, available_zones_of, no_instance_types, offered_type,
  offered_types, types_result,
}
use karpenter_provider_aliba.InstanceTypes.Offerings.Exact.{
  FromStock, listed_types-FromStock, offered_type-fields,
}
use karpenter_provider_aliba.InstanceTypes.Offerings.Known.{find_type, instance_type_not_found}
use karpenter_provider_aliba.Launch.Requirements.{Requirement, op_in}
use karpenter_provider_aliba.NodeClass.{VSwitch}
use karpenter_provider_aliba.NodeClass.Labels.{label_topology_zone}

-- No capacity type of the instance type has stock in the zone.
abbrev pub IsOutOfStock : Stock → String → String → Type 0
IsOutOfStock inventory name zone =
    (ct : String) → lookup ct (stock_at name zone inventory) ≢ some true

not_available :
    (types : CapacityTypes)
    → Distinct (keys types)
    → ((ct : String) → lookup ct types ≢ some true)
    → (zone_info_of types).available ≡ false
unfolding zone_info_of with_stock lookup
not_available [] d h = refl
not_available ((ct, true) ∷ types) d h = absurd (h ct (ground (arith, str_eq_refl ct)))
not_available ((ct, false) ∷ types) d h = not_available types d.1 λ other e.
    h other (ground (arith, lookup-none_of_not-member ct types d.0, str_eq_iff ct other, e))

zone_offer-unavailable :
    (name zone : String) (inventory : Stock) (info : ZoneInfo)
    → HasDistinctTypes inventory
    → IsOutOfStock inventory name zone
    → zone_offer name zone (some inventory) ≡ some info
    → info.available ≡ false
unfolding zone_offer
zone_offer-unavailable name zone inventory info d h e =
    elim (Option-cases (lookup name inventory)) [
      | inl n ↦ absurd (ground (arith, rw (n, zone_offer) at e))
      | inr (inv_zones, n) ↦ elim (Option-cases (lookup zone inv_zones)) [
        | inl k ↦ absurd (ground (arith, rw (n, k, zone_offer) at e))
        | inr (types, k) ↦
            let made : some (zone_info_of types) ≡ some info = rw (n, k, zone_offer) at e in
            let at : stock_at name zone inventory ≡ types = rw (n, k) refl in
            let closed = not_available (stock_at name zone inventory) (d name zone) h in
            let same : zone_info_of types ≡ info = cc in
            ap (λ (o : ZoneInfo). o.available) (sym same)
            ∙ (ap (λ (x : CapacityTypes). (zone_info_of x).available) (sym at) ∙ closed)
      ]
    ]

is_available_in-it_zones :
    (name zone : String) (inventory : Stock) (zones : List (String × ZoneInfo))
    → HasDistinctTypes inventory
    → IsOutOfStock inventory name zone
    → is_available_in zone (it_zones name (some inventory) zones) ≡ false
unfolding is_available_in it_zones lookup
is_available_in-it_zones name zone inventory [] d h = refl
is_available_in-it_zones name zone inventory ((z, info) ∷ zones) d h =
    let rest = is_available_in-it_zones name zone inventory zones d h in
    if_intro (λ m. is_available_in zone m ≡ false) info.available _ _
      (λ k. entry rest (zone_offer name z (some inventory)) λ o e same.
        zone_offer-unavailable name zone inventory o d h
          (ap (λ x. zone_offer name x (some inventory)) (sym ((str_eq_iff z zone).0 same)) ∙ e))
      λ k. rest
  where
    entry :
        is_available_in zone (it_zones name (some inventory) zones) ≡ false
        → (offer : Option ZoneInfo)
        → ((o : ZoneInfo) → offer ≡ some o → str_eq z zone ≡ true → o.available ≡ false)
        → is_available_in zone (elim offer [
          | none ↦ it_zones name (some inventory) zones
          | some o ↦ (z, o) ∷ it_zones name (some inventory) zones
        ])
          ≡ false
    entry rest none f = rest
    entry rest (some o) f = ground (arith, f o refl)

is_available_in_one-it_zones :
    (name : String) (values : List String) (inventory : Stock) (zones : List (String × ZoneInfo))
    → HasDistinctTypes inventory
    → All (IsOutOfStock inventory name) values
    → is_available_in_one values (it_zones name (some inventory) zones) ≡ false
unfolding is_available_in_one
is_available_in_one-it_zones name [] inventory zones d h = refl
is_available_in_one-it_zones name (v ∷ values) inventory zones d h =
    rw (is_available_in-it_zones name v inventory zones d h.0)
      (is_available_in_one-it_zones name values inventory zones d h.1)

matches_all-refused :
    (region : String) (t : InstanceType) (req : InstanceTypeRequirement)
    (reqs : List InstanceTypeRequirement)
    → Memᴰ req reqs
    → matches_requirement region t req ≡ false
    → matches_all region t reqs ≡ false
unfolding matches_all
matches_all-refused region t req [] m h = elim m [ ]
matches_all-refused region t req (r ∷ reqs) (Memᴰ.head e) h =
    rw (ap (matches_requirement region t) (sym e) ∙ h) refl
matches_all-refused region t req (r ∷ reqs) (Memᴰ.tail m) h =
    ground (arith, matches_all-refused region t req reqs m h)

-- The requirement of a NodePool for its zones.
abbrev pub zones_required : List String → Requirement
zones_required values = record { key = label_topology_zone; operator = op_in; values = values }

abbrev zone_requirement : List String → InstanceTypeRequirement
zone_requirement values = record { key = label_topology_zone; operator = it_in; values = values }

convert_requirements-zones :
    (values : List String) (requirements : List Requirement)
    → Memᴰ (zones_required values) requirements
    → Memᴰ (zone_requirement values) (convert_requirements requirements)
unfolding convert_requirements
convert_requirements-zones values [] m = elim m [ ]
convert_requirements-zones values (r ∷ requirements) (Memᴰ.head e) =
    subst (λ x. Memᴰ (zone_requirement values) (convert_requirements (x ∷ requirements))) e
      (Memᴰ.head refl)
convert_requirements-zones values (r ∷ requirements) (Memᴰ.tail m) =
    behind (convert_operator r.operator) (convert_requirements-zones values requirements m)
  where
    behind :
        (o : Option InstanceTypeOperator)
        → Memᴰ (zone_requirement values) (convert_requirements requirements)
        → Memᴰ (zone_requirement values) (elim o [
          | none ↦ convert_requirements requirements
          | some operator ↦
              record { key = r.key; operator = operator; values = r.values }
              ∷ convert_requirements requirements
        ])
    behind none k = k
    behind (some operator) k = Memᴰ.tail k

module _ (zones : List (String × ZoneInfo)) (inventory : Stock) (name : String) where
  abbrev IsOther : InstanceType → Type 0
  IsOther t = str_eq t.name name ≡ false

  filter_types-IsOther :
      (region : String) (its : List InstanceType) (reqs : List InstanceTypeRequirement)
      → All (FromStock zones inventory) its
      → ((t : InstanceType)
          → FromStock zones inventory t
          → t.name ≡ name
          → matches_all region t reqs ≡ false)
      → All IsOther (filter_types region its reqs)
  unfolding filter_types
  filter_types-IsOther region [] reqs h fails = tt
  filter_types-IsOther region (t ∷ its) reqs h fails =
      let rest = filter_types-IsOther region its reqs h.1 fails in
      if_intro (All IsOther) (matches_all region t reqs) _ _
        (λ m. (
          elim (Bool-cases (str_eq t.name name)) [
            | inl same ↦ absurd (ground (arith, fails t h.0 ((str_eq_iff t.name name).0 same)))
            | inr other ↦ other
          ],
          rest,
        ))
        λ m. rest

  find_type-IsOther :
      (settings : TypeSettings) (available_zones : List String) (its : List InstanceType)
      → HasDistinctTypes inventory
      → All IsOther its
      → find_type name (offered_types settings available_zones its) ≡ none
  unfolding find_type offered_types
  find_type-IsOther settings available_zones [] d h = refl
  find_type-IsOther settings available_zones (t ∷ its) d h =
      entry (offered_type settings available_zones t)
        (λ c e. (offered_type-fields zones inventory settings available_zones d t c e).1)
        (find_type-IsOther settings available_zones its d h.1)
    where
      entry :
          (o : Option CoreInstanceType)
          → ((c : CoreInstanceType) → o ≡ some c → c.name ≡ t.name)
          → find_type name (offered_types settings available_zones its) ≡ none
          → find_type name (elim o [
            | none ↦ offered_types settings available_zones its
            | some c ↦ c ∷ offered_types settings available_zones its
          ])
            ≡ none
      entry none k rest = rest
      entry (some c) k rest =
          let other : str_eq c.name name ≡ false = ap (λ x. str_eq x name) (k c refl) ∙ h.0 in
          ground (arith, other, rest)

returned_types :
    (types offered : List CoreInstanceType)
    → (if is_empty types then err no_instance_types else ok types) ≡ ok offered
    → types ≡ offered
returned_types [] offered h = cc
returned_types (c ∷ cs) offered h = ok_injective h

not_found-missing :
    (name zone ct : String) (types : List CoreInstanceType)
    → find_type name types ≡ none
    → instance_type_not_found name zone ct types ≡ true
unfolding instance_type_not_found
not_found-missing name zone ct types h = ground arith

-- A NodePool that requires one of some zones, in none of which an instance type has stock: whatever
-- GetInstanceTypes returns does not have the instance type, so that the drift check finds it missing for
-- every zone and capacity type, also for those that the inventory knows.
pub types_result-dropped :
    (settings : TypeSettings) (zones : List (String × ZoneInfo))
    (on_demand spot : Option (List (Option AvailableZone))) (its : List (Option EcsInstanceType))
    (requirements : List Requirement) (vswitches : List VSwitch) (name : String)
    (values : List String) (offered : List CoreInstanceType)
    → Memᴰ (zones_required values) requirements
    → All (IsOutOfStock (inventory_of on_demand spot) name) values
    → types_result settings requirements vswitches
        (listed_types zones (some (inventory_of on_demand spot)) its)
      ≡ ok offered
    → (zone ct : String) → instance_type_not_found name zone ct offered ≡ true
unfolding types_result filter_instance_types_by_requirements matches_requirement attribute_of
    matches_attribute matches_zone_requirement instance_type_not_found
types_result-dropped settings zones on_demand spot its requirements vswitches name values offered m
      out returned zone ct =
    let inventory = inventory_of on_demand spot in
    let distinct = inventory_of-Distinct on_demand spot in
    let reqs = convert_requirements requirements in
    let fails : (t : InstanceType)
        → FromStock zones inventory t
        → t.name ≡ name
        → matches_all settings.region t reqs ≡ false =
      λ t f n.
        matches_all-refused settings.region t (zone_requirement values) reqs
          (convert_requirements-zones values requirements m)
          (ap (is_available_in_one values) (f ∙ ap (λ x. it_zones x (some inventory) zones) n)
            ∙ is_available_in_one-it_zones name values inventory zones distinct out) in
    let its' = filter_types settings.region (listed_types zones (some inventory) its) reqs in
    let others =
      filter_types-IsOther zones inventory name settings.region _ reqs
        (listed_types-FromStock zones inventory its) fails in
    let missing =
      find_type-IsOther zones inventory name settings (available_zones_of vswitches) its' distinct
        others in
    not_found-missing name zone ct offered
      (ap (find_type name) (sym (returned_types _ offered returned)) ∙ missing)
