-- ===== src/InstanceTypes/Offerings/Stocked.antt =====
-- The offerings of an instance type, against the inventory that they were made from.
use karpenter_provider_aliba.Prelude.{
  Bool, Bool-cases, Distinct, List, Option, String, [], ap, arith, false, if◌then◌else◌, inl, inr,
  insert, keys, lookup, lookup-insert, member, none, not, or_else, refl, some, str_eq, str_eq_iff,
  sym, true, ◌&&◌, ◌++◌, ◌||◌, ◌∙◌, ◌∷◌, ◌≡◌,
}
use karpenter_provider_aliba.InstanceTypes.{ZoneInfo}
use karpenter_provider_aliba.InstanceTypes.Inventory.{CapacityTypes, Stock, ZoneStock, or_empty}
use karpenter_provider_aliba.InstanceTypes.Inventory.Distinct.{HasDistinctTypes}
use karpenter_provider_aliba.InstanceTypes.Inventory.Seen.{stock_at}
use karpenter_provider_aliba.InstanceTypes.Listing.{it_zones, with_stock, zone_info_of, zone_offer}
use karpenter_provider_aliba.InstanceTypes.Offerings.{
  Offering, cap_type_availability, offerings_in, offerings_of, set_each,
}

-- `Offerings.HasCompatible` of Karpenter at one zone and one capacity type, with what it finds.
unfoldable pub find_offering : String → String → List Offering → Option Bool
find_offering zone ct [] = none
find_offering zone ct (o ∷ os) =
    let rest = find_offering zone ct os in
    if str_eq o.zone zone && str_eq o.capacity_type ct then some o.available else rest

-- A zone that `DescribeZones` lists.
unfoldable pub region_has : String → List (String × ZoneInfo) → Bool
region_has zone [] = false
region_has zone ((z, info) ∷ zones) = (str_eq z zone && info.available) || region_has zone zones

lookup-set_each :
    (ct : String) (b : Bool) (cts : List String) (types : CapacityTypes)
    → lookup ct (set_each b cts types) ≡ (if member ct cts then some b else lookup ct types)
unfolding set_each member
lookup-set_each ct b [] types = refl
lookup-set_each ct b (j ∷ cts) types =
    lookup-set_each ct b cts (insert j b types) ∙ ground (arith, lookup-insert j ct b types)

member-with_stock :
    (ct : String) (types : CapacityTypes)
    → member ct (keys types) ≡ false
    → member ct (with_stock types) ≡ false
unfolding with_stock member
member-with_stock ct [] h = refl
member-with_stock ct ((j, b) ∷ types) h = ground (arith, member-with_stock ct types)

-- A map without a capacity type twice is read as its two slices say.
lookup-with_stock :
    (ct : String) (types : CapacityTypes)
    → Distinct (keys types)
    → lookup ct types ≡ (
        if member ct (with_stock types)
        then some true
        else if member ct (keys types)
        then some false
        else none)
unfolding with_stock member lookup
lookup-with_stock ct [] d = refl
lookup-with_stock ct ((j, b) ∷ types) d =
    ground (arith, lookup-with_stock ct types d.1, member-with_stock j types d.0, str_eq_iff j ct)

pub lookup-cap_type_availability :
    (ct : String) (types : CapacityTypes)
    → Distinct (keys types)
    → lookup ct (cap_type_availability (zone_info_of types)) ≡ lookup ct types
unfolding cap_type_availability zone_info_of lookup
lookup-cap_type_availability ct types d =
    lookup-set_each ct true (with_stock types) (set_each false (keys types) [])
    ∙ (ap (λ o. if member ct (with_stock types) then some true else o)
          (lookup-set_each ct false (keys types) [])
        ∙ sym (lookup-with_stock ct types d))

find_offering-offerings_of :
    (zone ct z : String) (types : CapacityTypes) (rest : List Offering)
    → find_offering zone ct (offerings_of z types ++ rest) ≡ (
        if str_eq z zone
        then or_else (lookup ct types) (find_offering zone ct rest)
        else find_offering zone ct rest)
unfolding find_offering lookup
find_offering-offerings_of zone ct z [] rest = ground arith
find_offering-offerings_of zone ct z ((j, b) ∷ types) rest =
    ground (arith, find_offering-offerings_of zone ct z types rest)

-- The offering of a zone that was looked at before the rest of the zones.
add_zone :
    (hit r m : Bool) (found rest : Option Bool)
    → rest ≡ (if m && r then found else none)
    → (if hit then or_else (if m then found else none) rest else rest)
      ≡ (if m && (hit || r) then found else none)
add_zone true true true none rest h = h
add_zone true false true none rest h = h
add_zone true r true (some b) rest h = refl
add_zone true true false found rest h = h
add_zone true false false found rest h = h
add_zone false r m found rest h = h

skip_zone :
    (hit r m : Bool) (found rest : Option Bool)
    → (hit ≡ true → found ≡ none)
    → rest ≡ (if m && r then found else none)
    → rest ≡ (if m && (hit || r) then found else none)
skip_zone true true m found rest e h = h
skip_zone true false true found rest e h = h ∙ sym (e refl)
skip_zone true false false found rest e h = h
skip_zone false r m found rest e h = h

-- What the inventory says of a zone whose offer is known.
abbrev Offers : String → CapacityTypes → Option ZoneInfo → Type 0
Offers ct types none = lookup ct types ≡ none
Offers ct types (some info) = lookup ct (cap_type_availability info) ≡ lookup ct types

zone_offer-Offers :
    (ct it z : String) (inventory : Stock)
    → HasDistinctTypes inventory
    → Offers ct (stock_at it z inventory) (zone_offer it z (some inventory))
unfolding zone_offer lookup
zone_offer-Offers ct it z inventory d = by_zones (lookup it inventory) (d it z)
  where
    by_types :
        (o : Option CapacityTypes)
        → Distinct (keys (or_empty o))
        → Offers ct (or_empty o) (elim o [ none ↦ none | some types ↦ some (zone_info_of types) ])
    by_types none h = refl
    by_types (some types) h = lookup-cap_type_availability ct types h

    by_zones :
        (o : Option ZoneStock)
        → Distinct (keys (or_empty (lookup z (or_empty o))))
        → Offers ct (or_empty (lookup z (or_empty o))) (elim o [
          | none ↦ none
          | some inv_zones ↦ elim (lookup z inv_zones) [
            | none ↦ none
            | some types ↦ some (zone_info_of types)
          ]
        ])
    by_zones none h = refl
    by_zones (some inv_zones) h = by_types (lookup z inv_zones) h

module _ (zone ct : String) (available_zones : List String) where
  find_offering-zone :
      (z : String) (info : ZoneInfo) (rest : List Offering)
      → find_offering zone ct (
          if not (member z available_zones)
          then rest
          else offerings_of z (cap_type_availability info) ++ rest)
        ≡ (if str_eq z zone
            then or_else
                (if member zone available_zones
                  then lookup ct (cap_type_availability info)
                  else none)
                (find_offering zone ct rest)
            else find_offering zone ct rest)
  find_offering-zone z info rest =
      let types = cap_type_availability info in
      let same : str_eq z zone ≡ true → member z available_zones ≡ member zone available_zones =
        λ e. ap (λ x. member x available_zones) ((str_eq_iff z zone).0 e) in
      elim (Bool-cases (member z available_zones)) [
        | inl h ↦ rw h (
            find_offering-offerings_of zone ct z types rest
            ∙ within (str_eq z zone) (λ e. sym (same e) ∙ h))
        | inr h ↦ rw h (without (str_eq z zone) λ e. sym (same e) ∙ h)
      ]
    where
      found : Option Bool
      found = lookup ct (cap_type_availability info)

      within :
          (b : Bool)
          → (b ≡ true → member zone available_zones ≡ true)
          → (if b then or_else found (find_offering zone ct rest) else find_offering zone ct rest)
            ≡ (if b
                then or_else
                    (if member zone available_zones then found else none)
                    (find_offering zone ct rest)
                else find_offering zone ct rest)
      within true m = rw (m refl) refl
      within false m = refl

      without :
          (b : Bool)
          → (b ≡ true → member zone available_zones ≡ false)
          → find_offering zone ct rest ≡ (
              if b
              then or_else
                  (if member zone available_zones then found else none)
                  (find_offering zone ct rest)
              else find_offering zone ct rest)
      without true m = rw (m refl) refl
      without false m = refl

  offerings_in-offer :
      (z : String) (types : CapacityTypes) (r : Bool) (rest : List (String × ZoneInfo))
      (found : Option Bool) (offer : Option ZoneInfo)
      → Offers ct types offer
      → (str_eq z zone ≡ true → lookup ct types ≡ found)
      → find_offering zone ct (offerings_in available_zones rest)
        ≡ (if member zone available_zones && r then found else none)
      → find_offering zone ct
          (offerings_in available_zones (elim offer [ none ↦ rest | some info ↦ (z, info) ∷ rest ]))
        ≡ (if member zone available_zones && (str_eq z zone || r) then found else none)
  unfolding offerings_in
  offerings_in-offer z types r rest found none o s h =
      skip_zone (str_eq z zone) r (member zone available_zones) found _ (λ e. sym (s e) ∙ o) h
  offerings_in-offer z types r rest found (some info) o s h =
      find_offering-zone z info (offerings_in available_zones rest)
      ∙ (here (str_eq z zone) (λ e. o ∙ s e)
          ∙ add_zone (str_eq z zone) r (member zone available_zones) found _ h)
    where
      here :
          (b : Bool)
          → (b ≡ true → lookup ct (cap_type_availability info) ≡ found)
          → (if b
              then or_else
                  (if member zone available_zones
                    then lookup ct (cap_type_availability info)
                    else none)
                  (find_offering zone ct (offerings_in available_zones rest))
              else find_offering zone ct (offerings_in available_zones rest))
            ≡ (if b
                then or_else
                    (if member zone available_zones then found else none)
                    (find_offering zone ct (offerings_in available_zones rest))
                else find_offering zone ct (offerings_in available_zones rest))
      here true e = rw (e refl) refl
      here false e = refl

  -- What the offerings of an instance type say, by its inventory.
  pub find_offering-it_zones :
      (it : String) (inventory : Stock) (zones : List (String × ZoneInfo))
      → HasDistinctTypes inventory
      → find_offering zone ct (offerings_in available_zones (it_zones it (some inventory) zones))
        ≡ (if member zone available_zones && region_has zone zones
            then lookup ct (stock_at it zone inventory)
            else none)
  unfolding it_zones offerings_in region_has find_offering
  find_offering-it_zones it inventory [] d = ground arith
  find_offering-it_zones it inventory ((z, info) ∷ zones) d =
      let ih = find_offering-it_zones it inventory zones d in
      elim (Bool-cases info.available) [
        | inr closed ↦ rw closed (ih ∙ closed_zone (str_eq z zone))
        | inl open_zone ↦ rw open_zone (
            offerings_in-offer z (stock_at it z inventory) (region_has zone zones)
              (it_zones it (some inventory) zones) (lookup ct (stock_at it zone inventory))
              (zone_offer it z (some inventory)) (zone_offer-Offers ct it z inventory d)
              (λ e. ap (λ x. lookup ct (stock_at it x inventory)) ((str_eq_iff z zone).0 e)) ih
            ∙ open_zone_said (str_eq z zone))
      ]
    where
      said : Bool → Option Bool
      said b =
          if member zone available_zones && b then lookup ct (stock_at it zone inventory) else none

      closed_zone :
          (b : Bool) → said (region_has zone zones) ≡ said ((b && false) || region_has zone zones)
      closed_zone true = refl
      closed_zone false = refl

      open_zone_said :
          (b : Bool)
          → said (b || region_has zone zones) ≡ said ((b && true) || region_has zone zones)
      open_zone_said true = refl
      open_zone_said false = refl
