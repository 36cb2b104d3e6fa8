-- ===== src/InstanceTypes/Offerings/Exact.antt =====
-- Each instance type that GetInstanceTypes returns has the offerings of its inventory, and none that has
-- one is lost.
use mathlib.Core.List.{Memᴰ}
use karpenter_provider_aliba.Prelude.{
  All, List, Option, String, [], ap, arith, if_intro, if◌then◌else◌, lookup, member, none, refl,
  some, sym, true, ◌&&◌, ◌∙◌, ◌∷◌, ◌≡◌,
}
use karpenter_provider_aliba.InstanceTypes.{InstanceType, ZoneInfo}
use karpenter_provider_aliba.InstanceTypes.Convert.{EcsInstanceType, convert_ecs_instance_type}
use karpenter_provider_aliba.InstanceTypes.Filter.{
  InstanceTypeRequirement, filter_types, matches_all,
}
use karpenter_provider_aliba.InstanceTypes.Inventory.{Stock}
use karpenter_provider_aliba.InstanceTypes.Inventory.Distinct.{HasDistinctTypes}
use karpenter_provider_aliba.InstanceTypes.Inventory.Seen.{stock_at}
use karpenter_provider_aliba.InstanceTypes.Listing.{it_zones, listed_type, listed_types}
use karpenter_provider_aliba.InstanceTypes.Offerings.{
  CoreInstanceType, TypeSettings, core_type, offered_type, offered_types, offerings_in,
}
use karpenter_provider_aliba.InstanceTypes.Offerings.Stocked.{
  find_offering, find_offering-it_zones, region_has,
}

keep-head {ℓ} :
    {A : Type ℓ} {a : A} (rest : List A) (o : Option A)
    → o ≡ some a
    → Memᴰ a (elim o [ none ↦ rest | some b ↦ b ∷ rest ])
keep-head rest none h = cc
keep-head rest (some b) h = Memᴰ.head (cc)

keep-tail {ℓ} :
    {A : Type ℓ} {a : A} {rest : List A} (o : Option A)
    → Memᴰ a rest
    → Memᴰ a (elim o [ none ↦ rest | some b ↦ b ∷ rest ])
keep-tail none m = m
keep-tail (some b) m = Memᴰ.tail m

module _ (zones : List (String × ZoneInfo)) (inventory : Stock) where
  -- An instance type that was listed with this inventory.
  abbrev pub FromStock : InstanceType → Type 0
  FromStock it = it.zones ≡ it_zones it.name (some inventory) zones

  listed_type-FromStock :
      (it : Option EcsInstanceType) (t : InstanceType)
      → listed_type zones (some inventory) it ≡ some t
      → FromStock t
  unfolding listed_type convert_ecs_instance_type
  listed_type-FromStock none t h = cc
  listed_type-FromStock (some it) t h = ground arith

  pub listed_types-FromStock :
      (its : List (Option EcsInstanceType))
      → All FromStock (listed_types zones (some inventory) its)
  unfolding listed_types
  listed_types-FromStock [] = tt
  listed_types-FromStock (it ∷ its) =
      entry (listed_type zones (some inventory) it) (listed_type-FromStock it)
        (listed_types-FromStock its)
    where
      entry :
          (o : Option InstanceType)
          → ((t : InstanceType) → o ≡ some t → FromStock t)
          → All FromStock (listed_types zones (some inventory) its)
          → All FromStock (elim o [
            | none ↦ listed_types zones (some inventory) its
            | some t ↦ t ∷ listed_types zones (some inventory) its
          ])
      entry none h rest = rest
      entry (some t) h rest = (h t refl, rest)

  pub filter_types-FromStock :
      (region : String) (its : List InstanceType) (reqs : List InstanceTypeRequirement)
      → All FromStock its
      → All FromStock (filter_types region its reqs)
  unfolding filter_types
  filter_types-FromStock region [] reqs h = tt
  filter_types-FromStock region (it ∷ its) reqs h =
      if_intro (All FromStock) (matches_all region it reqs) _ _
        (λ m. (h.0, filter_types-FromStock region its reqs h.1))
        λ m. filter_types-FromStock region its reqs h.1

  module _ (settings : TypeSettings) (available_zones : List String)
      (distinct : HasDistinctTypes inventory) where
    -- An offering for each zone of the region with a vSwitch and each capacity type that the
    -- inventory knows there, available exactly if it has stock.
    abbrev pub IsExact : CoreInstanceType → Type 0
    IsExact c =
        (zone ct : String)
        → find_offering zone ct c.offerings ≡ (
            if member zone available_zones && region_has zone zones
            then lookup ct (stock_at c.name zone inventory)
            else none)

    pub offered_type-fields :
        (t : InstanceType) (c : CoreInstanceType)
        → offered_type settings available_zones t ≡ some c
        → (c.offerings ≡ offerings_in available_zones t.zones) × (c.name ≡ t.name)
    unfolding offered_type core_type
    offered_type-fields t c h = (ground arith, ground arith)

    offered_type-IsExact :
        (t : InstanceType) (c : CoreInstanceType)
        → FromStock t
        → offered_type settings available_zones t ≡ some c
        → IsExact c
    offered_type-IsExact t c f h zone ct =
        let fields = offered_type-fields t c h in
        ap (find_offering zone ct) (fields.0 ∙ ap (offerings_in available_zones) f)
        ∙ (find_offering-it_zones zone ct available_zones t.name inventory zones distinct
            ∙ ap
                (λ n.
                  if member zone available_zones && region_has zone zones
                  then lookup ct (stock_at n zone inventory)
                  else none)
                (sym fields.1))

    pub offered_types-IsExact :
        (its : List InstanceType)
        → All FromStock its
        → All IsExact (offered_types settings available_zones its)
    unfolding offered_types
    offered_types-IsExact [] h = tt
    offered_types-IsExact (t ∷ its) h =
        entry (offered_type settings available_zones t) (λ c. offered_type-IsExact t c h.0)
          (offered_types-IsExact its h.1)
      where
        entry :
            (o : Option CoreInstanceType)
            → ((c : CoreInstanceType) → o ≡ some c → IsExact c)
            → All IsExact (offered_types settings available_zones its)
            → All IsExact (elim o [
              | none ↦ offered_types settings available_zones its
              | some c ↦ c ∷ offered_types settings available_zones its
            ])
        entry none k rest = rest
        entry (some c) k rest = (k c refl, rest)

    -- An instance type with an offering is returned.
    pub offered_types-Memᴰ :
        (t : InstanceType) (c : CoreInstanceType) (its : List InstanceType)
        → Memᴰ t its
        → offered_type settings available_zones t ≡ some c
        → Memᴰ c (offered_types settings available_zones its)
    unfolding offered_types
    offered_types-Memᴰ t c [] m h = elim m [ ]
    offered_types-Memᴰ t c (u ∷ its) (Memᴰ.head e) h =
        keep-head _ _ (ap (offered_type settings available_zones) (sym e) ∙ h)
    offered_types-Memᴰ t c (u ∷ its) (Memᴰ.tail m) h =
        keep-tail (offered_type settings available_zones u) (offered_types-Memᴰ t c its m h)

pub filter_types-Memᴰ :
    (region : String) (t : InstanceType) (its : List InstanceType)
    (reqs : List InstanceTypeRequirement)
    → Memᴰ t its
    → matches_all region t reqs ≡ true
    → Memᴰ t (filter_types region its reqs)
unfolding filter_types
filter_types-Memᴰ region t [] reqs m h = elim m [ ]
filter_types-Memᴰ region t (u ∷ its) reqs (Memᴰ.head e) h =
    rw (ap (λ x. matches_all region x reqs) (sym e) ∙ h) (Memᴰ.head e)
filter_types-Memᴰ region t (u ∷ its) reqs (Memᴰ.tail m) h =
    let rest = filter_types-Memᴰ region t its reqs m h in
    if_intro (Memᴰ t) (matches_all region u reqs) _ _ (λ k. Memᴰ.tail rest) λ k. rest

pub listed_types-Memᴰ :
    (zones : List (String × ZoneInfo)) (inventory : Option Stock) (it : Option EcsInstanceType)
    (t : InstanceType) (its : List (Option EcsInstanceType))
    → Memᴰ it its
    → listed_type zones inventory it ≡ some t
    → Memᴰ t (listed_types zones inventory its)
unfolding listed_types
listed_types-Memᴰ zones inventory it t [] m h = elim m [ ]
listed_types-Memᴰ zones inventory it t (u ∷ its) (Memᴰ.head e) h =
    keep-head _ _ (ap (listed_type zones inventory) (sym e) ∙ h)
listed_types-Memᴰ zones inventory it t (u ∷ its) (Memᴰ.tail m) h =
    keep-tail (listed_type zones inventory u) (listed_types-Memᴰ zones inventory it t its m h)
