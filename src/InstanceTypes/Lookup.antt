-- ===== src/InstanceTypes/Lookup.antt =====
-- `Get`, `Sort` and `ClearCache` of the instance type provider,
-- pkg/providers/instancetype/instancetype.go. `sort.Slice` of Go is a parameter.
use karpenter_provider_aliba.Prelude.{
  Bool, List, Option, Outcome, String, [], append_text, err, false, if◌then◌else◌, lt_text, ltb_ℤ,
  none, ok, some, true, ℕ, ℤ, ◌∷◌,
}
use karpenter_provider_aliba.InstanceTypes.{InstanceType, ZoneInfo}
use karpenter_provider_aliba.InstanceTypes.Convert.{EcsInstanceType, convert_ecs_instance_type}
use karpenter_provider_aliba.InstanceTypes.Listing.{
  TypeProvider, TypesApi, as_type, cache_ttl_instance_types, get_available_zones, get_cached_value,
  set_cached_value, type_key, type_value,
}

-- `convertECSInstanceType` of a pointer that may be nil.
abbrev converted : Option EcsInstanceType → List (String × ZoneInfo) → Option InstanceType
converted none zones = none
converted (some it) zones = convert_ecs_instance_type it zones

module _ {W : Type 0} (api : TypesApi W) where
  -- `Get` after the look into the cache, once the zones are there. A response without a body panics.
  unfoldable pub get_type_described :
      ℕ
      → String
      → List (String × ZoneInfo)
      → TypeProvider W
      → Outcome String (Option InstanceType) × TypeProvider W
  unfolding convert_ecs_instance_type set_cached_value
  get_type_described now name zones p =
      let (response, w) = api.describe_instance_types (name ∷ []) p.cloud in
      elim response [
        | err e ↦ (
          err (
              append_text "failed to describe instance type "
                (append_text name (append_text ": " e))),
          record { cache = p.cache; cloud = w },
        )
        | ok [] ↦ (
          err (append_text "instance type " (append_text name " not found")),
          record { cache = p.cache; cloud = w },
        )
        | ok (it ∷ its) ↦ (
          ok (converted it zones),
          record {
            cache =
                set_cached_value now cache_ttl_instance_types (type_key name)
                  (type_value (converted it zones)) p.cache;
            cloud = w;
          },
        )
      ]

  -- `Get`; its instance type is nil where the conversion is.
  unfoldable pub get_type :
      ℕ → String → TypeProvider W → Outcome String (Option InstanceType) × TypeProvider W
  unfolding get_type_described get_available_zones get_cached_value
  get_type now name p =
      let (cached, cache) = get_cached_value now (type_key name) p.cache in
      let p' : TypeProvider W = record { cache = cache; cloud = p.cloud } in
      elim (as_type cached) [
        | some it ↦ (ok it, p')
        | none ↦
            let (zones, p'') = get_available_zones api now p' in
            elim zones [
              | err e ↦ (err (append_text "failed to get available zones: " e), p'')
              | ok found ↦ get_type_described now name found p''
            ]
      ]

-- `ClearCache`
abbrev pub clear_cache : {W : Type 0} → TypeProvider W → TypeProvider W
clear_cache p = record { cache = []; cloud = p.cloud }

-- A smaller first quantity comes first; `rest` decides for equal ones, and where one is nil.
abbrev by_cpu : Option ℤ → Option ℤ → Bool → Bool
by_cpu (some a) (some b) rest = if ltb_ℤ a b then true else if ltb_ℤ b a then false else rest
by_cpu _ _ rest = rest

-- The names decide where a quantity is nil.
abbrev by_memory : Option ℤ → Option ℤ → Bool → Bool
by_memory (some a) (some b) rest = ltb_ℤ a b
by_memory _ _ rest = rest

unfoldable pub sorts_before : InstanceType → InstanceType → Bool
unfolding lt_text
sorts_before a b = by_cpu a.cpu b.cpu (by_memory a.memory b.memory (lt_text a.name b.name))

abbrev pub sort_types :
    ((InstanceType → InstanceType → Bool) → List InstanceType → List InstanceType)
    → List InstanceType
    → List InstanceType
sort_types sort_slice its = sort_slice sorts_before its
