-- ===== src/Instance/Listing.antt =====
-- `List` of pkg/providers/instance/instance.go: the pages of `DescribeInstances`. The loop has no bound of
-- its own, as each answer tells anew how many instances there are; it runs on fuel, a unit for a page.
pub mod Complete
use karpenter_provider_aliba.Prelude.{
  Bool, List, Option, Outcome, String, [], append_text, err, false, if◌then◌else◌, is_set, leb_ℤ,
  ltb, none, ok, pos, some, suc, true, zero, ℕ, ℤ, ◌%◌, ◌&&◌, ◌*◌, ◌++◌, ◌+◌, ◌-ℤ◌, ◌∷◌,
}
use karpenter_provider_aliba.Instance.Api.{ApiInstance, Instance, deref_int, instance_of}
use karpenter_provider_aliba.Instance.Cache.{Cache, set_cached_instance}
use karpenter_provider_aliba.Instance.Calls.{Provider}
use karpenter_provider_aliba.Utils.Tags.{Tags}

pub record Page : Type 0 where
  pub total_count : Option ℤ
  pub instances : List ApiInstance

-- An instance with a nil number of cores or amount of memory is left out.
unfoldable pub is_listed : ApiInstance → Bool
is_listed inst = is_set inst.cpu && is_set inst.memory

unfoldable pub cache_listed : ℕ → ℕ → ApiInstance → Cache → Cache
unfolding set_cached_instance instance_of
cache_listed ttl now inst cache = elim inst.instance_id [
  | none ↦ cache
  | some id ↦ set_cached_instance ttl now id (instance_of inst) cache
]

-- The loop over the instances of a page.
unfoldable pub add_page : ℕ → ℕ → List ApiInstance → Cache → List Instance × Cache
unfolding is_listed cache_listed instance_of
add_page ttl now [] cache = ([], cache)
add_page ttl now (inst ∷ more) cache = elim (is_listed inst) [
  | false ↦ add_page ttl now more cache
  | true ↦
      let (rest, cache') = add_page ttl now more (cache_listed ttl now inst cache) in
      (instance_of inst ∷ rest, cache')
]

-- The `int32` that a number wraps around to.
unfoldable pub to_int32 : ℕ → ℤ
unfolding ◌-ℤ◌
to_int32 n =
    let wrapped = n % 4294967296 in
    if ltb wrapped 2147483648 then pos wrapped else pos wrapped -ℤ pos 4294967296

-- `int32(pageNumber*100) >= totalCount`, where both sides are an `int32`. The page number is counted
-- without a bound: the product wraps around as that of the `int32` does.
unfoldable pub is_last : ℕ → Page → Bool
unfolding to_int32
is_last number page = leb_ℤ (deref_int page.total_count) (to_int32 (number * 100))

-- The result of the loop, or `none` without fuel.
abbrev pub Listed : Type 0
Listed = Option (Outcome String (List Instance))

module _ {W : Type 0} (list_page : Tags → ℕ → W → Outcome String (Option Page) × W) where
  -- The loop from one page on; `found` are the instances of the pages before.
  unfoldable pub list_from : ℕ → ℕ → Tags → ℕ → ℕ → List Instance → Provider W → Listed × Provider W
  unfolding add_page is_last
  list_from ttl now tags zero number found p = (none, p)
  list_from ttl now tags (suc fuel) number found p =
      let (response, w') = list_page tags number p.cloud in
      elim response [
        | err e ↦ (
          some (err (append_text "failed to list instances: " e)),
          record { cache = p.cache; cloud = w' },
        )
        | ok none ↦
            (some (err "invalid response from ECS API"), record { cache = p.cache; cloud = w' })
        | ok (some page) ↦
            let (more, cache') = add_page ttl now page.instances p.cache in
            elim (is_last number page) [
              | true ↦ (some (ok (found ++ more)), record { cache = cache'; cloud = w' })
              | false ↦
                  list_from ttl now tags fuel (number + 1) (found ++ more)
                    (record { cache = cache'; cloud = w' })
            ]
      ]

  -- `List`
  unfoldable pub list_instances : ℕ → ℕ → ℕ → Tags → Provider W → Listed × Provider W
  unfolding list_from
  list_instances fuel ttl now tags p = list_from ttl now tags fuel 1 [] p
