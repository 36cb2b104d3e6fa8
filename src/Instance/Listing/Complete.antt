-- ===== src/Instance/Listing/Complete.antt =====
-- `List` returns every instance once, in order, if the pages fit together.
use mathlib.Core.Path.{ap₂}
use mathlib.Core.List.{append_assoc}
use karpenter_provider_aliba.Prelude.{
  Bool-cases, List, Option, Outcome, String, [], ap, arith, drop, drop-add, false, if◌then◌else◌,
  inl, inr, leb_ℤ, length, length-drop, ltb, ok, pos, refl, some, suc, sym, take, take-append-drop,
  take_all, true, zero, ℕ, ◌%◌, ◌*◌, ◌++◌, ◌+◌, ◌-◌, ◌<◌, ◌∙◌, ◌∷◌, ◌≡◌, ◌≤◌,
}
use karpenter_provider_aliba.Instance.Api.{ApiInstance, Instance, instance_of}
use karpenter_provider_aliba.Instance.Cache.{Cache}
use karpenter_provider_aliba.Instance.Calls.{Provider}
use karpenter_provider_aliba.Instance.Listing.{
  Page, add_page, cache_listed, is_last, is_listed, list_from, list_instances, to_int32,
}
use karpenter_provider_aliba.Utils.Tags.{Tags}

-- The instances that a list of answers stands for.
unfoldable pub listed : List ApiInstance → List Instance
unfolding is_listed instance_of
listed [] = []
listed (inst ∷ more) =
    let rest = listed more in if is_listed inst then instance_of inst ∷ rest else rest

add_page-listed :
    (ttl now : ℕ) (insts : List ApiInstance) (cache : Cache)
    → (add_page ttl now insts cache).0 ≡ listed insts
unfolding add_page listed
add_page-listed ttl now [] cache = refl
add_page-listed ttl now (inst ∷ more) cache = elim (Bool-cases (is_listed inst)) [
  | inl e ↦
      rw (e, add_page)
        (ap (◌∷◌ (instance_of inst))
          (add_page-listed ttl now more (cache_listed ttl now inst cache)))
  | inr e ↦ rw (e, add_page) (add_page-listed ttl now more cache)
]

listed-append : (xs ys : List ApiInstance) → listed (xs ++ ys) ≡ listed xs ++ listed ys
unfolding listed
listed-append [] ys = refl
listed-append (x ∷ xs) ys = elim (Bool-cases (is_listed x)) [
  | inl e ↦ rw e (ap (◌∷◌ (instance_of x)) (listed-append xs ys))
  | inr e ↦ rw e (listed-append xs ys)
]

-- The answer of ECS to the request for a page of 100 of some instances; the pages are numbered from 1.
abbrev pub page_of : List ApiInstance → ℕ → Page
page_of all number = record {
  total_count = some (pos (length all));
  instances = take 100 (drop ((number - 1) * 100) all);
}

-- What List relies on: ECS pages through the same instances in each answer.
pub record PageLaws {W : Type 0} (list_page : Tags → ℕ → W → Outcome String (Option Page) × W)
    (tags : Tags) (all : List ApiInstance) : Type 0 where
  pub serves : (number : ℕ) (w : W) → (list_page tags number w).0 ≡ ok (some (page_of all number))

first_of_page : (n : ℕ) → (n + 1 - 1) * 100 ≡ n * 100
first_of_page n = omega arith

-- A number below 2 ^ 31 does not wrap around.
to_int32-small : (n : ℕ) → n < 2147483648 → to_int32 n ≡ pos n
unfolding to_int32
to_int32-small n h =
    let same : n % 4294967296 ≡ n = omega (arith, h) in
    let below : ltb n 2147483648 ≡ true = ground (arith, h) in rw (same, below) refl

is_last_lem :
    (all : List ApiInstance) (n : ℕ)
    → (n + 1) * 100 < 2147483648
    → is_last (n + 1) (page_of all (n + 1)) ≡ leb_ℤ (pos (length all)) (pos ((n + 1) * 100))
unfolding is_last
is_last_lem all n h = ap (leb_ℤ (pos (length all))) (to_int32-small ((n + 1) * 100) h)

is_last-true :
    (all : List ApiInstance) (n : ℕ)
    → (n + 1) * 100 < 2147483648
    → is_last (n + 1) (page_of all (n + 1)) ≡ true
    → length all ≤ (n + 1) * 100
is_last-true all n small h = ground (arith, sym (is_last_lem all n small) ∙ h)

is_last-false :
    (all : List ApiInstance) (n : ℕ)
    → (n + 1) * 100 < 2147483648
    → is_last (n + 1) (page_of all (n + 1)) ≡ false
    → (n + 1) * 100 < length all
is_last-false all n small h = ground (arith, sym (is_last_lem all n small) ∙ h)

-- The instances of a page and of what follows it.
listed-page :
    (all : List ApiInstance) (n : ℕ)
    → listed (take 100 (drop ((n + 1 - 1) * 100) all)) ++ listed (drop ((n + 1) * 100) all)
      ≡ listed (drop (n * 100) all)
listed-page all n =
    sym (listed-append (take 100 (drop ((n + 1 - 1) * 100) all)) (drop ((n + 1) * 100) all))
    ∙ ap listed (
        ap₂ (λ i j. take 100 (drop i all) ++ drop j all) (first_of_page n) next_page
        ∙ (ap (◌++◌ (take 100 (drop (n * 100) all))) (drop-add (n * 100) 100 all)
            ∙ take-append-drop 100 (drop (n * 100) all)))
  where
    next_page : (n + 1) * 100 ≡ n * 100 + 100
    next_page = omega arith

listed-last :
    (all : List ApiInstance) (n : ℕ)
    → length all ≤ (n + 1) * 100
    → listed (take 100 (drop ((n + 1 - 1) * 100) all)) ≡ listed (drop (n * 100) all)
listed-last all n h = ap listed (
    ap (λ i. take 100 (drop i all)) (first_of_page n)
    ∙ take_all 100 (drop (n * 100) all) (omega (arith, length-drop (n * 100) all, h)))

module _ {W : Type 0} (list_page : Tags → ℕ → W → Outcome String (Option Page) × W) (tags : Tags)
    (all : List ApiInstance) (laws : PageLaws list_page tags all)
    (small : length all + 100 < 2147483648) where
  list_from-listed :
      (ttl now fuel n : ℕ) (found : List Instance) (p : Provider W)
      → length all ≤ (n + fuel) * 100
      → 1 ≤ fuel
      → n * 100 ≤ length all
      → (list_from list_page ttl now tags fuel (n + 1) found p).0
        ≡ some (ok (found ++ listed (drop (n * 100) all)))
  unfolding list_from
  list_from-listed ttl now zero n found p h k b = ground (arith, k)
  list_from-listed ttl now (suc fuel) n found p h k b =
      let served = laws.serves (n + 1) p.cloud in
      let bound : (n + 1) * 100 < 2147483648 = omega (arith, b, small) in
      elim (Bool-cases (is_last (n + 1) (page_of all (n + 1)))) [
        | inl end ↦
            rw (served, list_from, end)
              (ap (λ xs. some (ok (found ++ xs)))
                (add_page-listed ttl now _ p.cache
                  ∙ listed-last all n (is_last-true all n bound end)))
        | inr more ↦
            rw (served, list_from, more)
              (list_from-listed ttl now fuel (n + 1) _ _ (omega (arith, h))
                  (omega (arith, h, is_last-false all n bound more))
                  (omega (arith, is_last-false all n bound more))
                ∙ ap (λ xs. some (ok xs))
                    (append_assoc found _ _
                      ∙ ap (◌++◌ found) (
                          ap (λ xs. xs ++ listed (drop ((n + 1) * 100) all))
                            (add_page-listed ttl now _ p.cache)
                          ∙ listed-page all n)))
      ]

  -- If ECS serves the same instances, 100 to a page and fewer than 2 ^ 31 - 100 in all, in every answer,
  -- then List, with fuel for as many pages as hold them and for one at least, returns all of them that
  -- have their cores and memory, in order.
  pub list_instances-listed :
      (ttl now fuel : ℕ) (p : Provider W)
      → length all ≤ fuel * 100
      → 1 ≤ fuel
      → (list_instances list_page fuel ttl now tags p).0 ≡ some (ok (listed all))
  unfolding list_instances
  list_instances-listed ttl now fuel p h k =
      list_from-listed ttl now fuel 0 [] p (omega (arith, h)) k (omega arith)
