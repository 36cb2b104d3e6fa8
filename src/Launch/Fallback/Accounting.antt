-- ===== src/Launch/Fallback/Accounting.antt =====
-- A launch neither loses nor doubles an instance.
use karpenter_provider_aliba.Prelude.{
  Bool, List, Option, Outcome, String, [], ap, arith, err, inl, inr, length, none, ok, refl, some,
  suc, ℕ, ◌+◌, ◌∙◌, ◌∷◌, ◌≡◌,
}
use karpenter_provider_aliba.NodeClass.{VSwitch}
use karpenter_provider_aliba.Instance.{CreateOptions}
use karpenter_provider_aliba.Launch.Options.{}
use karpenter_provider_aliba.Launch.Fallback.{
  LaunchRequest, create_instance_with_retry, more_addresses,
}
use karpenter_provider_aliba.Launch.Fallback.Search.{
  Create, Verdict, exhausted, launched, rejected, response-cases, search, search-nil, search-ok,
  search-other, search-short,
}
use karpenter_provider_aliba.Launch.Fallback.Flat.{all_requests}
use karpenter_provider_aliba.Launch.Fallback.Cases.{
  SortLaws, create_instance_with_retry-search, launch_result, options,
}

-- What ECS documents of RunInstances for one instance: an answer with an ID stands for one instance
-- more, and an error for none. `live` counts the instances.
pub record CreateCounts {W : Type 0} (create : Create W) (live : W → ℕ) : Type 0 where
  pub counts_one :
      (opts : CreateOptions) (w : W) (id : String)
      → (create opts w).0 ≡ ok id
      → live (create opts w).1 ≡ suc (live w)
  pub counts_none :
      (opts : CreateOptions) (w : W) (e : String)
      → (create opts w).0 ≡ err e
      → live (create opts w).1 ≡ live w

abbrev pub created : {E : Type 0} → Outcome E String → ℕ
created (ok id) = 1
created (err e) = 0

abbrev created_by : Verdict → ℕ
created_by (launched id) = 1
created_by _ = 0

module _ {W : Type 0} (create : Create W) (live : W → ℕ) where
  search-count :
      CreateCounts create live
      → (last : Option String) (requests : List CreateOptions) (w : W)
      → let found = search create last requests w in live found.1 ≡ created_by found.0 + live w
  search-count counts last [] w = rw (search-nil create last w) (omega arith)
  search-count counts last (opts ∷ requests) w = elim (response-cases create opts w) [
    | inl (id, h) ↦
        rw (search-ok create last opts requests w id h)
          (omega (arith, counts.counts_one opts w id h))
    | inr (e, h, inl short) ↦ rw (search-short create last opts requests w e h short) (
        search-count counts (some e) requests (create opts w).1
        ∙ ap (◌+◌ (created_by (search create (some e) requests (create opts w).1).0))
            (counts.counts_none opts w e h))
    | inr (e, h, inr other) ↦
        rw (search-other create last opts requests w e h other)
          (omega (arith, counts.counts_none opts w e h))
  ]

  created-launch_result :
      (n : ℕ) (verdict : Verdict) → created_by verdict ≡ created (launch_result n verdict)
  created-launch_result n (launched id) = refl
  created-launch_result n (rejected e) = refl
  created-launch_result n (exhausted last) = refl

  -- If each answer of RunInstances with an ID stands for one instance more and each error for none, a
  -- launch that returns an ID adds exactly one instance, and one that returns an error adds none.
  pub create_instance_with_retry-created :
      CreateCounts create live
      → (sort_slice : (VSwitch → VSwitch → Bool) → List VSwitch → List VSwitch)
      → SortLaws sort_slice
      → (r : LaunchRequest) (w : W)
      → let (result, after) = create_instance_with_retry create sort_slice r w in
        live after ≡ created result + live w
  create_instance_with_retry-created counts sort_slice laws r w =
      elim (create_instance_with_retry-search create sort_slice laws r w) [
        | inl (e, h) ↦ rw h (omega arith)
        | inr (s, h) ↦
            let requests =
              all_requests (options r s) (sort_slice more_addresses r.vswitches) r.instance_types in
            let found = search create none requests w in
            rw h (
              search-count counts none requests w
              ∙ ap (λ n. n + live w) (created-launch_result (length r.instance_types) found.0))
      ]
