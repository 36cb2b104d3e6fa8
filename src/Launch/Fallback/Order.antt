-- ===== src/Launch/Fallback/Order.antt =====
-- The order of the requests of a launch.
use mathlib.Core.List.{Permᴰ, append-nil, append_assoc}
use karpenter_provider_aliba.Prelude.{
  Bool, List, Option, String, [], ap, err, inl, inr, none, refl, some, suc, sym, take, ℕ, ◌++◌, ◌∙◌,
  ◌∷◌, ◌≡◌, ◌⊎◌,
}
use karpenter_provider_aliba.NodeClass.{VSwitch}
use karpenter_provider_aliba.Instance.{CreateOptions}
use karpenter_provider_aliba.Launch.Options.{Refused}
use karpenter_provider_aliba.Launch.Fallback.{
  LaunchRequest, create_instance_with_retry, more_addresses, refused,
}
use karpenter_provider_aliba.Launch.Fallback.Search.{
  Create, response-cases, search, search-nil, search-ok, search-other, search-short,
}
use karpenter_provider_aliba.Launch.Fallback.Flat.{all_requests}
use karpenter_provider_aliba.Launch.Fallback.Cases.{
  Descending, SortLaws, Started, create_instance_with_retry-search, options,
}

-- A cloud that also keeps the requests it was sent, in order.
abbrev pub recording : {W : Type 0} → Create W → Create (List CreateOptions × W)
recording create opts (sent, w) =
    let (response, w') = create opts w in (response, (sent ++ (opts ∷ []), w'))

module _ {W : Type 0} (create : Create W) where
  search-sent :
      (last : Option String) (requests sent : List CreateOptions) (w : W)
      → (k : ℕ) × ((search (recording create) last requests (sent, w)).1.0
          ≡ sent ++ take k requests)
  search-sent last [] sent w =
      (0, rw (search-nil (recording create) last (sent, w)) (sym (append-nil sent)))
  search-sent last (opts ∷ requests) sent w =
      elim (response-cases (recording create) opts (sent, w)) [
        | inl (id, h) ↦
            (1, rw (search-ok (recording create) last opts requests (sent, w) id h) refl)
        | inr (e, h, inl short) ↦
            let (k, more) = search-sent (some e) requests (sent ++ (opts ∷ [])) (create opts w).1 in
            (
              suc k,
              rw (search-short (recording create) last opts requests (sent, w) e h short)
                  (more ∙ append_assoc sent (opts ∷ []) (take k requests)),
            )
        | inr (e, h, inr other) ↦
            (1, rw (search-other (recording create) last opts requests (sent, w) e h other) refl)
      ]

  -- A launch that is not refused before its first request sends the first `k` requests, for some `k`, of
  -- the list that goes through the instance types in order, and for each through all vSwitches by
  -- falling number of free addresses.
  pub create_instance_with_retry-sent :
      (sort_slice : (VSwitch → VSwitch → Bool) → List VSwitch → List VSwitch)
      → SortLaws sort_slice
      → (r : LaunchRequest) (w : W)
      → let (result, (sent, after)) =
          create_instance_with_retry (recording create) sort_slice r ([], w) in
        ((e : Refused) × (result ≡ err (refused e)) × (sent ≡ []))
        ⊎ ((s : Started r) × (vsws : List VSwitch) × Permᴰ r.vswitches vsws
            × Descending vsws
            × (k : ℕ) × (sent ≡ take k (all_requests (options r s) vsws r.instance_types)))
  create_instance_with_retry-sent sort_slice laws r w =
      elim (create_instance_with_retry-search (recording create) sort_slice laws r ([], w)) [
        | inl (e, h) ↦ inl (e, ap (λ p. p.0) h, ap (λ p. p.1.0) h)
        | inr (s, h) ↦
            let vsws = sort_slice more_addresses r.vswitches in
            let (k, sent) =
              search-sent none (all_requests (options r s) vsws r.instance_types) [] w in
            inr (
              s,
              vsws,
              laws.permutes r.vswitches,
              laws.descends r.vswitches,
              k,
              ap (λ p. p.1.0) h ∙ sent,
            )
      ]
