-- ===== src/Launch/Fallback/Cases.antt =====
-- The two ways of `createInstanceWithRetry`: an error before the first request, or the loops.
use mathlib.Core.List.{Memᴰ, Permᴰ}
use karpenter_provider_aliba.Prelude.{
  All, Bool, Bool-cases, List, List-cases, Outcome, Outcome-cases, String, [], ap, arith, err,
  false, inl, inr, is_empty, length, none, ok, refl, ℕ, ◌||◌, ◌∙◌, ◌∷◌, ◌≡◌, ◌⊎◌,
}
use karpenter_provider_aliba.Errors.{wrap_error}
use karpenter_provider_aliba.NodeClass.{Image, VSwitch}
use karpenter_provider_aliba.Instance.{CreateOptions}
use karpenter_provider_aliba.Launch.Options.{LaunchPlan, Refused, missing_parameters}
use karpenter_provider_aliba.Launch.Fallback.{
  LaunchError, LaunchRequest, TypeName, create_instance_with_retry, failed, failed_to_create,
  last_error, launch_failure, more_addresses, options_for, plan_launch, refused, try_instance_types,
  types_exhausted,
}
use karpenter_provider_aliba.Launch.Fallback.Search.{
  Create, Verdict, exhausted, launched, rejected, search,
}
use karpenter_provider_aliba.Launch.Fallback.Flat.{
  all_requests, launch_report, try_instance_types-search, wrapped_last,
}

-- No later vSwitch has more free addresses than an earlier one.
abbrev pub Descending : List VSwitch → Type 0
Descending [] = Unit
Descending (v ∷ vs) = All (λ u. more_addresses u v ≡ false) vs × Descending vs

-- What Go documents of `sort.Slice` with this order: the elements stay, in the order.
pub record SortLaws (sort_slice : (VSwitch → VSwitch → Bool) → List VSwitch → List VSwitch)
    : Type 0 where
  pub permutes : (vs : List VSwitch) → Permᴰ vs (sort_slice more_addresses vs)
  pub descends : (vs : List VSwitch) → Descending (sort_slice more_addresses vs)

module _ {A : Type 0} where
  pub member_of_permutation : {a : A} {xs ys : List A} → Permᴰ xs ys → Memᴰ a xs → Memᴰ a ys
  member_of_permutation Permᴰ.nil m = elim m [ ]
  member_of_permutation (Permᴰ.cons e p) (Memᴰ.head h) = Memᴰ.head (h ∙ e)
  member_of_permutation (Permᴰ.cons e p) (Memᴰ.tail m) = Memᴰ.tail (member_of_permutation p m)
  member_of_permutation (Permᴰ.swap e₁ e₂) (Memᴰ.head h) = Memᴰ.tail (Memᴰ.head (h ∙ e₁))
  member_of_permutation (Permᴰ.swap e₁ e₂) (Memᴰ.tail (Memᴰ.head h)) = Memᴰ.head (h ∙ e₂)
  member_of_permutation (Permᴰ.swap e₁ e₂) (Memᴰ.tail (Memᴰ.tail m)) = Memᴰ.tail (Memᴰ.tail m)
  member_of_permutation (Permᴰ.trans p q) m = member_of_permutation q (member_of_permutation p m)

  permuted_nonempty :
      (xs ys : List A)
      → Permᴰ xs ys
      → is_empty xs ≡ false
      → (y : A) × (rest : List A) × (ys ≡ (y ∷ rest))
  permuted_nonempty [] ys p h = ground arith
  permuted_nonempty (x ∷ xs) [] p h = elim (member_of_permutation p (Memᴰ.head refl)) [ ]
  permuted_nonempty (x ∷ xs) (y ∷ ys) p h = (y, ys, refl)

-- A launch that reaches its loops: what it found by then.
pub record Started (r : LaunchRequest) : Type 0 where
  pub plan : LaunchPlan
  pub first : Image
  pub images : List Image
  pub images_are : r.images ≡ (first ∷ images)
  pub planned :
      plan_launch r.node_class r.requirements r.security_groups r.user_data r.tags r.dual_stack
      ≡ ok plan
  pub has_vswitches : is_empty r.vswitches ≡ false

abbrev pub options : (r : LaunchRequest) → Started r → TypeName → CreateOptions
options r s = options_for s.plan s.first s.images

-- The result of a launch with a verdict on `n` instance types.
abbrev pub launch_result : ℕ → Verdict → Outcome LaunchError String
launch_result n (launched id) = ok id
launch_result n (rejected e) =
    err (failed (wrap_error failed_to_create (wrap_error failed_to_create e)))
launch_result n (exhausted last) =
    err (failed (wrap_error (types_exhausted n) (last_error (wrapped_last last))))

module _ {W : Type 0} (create : Create W)
    (sort_slice : (VSwitch → VSwitch → Bool) → List VSwitch → List VSwitch) where
  create_instance_with_retry-cases :
      (r : LaunchRequest) (w : W)
      → ((e : Refused) × (create_instance_with_retry create sort_slice r w ≡ (err (refused e), w)))
        ⊎ ((s : Started r) × (create_instance_with_retry create sort_slice r w
              ≡ launch_failure (
                  try_instance_types create sort_slice
                    (options r s)
                    (length r.instance_types)
                    none
                    r.vswitches
                    r.instance_types
                    w)))
  unfolding create_instance_with_retry
  create_instance_with_retry-cases r w = elim (List-cases r.images) [
    | inl none_left ↦ inl (missing_parameters, rw (none_left, create_instance_with_retry) refl)
    | inr (first, images, are) ↦
        elim (Bool-cases
          (is_empty r.instance_types || is_empty r.vswitches || is_empty r.security_groups)) [
            | inl missing ↦
                inl (missing_parameters, rw (are, missing, create_instance_with_retry) refl)
            | inr present ↦
                elim (Outcome-cases (
                  plan_launch r.node_class r.requirements r.security_groups r.user_data r.tags
                    r.dual_stack)) [
                      | inr (e, h) ↦ inl (e, rw (are, present, h, create_instance_with_retry) refl)
                      | inl (plan, h) ↦ inr (
                        record {
                          plan = plan;
                          first = first;
                          images = images;
                          images_are = are;
                          planned = h;
                          has_vswitches =
                              second (is_empty r.instance_types) (is_empty r.vswitches)
                                (is_empty r.security_groups) present;
                        },
                        rw (are, present, h, create_instance_with_retry) refl,
                      )
                    ]
          ]
  ]
    where
      second : (a b c : Bool) → (a || b || c) ≡ false → b ≡ false
      second a b c h = ground arith

  launch_failure-report :
      (n : ℕ) (verdict : Verdict) (w : W)
      → launch_failure (launch_report n verdict, w) ≡ (launch_result n verdict, w)
  launch_failure-report n (launched id) w = refl
  launch_failure-report n (rejected e) w = refl
  launch_failure-report n (exhausted last) w = refl

  -- A launch is refused before its first request and leaves the cloud alone, or it is one search
  -- through the pairs of an instance type, in order, and a vSwitch, in the order of the sort: its result
  -- is the verdict of the search, and it leaves the cloud as the search does.
  pub create_instance_with_retry-search :
      SortLaws sort_slice
      → (r : LaunchRequest) (w : W)
      → ((e : Refused) × (create_instance_with_retry create sort_slice r w ≡ (err (refused e), w)))
        ⊎ ((s : Started r) × (let found =
                search create none
                  (all_requests
                    (options r s)
                    (sort_slice more_addresses r.vswitches)
                    r.instance_types)
                  w in
              create_instance_with_retry create sort_slice r w
              ≡ (launch_result (length r.instance_types) found.0, found.1)))
  create_instance_with_retry-search laws r w = elim (create_instance_with_retry-cases r w) [
    | inl h ↦ inl h
    | inr (s, h) ↦
        let (v, vs, sorted) =
          permuted_nonempty r.vswitches _ (laws.permutes r.vswitches) s.has_vswitches in
        inr (
          s,
          rw sorted (
              h
              ∙ (ap launch_failure (
                    try_instance_types-search create sort_slice (options r s)
                      (length r.instance_types) r.vswitches v vs sorted r.instance_types none w)
                  ∙ launch_failure-report (length r.instance_types) _ _)),
        )
  ]
