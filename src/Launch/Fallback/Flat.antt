-- ===== src/Launch/Fallback/Flat.antt =====
-- The nested loops of the launch are one search through all pairs of an instance type and a vSwitch.
use karpenter_provider_aliba.Prelude.{
  Bool, List, Option, Outcome, String, [], ap, concat, err, false, inl, inr, map, none, ok, refl,
  some, true, ℕ, ◌∙◌, ◌∷◌, ◌≡◌,
}
use karpenter_provider_aliba.Errors.{is_insufficient_capacity_error, wrap_error}
use karpenter_provider_aliba.NodeClass.{VSwitch}
use karpenter_provider_aliba.Instance.{CreateOptions}
use karpenter_provider_aliba.Launch.Options.{with_vswitch}
use karpenter_provider_aliba.Launch.Fallback.{
  TypeName, all_vswitches_exhausted, failed_to_create, last_error, more_addresses,
  try_instance_types, try_vswitches, types_exhausted, vswitch_fallback_create,
}
use karpenter_provider_aliba.Launch.Fallback.Messages.{
  is_insufficient_capacity_error-all_vswitches_exhausted,
  is_insufficient_capacity_error-failed_to_create,
}
use karpenter_provider_aliba.Launch.Fallback.Search.{
  Create, IsJust, Verdict, exhausted, launched, rejected, response-cases, search, search-IsJust,
  search-append, search-last, search-nil, search-ok, search-other, search-short, search_on,
}

-- The requests for one set of options: one for each vSwitch, in order.
unfoldable pub requests_of : CreateOptions → List VSwitch → List CreateOptions
requests_of base vsws = map (λ vsw. with_vswitch base vsw.id) vsws

-- All requests: the instance types in order, and for each the vSwitches in order.
unfoldable pub all_requests :
    (TypeName → CreateOptions) → List VSwitch → List TypeName → List CreateOptions
unfolding requests_of
all_requests base vsws its = concat (map (λ it. requests_of (base it) vsws) its)

-- How `vswitchFallbackCreate` reports a verdict.
abbrev pub vswitch_report : Verdict → Outcome String String
vswitch_report (launched id) = ok id
vswitch_report (rejected e) = err (wrap_error failed_to_create e)
vswitch_report (exhausted last) = err (wrap_error all_vswitches_exhausted (last_error last))

abbrev pub wrapped_last : Option String → Option String
wrapped_last none = none
wrapped_last (some e) = some (wrap_error all_vswitches_exhausted e)

-- How `createInstanceWithRetry` reports a verdict on `n` instance types.
abbrev pub launch_report : ℕ → Verdict → Outcome String String
launch_report n (launched id) = ok id
launch_report n (rejected e) = err (wrap_error failed_to_create (wrap_error failed_to_create e))
launch_report n (exhausted last) =
    err (wrap_error (types_exhausted n) (last_error (wrapped_last last)))

module _ {W : Type 0} (create : Create W) where
  pub try_vswitches-search :
      (base : CreateOptions) (last : Option String) (vsws : List VSwitch) (w : W)
      → let found = search create last (requests_of base vsws) w in
        try_vswitches create base last vsws w ≡ (vswitch_report found.0, found.1)
  unfolding requests_of try_vswitches
  try_vswitches-search base last [] w = rw (search-nil create last w) refl
  try_vswitches-search base last (vsw ∷ vsws) w =
      let opts = with_vswitch base vsw.id in
      let requests = requests_of base vsws in
      elim (response-cases create opts w) [
        | inl (id, h) ↦ rw (search-ok create last opts requests w id h, h, try_vswitches) refl
        | inr (e, h, inl short) ↦
            rw (search-short create last opts requests w e h short, h, short, try_vswitches)
              (try_vswitches-search base (some e) vsws (create opts w).1)
        | inr (e, h, inr other) ↦
            rw (search-other create last opts requests w e h other, h, other, try_vswitches) refl
      ]

  module _ (sort_slice : (VSwitch → VSwitch → Bool) → List VSwitch → List VSwitch) where
    vswitch_fallback_create-search :
        (base : CreateOptions) (last : Option String) (vswitches : List VSwitch) (v : VSwitch)
        (vs : List VSwitch)
        → sort_slice more_addresses vswitches ≡ (v ∷ vs)
        → (w : W)
        → let found = search create last (requests_of base (v ∷ vs)) w in
          vswitch_fallback_create create sort_slice base vswitches w
          ≡ (vswitch_report found.0, found.1)
    unfolding vswitch_fallback_create requests_of
    vswitch_fallback_create-search base last vswitches v vs sorted w =
        ap (λ vsws. try_vswitches create base none vsws w) sorted
        ∙ (try_vswitches-search base none (v ∷ vs) w
            ∙ ap (λ found. (vswitch_report found.0, found.1))
                (search-last create none last (with_vswitch base v.id) (requests_of base vs) w))

    module _ (base : TypeName → CreateOptions) (n : ℕ) (last : Option String)
        (vswitches : List VSwitch) (it : TypeName) (its : List TypeName) (w : W) where
      try-ok :
          (id : String)
          → (vswitch_fallback_create create sort_slice (base it) vswitches w).0 ≡ ok id
          → try_instance_types create sort_slice base n last vswitches (it ∷ its) w
            ≡ (ok id, (vswitch_fallback_create create sort_slice (base it) vswitches w).1)
      unfolding try_instance_types
      try-ok id h = rw (h, try_instance_types) refl

      try-short :
          (e : String)
          → (vswitch_fallback_create create sort_slice (base it) vswitches w).0 ≡ err e
          → is_insufficient_capacity_error (some e) ≡ true
          → try_instance_types create sort_slice base n last vswitches (it ∷ its) w
            ≡ try_instance_types create sort_slice base n
                (some e)
                vswitches
                its
                (vswitch_fallback_create create sort_slice (base it) vswitches w).1
      unfolding try_instance_types
      try-short e h short = rw (h, short, try_instance_types) refl

      try-other :
          (e : String)
          → (vswitch_fallback_create create sort_slice (base it) vswitches w).0 ≡ err e
          → is_insufficient_capacity_error (some e) ≡ false
          → try_instance_types create sort_slice base n last vswitches (it ∷ its) w ≡ (
            err (wrap_error failed_to_create e),
            (vswitch_fallback_create create sort_slice (base it) vswitches w).1,
          )
      unfolding try_instance_types
      try-other e h other = rw (h, other, try_instance_types) refl

      -- One round of the outer loop, once the verdict on its instance type is known, when the later
      -- rounds are searches through `rest`.
      try_instance_types-step :
          (rest : List CreateOptions)
          → ((l : Option String) (u : W)
              → try_instance_types create sort_slice base n (wrapped_last l) vswitches its u
                ≡ (launch_report n (search create l rest u).0, (search create l rest u).1))
          → (found : Verdict × W) → IsJust found.0
          → (vswitch_fallback_create create sort_slice (base it) vswitches w).0
            ≡ vswitch_report found.0
          → (vswitch_fallback_create create sort_slice (base it) vswitches w).1 ≡ found.1
          → let on = search_on create rest found in
            try_instance_types create sort_slice base n last vswitches (it ∷ its) w
            ≡ (launch_report n on.0, on.1)
      try_instance_types-step rest later (launched id, w') just h₀ h₁ =
          try-ok id h₀ ∙ ap (λ u. (ok id, u)) h₁
      try_instance_types-step rest later (rejected e, w') just h₀ h₁ =
          try-other (wrap_error failed_to_create e) h₀
            (is_insufficient_capacity_error-failed_to_create e ∙ just)
          ∙ ap (λ u. (launch_report n (rejected e), u)) h₁
      try_instance_types-step rest later (exhausted none, w') just h₀ h₁ = elim just [ ]
      try_instance_types-step rest later (exhausted (some e), w') just h₀ h₁ =
          try-short (wrap_error all_vswitches_exhausted e) h₀
            (is_insufficient_capacity_error-all_vswitches_exhausted e ∙ just)
          ∙ (ap (try_instance_types create sort_slice base n (wrapped_last (some e)) vswitches its)
                h₁
              ∙ later (some e) w')

    -- A launch reports the verdict of one search through all requests, and leaves the cloud as the
    -- search does.
    pub try_instance_types-search :
        (base : TypeName → CreateOptions) (n : ℕ) (vswitches : List VSwitch) (v : VSwitch)
        (vs : List VSwitch)
        → sort_slice more_addresses vswitches ≡ (v ∷ vs)
        → (its : List TypeName) (last : Option String) (w : W)
        → let found = search create last (all_requests base (v ∷ vs) its) w in
          try_instance_types create sort_slice base n (wrapped_last last) vswitches its w
          ≡ (launch_report n found.0, found.1)
    unfolding all_requests try_instance_types
    try_instance_types-search base n vswitches v vs sorted [] last w =
        rw (search-nil create last w) refl
    try_instance_types-search base n vswitches v vs sorted (it ∷ its) last w =
        let block = requests_of (base it) (v ∷ vs) in
        let rest = all_requests base (v ∷ vs) its in
        rw (search-append create last block rest w) (
          try_instance_types-step base n (wrapped_last last) vswitches it its w rest
            (try_instance_types-search base n vswitches v vs sorted its)
            (search create last block w)
            (search-IsJust create last (with_vswitch (base it) v.id) (requests_of (base it) vs) w)
            (ap (λ p. p.0) (vswitch_fallback_create-search (base it) last vswitches v vs sorted w))
            (ap (λ p. p.1) (vswitch_fallback_create-search (base it) last vswitches v vs sorted w)))
