-- ===== src/Status/Reconcile/Selected.antt =====
-- What the selectors of a node class leave in its status when they resolve without an error.
use mathlib.Core.Path.{subst}
use karpenter_provider_aliba.Prelude.{
  List, Option, Option-cases, Outcome, String, [], ap, arith, err, false, inl, inr, is_empty,
  length, map, none, ok, refl, some, sym, ℕ, ◌∙◌, ◌∷◌, ◌≡◌, ◌≤◌,
}
use karpenter_provider_aliba.NodeClass.{
  EcsNodeClassSpec, EcsNodeClassStatus, Image, SecurityGroup, VSwitch,
}
use karpenter_provider_aliba.Status.Conditions.{set_condition}
use karpenter_provider_aliba.Status.Resolution.{
  Providers, attach_limit_error, default_security_group_attach_limit, first_error,
  resolve_image_terms, resolve_security_group_terms, resolve_selector_resources,
  resolve_vswitch_terms, set_failed, set_resolved, take_security_groups,
}

-- Each list of resources has an element, and the groups fit the limit of attachments unless a launch
-- template names them.
pub record HasResources (spec : EcsNodeClassSpec) (s : EcsNodeClassStatus) : Type 0 where
  pub some_vswitch : is_empty s.vswitches ≡ false
  pub some_group : is_empty s.security_groups ≡ false
  pub some_image : is_empty s.images ≡ false
  pub few_groups :
      spec.launch_template_id ≡ none
      → length s.security_groups ≤ default_security_group_attach_limit

pub no_error : (a b : Option String) → first_error a b ≡ none → (a ≡ none) × (b ≡ none)
no_error none b h = (refl, h)
no_error (some d) b h = ground (arith, h)

resolve_vswitch_terms-some :
    (now : ℕ) (r : Outcome String (List VSwitch)) (s : EcsNodeClassStatus)
    → (resolve_vswitch_terms now r s).1 ≡ none
    → is_empty (resolve_vswitch_terms now r s).0.vswitches ≡ false
unfolding resolve_vswitch_terms set_resolved set_condition
resolve_vswitch_terms-some now (err e) s h = ground (arith, h)
resolve_vswitch_terms-some now (ok []) s h = ground (arith, h)
resolve_vswitch_terms-some now (ok (v ∷ vs)) s h = refl

attach_limit : (gs : List SecurityGroup) → attach_limit_error gs ≡ none → length gs ≤ 5
unfolding attach_limit_error
attach_limit gs h = ground (arith, h)

take_security_groups-some :
    (now : ℕ) (g : SecurityGroup) (gs : List SecurityGroup) (e : Option String)
    (s : EcsNodeClassStatus)
    → (take_security_groups now (g ∷ gs) e s).1 ≡ none
    → ((take_security_groups now (g ∷ gs) e s).0.security_groups ≡ (g ∷ gs)) × (e ≡ none)
unfolding take_security_groups set_resolved set_condition
take_security_groups-some now g gs none s h = (refl, refl)
take_security_groups-some now g gs (some e) s h = ground (arith, h)

resolve_security_group_terms-some :
    (now : ℕ) (r : Outcome String (List SecurityGroup)) (s : EcsNodeClassStatus)
    → (resolve_security_group_terms now r s).1 ≡ none
    → let groups = (resolve_security_group_terms now r s).0.security_groups in
      (is_empty groups ≡ false) × (length groups ≤ 5)
unfolding resolve_security_group_terms
resolve_security_group_terms-some now (err e) s h = ground (arith, h)
resolve_security_group_terms-some now (ok []) s h = ground (arith, h)
resolve_security_group_terms-some now (ok (g ∷ gs)) s h =
    let (are, within) = take_security_groups-some now g gs (attach_limit_error (g ∷ gs)) s h in
    rw are (refl, attach_limit (g ∷ gs) within)

resolve_image_terms-some :
    (now : ℕ) (r : Outcome String (List Image)) (s : EcsNodeClassStatus)
    → (resolve_image_terms now r s).1 ≡ none
    → is_empty (resolve_image_terms now r s).0.images ≡ false
unfolding resolve_image_terms set_resolved set_condition
resolve_image_terms-some now (err e) s h = ground (arith, h)
resolve_image_terms-some now (ok []) s h = ground (arith, h)
resolve_image_terms-some now (ok (i ∷ is)) s h = refl

-- What a step leaves alone.
resolve_security_group_terms-kept :
    (now : ℕ) (r : Outcome String (List SecurityGroup)) (s : EcsNodeClassStatus)
    → (resolve_security_group_terms now r s).0.vswitches ≡ s.vswitches
unfolding resolve_security_group_terms take_security_groups set_failed set_resolved set_condition
resolve_security_group_terms-kept now (err e) s = refl
resolve_security_group_terms-kept now (ok []) s = refl
resolve_security_group_terms-kept now (ok (g ∷ gs)) s =
    elim (Option-cases (attach_limit_error (g ∷ gs))) [
      | inl n ↦ rw (n, take_security_groups) refl
      | inr (e, n) ↦ rw (n, take_security_groups) refl
    ]

resolve_image_terms-kept :
    (now : ℕ) (r : Outcome String (List Image)) (s : EcsNodeClassStatus)
    → let after = (resolve_image_terms now r s).0 in
      (after.vswitches ≡ s.vswitches) × (after.security_groups ≡ s.security_groups)
unfolding resolve_image_terms set_failed set_resolved set_condition
resolve_image_terms-kept now (err e) s = (refl, refl)
resolve_image_terms-kept now (ok []) s = (refl, refl)
resolve_image_terms-kept now (ok (i ∷ is)) s = (refl, refl)

pub is_empty-map : {A B : Type 0} (f : A → B) (xs : List A) → is_empty (map f xs) ≡ is_empty xs
is_empty-map f [] = refl
is_empty-map f (x ∷ xs) = refl

module _ (p : Providers) (now : ℕ) (spec : EcsNodeClassSpec) where
  pub resolve_selector_resources-some :
      (s : EcsNodeClassStatus)
      → (resolve_selector_resources p now spec s).1 ≡ none
      → HasResources spec (resolve_selector_resources p now spec s).0
  unfolding resolve_selector_resources
  resolve_selector_resources-some s h =
      let found₁ = p.resolve_vswitches spec.vswitch_selector_terms in
      let found₂ = p.resolve_security_groups spec.security_group_selector_terms in
      let found₃ = p.resolve_images spec.image_selector_terms in
      let s₁ = (resolve_vswitch_terms now found₁ s).0 in
      let s₂ = (resolve_security_group_terms now found₂ s₁).0 in
      let (h₁₂, h₃) = no_error _ _ h in
      let (h₁, h₂) = no_error _ _ h₁₂ in
      let (same_vswitches, same_groups) = resolve_image_terms-kept now found₃ s₂ in
      let (nonempty, within) = resolve_security_group_terms-some now found₂ s₁ h₂ in
      record {
        some_vswitch =
            ap is_empty (same_vswitches ∙ resolve_security_group_terms-kept now found₂ s₁)
            ∙ resolve_vswitch_terms-some now found₁ s h₁;
        some_group = ap is_empty same_groups ∙ nonempty;
        some_image = resolve_image_terms-some now found₃ s₂ h₃;
        few_groups = λ _. subst (λ gs. length gs ≤ 5) (sym same_groups) within;
      }
