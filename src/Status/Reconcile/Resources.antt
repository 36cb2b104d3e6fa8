-- ===== src/Status/Reconcile/Resources.antt =====
-- What a node class that was resolved without an error offers to a launch.
use mathlib.Core.Path.{subst}
use karpenter_provider_aliba.Prelude.{
  Bool, Bool-cases, List, Option, Option-cases, Outcome, String, [], ap, arith, err, false,
  if◌then◌else◌, inl, inr, is_empty, none, ok, refl, some, str_eq, sym, true, ℕ, ◌||◌, ◌∙◌, ◌∷◌,
  ◌≡◌, ◌⊎◌,
}
use karpenter_provider_aliba.NodeClass.{
  EcsNodeClassSpec, EcsNodeClassStatus, VSwitch, condition_true,
}
use karpenter_provider_aliba.NodeClass.Labels.{condition_type_ready}
use karpenter_provider_aliba.Status.Conditions.{is_ready, set_condition}
use karpenter_provider_aliba.Status.Reconcile.{
  accept_role, check_role, is_invalid, reject_role, resolve_resources, resolve_status,
}
use karpenter_provider_aliba.Status.Reconcile.Selected.{
  HasResources, is_empty-map, no_error, resolve_selector_resources-some,
}
use karpenter_provider_aliba.Status.Resolution.{
  LaunchTemplateData, Providers, RoleCheck, resolve_selector_resources, set_resolved, with_images,
}
use karpenter_provider_aliba.Status.Template.{
  resolve_launch_template, resolve_template_data, resolve_template_vswitch, set_template_resolved,
  template_images, vswitch_term,
}

module _ (p : Providers) (now : ℕ) (spec : EcsNodeClassSpec) where
  resolve_template_vswitch-some :
      (id : String) (d : LaunchTemplateData) (r : Outcome String (List VSwitch))
      (s : EcsNodeClassStatus)
      → spec.launch_template_id ≡ some id
      → is_empty d.security_group_ids ≡ false
      → is_empty s.images ≡ false
      → (resolve_template_vswitch now d r s).1 ≡ none
      → HasResources spec (resolve_template_vswitch now d r s).0
  unfolding resolve_template_vswitch set_template_resolved set_resolved set_condition
  resolve_template_vswitch-some id d (err e) s has_template gs is h = ground (arith, h)
  resolve_template_vswitch-some id d (ok []) s has_template gs is h = ground (arith, h)
  resolve_template_vswitch-some id d (ok (v ∷ vs)) s has_template gs is h = record {
    some_vswitch = refl;
    some_group = is_empty-map _ d.security_group_ids ∙ gs;
    some_image = is;
    few_groups = λ n. ground (arith, sym n ∙ has_template);
  }

  resolve_template_data-some :
      (id : String) (r : Outcome String LaunchTemplateData) (s : EcsNodeClassStatus)
      → spec.launch_template_id ≡ some id
      → (resolve_template_data p now r s).1 ≡ none
      → HasResources spec (resolve_template_data p now r s).0
  unfolding resolve_template_data
  resolve_template_data-some id (err e) s has_template h = ground (arith, h)
  resolve_template_data-some id (ok d) s has_template h =
      elim (Bool-cases
        (str_eq d.image_id "" || str_eq d.vswitch_id "" || is_empty d.security_group_ids)) [
          | inl bad ↦ ground (arith, rw bad at h)
          | inr good ↦ rw good (
              resolve_template_vswitch-some id d
                (p.resolve_vswitches (vswitch_term d.vswitch_id ∷ []))
                (with_images (template_images d) s) has_template
                (third (str_eq d.image_id "") (str_eq d.vswitch_id "")
                  (is_empty d.security_group_ids) good)
                refl (rw good at h))
        ]
    where
      third : (a b c : Bool) → (a || b || c) ≡ false → c ≡ false
      third a b c k = ground arith

  -- A step that equals one after which the resources are there.
  resources_of :
      (r r' : EcsNodeClassStatus × Option String)
      → r ≡ r'
      → (r'.1 ≡ none → HasResources spec r'.0)
      → r.1 ≡ none
      → HasResources spec r.0
  resources_of r r' e k h =
      subst (HasResources spec) (ap (λ x. x.0) (sym e)) (k (ap (λ x. x.1) (sym e) ∙ h))

  resolve_launch_template-some :
      (id : String) (s : EcsNodeClassStatus)
      → spec.launch_template_id ≡ some id
      → (resolve_launch_template p now id spec.launch_template_version s).1 ≡ none
      → HasResources spec (resolve_launch_template p now id spec.launch_template_version s).0
  unfolding resolve_launch_template
  resolve_launch_template-some id s has_template h = elim (Option-cases p.launch_template) [
    | inl n ↦
        let failed : (resolve_launch_template p now id spec.launch_template_version s).1
            ≡ some "launch template provider is required" =
          rw (n, resolve_launch_template) refl in
        ground (arith, sym h ∙ failed)
    | inr (get_data, n) ↦
        let r = get_data id spec.launch_template_version in
        resources_of _ (resolve_template_data p now r s) (rw (n, resolve_launch_template) refl)
          (resolve_template_data-some id r s has_template) h
  ]

  resolve_resources-some :
      (s : EcsNodeClassStatus)
      → (resolve_resources p now spec s).1 ≡ none
      → HasResources spec (resolve_resources p now spec s).0
  unfolding resolve_resources
  resolve_resources-some s h = elim (Option-cases spec.launch_template_id) [
    | inl n ↦
        resources_of _ (resolve_selector_resources p now spec s) (selected n)
          (resolve_selector_resources-some p now spec s) h
    | inr (id, n) ↦
        resources_of _ (resolve_launch_template p now id spec.launch_template_version s)
          (from_template id n) (resolve_launch_template-some id s n) h
  ]
    where
      selected :
          spec.launch_template_id ≡ none
          → resolve_resources p now spec s ≡ resolve_selector_resources p now spec s
      selected n =
          subst
            (λ o.
              (elim o as (λ _. EcsNodeClassStatus × Option String) [
                | none ↦ resolve_selector_resources p now spec s
                | some id ↦ resolve_launch_template p now id spec.launch_template_version s
              ])
              ≡ resolve_selector_resources p now spec s)
            (sym n) refl

      from_template :
          (id : String)
          → spec.launch_template_id ≡ some id
          → resolve_resources p now spec s
            ≡ resolve_launch_template p now id spec.launch_template_version s
      from_template id n =
          subst
            (λ o.
              (elim o as (λ _. EcsNodeClassStatus × Option String) [
                | none ↦ resolve_selector_resources p now spec s
                | some id ↦ resolve_launch_template p now id spec.launch_template_version s
              ])
              ≡ resolve_launch_template p now id spec.launch_template_version s)
            (sym n) refl

  check_role-cases :
      (s : EcsNodeClassStatus)
      → (check_role p now spec s ≡ accept_role now spec s)
        ⊎ ((check : Option RoleCheck) × (check_role p now spec s ≡ reject_role now check s))
  unfolding check_role
  check_role-cases s =
      elim spec.role
        as (λ o.
          ((elim o as (λ _. EcsNodeClassStatus × Option String) [
            | none ↦ accept_role now spec s
            | some role ↦
                if is_invalid (p.validate_role role)
                then reject_role now (p.validate_role role) s
                else accept_role now spec s
          ])
            ≡ accept_role now spec s)
          ⊎ ((check : Option RoleCheck) × ((elim o as (λ _. EcsNodeClassStatus × Option String) [
            | none ↦ accept_role now spec s
            | some role ↦
                if is_invalid (p.validate_role role)
                then reject_role now (p.validate_role role) s
                else accept_role now spec s
          ])
                ≡ reject_role now check s))) [
                  | none ↦ inl refl
                  | some role ↦ elim (Bool-cases (is_invalid (p.validate_role role))) [
                    | inl bad ↦ inr (p.validate_role role, rw bad refl)
                    | inr good ↦ inl (rw good refl)
                  ]
                ]

  accepted :
      (s : EcsNodeClassStatus)
      → HasResources spec s
      → HasResources spec (accept_role now spec s).0
        × ((accept_role now spec s).0.ram_role ≡ spec.role)
  unfolding accept_role set_resolved set_condition
  accepted s r = (
    record {
      some_vswitch = r.some_vswitch;
      some_group = r.some_group;
      some_image = r.some_image;
      few_groups = r.few_groups;
    },
    refl,
  )

  check_role-some :
      (s : EcsNodeClassStatus)
      → (check_role p now spec s).1 ≡ none
      → HasResources spec s
      → HasResources spec (check_role p now spec s).0
        × ((check_role p now spec s).0.ram_role ≡ spec.role)
  unfolding reject_role
  check_role-some s h r = elim (check_role-cases s) [
    | inl e ↦ subst (λ x. HasResources spec x.0 × (x.0.ram_role ≡ spec.role)) (sym e) (accepted s r)
    | inr (check, e) ↦ ground (arith, sym h ∙ ap (λ x. x.1) e)
  ]

  kept_if :
      (b : Bool) (s : EcsNodeClassStatus)
      → HasResources spec s × (s.ram_role ≡ spec.role)
      → let s' =
          if b
          then set_condition now condition_type_ready condition_true "Ready" "ECSNodeClass is ready"
              s
          else s in
        HasResources spec s' × (s'.ram_role ≡ spec.role)
  unfolding set_condition
  kept_if true s (r, role) = (
    record {
      some_vswitch = r.some_vswitch;
      some_group = r.some_group;
      some_image = r.some_image;
      few_groups = r.few_groups;
    },
    role,
  )
  kept_if false s r = r

  pub resolve_status-HasResources :
      (s : EcsNodeClassStatus)
      → (resolve_status p now spec s).1 ≡ none
      → HasResources spec (resolve_status p now spec s).0
        × ((resolve_status p now spec s).0.ram_role ≡ spec.role)
  unfolding resolve_status
  resolve_status-HasResources s h =
      let s₁ = (resolve_resources p now spec s).0 in
      let (h₁, h₂) = no_error _ _ h in
      kept_if (is_ready (check_role p now spec s₁).0) (check_role p now spec s₁).0
        (check_role-some s₁ h₂ (resolve_resources-some s h₁))
