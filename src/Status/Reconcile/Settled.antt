-- ===== src/Status/Reconcile/Settled.antt =====
-- Each resolution of a node class settles its condition and Ready.
use karpenter_provider_aliba.Prelude.{
  Bool-cases, List, Option, Option-cases, Outcome, String, [], are_apart, err, inl, inr, member,
  none, ok, refl, some, ℕ, ◌∷◌,
}
use karpenter_provider_aliba.NodeClass.{EcsNodeClassSpec, Image, SecurityGroup, VSwitch}
use karpenter_provider_aliba.NodeClass.Labels.{
  condition_type_image_resolved, condition_type_ram_role_resolved,
  condition_type_security_group_resolved, condition_type_vswitch_resolved,
}
use karpenter_provider_aliba.Status.Conditions.{required_conditions}
use karpenter_provider_aliba.Status.Reconcile.{
  accept_role, check_role, is_invalid, reject_role, resolve_resources,
}
use karpenter_provider_aliba.Status.Resolution.{
  Providers, RoleCheck, attach_limit_error, resolve_image_terms, resolve_security_group_terms,
  resolve_selector_resources, resolve_vswitch_terms, take_security_groups, then_step, with_images,
  with_ram_role, with_security_groups, with_vswitches,
}
use karpenter_provider_aliba.Status.Resolution.Effects.{
  Settles, single-Settles, status_of-set_failed, status_of-set_resolved, then_step-Settles,
}
use karpenter_provider_aliba.Status.Template.Effects.{
  resolve_launch_template-Settles, resource_conditions,
}

resolve_vswitch_terms-Settles :
    (now : ℕ) (r : Outcome String (List VSwitch))
    → Settles (condition_type_vswitch_resolved ∷ []) (resolve_vswitch_terms now r)
unfolding resolve_vswitch_terms
resolve_vswitch_terms-Settles now (err e) =
    single-Settles _ refl (resolve_vswitch_terms now (err e))
      λ s. inr (_, refl, status_of-set_failed now _ _ _ _ s)
resolve_vswitch_terms-Settles now (ok []) =
    single-Settles _ refl (resolve_vswitch_terms now (ok []))
      λ s. inr (_, refl, status_of-set_failed now _ _ _ _ s)
resolve_vswitch_terms-Settles now (ok (v ∷ vs)) =
    single-Settles _ refl (resolve_vswitch_terms now (ok (v ∷ vs)))
      λ s. inl (refl, status_of-set_resolved now _ _ _ (with_vswitches (v ∷ vs) s))

take_security_groups-Settles :
    (now : ℕ) (gs : List SecurityGroup) (e : Option String)
    → Settles (condition_type_security_group_resolved ∷ []) (take_security_groups now gs e)
unfolding take_security_groups
take_security_groups-Settles now gs none =
    single-Settles _ refl (take_security_groups now gs none)
      λ s. inl (refl, status_of-set_resolved now _ _ _ (with_security_groups gs s))
take_security_groups-Settles now gs (some e) =
    single-Settles _ refl (take_security_groups now gs (some e))
      λ s. inr (_, refl, status_of-set_failed now _ _ _ _ s)

resolve_security_group_terms-Settles :
    (now : ℕ) (r : Outcome String (List SecurityGroup))
    → Settles (condition_type_security_group_resolved ∷ []) (resolve_security_group_terms now r)
unfolding resolve_security_group_terms
resolve_security_group_terms-Settles now (err e) =
    single-Settles _ refl (resolve_security_group_terms now (err e))
      λ s. inr (_, refl, status_of-set_failed now _ _ _ _ s)
resolve_security_group_terms-Settles now (ok []) =
    single-Settles _ refl (resolve_security_group_terms now (ok []))
      λ s. inr (_, refl, status_of-set_failed now _ _ _ _ s)
resolve_security_group_terms-Settles now (ok (g ∷ gs)) =
    take_security_groups-Settles now (g ∷ gs) (attach_limit_error (g ∷ gs))

resolve_image_terms-Settles :
    (now : ℕ) (r : Outcome String (List Image))
    → Settles (condition_type_image_resolved ∷ []) (resolve_image_terms now r)
unfolding resolve_image_terms
resolve_image_terms-Settles now (err e) =
    single-Settles _ refl (resolve_image_terms now (err e))
      λ s. inr (_, refl, status_of-set_failed now _ _ _ _ s)
resolve_image_terms-Settles now (ok []) =
    single-Settles _ refl (resolve_image_terms now (ok []))
      λ s. inr (_, refl, status_of-set_failed now _ _ _ _ s)
resolve_image_terms-Settles now (ok (i ∷ is)) =
    single-Settles _ refl (resolve_image_terms now (ok (i ∷ is)))
      λ s. inl (refl, status_of-set_resolved now _ _ _ (with_images (i ∷ is) s))

module _ (p : Providers) (now : ℕ) (spec : EcsNodeClassSpec) where
  resolve_selector_resources-Settles :
      Settles resource_conditions (resolve_selector_resources p now spec)
  unfolding resolve_selector_resources member are_apart
  resolve_selector_resources-Settles =
      let found_vswitches = p.resolve_vswitches spec.vswitch_selector_terms in
      let found_groups = p.resolve_security_groups spec.security_group_selector_terms in
      let found_images = p.resolve_images spec.image_selector_terms in
      let vswitches = resolve_vswitch_terms now found_vswitches in
      let groups = resolve_security_group_terms now found_groups in
      let two = condition_type_vswitch_resolved ∷ condition_type_security_group_resolved ∷ [] in
      then_step-Settles two (condition_type_image_resolved ∷ []) (then_step vswitches groups)
        (resolve_image_terms now found_images) refl refl refl
        (then_step-Settles (condition_type_vswitch_resolved ∷ [])
          (condition_type_security_group_resolved ∷ []) vswitches groups refl refl refl
          (resolve_vswitch_terms-Settles now found_vswitches)
          (resolve_security_group_terms-Settles now found_groups))
        (resolve_image_terms-Settles now found_images)

module _ (p : Providers) (now : ℕ) (spec : EcsNodeClassSpec) where
  resolve_resources-Settles : Settles resource_conditions (resolve_resources p now spec)
  unfolding resolve_resources
  resolve_resources-Settles s = elim (Option-cases spec.launch_template_id) [
    | inl h ↦ rw (h, resolve_resources) (resolve_selector_resources-Settles p now spec s)
    | inr (id, h) ↦
        rw (h, resolve_resources)
          (resolve_launch_template-Settles p now id spec.launch_template_version s)
  ]

  accept_role-Settles : Settles (condition_type_ram_role_resolved ∷ []) (accept_role now spec)
  unfolding accept_role
  accept_role-Settles =
      single-Settles _ refl (accept_role now spec)
        λ s. inl (refl, status_of-set_resolved now _ _ _ (with_ram_role spec.role s))

  reject_role-Settles :
      (check : Option RoleCheck)
      → Settles (condition_type_ram_role_resolved ∷ []) (reject_role now check)
  unfolding reject_role
  reject_role-Settles check =
      single-Settles _ refl (reject_role now check)
        λ s. inr (_, refl, status_of-set_failed now _ _ _ _ s)

  check_role-Settles : Settles (condition_type_ram_role_resolved ∷ []) (check_role p now spec)
  unfolding check_role
  check_role-Settles s = elim (Option-cases spec.role) [
    | inl h ↦ rw (h, check_role) (accept_role-Settles s)
    | inr (role, h) ↦ elim (Bool-cases (is_invalid (p.validate_role role))) [
      | inl bad ↦ rw (h, bad, check_role) (reject_role-Settles (p.validate_role role) s)
      | inr good ↦ rw (h, good, check_role) (accept_role-Settles s)
    ]
  ]

  pub resolution-Settles :
      Settles required_conditions (then_step (resolve_resources p now spec) (check_role p now spec))
  unfolding member are_apart
  resolution-Settles =
      then_step-Settles resource_conditions (condition_type_ram_role_resolved ∷ [])
        (resolve_resources p now spec) (check_role p now spec) refl refl refl
        resolve_resources-Settles check_role-Settles
