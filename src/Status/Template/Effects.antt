-- ===== src/Status/Template/Effects.antt =====
-- What the resolution of a launch template does to the conditions.
use karpenter_provider_aliba.Prelude.{
  Bool-cases, List, Option, Option-cases, Outcome, String, [], ap, arith, err, if◌then◌else◌, inl,
  inr, is_empty, length, member, none, ok, refl, some, str_eq, ℕ, ℤ, ◌||◌, ◌∙◌, ◌∷◌, ◌≡◌,
}
use karpenter_provider_aliba.NodeClass.{
  ConditionStatus, EcsNodeClassStatus, VSwitch, condition_false, condition_true,
}
use karpenter_provider_aliba.NodeClass.Labels.{
  condition_type_image_resolved, condition_type_ready, condition_type_security_group_resolved,
  condition_type_vswitch_resolved,
}
use karpenter_provider_aliba.Status.Conditions.{set_condition}
use karpenter_provider_aliba.Status.Conditions.Laws.{status_of, status_of-set_condition}
use karpenter_provider_aliba.Status.Resolution.{
  LaunchTemplateData, Providers, resolved_message, set_resolved, with_images, with_security_groups,
  with_vswitches,
}
use karpenter_provider_aliba.Status.Resolution.Effects.{
  Settles, status_of-set_failed, status_of-set_resolved,
}
use karpenter_provider_aliba.Status.Template.{
  resolve_launch_template, resolve_template_data, resolve_template_vswitch, set_template_failed,
  set_template_resolved, set_template_vswitch_failed, template_images, template_incomplete,
  template_security_groups, template_vswitch_missing, vswitch_term,
}
use karpenter_provider_aliba.Status.Reconcile.{}

-- The three conditions of the resources.
abbrev pub resource_conditions : List String
resource_conditions =
    condition_type_vswitch_resolved ∷ condition_type_security_group_resolved
    ∷ condition_type_image_resolved ∷ []

-- One more condition that may be the one that is read.
abbrev or_else : String → String → ConditionStatus → Option ConditionStatus → Option ConditionStatus
or_else t u status o = if str_eq t u then some status else o

status_of-set_template_failed :
    (now : ℕ) (message : String) (s : EcsNodeClassStatus) (u : String)
    → status_of u (set_template_failed now message s)
      ≡ or_else condition_type_ready u condition_false (
          or_else condition_type_image_resolved u condition_false (
            or_else condition_type_security_group_resolved u condition_false
              (or_else condition_type_vswitch_resolved u condition_false (status_of u s))))
unfolding set_template_failed
status_of-set_template_failed now message s u =
    let vswitch_set =
      set_condition now condition_type_vswitch_resolved condition_false
        "LaunchTemplateResolutionFailed" message s in
    let group_set =
      set_condition now condition_type_security_group_resolved condition_false
        "LaunchTemplateResolutionFailed" message vswitch_set in
    status_of-set_failed now condition_type_image_resolved _ _ _ group_set u
    ∙ ap
        (λ o.
          or_else condition_type_ready u condition_false
            (or_else condition_type_image_resolved u condition_false o))
        (status_of-set_condition now condition_type_security_group_resolved u _ _ _ vswitch_set
          ∙ ap (or_else condition_type_security_group_resolved u condition_false)
              (status_of-set_condition now condition_type_vswitch_resolved u _ _ _ s))

set_template_failed-Settles :
    (now : ℕ) (message e : String)
    → Settles resource_conditions (λ s. (set_template_failed now message s, some e))
unfolding member
set_template_failed-Settles now message e s = (
  inr (
    e,
    refl,
    condition_type_image_resolved,
    refl,
    status_of-set_template_failed now message s condition_type_image_resolved,
    status_of-set_template_failed now message s condition_type_ready,
  ),
  λ u m r. ground (arith, status_of-set_template_failed now message s u),
)

set_template_vswitch_failed-Settles :
    (now : ℕ) (message e : String)
    → Settles resource_conditions (λ s. (set_template_vswitch_failed now message s, some e))
unfolding member set_template_vswitch_failed
set_template_vswitch_failed-Settles now message e s =
    let reads =
      status_of-set_failed now condition_type_vswitch_resolved "LaunchTemplateResolutionFailed"
        message "Launch template VSwitch resolution failed" s in
    (
      inr (
        e,
        refl,
        condition_type_vswitch_resolved,
        refl,
        reads condition_type_vswitch_resolved,
        reads condition_type_ready,
      ),
      λ u m r. ground (arith, reads u),
    )

status_of-set_template_resolved :
    (now : ℕ) (d : LaunchTemplateData) (vs : List VSwitch) (s : EcsNodeClassStatus) (u : String)
    → status_of u (set_template_resolved now d vs s)
      ≡ or_else condition_type_image_resolved u condition_true (
          or_else condition_type_security_group_resolved u condition_true
            (or_else condition_type_vswitch_resolved u condition_true (status_of u s)))
unfolding set_template_resolved
status_of-set_template_resolved now d vs s u =
    let start = with_security_groups (template_security_groups d) (with_vswitches vs s) in
    let vswitch_set =
      set_resolved now condition_type_vswitch_resolved "LaunchTemplateResolved"
        "Resolved VSwitch from launch template" start in
    let group_set =
      set_resolved now condition_type_security_group_resolved "LaunchTemplateResolved"
        (resolved_message (length d.security_group_ids) " SecurityGroups from launch template")
        vswitch_set in
    status_of-set_resolved now condition_type_image_resolved _ _ group_set u
    ∙ ap (or_else condition_type_image_resolved u condition_true) (
        status_of-set_resolved now condition_type_security_group_resolved _ _ vswitch_set u
        ∙ ap (or_else condition_type_security_group_resolved u condition_true)
            (status_of-set_resolved now condition_type_vswitch_resolved _ _ start u))

set_template_resolved-Settles :
    (now : ℕ) (d : LaunchTemplateData) (vs : List VSwitch)
    → Settles resource_conditions (λ s. (set_template_resolved now d vs s, none))
unfolding member
set_template_resolved-Settles now d vs s = (
  inl (
    refl,
    λ t m. ground (arith, m, status_of-set_template_resolved now d vs s t),
    status_of-set_template_resolved now d vs s condition_type_ready,
  ),
  λ u m r. ground (arith, status_of-set_template_resolved now d vs s u),
)

resolve_template_vswitch-Settles :
    (now : ℕ) (d : LaunchTemplateData) (r : Outcome String (List VSwitch))
    → Settles resource_conditions (resolve_template_vswitch now d r)
unfolding resolve_template_vswitch
resolve_template_vswitch-Settles now d (err e) = set_template_vswitch_failed-Settles now e _
resolve_template_vswitch-Settles now d (ok []) =
    set_template_vswitch_failed-Settles now template_vswitch_missing _
resolve_template_vswitch-Settles now d (ok (v ∷ vs)) = set_template_resolved-Settles now d (v ∷ vs)

resolve_template_data-Settles :
    (p : Providers) (now : ℕ) (r : Outcome String LaunchTemplateData)
    → Settles resource_conditions (resolve_template_data p now r)
unfolding resolve_template_data
resolve_template_data-Settles p now (err e) s = set_template_failed-Settles now e _ s
resolve_template_data-Settles p now (ok d) s =
    elim (Bool-cases
      (str_eq d.image_id "" || str_eq d.vswitch_id "" || is_empty d.security_group_ids)) [
        | inl h ↦ rw h (set_template_failed-Settles now template_incomplete template_incomplete s)
        | inr h ↦ rw h (
            resolve_template_vswitch-Settles now d
              (p.resolve_vswitches (vswitch_term d.vswitch_id ∷ []))
              (with_images (template_images d) s))
      ]

pub resolve_launch_template-Settles :
    (p : Providers) (now : ℕ) (id : String) (version : Option ℤ)
    → Settles resource_conditions (resolve_launch_template p now id version)
unfolding resolve_launch_template
resolve_launch_template-Settles p now id version s = elim (Option-cases p.launch_template) [
  | inl h ↦ rw (h, resolve_launch_template) (set_template_failed-Settles now _ _ s)
  | inr (get_data, h) ↦
      rw (h, resolve_launch_template) (resolve_template_data-Settles p now (get_data id version) s)
]
