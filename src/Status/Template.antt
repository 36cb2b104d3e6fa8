-- ===== src/Status/Template.antt =====
-- `resolveLaunchTemplate` of pkg/controllers/nodeclass/status/controller.go.
pub mod Effects
use karpenter_provider_aliba.Prelude.{
  List, Option, Outcome, String, [], append_text, err, if◌then◌else◌, is_empty, length, map, none,
  ok, some, str_eq, ℕ, ℤ, ◌||◌, ◌∷◌,
}
use karpenter_provider_aliba.NodeClass.{
  EcsNodeClassStatus, Image, SecurityGroup, VSwitch, VSwitchSelectorTerm, condition_false,
}
use karpenter_provider_aliba.NodeClass.Labels.{
  condition_type_image_resolved, condition_type_security_group_resolved,
  condition_type_vswitch_resolved,
}
use karpenter_provider_aliba.Status.Conditions.{set_condition}
use karpenter_provider_aliba.Status.Resolution.{
  LaunchTemplateData, Providers, Step, resolved_message, set_failed, set_resolved, with_images,
  with_security_groups, with_vswitches,
}

-- `setSelectorConditionsFromLaunchTemplateError`
unfoldable pub set_template_failed : ℕ → String → EcsNodeClassStatus → EcsNodeClassStatus
unfolding set_failed set_condition
set_template_failed now message s =
    set_failed now condition_type_image_resolved "LaunchTemplateResolutionFailed" message
      "Launch template resolution failed"
      (set_condition now condition_type_security_group_resolved condition_false
        "LaunchTemplateResolutionFailed" message
        (set_condition now condition_type_vswitch_resolved condition_false
          "LaunchTemplateResolutionFailed" message s))

unfoldable pub set_template_vswitch_failed : ℕ → String → EcsNodeClassStatus → EcsNodeClassStatus
unfolding set_failed
set_template_vswitch_failed now message s =
    set_failed now condition_type_vswitch_resolved "LaunchTemplateResolutionFailed" message
      "Launch template VSwitch resolution failed" s

abbrev pub template_incomplete : String
template_incomplete = "launch template must specify image, vswitch, and security group"

abbrev pub template_vswitch_missing : String
template_vswitch_missing = "launch template vswitch not found"

-- The term that selects the vSwitch of the template.
abbrev pub vswitch_term : String → VSwitchSelectorTerm
vswitch_term id = record { tags = []; id = some id; zone_id = none }

-- The resources of a template, with only what the template names of them.
abbrev pub template_images : LaunchTemplateData → List Image
template_images d = record { id = d.image_id; name = ""; architecture = "" } ∷ []

abbrev pub template_security_groups : LaunchTemplateData → List SecurityGroup
template_security_groups d = map (λ id. record { id = id; name = "" }) d.security_group_ids

unfoldable pub set_template_resolved :
    ℕ → LaunchTemplateData → List VSwitch → EcsNodeClassStatus → EcsNodeClassStatus
unfolding set_resolved
set_template_resolved now d vs s =
    set_resolved now condition_type_image_resolved "LaunchTemplateResolved"
      "Resolved Image from launch template"
      (set_resolved now condition_type_security_group_resolved "LaunchTemplateResolved"
        (resolved_message (length d.security_group_ids) " SecurityGroups from launch template")
        (set_resolved now condition_type_vswitch_resolved "LaunchTemplateResolved"
          "Resolved VSwitch from launch template"
          (with_security_groups (template_security_groups d) (with_vswitches vs s))))

-- What follows once the images are set.
unfoldable pub resolve_template_vswitch :
    ℕ → LaunchTemplateData → Outcome String (List VSwitch) → Step
unfolding set_template_vswitch_failed set_template_resolved
resolve_template_vswitch now d (err e) s = (
  set_template_vswitch_failed now e s,
  some (append_text "failed to resolve launch template vswitch: " e),
)
resolve_template_vswitch now d (ok []) s =
    (set_template_vswitch_failed now template_vswitch_missing s, some template_vswitch_missing)
resolve_template_vswitch now d (ok (v ∷ vs)) s = (set_template_resolved now d (v ∷ vs) s, none)

unfoldable pub resolve_template_data : Providers → ℕ → Outcome String LaunchTemplateData → Step
unfolding set_template_failed resolve_template_vswitch
resolve_template_data p now (err e) s =
    (set_template_failed now e s, some (append_text "failed to resolve launch template: " e))
resolve_template_data p now (ok d) s =
    if str_eq d.image_id "" || str_eq d.vswitch_id "" || is_empty d.security_group_ids
    then (set_template_failed now template_incomplete s, some template_incomplete)
    else resolve_template_vswitch now d (p.resolve_vswitches (vswitch_term d.vswitch_id ∷ []))
        (with_images (template_images d) s)

unfoldable pub resolve_launch_template : Providers → ℕ → String → Option ℤ → Step
unfolding set_template_failed resolve_template_data
resolve_launch_template p now id version s = elim p.launch_template [
  | none ↦ (
    set_template_failed now "launch template provider is required" s,
    some "launch template provider is required",
  )
  | some get_data ↦ resolve_template_data p now (get_data id version) s
]
