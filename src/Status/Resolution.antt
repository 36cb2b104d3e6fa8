-- ===== src/Status/Resolution.antt =====
-- The resolution of a node class in pkg/controllers/nodeclass/status/controller.go. The providers are
-- parameters; their errors are messages. One reconcile reads one time, `now`.
pub mod Effects
use karpenter_provider_aliba.Prelude.{
  Bool, List, Option, Outcome, String, [], append_text, decimal, err, if◌then◌else◌, length, ltb,
  none, ok, some, ℕ, ℤ, ◌∷◌,
}
use karpenter_provider_aliba.NodeClass.{
  EcsNodeClassSpec, EcsNodeClassStatus, Image, ImageSelectorTerm, SecurityGroup,
  SecurityGroupSelectorTerm, VSwitch, VSwitchSelectorTerm, condition_false, condition_true,
}
use karpenter_provider_aliba.NodeClass.Labels.{
  condition_type_image_resolved, condition_type_ready, condition_type_security_group_resolved,
  condition_type_vswitch_resolved,
}
use karpenter_provider_aliba.Status.Conditions.{set_condition}

pub record LaunchTemplateData : Type 0 where
  pub image_id : String
  pub vswitch_id : String
  pub security_group_ids : List String

-- `ramrole.ValidateRoleResult`
pub record RoleCheck : Type 0 where
  pub valid : Bool
  pub reason : String
  pub message : String

-- The providers that the controller holds; the one for launch templates may be nil.
pub record Providers : Type 0 where
  pub resolve_vswitches : List VSwitchSelectorTerm → Outcome String (List VSwitch)
  pub resolve_security_groups : List SecurityGroupSelectorTerm → Outcome String (List SecurityGroup)
  pub resolve_images : List ImageSelectorTerm → Outcome String (List Image)
  pub launch_template : Option (String → Option ℤ → Outcome String LaunchTemplateData)
  pub validate_role : String → Option RoleCheck

abbrev pub default_security_group_attach_limit : ℕ
default_security_group_attach_limit = 5

abbrev pub with_vswitches : List VSwitch → EcsNodeClassStatus → EcsNodeClassStatus
with_vswitches vs s = record {
  vswitches = vs;
  security_groups = s.security_groups;
  images = s.images;
  ram_role = s.ram_role;
  conditions = s.conditions;
}

abbrev pub with_security_groups : List SecurityGroup → EcsNodeClassStatus → EcsNodeClassStatus
with_security_groups gs s = record {
  vswitches = s.vswitches;
  security_groups = gs;
  images = s.images;
  ram_role = s.ram_role;
  conditions = s.conditions;
}

abbrev pub with_images : List Image → EcsNodeClassStatus → EcsNodeClassStatus
with_images is s = record {
  vswitches = s.vswitches;
  security_groups = s.security_groups;
  images = is;
  ram_role = s.ram_role;
  conditions = s.conditions;
}

abbrev pub with_ram_role : Option String → EcsNodeClassStatus → EcsNodeClassStatus
with_ram_role r s = record {
  vswitches = s.vswitches;
  security_groups = s.security_groups;
  images = s.images;
  ram_role = r;
  conditions = s.conditions;
}

abbrev pub resolved_message : ℕ → String → String
resolved_message n what = append_text "Resolved " (append_text (decimal n) what)

-- A selector that failed: its own condition and `Ready` become false.
unfoldable pub set_failed :
    ℕ → String → String → String → String → EcsNodeClassStatus → EcsNodeClassStatus
unfolding set_condition
set_failed now t reason message ready_message s =
    set_condition now condition_type_ready condition_false "ResourceResolutionFailed" ready_message
      (set_condition now t condition_false reason message s)

unfoldable pub set_resolved : ℕ → String → String → String → EcsNodeClassStatus → EcsNodeClassStatus
unfolding set_condition
set_resolved now t reason message s = set_condition now t condition_true reason message s

-- A part of the resolution: the new status, and the error, if any.
abbrev pub Step : Type 0
Step = EcsNodeClassStatus → EcsNodeClassStatus × Option String

unfoldable pub resolve_vswitch_terms : ℕ → Outcome String (List VSwitch) → Step
unfolding set_failed set_resolved
resolve_vswitch_terms now (err e) s = (
  set_failed now condition_type_vswitch_resolved "VSwitchResolutionFailed" e
      "VSwitch resolution failed" s,
  some (append_text "failed to resolve vswitches: " e),
)
resolve_vswitch_terms now (ok []) s = (
  set_failed now condition_type_vswitch_resolved "VSwitchResolutionFailed"
      "vSwitchSelectorTerms resolved zero VSwitches" "VSwitch resolution failed" s,
  some "no vswitches found matching selector terms",
)
resolve_vswitch_terms now (ok (v ∷ vs)) s = (
  set_resolved now condition_type_vswitch_resolved "VSwitchResolved"
      (resolved_message (length (v ∷ vs)) " VSwitches") (with_vswitches (v ∷ vs) s),
  none,
)

-- The error of `validateResolvedSecurityGroupAttachLimit`, if any.
unfoldable pub attach_limit_error : List SecurityGroup → Option String
attach_limit_error gs =
    if ltb (length gs) 1
    then some "securityGroupSelectorTerms resolved zero security groups"
    else if ltb default_security_group_attach_limit (length gs)
    then some (
        append_text "securityGroupSelectorTerms resolved " (
          append_text (decimal (length gs)) (
            append_text " security groups, exceeding attach limit "
              (decimal default_security_group_attach_limit))))
    else none

-- The `else` branches for groups that were found.
unfoldable pub take_security_groups : ℕ → List SecurityGroup → Option String → Step
unfolding set_failed set_resolved
take_security_groups now gs (some e) s = (
  set_failed now condition_type_security_group_resolved "SecurityGroupResolutionFailed" e
      "SecurityGroup resolution failed" s,
  some e,
)
take_security_groups now gs none s = (
  set_resolved now condition_type_security_group_resolved "SecurityGroupResolved"
      (resolved_message (length gs) " SecurityGroups") (with_security_groups gs s),
  none,
)

unfoldable pub resolve_security_group_terms : ℕ → Outcome String (List SecurityGroup) → Step
unfolding set_failed attach_limit_error take_security_groups
resolve_security_group_terms now (err e) s = (
  set_failed now condition_type_security_group_resolved "SecurityGroupResolutionFailed" e
      "SecurityGroup resolution failed" s,
  some (append_text "failed to resolve security groups: " e),
)
resolve_security_group_terms now (ok []) s = (
  set_failed now condition_type_security_group_resolved "SecurityGroupResolutionFailed"
      "securityGroupSelectorTerms resolved zero security groups" "SecurityGroup resolution failed"
      s,
  some "no security groups found matching selector terms",
)
resolve_security_group_terms now (ok (g ∷ gs)) s =
    take_security_groups now (g ∷ gs) (attach_limit_error (g ∷ gs)) s

unfoldable pub resolve_image_terms : ℕ → Outcome String (List Image) → Step
unfolding set_failed set_resolved
resolve_image_terms now (err e) s = (
  set_failed now condition_type_image_resolved "ImageResolutionFailed" e "Image resolution failed"
      s,
  some (append_text "failed to resolve images: " e),
)
resolve_image_terms now (ok []) s = (
  set_failed now condition_type_image_resolved "ImageResolutionFailed"
      "imageSelectorTerms resolved zero images" "Image resolution failed" s,
  some "no images found matching selector terms",
)
resolve_image_terms now (ok (i ∷ is)) s = (
  set_resolved now condition_type_image_resolved "ImageResolved"
      (resolved_message (length (i ∷ is)) " Images") (with_images (i ∷ is) s),
  none,
)

-- `if resolveErr == nil { resolveErr = … }`
abbrev pub first_error : Option String → Option String → Option String
first_error none e = e
first_error (some d) e = some d

-- One step after another, with the first error of the two.
abbrev pub then_step : Step → Step → Step
then_step f g s = let (s₁, e₁) = f s in let (s₂, e₂) = g s₁ in (s₂, first_error e₁ e₂)

unfoldable pub resolve_selector_resources : Providers → ℕ → EcsNodeClassSpec → Step
unfolding resolve_vswitch_terms resolve_security_group_terms resolve_image_terms
resolve_selector_resources p now spec =
    then_step
      (then_step (resolve_vswitch_terms now (p.resolve_vswitches spec.vswitch_selector_terms)) (
        resolve_security_group_terms now
          (p.resolve_security_groups spec.security_group_selector_terms)))
      (resolve_image_terms now (p.resolve_images spec.image_selector_terms))
