-- ===== src/Status/Reconcile.antt =====
-- `Reconcile` of pkg/controllers/nodeclass/status/controller.go. The client, its deep comparison and the
-- jitter are parameters.
pub mod Settled
pub mod Ready
pub mod Selected
pub mod Resources
use karpenter_provider_aliba.Prelude.{
  Bool, Option, Outcome, String, append_text, err, false, if◌then◌else◌, is_set, none, not, ok,
  some, ℕ, ◌+◌,
}
use karpenter_provider_aliba.NodeClass.{
  EcsNodeClass, EcsNodeClassSpec, EcsNodeClassStatus, condition_true,
}
use karpenter_provider_aliba.NodeClass.Labels.{
  condition_type_ram_role_resolved, condition_type_ready,
}
use karpenter_provider_aliba.Status.Conditions.{is_ready, set_condition}
use karpenter_provider_aliba.Status.Resolution.{
  Providers, RoleCheck, Step, resolve_selector_resources, set_failed, set_resolved, then_step,
  with_ram_role,
}
use karpenter_provider_aliba.Status.Template.{resolve_launch_template}

-- `ValidateRole` failed.
abbrev pub is_invalid : Option RoleCheck → Bool
is_invalid none = false
is_invalid (some check) = not check.valid

abbrev pub check_message : Option RoleCheck → String
check_message none = ""
check_message (some check) = check.message

abbrev pub check_reason : Option RoleCheck → String
check_reason none = ""
check_reason (some check) = check.reason

unfoldable pub accept_role : ℕ → EcsNodeClassSpec → Step
unfolding set_resolved
accept_role now spec s = (
  set_resolved now condition_type_ram_role_resolved "RAMRoleResolved" "RAM role is valid"
      (with_ram_role spec.role s),
  none,
)

unfoldable pub reject_role : ℕ → Option RoleCheck → Step
unfolding set_failed
reject_role now check s = (
  set_failed now condition_type_ram_role_resolved (check_reason check) (check_message check)
      "RAM role validation failed" s,
  some (append_text "failed to validate RAM role: " (check_message check)),
)

unfoldable pub check_role : Providers → ℕ → EcsNodeClassSpec → Step
unfolding reject_role accept_role
check_role p now spec s = elim spec.role [
  | none ↦ accept_role now spec s
  | some role ↦
      if is_invalid (p.validate_role role)
      then reject_role now (p.validate_role role) s
      else accept_role now spec s
]

unfoldable pub resolve_resources : Providers → ℕ → EcsNodeClassSpec → Step
unfolding resolve_launch_template resolve_selector_resources
resolve_resources p now spec s = elim spec.launch_template_id [
  | none ↦ resolve_selector_resources p now spec s
  | some id ↦ resolve_launch_template p now id spec.launch_template_version s
]

-- The part of `Reconcile` between the read and the write.
unfoldable pub resolve_status : Providers → ℕ → EcsNodeClassSpec → Step
unfolding resolve_resources check_role is_ready set_condition
resolve_status p now spec s =
    let (s', e) = then_step (resolve_resources p now spec) (check_role p now spec) s in
    (
      (if is_ready s'
          then set_condition now condition_type_ready condition_true "Ready" "ECSNodeClass is ready"
              s'
          else s'),
      e,
    )

pub data GetError : Type 0 where
  get_not_found : GetError
  get_failed : String → GetError

-- Durations are in seconds.
abbrev pub successful_requeue_base : ℕ
successful_requeue_base = 900

abbrev pub failed_resolution_requeue_base : ℕ
failed_resolution_requeue_base = 300

-- `reconcile.Result`: with or without `RequeueAfter`.
pub data ReconcileResult : Type 0 where
  done : ReconcileResult
  requeue_after : ℕ → ReconcileResult

module _ {W : Type 0} (get : W → Outcome GetError EcsNodeClass)
    (update_status : EcsNodeClass → W → Outcome String (Unit {0}) × W)
    (deep_equal : EcsNodeClass → EcsNodeClass → Bool) where
  -- What follows the resolution: the write, if anything changed, and the result.
  unfoldable pub finish :
      ℕ → EcsNodeClass → EcsNodeClassStatus × Option String → W → Outcome String ReconcileResult × W
  finish jitter stored (s, e) w =
      let changed : EcsNodeClass = record { spec = stored.spec; status = s } in
      let result : ReconcileResult =
        requeue_after (
          (if is_set e then failed_resolution_requeue_base else successful_requeue_base)
          + jitter) in
      if deep_equal stored changed
      then (ok result, w)
      else let (written, w') = update_status changed w in
        elim written [
          | ok u ↦ (ok result, w')
          | err m ↦ (err (append_text "failed to update ECSNodeClass status: " m), w')
        ]

  unfoldable pub reconcile : Providers → ℕ → ℕ → W → Outcome String ReconcileResult × W
  unfolding finish resolve_status
  reconcile p now jitter w = elim (get w) [
    | err get_not_found ↦ (ok done, w)
    | err (get_failed m) ↦ (err m, w)
    | ok stored ↦ finish jitter stored (resolve_status p now stored.spec stored.status) w
  ]
