-- ===== src/Status/Conditions.antt =====
-- The conditions of pkg/controllers/nodeclass/status/controller.go: `setCondition`, `getCondition` and
-- `isReady`. A call of `metav1.Now` is the argument `now`.
pub mod Laws
use karpenter_provider_aliba.Prelude.{
  Bool, List, Option, String, [], false, if◌then◌else◌, none, not, some, str_eq, true, ℕ, ◌∷◌,
}
use karpenter_provider_aliba.NodeClass.{
  Condition, ConditionStatus, EcsNodeClassStatus, condition_false, condition_true,
  condition_unknown,
}
use karpenter_provider_aliba.NodeClass.Labels.{
  condition_type_image_resolved, condition_type_ram_role_resolved,
  condition_type_security_group_resolved, condition_type_vswitch_resolved,
}

abbrev pub same_status : ConditionStatus → ConditionStatus → Bool
same_status condition_true condition_true = true
same_status condition_false condition_false = true
same_status condition_unknown condition_unknown = true
same_status _ _ = false

-- The new text of a condition; its time moves only with its status.
unfoldable pub renew_condition : ℕ → ConditionStatus → String → String → Condition → Condition
renew_condition now status reason message c = record {
  condition_type = c.condition_type;
  status = status;
  reason = reason;
  message = message;
  last_transition_time = if same_status c.status status then c.last_transition_time else now;
}

unfoldable pub put_condition :
    ℕ → String → ConditionStatus → String → String → List Condition → List Condition
unfolding renew_condition
put_condition now t status reason message [] =
    record {
      condition_type = t;
      status = status;
      reason = reason;
      message = message;
      last_transition_time = now;
    }
    ∷ []
put_condition now t status reason message (c ∷ cs) =
    let rest = put_condition now t status reason message cs in
    if str_eq c.condition_type t then renew_condition now status reason message c ∷ cs else c ∷ rest

unfoldable pub set_condition :
    ℕ → String → ConditionStatus → String → String → EcsNodeClassStatus → EcsNodeClassStatus
unfolding put_condition
set_condition now t status reason message s = record {
  vswitches = s.vswitches;
  security_groups = s.security_groups;
  images = s.images;
  ram_role = s.ram_role;
  conditions = put_condition now t status reason message s.conditions;
}

unfoldable pub get_condition : String → List Condition → Option Condition
get_condition t [] = none
get_condition t (c ∷ cs) =
    let rest = get_condition t cs in if str_eq c.condition_type t then some c else rest

abbrev pub is_true : Option Condition → Bool
is_true none = false
is_true (some c) = same_status c.status condition_true

abbrev pub required_conditions : List String
required_conditions =
    condition_type_vswitch_resolved ∷ condition_type_security_group_resolved
    ∷ condition_type_image_resolved ∷ condition_type_ram_role_resolved ∷ []

-- The loop of `isReady`.
unfoldable pub all_true : List String → List Condition → Bool
unfolding get_condition
all_true [] cs = true
all_true (t ∷ ts) cs =
    let rest = all_true ts cs in if not (is_true (get_condition t cs)) then false else rest

unfoldable pub is_ready : EcsNodeClassStatus → Bool
unfolding all_true
is_ready s = all_true required_conditions s.conditions
