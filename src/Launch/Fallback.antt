-- ===== src/Launch/Fallback.antt =====
-- `vswitchFallbackCreate` and `createInstanceWithRetry` of pkg/cloudprovider/cloudprovider.go. The cloud
-- is a state that each call of `instanceProvider.Create` changes; errors are messages. `sort.Slice` of
-- Go, which is not stable, is a parameter, and so is `Create`.
pub mod Messages
pub mod Search
pub mod Flat
pub mod Cases
pub mod Accounting
pub mod Completeness
pub mod Order
use karpenter_provider_aliba.Prelude.{
  Bool, List, Option, Outcome, String, [], append_text, decimal, err, false, if◌then◌else◌,
  is_empty, length, ltb_ℤ, map, none, ok, some, true, ℕ, ◌>>=◌, ◌||◌, ◌∷◌,
}
use karpenter_provider_aliba.Errors.{is_insufficient_capacity_error, wrap_error}
use karpenter_provider_aliba.NodeClass.{EcsNodeClass, Image, SecurityGroup, VSwitch}
use karpenter_provider_aliba.NodeClass.Disks.{NormalizedDisks, normalize_disks}
use karpenter_provider_aliba.Instance.{CreateOptions}
use karpenter_provider_aliba.Launch.Requirements.{
  Requirement, capacity_type_from_requirements, select_image_for_architecture,
}
use karpenter_provider_aliba.Launch.Options.{
  LaunchPlan, Refused, base_options, disks_refused, missing_parameters,
  validate_ram_role_for_create, with_vswitch,
}
use karpenter_provider_aliba.Utils.SecurityGroups.{normalize_ids}
use karpenter_provider_aliba.Utils.Tags.{Tags}

-- `createInstanceWithRetry` reads these of an instance type.
pub record TypeName : Type 0 where
  pub name : String
  pub architecture : String

abbrev pub failed_to_create : String
failed_to_create = "failed to create instance: "

abbrev pub all_vswitches_exhausted : String
all_vswitches_exhausted = "all vSwitches exhausted, last error: "

abbrev pub types_exhausted : ℕ → String
types_exhausted n =
    append_text "all instance types exhausted across all zones ("
      (append_text (decimal n) " types tried), last error: ")

-- The text that `%w` prints for the last error, which may be nil.
abbrev pub last_error : Option String → String
last_error none = "%!w(<nil>)"
last_error (some msg) = msg

abbrev pub more_addresses : VSwitch → VSwitch → Bool
more_addresses a b = ltb_ℤ b.available_ip_address_count a.available_ip_address_count

-- An error before the first request, or that of a request.
pub data LaunchError : Type 0 where
  refused : Refused → LaunchError
  failed : String → LaunchError

module _ {W : Type 0} (create : CreateOptions → W → Outcome String String × W) where
  -- The loop of `vswitchFallbackCreate` over the sorted vSwitches.
  unfoldable pub try_vswitches :
      CreateOptions → Option String → List VSwitch → W → Outcome String String × W
  unfolding wrap_error is_insufficient_capacity_error
  try_vswitches base last [] w = (err (wrap_error all_vswitches_exhausted (last_error last)), w)
  try_vswitches base last (vsw ∷ vsws) w =
      let (response, w') = create (with_vswitch base vsw.id) w in
      elim response [
        | ok id ↦ (ok id, w')
        | err e ↦ elim (is_insufficient_capacity_error (some e)) [
          | true ↦ try_vswitches base (some e) vsws w'
          | false ↦ (err (wrap_error failed_to_create e), w')
        ]
      ]

  module _ (sort_slice : (VSwitch → VSwitch → Bool) → List VSwitch → List VSwitch) where
    unfoldable pub vswitch_fallback_create :
        CreateOptions → List VSwitch → W → Outcome String String × W
    unfolding try_vswitches
    vswitch_fallback_create base vswitches =
        try_vswitches base none (sort_slice more_addresses vswitches)

    -- The loop over the instance types; `base` gives the options of one.
    unfoldable pub try_instance_types :
        (TypeName → CreateOptions)
        → ℕ
        → Option String
        → List VSwitch
        → List TypeName
        → W
        → Outcome String String × W
    unfolding vswitch_fallback_create wrap_error is_insufficient_capacity_error
    try_instance_types base n last vswitches [] w =
        (err (wrap_error (types_exhausted n) (last_error last)), w)
    try_instance_types base n last vswitches (it ∷ its) w =
        let (response, w') = vswitch_fallback_create (base it) vswitches w in
        elim response [
          | ok id ↦ (ok id, w')
          | err e ↦ elim (is_insufficient_capacity_error (some e)) [
            | true ↦ try_instance_types base n (some e) vswitches its w'
            | false ↦ (err (wrap_error failed_to_create e), w')
          ]
        ]

-- The options of an instance type: its image is the one for its architecture.
unfoldable pub options_for : LaunchPlan → Image → List Image → TypeName → CreateOptions
unfolding select_image_for_architecture base_options
options_for plan first images it =
    base_options plan it.name
      (elim (select_image_for_architecture (first ∷ images) it.architecture) as (λ _. String) [
        | none ↦ ""
        | some image ↦ image.id
      ])

-- What `createInstanceWithRetry` does before its loops. The images are not empty, so `images[0]` is one.
unfoldable pub plan_launch :
    EcsNodeClass
    → List Requirement
    → List SecurityGroup
    → String
    → Tags
    → Bool
    → Outcome Refused LaunchPlan
unfolding validate_ram_role_for_create normalize_disks normalize_ids capacity_type_from_requirements
plan_launch node_class reqs security_groups user_data tags dual_stack = do
  role ← validate_ram_role_for_create node_class
  disks ← (elim (normalize_disks node_class.spec) as (λ _. Outcome Refused NormalizedDisks) [
    | ok d ↦ ok d
    | err e ↦ err (disks_refused e)
  ])
  ok (record {
    node_class = node_class;
    disks = disks;
    security_group_ids = normalize_ids (map (λ g. g.id) security_groups);
    ram_role_name = role;
    capacity_type = capacity_type_from_requirements reqs;
    user_data = user_data;
    tags = tags;
    dual_stack = dual_stack;
  })

-- A request for an instance: the arguments of `createInstanceWithRetry`.
pub record LaunchRequest : Type 0 where
  pub node_class : EcsNodeClass
  pub requirements : List Requirement
  pub instance_types : List TypeName
  pub images : List Image
  pub vswitches : List VSwitch
  pub security_groups : List SecurityGroup
  pub user_data : String
  pub tags : Tags
  pub dual_stack : Bool

abbrev pub launch_failure :
    {W : Type 0} → Outcome String String × W → Outcome LaunchError String × W
launch_failure (ok id, w) = (ok id, w)
launch_failure (err e, w) = (err (failed e), w)

module _ {W : Type 0} (create : CreateOptions → W → Outcome String String × W)
    (sort_slice : (VSwitch → VSwitch → Bool) → List VSwitch → List VSwitch) where
  unfoldable pub create_instance_with_retry : LaunchRequest → W → Outcome LaunchError String × W
  unfolding plan_launch try_instance_types options_for
  create_instance_with_retry r w = elim r.images [
    | [] ↦ (err (refused missing_parameters), w)
    | first ∷ images ↦
        if is_empty r.instance_types || is_empty r.vswitches || is_empty r.security_groups
        then (err (refused missing_parameters), w)
        else elim (plan_launch r.node_class r.requirements r.security_groups r.user_data r.tags
            r.dual_stack) [
              | err e ↦ (err (refused e), w)
              | ok plan ↦ launch_failure (
                  try_instance_types create sort_slice (options_for plan first images)
                    (length r.instance_types) none r.vswitches r.instance_types w)
            ]
  ]
