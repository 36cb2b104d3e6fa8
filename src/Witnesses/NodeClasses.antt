-- ===== src/Witnesses/NodeClasses.antt =====
-- Examples for the validation, the normalisation and the status of a node class.
use karpenter_provider_aliba.Prelude.{
  String, [], false, has_prefix, is_set, lookup, none, ok, pos, refl, some, str_eq, trim_space,
  true, ◌∷◌, ◌≡◌, ◌⊎◌,
}
use karpenter_provider_aliba.Launch.Tags.{ClaimMeta, build_instance_tags}
use karpenter_provider_aliba.Launch.Tags.Kept.{AreManaged, build_instance_tags-AreManaged}
use karpenter_provider_aliba.NodeClass.{
  Condition, EcsNodeClassStatus, condition_false, condition_true,
}
use karpenter_provider_aliba.NodeClass.Disks.{
  NormalizedDisks, disk_category_constraints, normalize_disks,
}
use karpenter_provider_aliba.NodeClass.Disks.Normal.{IsNormal, normalize_disks-IsNormal}
use karpenter_provider_aliba.NodeClass.Labels.{condition_type_ready, node_pool_label_key}
use karpenter_provider_aliba.NodeClass.Validation.{validate}
use karpenter_provider_aliba.NodeClass.Validation.Accepted.{IsAccepted, validate-IsAccepted}
use karpenter_provider_aliba.Status.Conditions.{get_condition, set_condition}
use karpenter_provider_aliba.Status.Conditions.Laws.{set_condition-last_transition_time, status_of}
use karpenter_provider_aliba.Status.Reconcile.{resolve_resources, resolve_status}
use karpenter_provider_aliba.Status.Reconcile.Ready.{resolve_status-ready, role_fits}
use karpenter_provider_aliba.Status.Reconcile.Selected.{HasResources}
use karpenter_provider_aliba.Status.Resolution.{Providers}
use karpenter_provider_aliba.Witnesses.Data.{group_1, image_x86, sample_spec, vswitch_a}

-- The specification of the examples is accepted, and so is the one with a launch template.
sample_accepted : validate sample_spec ≡ ok tt
unfolding validate lookup disk_category_constraints trim_space has_prefix
sample_accepted = refl

abbrev pub sample_disks : NormalizedDisks
sample_disks = record {
  system_disk = record {
    category = "cloud_essd";
    size = pos 40;
    performance_level = "PL0";
    encrypted = none;
    kms_key_id = "";
  };
  data_disks =
      record {
        category = "cloud_essd";
        size = pos 100;
        device = "";
        performance_level = "PL1";
        encrypted = some true;
        kms_key_id = "key-1";
        snapshot_id = "";
        delete_with_instance = none;
      }
      ∷ [];
  instance_store_policy = none;
}

pub sample_normalized : normalize_disks sample_spec ≡ ok sample_disks
unfolding normalize_disks lookup disk_category_constraints
sample_normalized = refl

normalize_disks-IsNormal_example : IsNormal sample_spec sample_disks
normalize_disks-IsNormal_example =
    normalize_disks-IsNormal sample_spec sample_disks sample_normalized

validate-IsAccepted_example : IsAccepted sample_spec
validate-IsAccepted_example = validate-IsAccepted sample_spec refl sample_accepted

abbrev claim_1 : ClaimMeta
claim_1 = record { name = "claim-1"; labels = (node_pool_label_key, "pool-1") ∷ [] }

build_instance_tags-AreManaged_example :
    AreManaged claim_1 sample_spec (build_instance_tags claim_1 sample_spec)
build_instance_tags-AreManaged_example =
    build_instance_tags-AreManaged claim_1 sample_spec sample_accepted

abbrev providers : Providers
providers = record {
  resolve_vswitches = λ terms. ok (vswitch_a ∷ []);
  resolve_security_groups = λ terms. ok (group_1 ∷ []);
  resolve_images = λ terms. ok (image_x86 ∷ []);
  launch_template = none;
  validate_role = λ role. some (record { valid = true; reason = ""; message = "" });
}

abbrev condition_1 : Condition
condition_1 = record {
  condition_type = condition_type_ready;
  status = condition_false;
  reason = "ResourceResolutionFailed";
  message = "Image resolution failed";
  last_transition_time = 3;
}

abbrev fresh_status : EcsNodeClassStatus
fresh_status = record {
  vswitches = [];
  security_groups = [];
  images = [];
  ram_role = none;
  conditions = condition_1 ∷ [];
}

resolve_status-ready_example :
    let (s', e) = resolve_status providers 9 sample_spec fresh_status in
    ((e ≡ none)
      × (status_of condition_type_ready s' ≡ some condition_true)
      × HasResources sample_spec s'
      × (s'.ram_role ≡ some "NodeRole")
      × (role_fits providers.validate_role (some "NodeRole") ≡ true))
    ⊎ ((m : String) × (e ≡ some m)
        × (status_of condition_type_ready s' ≡ some condition_false)
        × ((is_set (resolve_resources providers 9 sample_spec fresh_status).1 ≡ true)
            ⊎ (role_fits providers.validate_role (some "NodeRole") ≡ false)))
resolve_status-ready_example = resolve_status-ready providers 9 sample_spec fresh_status

set_condition-last_transition_time_example :
    let after = set_condition 9 condition_type_ready condition_true "Ready" "" fresh_status in
    ((c' : Condition) × (get_condition condition_type_ready after.conditions ≡ some c')
      × (c'.status ≡ condition_true)
      × (c'.last_transition_time ≡ 9))
    × ((u : String) (d : Condition)
        → str_eq condition_type_ready u ≡ false
        → get_condition u fresh_status.conditions ≡ some d
        → get_condition u after.conditions ≡ some d)
unfolding get_condition
set_condition-last_transition_time_example =
    set_condition-last_transition_time 9 condition_type_ready condition_true "Ready" "" fresh_status
      condition_1 refl
