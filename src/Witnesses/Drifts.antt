-- ===== src/Witnesses/Drifts.antt =====
-- Examples for the drift of instances and the defaults of the webhook.
use mathlib.Core.List.{Memᴰ}
use karpenter_provider_aliba.Prelude.{
  Outcome, String, [], false, lookup, none, ok, pos, refl, some, ◌↔◌, ◌∷◌, ◌≡◌, ◌≢◌,
}
use karpenter_provider_aliba.Drift.{drift_reason, node_class_drift}
use karpenter_provider_aliba.Drift.Fresh.{FromStatus, MadeOf, options-no_drift}
use karpenter_provider_aliba.Drift.Reasons.{Fits, drift_reason-Fits}
use karpenter_provider_aliba.Hash.{AnnotatedClass, ClassStore, NodeClassHashInput, update_once}
use karpenter_provider_aliba.Hash.Settled.{IsSettled, StoreLaws, update_once-IsSettled}
use karpenter_provider_aliba.Instance.Api.{Instance}
use karpenter_provider_aliba.Launch.Fallback.{options_for, plan_launch}
use karpenter_provider_aliba.Launch.Fallback.Cases.{Started, options}
use karpenter_provider_aliba.Launch.Options.{LaunchPlan, with_vswitch}
use karpenter_provider_aliba.Launch.Requirements.{
  filter_vswitches_by_zones, select_image_for_architecture, zones_from_requirements,
}
use karpenter_provider_aliba.NodeClass.Disks.{
  NormalizedDisks, disk_category_constraints, normalize_disks,
}
use karpenter_provider_aliba.NodeClass.Labels.{annotation_ecs_node_class_hash}
use karpenter_provider_aliba.NodeClass.Validation.{validate}
use karpenter_provider_aliba.NodeClass.Webhook.{default_spec, fill_in}
use karpenter_provider_aliba.NodeClass.Webhook.Defaulted.{default_spec-kept, default_spec-validate}
use karpenter_provider_aliba.Utils.Tags.{Tags, tag_value}
use karpenter_provider_aliba.Witnesses.Data.{
  group_1, image_x86, resolved_status, sample_node_class, sample_request, sample_spec,
  template_spec, type_1, vswitch_b,
}
use karpenter_provider_aliba.Witnesses.NodeClasses.{sample_disks}

abbrev pub sample_plan : LaunchPlan
sample_plan = record {
  node_class = sample_node_class;
  disks = sample_disks;
  security_group_ids = "sg-1" ∷ [];
  ram_role_name = "NodeRole";
  capacity_type = "on-demand";
  user_data = "";
  tags = [];
  dual_stack = false;
}

pub sample_planned : plan_launch sample_node_class [] (group_1 ∷ []) "" [] false ≡ ok sample_plan
unfolding plan_launch lookup disk_category_constraints
sample_planned = refl

sample-Started : Started sample_request
sample-Started = record {
  plan = sample_plan;
  first = image_x86;
  images = [];
  images_are = refl;
  planned = sample_planned;
  has_vswitches = refl;
}

abbrev launched_instance : Instance
launched_instance = record {
  instance_id = "i-1";
  region = "cn-hangzhou";
  zone = "cn-hangzhou-b";
  instance_type = "ecs.g7.large";
  image_id = "m-1";
  cpu = pos 2;
  memory = pos 8;
  storage = pos 0;
  gpu = pos 0;
  gpu_mem = pos 0;
  gpu_spec = "";
  architecture = "amd64";
  status = "Running";
  creation_time = "2025-01-01T00:00Z";
  tags = [];
  capacity_type = "on-demand";
  security_group_ids = "sg-1" ∷ [];
  vswitch_id = "vsw-b";
}

abbrev hashed : Tags
hashed = (annotation_ecs_node_class_hash, "0011223344556677") ∷ []

sample-FromStatus : FromStatus sample_request
unfolding filter_vswitches_by_zones zones_from_requirements
sample-FromStatus = record { images_of = refl; groups_of = refl; vswitches_of = refl }

sample-MadeOf :
    MadeOf (with_vswitch (options sample_request sample-Started type_1) "vsw-b") launched_instance
unfolding options_for select_image_for_architecture sample-Started
sample-MadeOf = record { image_of = refl; vswitch_of = refl; security_groups_of = refl }

options-no_drift_example :
    drift_reason "0011223344556677" resolved_status hashed launched_instance ≡ none
unfolding tag_value lookup
options-no_drift_example =
    options-no_drift sample_request sample-Started type_1 vswitch_b launched_instance
      "0011223344556677" hashed sample-FromStatus (Memᴰ.head refl) sample-MadeOf refl

drift_reason-Fits_example :
    (drift_reason "8899aabbccddeeff" resolved_status hashed launched_instance ≡ none)
    ↔ Fits "8899aabbccddeeff" resolved_status hashed launched_instance
drift_reason-Fits_example =
    drift_reason-Fits "8899aabbccddeeff" resolved_status hashed launched_instance

drift_test :
    drift_reason "8899aabbccddeeff" resolved_status hashed launched_instance ≡ some node_class_drift
unfolding drift_reason lookup
drift_test = refl

sample_filled : default_spec sample_spec ≡ ok (fill_in sample_disks sample_spec)
unfolding default_spec lookup disk_category_constraints
sample_filled = refl

default_spec-kept_example :
    (normalize_disks (fill_in sample_disks sample_spec) ≡ normalize_disks sample_spec)
    × (default_spec (fill_in sample_disks sample_spec) ≡ ok (fill_in sample_disks sample_spec))
default_spec-kept_example =
    default_spec-kept sample_spec (fill_in sample_disks sample_spec) sample_filled

abbrev template_disks : NormalizedDisks
template_disks = record {
  system_disk = record {
    category = "cloud_essd";
    size = pos 40;
    performance_level = "PL0";
    encrypted = none;
    kms_key_id = "";
  };
  data_disks = [];
  instance_store_policy = none;
}

template_filled : default_spec template_spec ≡ ok (fill_in template_disks template_spec)
unfolding default_spec lookup disk_category_constraints
template_filled = refl

default_spec-validate_example : validate (fill_in template_disks template_spec) ≢ ok tt
default_spec-validate_example =
    default_spec-validate template_spec (fill_in template_disks template_spec) "lt-1" refl
      template_filled

-- A store whose state is its one node class.
abbrev one_class : ClassStore AnnotatedClass
one_class = record { get_class = λ class. ok class; update_class = λ class old. (none, class) }

one_class-StoreLaws : StoreLaws one_class
one_class-StoreLaws = record { read_back = λ class k h. refl }

abbrev unhashed : AnnotatedClass
unhashed = record { spec = sample_spec; annotations = ("a", "b") ∷ [] }

abbrev fixed_digest : NodeClassHashInput → Outcome String String
fixed_digest input = ok "0011223344556677"

update_once-IsSettled_example :
    IsSettled one_class fixed_digest (update_once one_class fixed_digest unhashed).1
    × (update_once one_class fixed_digest (update_once one_class fixed_digest unhashed).1
        ≡ (none, (update_once one_class fixed_digest unhashed).1))
unfolding update_once lookup
update_once-IsSettled_example =
    update_once-IsSettled one_class fixed_digest one_class-StoreLaws unhashed refl
