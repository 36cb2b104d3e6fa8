-- ===== src/NodeClass/Webhook.antt =====
-- `Default` of pkg/apis/v1alpha1/ecsnodeclass_webhook.go, on the specification of a node class.
pub mod Kept
pub mod Again
pub mod Defaulted
use karpenter_provider_aliba.Prelude.{
  Option, Outcome, String, err, if◌then◌else◌, none, not, ok, pos, some, str_eq,
}
use karpenter_provider_aliba.NodeClass.{EcsNodeClassSpec, MetadataOptions, SystemDiskSpec}
use karpenter_provider_aliba.NodeClass.Disks.{
  DiskError, NormalizedDisks, NormalizedSystemDisk, normalize_disks,
}

-- A performance level that is set unless it is empty.
abbrev pub level_if_set : String → Option String
level_if_set level = if not (str_eq level "") then some level else none

unfoldable pub default_system_disk : NormalizedSystemDisk → Option SystemDiskSpec → SystemDiskSpec
default_system_disk normalized none = record {
  category = normalized.category;
  size = some normalized.size;
  performance_level = level_if_set normalized.performance_level;
  encrypted = none;
  kms_key_id = none;
}
default_system_disk normalized (some disk) = record {
  category = if str_eq disk.category "" then normalized.category else disk.category;
  size = elim disk.size [ none ↦ some normalized.size | some n ↦ some n ];
  performance_level = elim disk.performance_level [
    | none ↦ level_if_set normalized.performance_level
    | some level ↦ some level
  ];
  encrypted = disk.encrypted;
  kms_key_id = disk.kms_key_id;
}

unfoldable pub default_metadata_options : Option MetadataOptions → Option MetadataOptions
default_metadata_options none = none
default_metadata_options (some opts) = some (record {
  http_endpoint = opts.http_endpoint;
  http_tokens = if str_eq opts.http_tokens "" then "optional" else opts.http_tokens;
  http_put_response_hop_limit = elim opts.http_put_response_hop_limit [
    | none ↦ some (pos 1)
    | some n ↦ some n
  ];
})

abbrev pub default_preference : Option String → Option String
default_preference none = some "open"
default_preference (some p) = some p

-- The defaults, by what NormalizeDisks gave.
unfoldable pub fill_in : NormalizedDisks → EcsNodeClassSpec → EcsNodeClassSpec
unfolding default_system_disk default_metadata_options
fill_in normalized spec = record spec {
  system_disk = some (default_system_disk normalized.system_disk spec.system_disk);
  metadata_options = default_metadata_options spec.metadata_options;
  capacity_reservation_preference = default_preference spec.capacity_reservation_preference;
}

-- `Default`
unfoldable pub default_spec : EcsNodeClassSpec → Outcome DiskError EcsNodeClassSpec
unfolding normalize_disks fill_in
default_spec spec = elim (normalize_disks spec) [
  | err e ↦ err e
  | ok normalized ↦ ok (fill_in normalized spec)
]
