-- ===== src/Launch/Options.antt =====
-- The options that `createInstanceWithRetry` of pkg/cloudprovider/cloudprovider.go passes to the
-- instance provider.
use karpenter_provider_aliba.Prelude.{
  Bool, List, Option, Outcome, String, err, if◌then◌else◌, map, none, ok, pos, some, str_eq,
}
use karpenter_provider_aliba.NodeClass.{EcsNodeClass, MetadataOptions}
use karpenter_provider_aliba.NodeClass.Disks.{DiskError, NormalizedDataDisk, NormalizedDisks}
use karpenter_provider_aliba.Instance.{CreateOptions, DataDisk, InstanceMetadataOptions}
use karpenter_provider_aliba.Utils.Capacity.{capacity_type_spot, spot_strategy_for_capacity_type}
use karpenter_provider_aliba.Utils.Tags.{Tags}

unless_empty : String → Option String
unless_empty s = if str_eq s "" then none else some s

unfoldable pub convert_metadata_options : Option MetadataOptions → Option InstanceMetadataOptions
unfolding unless_empty
convert_metadata_options none = none
convert_metadata_options (some opts) = some (record {
  http_endpoint = elim opts.http_endpoint [ none ↦ none | some e ↦ unless_empty e ];
  http_tokens = unless_empty opts.http_tokens;
  http_put_response_hop_limit = opts.http_put_response_hop_limit;
})

-- The errors of a launch before the first request. Those of `NormalizeDisks` are kept.
pub data Refused : Type 0 where
  missing_parameters : Refused
  role_not_resolved : String → Refused
  role_stale : String → String → Refused
  disks_refused : DiskError → Refused

unfoldable pub validate_ram_role_for_create : EcsNodeClass → Outcome Refused String
validate_ram_role_for_create node_class = elim node_class.spec.role [
  | none ↦ ok ""
  | some role ↦ elim node_class.status.ram_role [
    | none ↦ err (role_not_resolved role)
    | some resolved ↦ if str_eq resolved role then ok resolved else err (role_stale resolved role)
  ]
]

unfoldable pub data_disk_option : NormalizedDataDisk → DataDisk
data_disk_option disk = record {
  category = disk.category;
  size = disk.size;
  performance_level = disk.performance_level;
  encrypted = disk.encrypted;
  kms_key_id = disk.kms_key_id;
  snapshot_id = disk.snapshot_id;
  delete_with_instance = disk.delete_with_instance;
  device = disk.device;
}

-- What is the same for every instance type of one launch.
pub record LaunchPlan : Type 0 where
  pub node_class : EcsNodeClass
  pub disks : NormalizedDisks
  pub security_group_ids : List String
  pub ram_role_name : String
  pub capacity_type : String
  pub user_data : String
  pub tags : Tags
  pub dual_stack : Bool

-- `baseOpts`, which has no vSwitch yet.
unfoldable pub base_options : LaunchPlan → String → String → CreateOptions
unfolding convert_metadata_options data_disk_option spot_strategy_for_capacity_type
base_options plan instance_type image_id = record {
  instance_type = instance_type;
  image_id = image_id;
  vswitch_id = "";
  security_group_ids = plan.security_group_ids;
  user_data = plan.user_data;
  tags = plan.tags;
  system_disk = record {
    category = plan.disks.system_disk.category;
    size = plan.disks.system_disk.size;
    performance_level = plan.disks.system_disk.performance_level;
    encrypted = plan.disks.system_disk.encrypted;
    kms_key_id = plan.disks.system_disk.kms_key_id;
  };
  data_disks = map data_disk_option plan.disks.data_disks;
  spot_strategy =
      spot_strategy_for_capacity_type plan.capacity_type plan.node_class.spec.spot_strategy;
  spot_price_limit =
      if str_eq plan.capacity_type capacity_type_spot
      then elim plan.node_class.spec.spot_price_limit [ none ↦ 0 | some limit ↦ limit ]
      else 0;
  ram_role_name = plan.ram_role_name;
  metadata_options = convert_metadata_options plan.node_class.spec.metadata_options;
  instance_store_policy = plan.disks.instance_store_policy;
  ipv6_address_count = if plan.dual_stack then some (pos 1) else none;
}

-- `opts.VSwitchID = id` on a copy.
abbrev pub with_vswitch : CreateOptions → String → CreateOptions
with_vswitch opts id = record {
  instance_type = opts.instance_type;
  image_id = opts.image_id;
  vswitch_id = id;
  security_group_ids = opts.security_group_ids;
  user_data = opts.user_data;
  tags = opts.tags;
  system_disk = opts.system_disk;
  data_disks = opts.data_disks;
  spot_strategy = opts.spot_strategy;
  spot_price_limit = opts.spot_price_limit;
  ram_role_name = opts.ram_role_name;
  metadata_options = opts.metadata_options;
  instance_store_policy = opts.instance_store_policy;
  ipv6_address_count = opts.ipv6_address_count;
}
