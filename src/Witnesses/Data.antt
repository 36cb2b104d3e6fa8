-- ===== src/Witnesses/Data.antt =====
-- Concrete inputs: an accepted node class, and requests for instances.
use karpenter_provider_aliba.Prelude.{
  Outcome, String, [], err, false, if◌then◌else◌, none, ok, pos, some, str_eq, suc, true, ℕ, ◌∷◌,
}
use karpenter_provider_aliba.Instance.{CreateOptions}
use karpenter_provider_aliba.Launch.Fallback.{LaunchRequest, TypeName}
use karpenter_provider_aliba.NodeClass.{
  DataDiskSpec, EcsNodeClass, EcsNodeClassSpec, EcsNodeClassStatus, Image, ImageSelectorTerm,
  SecurityGroup, SecurityGroupSelectorTerm, VSwitch, VSwitchSelectorTerm,
}

abbrev pub vswitch_a : VSwitch
vswitch_a = record {
  id = "vsw-a";
  zone = "cn-hangzhou-a";
  zone_id = "";
  available_ip_address_count = pos 200;
}

abbrev pub vswitch_b : VSwitch
vswitch_b = record {
  id = "vsw-b";
  zone = "cn-hangzhou-b";
  zone_id = "cn-hangzhou-b";
  available_ip_address_count = pos 90;
}

abbrev pub group_1 : SecurityGroup
group_1 = record { id = "sg-1"; name = "nodes" }

abbrev pub image_x86 : Image
image_x86 = record { id = "m-1"; name = "linux"; architecture = "x86_64" }

abbrev pub vswitch_by_id : VSwitchSelectorTerm
vswitch_by_id = record { tags = []; id = some "vsw-a"; zone_id = none }

abbrev pub group_by_id : SecurityGroupSelectorTerm
group_by_id = record { tags = []; id = some "sg-1"; name = none }

abbrev pub image_by_id : ImageSelectorTerm
image_by_id = record {
  image_owner_alias = none;
  tags = [];
  id = some "m-1";
  name = none;
  image_owner_id = none;
  image_family = none;
}

abbrev pub data_disk : DataDiskSpec
data_disk = record {
  category = "cloud_essd";
  size = pos 100;
  device = none;
  performance_level = some "PL1";
  encrypted = some true;
  kms_key_id = some "key-1";
  snapshot_id = none;
  delete_with_instance = none;
}

abbrev pub sample_spec : EcsNodeClassSpec
sample_spec = record {
  cluster_id = "c1";
  vswitch_selector_terms = vswitch_by_id ∷ [];
  security_group_selector_terms = group_by_id ∷ [];
  image_selector_terms = image_by_id ∷ [];
  role = some "NodeRole";
  system_disk = none;
  data_disks = data_disk ∷ [];
  instance_store_policy = none;
  spot_strategy = some "SpotAsPriceGo";
  spot_price_limit = none;
  user_data = none;
  tags = ("team", "a") ∷ [];
  kubelet = none;
  capacity_reservation_selector_terms = [];
  capacity_reservation_preference = none;
  metadata_options = none;
  launch_template_id = none;
  launch_template_version = none;
}

-- The same with a launch template in the place of what it sets.
abbrev pub template_spec : EcsNodeClassSpec
template_spec = record {
  cluster_id = "c1";
  vswitch_selector_terms = [];
  security_group_selector_terms = [];
  image_selector_terms = [];
  role = some "NodeRole";
  system_disk = none;
  data_disks = [];
  instance_store_policy = none;
  spot_strategy = none;
  spot_price_limit = none;
  user_data = none;
  tags = [];
  kubelet = none;
  capacity_reservation_selector_terms = [];
  capacity_reservation_preference = none;
  metadata_options = none;
  launch_template_id = some "lt-1";
  launch_template_version = some (pos 2);
}

abbrev pub resolved_status : EcsNodeClassStatus
resolved_status = record {
  vswitches = vswitch_b ∷ vswitch_a ∷ [];
  security_groups = group_1 ∷ [];
  images = image_x86 ∷ [];
  ram_role = some "NodeRole";
  conditions = [];
}

abbrev pub sample_node_class : EcsNodeClass
sample_node_class = record { spec = sample_spec; status = resolved_status }

abbrev pub type_1 : TypeName
type_1 = record { name = "ecs.g7.large"; architecture = "amd64" }

abbrev pub sample_request : LaunchRequest
sample_request = record {
  node_class = sample_node_class;
  requirements = [];
  instance_types = type_1 ∷ [];
  images = image_x86 ∷ [];
  vswitches = vswitch_b ∷ vswitch_a ∷ [];
  security_groups = group_1 ∷ [];
  user_data = "";
  tags = [];
  dual_stack = false;
}

-- A cloud whose state counts its instances: it has stock behind vSwitch vsw-b alone.
abbrev pub stocked_in_b : CreateOptions → ℕ → Outcome String String × ℕ
stocked_in_b opts n = (
  if str_eq opts.vswitch_id "vsw-b" then ok "i-1" else err "OperationDenied.NoStock",
  if str_eq opts.vswitch_id "vsw-b" then suc n else n,
)
