-- ===== src/Instance/Requests.antt =====
-- The request that `Create` of pkg/providers/instance/instance.go builds from its options. A pointer of
-- the SDK is an `Option`. The conversion to a float32 and the encoding in base64 are parameters.
use karpenter_provider_aliba.Prelude.{
  Bool, List, Option, String, [], false, if◌then◌else◌, leb, ltb, ltb_ℤ, map, none, not, pos,
  show_int, some, str_eq, ℕ, ℤ, ◌&&◌, ◌∷◌,
}
use karpenter_provider_aliba.Instance.{CreateOptions, DataDisk, InstanceMetadataOptions, SystemDisk}
use karpenter_provider_aliba.NodeClass.{Float64}
use karpenter_provider_aliba.Utils.Tags.{Tags}

pub record RequestSystemDisk : Type 0 where
  pub category : String
  pub size : String
  pub performance_level : Option String
  pub encrypted : Option String
  pub kms_key_id : Option String

pub record RequestDataDisk : Type 0 where
  pub category : String
  pub size : ℤ
  pub device : Option String
  pub performance_level : Option String
  pub encrypted : Option String
  pub kms_key_id : Option String
  pub snapshot_id : Option String
  pub delete_with_instance : Option Bool

pub record RunInstancesRequest : Type 0 where
  pub region_id : String
  pub instance_type : String
  pub image_id : String
  pub vswitch_id : String
  pub security_group_ids : List String
  pub spot_strategy : Option String
  pub spot_price_limit : Option ℕ
  pub ipv6_address_count : Option ℤ
  pub ram_role_name : Option String
  pub http_endpoint : Option String
  pub http_tokens : Option String
  pub http_put_response_hop_limit : Option ℤ
  pub system_disk : RequestSystemDisk
  pub data_disk : List RequestDataDisk
  pub user_data : Option String
  pub tag : Tags

-- `if s != "" { field = tea.String(s) }`
unfoldable pub unless_blank : String → Option String
unless_blank s = if str_eq s "" then none else some s

abbrev pub bool_value : Option Bool → Bool
bool_value none = false
bool_value (some b) = b

-- The fields of `applyMetadataOptions` that are texts.
unfoldable pub set_text : Option String → Option String
unfolding unless_blank
set_text none = none
set_text (some s) = unless_blank s

unfoldable pub essd_level : String → String → Option String
essd_level category performance_level =
    if str_eq category "cloud_essd"
    then some (if str_eq performance_level "" then "PL0" else performance_level)
    else none

unfoldable pub encrypted_text : Option Bool → Option String
encrypted_text encrypted = if bool_value encrypted then some "true" else none

unfoldable pub key_if_encrypted : Option Bool → String → Option String
unfolding unless_blank
key_if_encrypted encrypted kms_key_id =
    if bool_value encrypted then unless_blank kms_key_id else none

unfoldable pub request_system_disk : SystemDisk → RequestSystemDisk
unfolding show_int essd_level encrypted_text key_if_encrypted
request_system_disk disk = record {
  category = disk.category;
  size = show_int disk.size;
  performance_level = essd_level disk.category disk.performance_level;
  encrypted = encrypted_text disk.encrypted;
  kms_key_id = key_if_encrypted disk.encrypted disk.kms_key_id;
}

-- `disk.DeleteWithInstance != nil && !*disk.DeleteWithInstance`
abbrev pub keeps_disk : Option Bool → Bool
keeps_disk none = false
keeps_disk (some b) = not b

unfoldable pub request_data_disk : DataDisk → RequestDataDisk
unfolding unless_blank essd_level encrypted_text key_if_encrypted
request_data_disk disk = record {
  category = disk.category;
  size = disk.size;
  device = unless_blank disk.device;
  performance_level = essd_level disk.category disk.performance_level;
  encrypted = encrypted_text disk.encrypted;
  kms_key_id = key_if_encrypted disk.encrypted disk.kms_key_id;
  snapshot_id = unless_blank disk.snapshot_id;
  delete_with_instance = if keeps_disk disk.delete_with_instance then some false else none;
}

-- `opts.SpotPriceLimit > 0`, of the bit pattern of a float64.
abbrev pub is_positive_float : Float64 → Bool
is_positive_float bits = ltb 0 bits && leb bits 0x7ff0000000000000

unfoldable pub positive_count : Option ℤ → Option ℤ
positive_count none = none
positive_count (some n) = if ltb_ℤ (pos 0) n then some n else none

abbrev pub metadata_of {ℓ} :
    {A : Type ℓ} → (InstanceMetadataOptions → Option A) → Option InstanceMetadataOptions → Option A
metadata_of field none = none
metadata_of field (some opts) = field opts

-- The first batch of tags, which the request takes.
abbrev pub first_batch : List Tags → Tags
first_batch [] = []
first_batch (batch ∷ batches) = batch

abbrev pub deferred_batches : List Tags → List Tags
deferred_batches [] = []
deferred_batches (batch ∷ batches) = batches

-- The parameters of the request.
pub record Encoding : Type 0 where
  pub region : String
  pub to_float32 : Float64 → ℕ
  pub base64 : String → String

unfoldable pub run_instances_request :
    Encoding → CreateOptions → List String → List Tags → RunInstancesRequest
unfolding unless_blank set_text request_system_disk request_data_disk positive_count
run_instances_request e opts group_ids batches = record {
  region_id = e.region;
  instance_type = opts.instance_type;
  image_id = opts.image_id;
  vswitch_id = opts.vswitch_id;
  security_group_ids = group_ids;
  spot_strategy = unless_blank opts.spot_strategy;
  spot_price_limit =
      if is_positive_float opts.spot_price_limit
      then some (e.to_float32 opts.spot_price_limit)
      else none;
  ipv6_address_count = positive_count opts.ipv6_address_count;
  ram_role_name = unless_blank opts.ram_role_name;
  http_endpoint = metadata_of (λ o. set_text o.http_endpoint) opts.metadata_options;
  http_tokens = metadata_of (λ o. set_text o.http_tokens) opts.metadata_options;
  http_put_response_hop_limit =
      metadata_of (λ o. o.http_put_response_hop_limit) opts.metadata_options;
  system_disk = request_system_disk opts.system_disk;
  data_disk = map request_data_disk opts.data_disks;
  user_data = if str_eq opts.user_data "" then none else some (e.base64 opts.user_data);
  tag = first_batch batches;
}
