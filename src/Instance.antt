-- ===== src/Instance.antt =====
-- The types of pkg/providers/instance/instance.go. A price limit is the bit pattern of a float64, whose
-- zero value is 0.
pub mod Api
pub mod Cache
pub mod Calls
pub mod Listing
pub mod Requests
pub mod Create
use karpenter_provider_aliba.Prelude.{Bool, List, Option, String, ℤ}
use karpenter_provider_aliba.NodeClass.{Float64}
use karpenter_provider_aliba.Utils.Tags.{Tags}

pub record InstanceMetadataOptions : Type 0 where
  pub http_endpoint : Option String
  pub http_tokens : Option String
  pub http_put_response_hop_limit : Option ℤ

pub record SystemDisk : Type 0 where
  pub category : String
  pub size : ℤ
  pub performance_level : String
  pub encrypted : Option Bool
  pub kms_key_id : String

pub record DataDisk : Type 0 where
  pub category : String
  pub size : ℤ
  pub performance_level : String
  pub encrypted : Option Bool
  pub kms_key_id : String
  pub snapshot_id : String
  pub delete_with_instance : Option Bool
  pub device : String

pub record CreateOptions : Type 0 where
  pub instance_type : String
  pub image_id : String
  pub vswitch_id : String
  pub security_group_ids : List String
  pub user_data : String
  pub tags : Tags
  pub system_disk : SystemDisk
  pub data_disks : List DataDisk
  pub spot_strategy : String
  pub spot_price_limit : Float64
  pub ram_role_name : String
  pub metadata_options : Option InstanceMetadataOptions
  pub instance_store_policy : Option String
  pub ipv6_address_count : Option ℤ
