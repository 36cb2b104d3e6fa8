-- ===== src/NodeClass.antt =====
-- pkg/apis/v1alpha1/ecsnodeclass_types.go: the parts of an ECSNodeClass that the model reads.
-- Pointers are `Option`, `int32` and `int64` values are `ℤ`, maps are association lists, and a
-- `float64` is its 64-bit pattern.
pub mod Disks
pub mod Webhook
pub mod Validation
pub mod Labels
pub mod LabelValues
use karpenter_provider_aliba.Prelude.{Bool, List, Option, String, ℕ, ℤ}

abbrev pub TagMap : Type 0
TagMap = List (String × String)

abbrev pub Float64 : Type 0
Float64 = ℕ

pub record VSwitchSelectorTerm : Type 0 where
  pub tags : TagMap
  pub id : Option String
  pub zone_id : Option String

pub record SecurityGroupSelectorTerm : Type 0 where
  pub tags : TagMap
  pub id : Option String
  pub name : Option String

pub record ImageSelectorTerm : Type 0 where
  pub image_owner_alias : Option String
  pub tags : TagMap
  pub id : Option String
  pub name : Option String
  pub image_owner_id : Option String
  pub image_family : Option String

pub record CapacityReservationSelectorTerm : Type 0 where
  pub tags : TagMap
  pub id : Option String

pub record SystemDiskSpec : Type 0 where
  pub category : String
  pub size : Option ℤ
  pub performance_level : Option String
  pub encrypted : Option Bool
  pub kms_key_id : Option String

pub record DataDiskSpec : Type 0 where
  pub category : String
  pub size : ℤ
  pub device : Option String
  pub performance_level : Option String
  pub encrypted : Option Bool
  pub kms_key_id : Option String
  pub snapshot_id : Option String
  pub delete_with_instance : Option Bool

pub record KubeletConfiguration : Type 0 where
  pub image_gc_high_threshold_percent : Option ℤ
  pub image_gc_low_threshold_percent : Option ℤ

pub record MetadataOptions : Type 0 where
  pub http_tokens : String
  pub http_put_response_hop_limit : Option ℤ
  pub http_endpoint : Option String

pub record EcsNodeClassSpec : Type 0 where
  pub cluster_id : String
  pub vswitch_selector_terms : List VSwitchSelectorTerm
  pub security_group_selector_terms : List SecurityGroupSelectorTerm
  pub image_selector_terms : List ImageSelectorTerm
  pub role : Option String
  pub system_disk : Option SystemDiskSpec
  pub data_disks : List DataDiskSpec
  pub instance_store_policy : Option String
  pub spot_strategy : Option String
  pub spot_price_limit : Option Float64
  pub user_data : Option String
  pub tags : TagMap
  pub kubelet : Option KubeletConfiguration
  pub capacity_reservation_selector_terms : List CapacityReservationSelectorTerm
  pub capacity_reservation_preference : Option String
  pub metadata_options : Option MetadataOptions
  pub launch_template_id : Option String
  pub launch_template_version : Option ℤ

pub record VSwitch : Type 0 where
  pub id : String
  pub zone : String
  pub zone_id : String
  pub available_ip_address_count : ℤ

pub record SecurityGroup : Type 0 where
  pub id : String
  pub name : String

pub record Image : Type 0 where
  pub id : String
  pub name : String
  pub architecture : String

pub data ConditionStatus : Type 0 where
  condition_true condition_false condition_unknown : ConditionStatus

-- `metav1.Condition`; a time is a number.
pub record Condition : Type 0 where
  pub condition_type : String
  pub status : ConditionStatus
  pub reason : String
  pub message : String
  pub last_transition_time : ℕ

pub record EcsNodeClassStatus : Type 0 where
  pub vswitches : List VSwitch
  pub security_groups : List SecurityGroup
  pub images : List Image
  pub ram_role : Option String
  pub conditions : List Condition

pub record EcsNodeClass : Type 0 where
  pub spec : EcsNodeClassSpec
  pub status : EcsNodeClassStatus
