-- ===== src/Witnesses/Claims.antt =====
-- Examples for the NodeClaims of the cloud provider.
use karpenter_provider_aliba.Prelude.{
  All, [], decimal, err, false, insert, lookup, lt_text, member, none, ok, pos, refl, some, ◌∷◌,
  ◌≡◌,
}
use karpenter_provider_aliba.CloudClaims.{CloudClaim, CloudState}
use karpenter_provider_aliba.CloudClaims.Consistent.{
  HoldsOf, instance_labels_from_instance-requirements,
}
use karpenter_provider_aliba.CloudClaims.Created.{IsCreated, create_claim-created}
use karpenter_provider_aliba.CloudClaims.Creation.{
  Asked, CreationSettings, VersionedClass, convert_instance_to_node_claim, create_claim,
  set_node_class_hash_annotation,
}
use karpenter_provider_aliba.CloudClaims.Labels.{instance_labels_from_instance}
use karpenter_provider_aliba.Instance.Api.{Instance, instance_of}
use karpenter_provider_aliba.Instance.Create.{create}
use karpenter_provider_aliba.InstanceTypes.{InstanceType}
use karpenter_provider_aliba.InstanceTypes.Listing.{TypesApi, listed_types, zones_of}
use karpenter_provider_aliba.InstanceTypes.Offerings.{build_instance_type_requirements}
use karpenter_provider_aliba.Launch.Fallback.{create_instance_with_retry}
use karpenter_provider_aliba.Launch.Tags.{ClaimMeta, build_instance_tags}
use karpenter_provider_aliba.NodeClass.{condition_true}
use karpenter_provider_aliba.NodeClass.Disks.{disk_category_constraints}
use karpenter_provider_aliba.NodeClass.Labels.{
  label_instance_family, label_instance_memory, node_pool_label_key, tag_node_claim, tag_node_pool,
}
use karpenter_provider_aliba.Utils.Tags.{Tags, tag_value}
use karpenter_provider_aliba.Witnesses.Creations.{
  one_instance, one_instance-LaunchLaws, sample_encoding,
}
use karpenter_provider_aliba.Witnesses.Data.{sample_node_class}
use karpenter_provider_aliba.Witnesses.Instances.{
  described_instance, its_tags, tagged_cloud, tagged_cloud-TagLaws, tags_described,
}
use karpenter_provider_aliba.Witnesses.Sorting.{sort_by}
use karpenter_provider_aliba.Witnesses.Types.{large_type}

abbrev small_type : InstanceType
small_type = record {
  name = "ecs.g7.large";
  architecture = "amd64";
  cpu = some (pos 2);
  memory = some (pos 8589934592);
  storage = some (pos 0);
  gpu = none;
  zones = [];
  eni_quantity = pos 3;
  eni_private_ip_address_quantity = pos 6;
}

abbrev small_instance : Instance
small_instance = record {
  instance_id = "i-1";
  region = "cn-hangzhou";
  zone = "cn-hangzhou-b";
  instance_type = "ecs.g7.large";
  image_id = "m-1";
  cpu = pos 2;
  memory = pos 8;
  storage = pos 0;
  gpu = pos 0;
  gpu_mem = pos 0;
  gpu_spec = "";
  architecture = "";
  status = "Running";
  creation_time = "2025-01-01T00:00Z";
  tags = (tag_node_pool, "pool") ∷ [];
  capacity_type = "spot";
  security_group_ids = [];
  vswitch_id = "vsw-b";
}

instance_labels_from_instance-requirements_example :
    All (HoldsOf (instance_labels_from_instance small_instance (some small_type))) (
      build_instance_type_requirements small_type "cn-hangzhou"
        ("cn-hangzhou-a" ∷ "cn-hangzhou-b" ∷ [])
        ("on-demand" ∷ "spot" ∷ []))
unfolding member
instance_labels_from_instance-requirements_example =
    instance_labels_from_instance-requirements small_instance small_type
      ("cn-hangzhou-a" ∷ "cn-hangzhou-b" ∷ []) ("on-demand" ∷ "spot" ∷ []) refl refl refl refl

-- An instance of a type that is not offered any more has the labels of ECS.
fallback_labels_test :
    (tag_value label_instance_memory (instance_labels_from_instance small_instance none) ≡ "8192")
    × (tag_value label_instance_family (instance_labels_from_instance small_instance none) ≡ "")
    × (tag_value node_pool_label_key (instance_labels_from_instance small_instance none) ≡ "pool")
unfolding instance_labels_from_instance tag_value lookup insert
fallback_labels_test = (refl, refl, refl)

-- A cloud that offers one instance type in two zones, and that does not tell its stock.
abbrev one_type : TypesApi Tags
one_type = record {
  describe_zones = λ tags. (ok ("cn-hangzhou-b" ∷ "cn-hangzhou-a" ∷ []), tags);
  describe_available_resource = λ strategy tags. (err "Throttling", tags);
  describe_instance_types = λ names tags. (ok (some large_type ∷ []), tags);
}

abbrev creation_settings : CreationSettings Tags
creation_settings = record {
  claims = record {
    quantities = record {
      parse_quantity = λ s. none;
      value = λ n. n;
      ceil_percent = λ percent bytes. pos 0;
    };
    overhead_options = record { vm_memory_overhead_percent = 0; vm_memory_overhead = "100Mi" };
    network = none;
    parse_time = λ s. none;
  };
  region = "cn-hangzhou";
  dual_stack = false;
  ttl = 60;
  digest = λ input. some "0123456789abcdef";
  sort_slice = sort_by;
  generate_user_data = λ node_class claim tags. (ok "", tags);
  create_one = create tagged_cloud one_instance sample_encoding;
}

abbrev asked_claim : Asked
asked_claim = record {
  claim = record {
    name = "claim-1";
    labels = (node_pool_label_key, "pool") ∷ [];
    annotations = [];
    creation_timestamp = 0;
    provider_id = "";
    capacity = [];
    allocatable = [];
    image_id = "";
  };
  node_class_name = "default";
  requirements = [];
}

abbrev ready_class : VersionedClass
ready_class = (sample_node_class, 1)

abbrev empty_state : CloudState Tags
empty_state = record { instances = []; types = []; cloud = [] }

abbrev sample_meta : ClaimMeta
sample_meta = record { name = "claim-1"; labels = (node_pool_label_key, "pool") ∷ [] }

abbrev read_back : CloudClaim
read_back = set_node_class_hash_annotation "0123456789abcdef" (
    convert_instance_to_node_claim creation_settings.claims
      (instance_of (described_instance (build_instance_tags sample_meta sample_node_class.spec)))
      asked_claim.claim
      (listed_types (zones_of ("cn-hangzhou-b" ∷ "cn-hangzhou-a" ∷ []) []) none
        (some large_type ∷ [])))

created_read_back :
    (create_claim creation_settings tagged_cloud one_type 10
      (ok ready_class)
      (λ c. (condition_true, ""))
      asked_claim
      empty_state).0
    ≡ ok read_back
unfolding create_claim create_instance_with_retry create sort_by lookup disk_category_constraints
    lt_text build_instance_tags decimal tags_described
created_read_back = refl

create_claim-created_example :
    (c : IsCreated creation_settings tagged_cloud one_type 10 ready_class
      (λ c. (condition_true, ""))
      asked_claim
      empty_state
      read_back)
    × (lookup tag_node_claim (its_tags c.id c.after)
        ≡ lookup tag_node_claim (build_instance_tags sample_meta sample_node_class.spec))
create_claim-created_example =
    create_claim-created creation_settings tagged_cloud one_type one_instance sample_encoding
      its_tags refl tagged_cloud-TagLaws one_instance-LaunchLaws 10 ready_class
      (λ c. (condition_true, "")) asked_claim empty_state read_back created_read_back tag_node_claim
