-- ===== src/NodeClass/Labels.antt =====
-- The tags, labels and capacity types of pkg/apis/v1alpha1/labels.go, with its `Group` and `LabelDomain`
-- written out, and NormalizeLabelValue.
use karpenter_provider_aliba.Prelude.{String}

abbrev pub label_capacity_type : String
label_capacity_type = "karpenter.sh/capacity-type"

abbrev pub label_topology_zone : String
label_topology_zone = "topology.kubernetes.io/zone"

abbrev pub node_pool_label_key : String
node_pool_label_key = "karpenter.sh/nodepool"

abbrev pub annotation_instance_tagged : String
annotation_instance_tagged = "karpenter.sh/instance-tagged"

abbrev pub tag_node_pool : String
tag_node_pool = "karpenter.sh/nodepool"

abbrev pub tag_node_claim : String
tag_node_claim = "karpenter.sh/nodeclaim"

abbrev pub tag_managed_by : String
tag_managed_by = "karpenter.sh/managed-by"

abbrev pub tag_managed_by_value : String
tag_managed_by_value = "karpenter"

abbrev pub tag_cluster_id : String
tag_cluster_id = "karpenter.sh/cluster-id"

abbrev pub tag_kubelet_max_pods : String
tag_kubelet_max_pods = "karpenter.sh/kubelet-max-pods"

abbrev pub tag_name : String
tag_name = "Name"

abbrev pub condition_type_ready : String
condition_type_ready = "Ready"

abbrev pub condition_type_vswitch_resolved : String
condition_type_vswitch_resolved = "VSwitchResolved"

abbrev pub condition_type_security_group_resolved : String
condition_type_security_group_resolved = "SecurityGroupResolved"

abbrev pub condition_type_image_resolved : String
condition_type_image_resolved = "ImageResolved"

abbrev pub condition_type_ram_role_resolved : String
condition_type_ram_role_resolved = "RAMRoleResolved"

abbrev pub annotation_ecs_node_class_hash : String
annotation_ecs_node_class_hash = "karpenter.sh/ecsnodeclass-hash"

abbrev pub annotation_ecs_node_class_hash_version : String
annotation_ecs_node_class_hash_version = "karpenter.sh/ecsnodeclass-hash-version"

abbrev pub label_instance_family : String
label_instance_family = "node.kubernetes.io/instance-family"

abbrev pub label_instance_family_canonical : String
label_instance_family_canonical = "karpenter.alibabacloud.com/instance-family"

abbrev pub label_instance_category : String
label_instance_category = "karpenter.alibabacloud.com/instance-category"

abbrev pub label_instance_generation : String
label_instance_generation = "karpenter.alibabacloud.com/instance-generation"

abbrev pub label_instance_size : String
label_instance_size = "node.kubernetes.io/instance-size"

abbrev pub label_instance_size_canonical : String
label_instance_size_canonical = "karpenter.alibabacloud.com/instance-size"

abbrev pub label_instance_cpu : String
label_instance_cpu = "karpenter.alibabacloud.com/instance-cpu"

abbrev pub label_instance_memory : String
label_instance_memory = "karpenter.alibabacloud.com/instance-memory"

abbrev pub label_instance_gpu_name : String
label_instance_gpu_name = "karpenter.alibabacloud.com/instance-gpu-name"

abbrev pub label_instance_gpu_manufacturer : String
label_instance_gpu_manufacturer = "karpenter.alibabacloud.com/instance-gpu-manufacturer"

abbrev pub label_instance_gpu_count : String
label_instance_gpu_count = "karpenter.alibabacloud.com/instance-gpu-count"

abbrev pub label_instance_gpu_memory : String
label_instance_gpu_memory = "karpenter.alibabacloud.com/instance-gpu-memory"

abbrev pub label_capacity_reservation_id : String
label_capacity_reservation_id = "karpenter.alibabacloud.com/capacity-reservation-id"

abbrev pub label_capacity_reservation_type : String
label_capacity_reservation_type = "karpenter.alibabacloud.com/capacity-reservation-type"

abbrev pub label_instance_type : String
label_instance_type = "node.kubernetes.io/instance-type"

abbrev pub label_region : String
label_region = "topology.kubernetes.io/region"

abbrev pub label_architecture : String
label_architecture = "kubernetes.io/arch"

abbrev pub label_os : String
label_os = "kubernetes.io/os"

abbrev pub os_linux : String
os_linux = "linux"

abbrev pub resource_gpu : String
resource_gpu = "nvidia.com/gpu"

abbrev pub resource_gpu_memory : String
resource_gpu_memory = "aliyun.com/gpu-mem"
