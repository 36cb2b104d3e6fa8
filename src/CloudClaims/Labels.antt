-- ===== src/CloudClaims/Labels.antt =====
-- The labels that instanceLabelsFromInstance of pkg/cloudprovider/cloudprovider.go makes of an instance.
-- The fallback labels have distinct keys, so that their order does not matter.
use karpenter_provider_aliba.Prelude.{
  Option, String, [], if◌then◌else◌, insert, is_set, leb_ℤ, lookup, none, not, pos, show_int, some,
  str_eq, ℤ, ◌*ℤ◌, ◌||◌, ◌∷◌,
}
use karpenter_provider_aliba.Instance.Api.{Instance}
use karpenter_provider_aliba.InstanceTypes.{InstanceType}
use karpenter_provider_aliba.InstanceTypes.Labels.{resolved_labels}
use karpenter_provider_aliba.Launch.Tags.{insert_all}
use karpenter_provider_aliba.NodeClass.LabelValues.{normalize_label_value}
use karpenter_provider_aliba.NodeClass.Labels.{
  label_architecture, label_capacity_type, label_instance_cpu, label_instance_gpu_count,
  label_instance_gpu_name, label_instance_memory, label_instance_type, label_os, label_region,
  label_topology_zone, node_pool_label_key, os_linux, tag_node_pool,
}
use karpenter_provider_aliba.Utils.Capacity.{architecture_from_instance_type, kube_architecture}
use karpenter_provider_aliba.Utils.Tags.{Tags}

unfoldable pub resolve_architecture : Instance → Option InstanceType → String
unfolding kube_architecture architecture_from_instance_type
resolve_architecture inst none = architecture_from_instance_type inst.instance_type
resolve_architecture inst (some it) =
    if not (str_eq it.architecture "")
    then kube_architecture it.architecture
    else architecture_from_instance_type inst.instance_type

unfoldable pub quantity_label_value : ℤ → String
unfolding show_int
quantity_label_value q = if leb_ℤ q (pos 0) then "" else show_int q

-- The memory of an instance is a number of GiB, of 1024 MiB each.
unfoldable pub quantity_label_value_mib : ℤ → String
unfolding show_int ◌*ℤ◌
quantity_label_value_mib gib = if leb_ℤ gib (pos 0) then "" else show_int (gib *ℤ pos 1024)

-- `if value != "" { if _, ok := labels[key]; !ok { labels[key] = value } }`
unfoldable pub put_if_missing : String → String → Tags → Tags
unfolding insert lookup
put_if_missing key value labels =
    if str_eq value "" || is_set (lookup key labels) then labels else insert key value labels

-- The labels that an instance has itself.
unfoldable pub base_labels : Instance → Option InstanceType → Tags
unfolding resolve_architecture
base_labels inst it =
    (label_region, inst.region)
    ∷ (label_topology_zone, inst.zone)
    ∷ (label_capacity_type, inst.capacity_type)
    ∷ (label_architecture, resolve_architecture inst it)
    ∷ (label_os, os_linux)
    ∷ (label_instance_type, inst.instance_type)
    ∷ []

-- The fallback for an instance type that is not offered any more, over a map with four keys.
unfoldable pub fallback_labels : Instance → Tags → Tags
unfolding put_if_missing quantity_label_value quantity_label_value_mib normalize_label_value
fallback_labels inst labels =
    put_if_missing label_instance_gpu_count (quantity_label_value inst.gpu) (
      put_if_missing label_instance_gpu_name (normalize_label_value inst.gpu_spec) (
        put_if_missing label_instance_memory (quantity_label_value_mib inst.memory)
          (put_if_missing label_instance_cpu (quantity_label_value inst.cpu) labels)))

unfoldable pub restore_node_pool : Option String → Tags → Tags
unfolding insert
restore_node_pool none labels = labels
restore_node_pool (some v) labels = insert node_pool_label_key v labels

unfoldable pub instance_labels_from_instance : Instance → Option InstanceType → Tags
unfolding base_labels fallback_labels restore_node_pool insert_all resolved_labels lookup
instance_labels_from_instance inst it =
    restore_node_pool (lookup tag_node_pool inst.tags)
      (fallback_labels inst (insert_all (resolved_labels it) (base_labels inst it)))
