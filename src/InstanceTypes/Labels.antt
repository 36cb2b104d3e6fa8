-- ===== src/InstanceTypes/Labels.antt =====
-- The labels of an instance type, in pkg/providers/instancetype/instancetype.go.
pub mod Consistent
use karpenter_provider_aliba.Prelude.{Option, String, [], if◌then◌else◌, insert, none, some, str_eq}
use karpenter_provider_aliba.InstanceTypes.{InstanceType}
use karpenter_provider_aliba.InstanceTypes.Names.{
  gpu_count, gpu_manufacturer, gpu_memory, gpu_model, instance_category, instance_family,
  instance_generation, instance_size, quantity_mib, quantity_value,
}
use karpenter_provider_aliba.NodeClass.Labels.{
  label_instance_category, label_instance_cpu, label_instance_family,
  label_instance_family_canonical, label_instance_generation, label_instance_gpu_count,
  label_instance_gpu_manufacturer, label_instance_gpu_memory, label_instance_gpu_name,
  label_instance_memory, label_instance_size, label_instance_size_canonical,
}
use karpenter_provider_aliba.Utils.Tags.{Tags}

-- `if value != "" { labels[key] = value }`
unfoldable pub put_unless_empty : String → String → Tags → Tags
unfolding insert
put_unless_empty key value labels = if str_eq value "" then labels else insert key value labels

unfoldable pub instance_type_labels : String → Tags
unfolding put_unless_empty instance_family instance_category instance_generation instance_size
instance_type_labels name = put_unless_empty label_instance_size_canonical (instance_size name) (
    put_unless_empty label_instance_size (instance_size name) (
      put_unless_empty label_instance_generation (instance_generation name) (
        put_unless_empty label_instance_category (instance_category name) (
          put_unless_empty label_instance_family_canonical (instance_family name)
            (put_unless_empty label_instance_family (instance_family name) [])))))

-- The second loop of `ResolvedLabels`, over a map with six keys.
unfoldable pub quantity_labels : InstanceType → Tags → Tags
unfolding put_unless_empty quantity_value quantity_mib gpu_model gpu_manufacturer gpu_count
    gpu_memory
quantity_labels it labels = put_unless_empty label_instance_gpu_memory (gpu_memory it.gpu) (
    put_unless_empty label_instance_gpu_count (gpu_count it.gpu) (
      put_unless_empty label_instance_gpu_manufacturer (gpu_manufacturer it.gpu) (
        put_unless_empty label_instance_gpu_name (gpu_model it.gpu) (
          put_unless_empty label_instance_memory (quantity_mib it.memory)
            (put_unless_empty label_instance_cpu (quantity_value it.cpu) labels)))))

unfoldable pub resolved_labels : Option InstanceType → Tags
unfolding instance_type_labels quantity_labels
resolved_labels none = []
resolved_labels (some it) = quantity_labels it (instance_type_labels it.name)
