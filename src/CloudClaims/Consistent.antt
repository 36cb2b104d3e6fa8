-- ===== src/CloudClaims/Consistent.antt =====
-- The labels of a NodeClaim and the requirements that its instance type was offered with.
use karpenter_provider_aliba.Prelude.{
  All, Bool-cases, List, Option, Option-cases, String, [], arith, false, inl, inr, keys, lookup,
  lookup-insert, member, none, refl, some, str_eq, str_eq_iff, true, ◌∙◌, ◌∷◌, ◌≡◌,
}
use karpenter_provider_aliba.CloudClaims.Labels.{
  base_labels, fallback_labels, instance_labels_from_instance, put_if_missing, quantity_label_value,
  quantity_label_value_mib, resolve_architecture, restore_node_pool,
}
use karpenter_provider_aliba.Instance.Api.{Instance}
use karpenter_provider_aliba.InstanceTypes.{InstanceType}
use karpenter_provider_aliba.InstanceTypes.Labels.{resolved_labels}
use karpenter_provider_aliba.InstanceTypes.Labels.Consistent.{
  attributes, member-resolved_labels, resolved_labels-Distinct,
}
use karpenter_provider_aliba.InstanceTypes.Offerings.{
  build_instance_type_requirements, label_requirements,
}
use karpenter_provider_aliba.Launch.Requirements.{Requirement}
use karpenter_provider_aliba.Launch.Tags.{insert_all}
use karpenter_provider_aliba.Launch.Tags.Insertion.{insert_all-Copied, lookup-insert_all}
use karpenter_provider_aliba.NodeClass.LabelValues.{normalize_label_value}
use karpenter_provider_aliba.NodeClass.Labels.{
  label_architecture, label_capacity_type, label_instance_cpu, label_instance_gpu_count,
  label_instance_gpu_name, label_instance_memory, label_instance_type, label_os, label_region,
  label_topology_zone, node_pool_label_key, os_linux, tag_node_pool,
}
use karpenter_provider_aliba.Utils.Capacity.{kube_architecture}
use karpenter_provider_aliba.Utils.Tags.{Tags, tag_value}

-- A requirement with `In` holds of a label.
abbrev pub HoldsOf : Tags → Requirement → Type 0
HoldsOf labels r = member (tag_value r.key labels) r.values ≡ true

tag_value-lookup :
    (read v : String) (labels : Tags) → lookup read labels ≡ some v → tag_value read labels ≡ v
unfolding tag_value
tag_value-lookup read v labels h = rw (h, tag_value) refl

module _ (inst : Instance) where
  put_if_missing-kept :
      (key value read v : String) (labels : Tags)
      → lookup read labels ≡ some v
      → lookup read (put_if_missing key value labels) ≡ some v
  unfolding put_if_missing
  put_if_missing-kept key value read v labels h = elim (Bool-cases (str_eq value "")) [
    | inl e ↦ rw e h
    | inr e ↦ elim (Option-cases (lookup key labels)) [
      | inr (w, n) ↦ rw (e, n) h
      | inl n ↦
          rw (e, n) (lookup-insert key read value labels ∙ ground (arith, str_eq_iff key read))
    ]
  ]

  fallback_labels-kept :
      (read v : String) (labels : Tags)
      → lookup read labels ≡ some v
      → lookup read (fallback_labels inst labels) ≡ some v
  unfolding fallback_labels
  fallback_labels-kept read v labels h =
      let cpu = quantity_label_value inst.cpu in
      let memory = quantity_label_value_mib inst.memory in
      let gpu_name = normalize_label_value inst.gpu_spec in
      let with_cpu = put_if_missing label_instance_cpu cpu labels in
      let with_memory = put_if_missing label_instance_memory memory with_cpu in
      let with_gpu = put_if_missing label_instance_gpu_name gpu_name with_memory in
      put_if_missing-kept label_instance_gpu_count (quantity_label_value inst.gpu) read v with_gpu (
        put_if_missing-kept label_instance_gpu_name gpu_name read v with_memory (
          put_if_missing-kept label_instance_memory memory read v with_cpu
            (put_if_missing-kept label_instance_cpu cpu read v labels h)))

  restore_node_pool-kept :
      (o : Option String) (read v : String) (labels : Tags)
      → str_eq node_pool_label_key read ≡ false
      → lookup read labels ≡ some v
      → lookup read (restore_node_pool o labels) ≡ some v
  unfolding restore_node_pool
  restore_node_pool-kept none read v labels differ h = h
  restore_node_pool-kept (some w) read v labels differ h =
      lookup-insert node_pool_label_key read w labels ∙ ground arith

  module _ (it : InstanceType) where
    -- A label that is there before the fallback is a label of the instance.
    labels-kept :
        (read v : String)
        → str_eq node_pool_label_key read ≡ false
        → lookup read (insert_all (resolved_labels (some it)) (base_labels inst (some it))) ≡ some v
        → tag_value read (instance_labels_from_instance inst (some it)) ≡ v
    unfolding instance_labels_from_instance
    labels-kept read v differ h =
        tag_value-lookup read v (instance_labels_from_instance inst (some it)) (
          restore_node_pool-kept (lookup tag_node_pool inst.tags) read v
            (fallback_labels inst
              (insert_all (resolved_labels (some it)) (base_labels inst (some it))))
            differ
            (fallback_labels-kept read v
              (insert_all (resolved_labels (some it)) (base_labels inst (some it))) h))

    base-kept :
        (read v : String)
        → str_eq node_pool_label_key read ≡ false
        → member read (keys (attributes it)) ≡ false
        → lookup read (base_labels inst (some it)) ≡ some v
        → tag_value read (instance_labels_from_instance inst (some it)) ≡ v
    base-kept read v differ absent h = labels-kept read v differ (
        lookup-insert_all read (resolved_labels (some it)) (base_labels inst (some it))
          (member-resolved_labels read it absent)
        ∙ h)

    resolved-hold :
        (labels : Tags)
        → All
            (λ e.
              lookup e.0 (insert_all (resolved_labels (some it)) (base_labels inst (some it)))
              ≡ some e.1)
            labels
        → member node_pool_label_key (keys labels) ≡ false
        → All (HoldsOf (instance_labels_from_instance inst (some it))) (label_requirements labels)
    unfolding member
    resolved-hold [] h absent = tt
    resolved-hold ((k, v) ∷ labels) h absent = (
      rw
          (labels-kept k v
            (ground (arith, str_eq_iff node_pool_label_key k, str_eq_iff k node_pool_label_key))
            h.0)
          (ground (arith, str_eq_iff v v)),
      resolved-hold labels h.1 (ground arith),
    )

    -- Every requirement of an instance type, for a region, zones and capacity types, holds of the labels
    -- of an instance of this type in the region, in one of the zones and with one of the capacity types.
    -- ECS names an architecture for the type.
    pub instance_labels_from_instance-requirements :
        (zones capacity_types : List String)
        → inst.instance_type ≡ it.name
        → str_eq it.architecture "" ≡ false
        → member inst.zone zones ≡ true
        → member inst.capacity_type capacity_types ≡ true
        → All
            (HoldsOf (instance_labels_from_instance inst (some it)))
            (build_instance_type_requirements it inst.region zones capacity_types)
    unfolding build_instance_type_requirements base_labels lookup member resolve_architecture
    instance_labels_from_instance-requirements zones capacity_types named architecture in_zone
          in_type =
        (
          rw (base-kept label_instance_type inst.instance_type refl refl refl)
              (ground (arith, str_eq_iff it.name inst.instance_type)),
          (
            rw
                (base-kept label_architecture (kube_architecture it.architecture) refl refl
                  (rw architecture refl))
                (ground (
                  arith,
                  str_eq_iff (kube_architecture it.architecture)
                      (kube_architecture it.architecture),
                )),
            (
              rw (base-kept label_os os_linux refl refl refl) refl,
              (
                rw (base-kept label_region inst.region refl refl refl)
                    (ground (arith, str_eq_iff inst.region inst.region)),
                (
                  rw (base-kept label_topology_zone inst.zone refl refl refl) in_zone,
                  (
                    rw (base-kept label_capacity_type inst.capacity_type refl refl refl) in_type,
                    resolved-hold (resolved_labels (some it))
                        (insert_all-Copied (resolved_labels (some it)) (base_labels inst (some it))
                          (resolved_labels-Distinct it))
                        (member-resolved_labels node_pool_label_key it refl),
                  ),
                ),
              ),
            ),
          ),
        )
