-- ===== src/InstanceTypes/Capacity/Reserved.antt =====
-- What an instance type reserves for the system, and what is allocatable of an instance.
use karpenter_provider_aliba.Prelude.{
  Option, String, [], ap, arith, false, if_intro, insert, lookup, lookup-insert, ltb_ℤ, none, pos,
  refl, some, str_eq, str_eq_iff, ℕ, ℤ, ◌*ℤ◌, ◌+ℤ◌, ◌+◌, ◌-ℤ◌, ◌/◌, ◌||◌, ◌∙◌, ◌∷◌, ◌≡◌,
}
use karpenter_provider_aliba.InstanceTypes.{Gpu, InstanceType, Quantity}
use karpenter_provider_aliba.InstanceTypes.Capacity.{
  InstanceTypeOverhead, NetworkConfig, OverheadOptions, Quantities, ResourceList, base_capacity,
  calculate_capacity_and_allocatable, calculate_overhead, capacity_of, cpu_overhead,
  divide_quantity, new_quantity, put_gpu, put_pods, put_positive, quantity_at, quotient,
  resource_cpu, resource_memory, resource_pods, resource_pods_for_exclusive_eni, resources_subtract,
  split_overhead, subtract_found, third_of,
}
use karpenter_provider_aliba.NodeClass.Labels.{resource_gpu, resource_gpu_memory}

-- `Value` of a quantity rounds a part of one up.
abbrev pub RoundsUp : Quantities → Type 0
RoundsUp q = (n : ℕ) → q.value (pos n) ≡ pos ((n + 999) / 1000)

-- The overhead that Karpenter subtracts from the capacity of an instance type.
abbrev pub reserved : String → InstanceTypeOverhead → ℤ
reserved name overhead =
    quantity_at name overhead.eviction_threshold
    +ℤ quantity_at name overhead.kube_reserved
    +ℤ quantity_at name overhead.system_reserved

lookup-resources_subtract :
    (name : String) (lhs rhs : ResourceList)
    → lookup name (resources_subtract lhs rhs) ≡ (elim (lookup name lhs) [
      | none ↦ none
      | some v ↦ some (subtract_found v (lookup name rhs))
    ])
unfolding resources_subtract lookup
lookup-resources_subtract name [] rhs = refl
lookup-resources_subtract name ((n, v) ∷ lhs) rhs =
    ground (arith, lookup-resources_subtract name lhs rhs, str_eq_iff n name)

lookup-insert_other :
    (read name : String) (v : ℤ) (resources : ResourceList)
    → str_eq name read ≡ false
    → lookup read (insert name v resources) ≡ lookup read resources
lookup-insert_other read name v resources h = lookup-insert name read v resources ∙ rw h refl

lookup-put_positive :
    (read name : String) (n : Option Quantity) (capacity : ResourceList)
    → str_eq name read ≡ false
    → lookup read (put_positive name n capacity) ≡ lookup read capacity
unfolding put_positive
lookup-put_positive read name none capacity h = refl
lookup-put_positive read name (some n) capacity h =
    if_intro (λ m. lookup read m ≡ lookup read capacity) (ltb_ℤ (pos 0) n) _ _
      (λ k. lookup-insert_other read name (new_quantity n) capacity h) λ k. refl

lookup-put_gpu :
    (read : String) (gpu : Option Gpu) (capacity : ResourceList)
    → str_eq resource_gpu read ≡ false
    → str_eq resource_gpu_memory read ≡ false
    → lookup read (put_gpu gpu capacity) ≡ lookup read capacity
unfolding put_gpu
lookup-put_gpu read none capacity h k = refl
lookup-put_gpu read (some gpu) capacity h k =
    lookup-put_positive read resource_gpu_memory gpu.memory _ k
    ∙ lookup-put_positive read resource_gpu gpu.count capacity h

lookup-put_pods :
    (read : String) (network : Option NetworkConfig) (it : InstanceType) (capacity : ResourceList)
    → str_eq resource_pods read ≡ false
    → str_eq resource_pods_for_exclusive_eni read ≡ false
    → lookup read (put_pods network it capacity) ≡ lookup read capacity
unfolding put_pods
lookup-put_pods read none it capacity h k = refl
lookup-put_pods read (some network) it capacity h k =
    if_intro P (str_eq network.cluster_network "terway-eniip") _ _
      (λ e.
        lookup-insert_other read resource_pods_for_exclusive_eni _ _ k
        ∙ lookup-insert_other read resource_pods _ capacity h)
      λ e.
        if_intro P
          (str_eq network.cluster_network "kube-flannel-ds"
            || str_eq network.cluster_network "kube-flannel-ds-vxlan")
          _ _
          (λ f.
            if_intro P (ltb_ℤ (pos 0) network.max_pods) _ _
              (λ g. lookup-insert_other read resource_pods _ capacity h) λ g. refl)
          λ f. refl
  where
    P : ResourceList → Type 0
    P m = lookup read m ≡ lookup read capacity

-- The CPU and the memory of the capacity are those of the instance type.
lookup-capacity_of :
    (network : Option NetworkConfig) (it : InstanceType) (cores bytes : ℤ)
    → (lookup resource_cpu (capacity_of network it cores bytes) ≡ some (new_quantity cores))
      × (lookup resource_memory (capacity_of network it cores bytes) ≡ some (new_quantity bytes))
unfolding capacity_of lookup
lookup-capacity_of network it cores bytes = (
  lookup-put_pods resource_cpu network it _ refl refl
      ∙ lookup-put_gpu resource_cpu it.gpu (base_capacity cores bytes) refl refl,
  lookup-put_pods resource_memory network it _ refl refl
      ∙ lookup-put_gpu resource_memory it.gpu (base_capacity cores bytes) refl refl,
)

calculated :
    (q : Quantities) (opts : OverheadOptions) (network : Option NetworkConfig) (it : InstanceType)
    (cores bytes : ℤ)
    → it.cpu ≡ some cores
    → it.memory ≡ some bytes
    → calculate_capacity_and_allocatable q opts network it
      ≡ some (
        capacity_of network it cores bytes,
        resources_subtract (capacity_of network it cores bytes) (calculate_overhead q opts it),
      )
unfolding calculate_capacity_and_allocatable
calculated q opts network it cores bytes c m = ground arith

-- A third of 100m is nothing, since `Value` makes one of 100m and the division rounds down.
divide_quantity-cpu_overhead :
    (q : Quantities) → RoundsUp q → divide_quantity q cpu_overhead 3 ≡ pos 0
unfolding divide_quantity quotient ◌*ℤ◌
divide_quantity-cpu_overhead q r = rw (r 100) refl

-- Where `Value` rounds up: every instance type that GetInstanceTypes makes reserves no CPU at all, while
-- its capacity has all its cores and the allocatable CPU of an instance of it is 100m less.
pub core_type-reserved_cpu :
    (q : Quantities) (opts : OverheadOptions) (network : Option NetworkConfig) (it : InstanceType)
    (cores bytes : ℤ)
    → RoundsUp q
    → it.cpu ≡ some cores
    → it.memory ≡ some bytes
    → (reserved resource_cpu (split_overhead q (calculate_overhead q opts it)) ≡ pos 0)
      × (capacity : ResourceList) × (allocatable : ResourceList)
      × (calculate_capacity_and_allocatable q opts network it ≡ some (capacity, allocatable))
      × (lookup resource_cpu capacity ≡ some (new_quantity cores))
      × (lookup resource_cpu allocatable ≡ some (new_quantity cores -ℤ pos 100))
unfolding split_overhead third_of calculate_overhead lookup ◌+ℤ◌ subtract_found
core_type-reserved_cpu q opts network it cores bytes r c m = (
  ap (λ x. x +ℤ x +ℤ x) (divide_quantity-cpu_overhead q r),
  capacity_of network it cores bytes,
  resources_subtract (capacity_of network it cores bytes) (calculate_overhead q opts it),
  calculated q opts network it cores bytes c m,
  (lookup-capacity_of network it cores bytes).0,
  lookup-resources_subtract resource_cpu (capacity_of network it cores bytes)
        (calculate_overhead q opts it)
      ∙ rw ((lookup-capacity_of network it cores bytes).0) refl,
)
