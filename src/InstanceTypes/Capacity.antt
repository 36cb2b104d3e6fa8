-- ===== src/InstanceTypes/Capacity.antt =====
-- `calculateCapacityAndAllocatable` and `calculateOverhead` of pkg/cloudprovider/cloudprovider.go. In a
-- list of resources a quantity is the number of its thousandths, so that "100m" is 100.
pub mod Reserved
use karpenter_provider_aliba.Prelude.{
  Bool, List, Option, String, [], false, if◌then◌else◌, insert, lookup, ltb_ℤ, negsuc, none, pos,
  some, str_eq, sub_ℕ, suc, zero, ℕ, ℤ, ◌*ℤ◌, ◌+ℤ◌, ◌+◌, ◌-ℤ◌, ◌/◌, ◌||◌, ◌∷◌,
}
use karpenter_provider_aliba.InstanceTypes.{Gpu, InstanceType, Quantity}
use karpenter_provider_aliba.NodeClass.{Float64}
use karpenter_provider_aliba.NodeClass.Labels.{resource_gpu, resource_gpu_memory}

abbrev pub ResourceList : Type 0
ResourceList = List (String × ℤ)

-- What the code takes of the library of Kubernetes for quantities, and the float arithmetic
-- `int64(math.Ceil(float64(bytes) * percent))`.
pub record Quantities : Type 0 where
  pub parse_quantity : String → Option ℤ
  pub value : ℤ → ℤ
  pub ceil_percent : Float64 → ℤ → ℤ

pub record OverheadOptions : Type 0 where
  pub vm_memory_overhead_percent : Float64
  pub vm_memory_overhead : String

-- The parts of `cluster.NetworkConfig` that are read here.
pub record NetworkConfig : Type 0 where
  pub cluster_network : String
  pub max_pods : ℤ

abbrev pub new_quantity : ℤ → ℤ
new_quantity n = n *ℤ pos 1000

abbrev pub resource_cpu : String
resource_cpu = "cpu"

abbrev pub resource_memory : String
resource_memory = "memory"

abbrev pub resource_pods : String
resource_pods = "pods"

abbrev pub resource_pods_for_exclusive_eni : String
resource_pods_for_exclusive_eni = "alibabacloud.com/exclusive-eni"

abbrev pub default_pods_limit : ℕ
default_pods_limit = 110

-- 100m
abbrev pub cpu_overhead : ℤ
cpu_overhead = pos 100

-- 100Mi, where the option cannot be parsed.
abbrev pub default_fixed_overhead : ℤ
default_fixed_overhead = pos 104857600000

abbrev pub or_default {ℓ} : {A : Type ℓ} → Option A → A → A
or_default none d = d
or_default (some a) d = a

module _ (q : Quantities) (opts : OverheadOptions) where
  unfoldable pub memory_overhead : Option Quantity → ℤ
  unfolding ◌*ℤ◌
  memory_overhead none = pos 0
  memory_overhead (some bytes) =
      let percentage = new_quantity (q.ceil_percent opts.vm_memory_overhead_percent bytes) in
      let fixed = or_default (q.parse_quantity opts.vm_memory_overhead) default_fixed_overhead in
      if ltb_ℤ percentage fixed then fixed else percentage

  unfoldable pub calculate_overhead : InstanceType → ResourceList
  unfolding memory_overhead
  calculate_overhead it =
      (resource_cpu, cpu_overhead) ∷ (resource_memory, memory_overhead it.memory) ∷ []

-- `if rhsValue, ok := rhs[resourceName]; ok { current.Sub(rhsValue) }`
unfoldable pub subtract_found : ℤ → Option ℤ → ℤ
unfolding ◌-ℤ◌
subtract_found current none = current
subtract_found current (some value) = current -ℤ value

unfoldable pub resources_subtract : ResourceList → ResourceList → ResourceList
unfolding subtract_found lookup
resources_subtract [] rhs = []
resources_subtract ((name, current) ∷ lhs) rhs =
    (name, subtract_found current (lookup name rhs)) ∷ resources_subtract lhs rhs

abbrev pub is_positive : Option Quantity → Bool
is_positive none = false
is_positive (some n) = ltb_ℤ (pos 0) n

-- A resource of a GPU, where it is above zero.
unfoldable pub put_positive : String → Option Quantity → ResourceList → ResourceList
unfolding insert ◌*ℤ◌
put_positive name none capacity = capacity
put_positive name (some n) capacity =
    if ltb_ℤ (pos 0) n then insert name (new_quantity n) capacity else capacity

unfoldable pub put_gpu : Option Gpu → ResourceList → ResourceList
unfolding put_positive
put_gpu none capacity = capacity
put_gpu (some gpu) capacity =
    put_positive resource_gpu_memory gpu.memory (put_positive resource_gpu gpu.count capacity)

-- The pods that the network of the cluster allows.
unfoldable pub put_pods : Option NetworkConfig → InstanceType → ResourceList → ResourceList
unfolding insert ◌*ℤ◌ ◌+ℤ◌ ◌-ℤ◌
put_pods none it capacity = capacity
put_pods (some network) it capacity =
    if str_eq network.cluster_network "terway-eniip"
    then insert resource_pods_for_exclusive_eni (new_quantity (it.eni_quantity -ℤ pos 1 +ℤ pos 3)) (
        insert resource_pods
          (new_quantity ((it.eni_quantity -ℤ pos 1) *ℤ it.eni_private_ip_address_quantity +ℤ pos 3))
          capacity)
    else if str_eq network.cluster_network "kube-flannel-ds"
        || str_eq network.cluster_network "kube-flannel-ds-vxlan"
    then (if ltb_ℤ (pos 0) network.max_pods
        then insert resource_pods (new_quantity network.max_pods) capacity
        else capacity)
    else capacity

-- The capacity before the resources of the GPU and the network.
abbrev pub base_capacity : ℤ → ℤ → ResourceList
base_capacity cores bytes =
    (resource_cpu, new_quantity cores)
    ∷ (resource_memory, new_quantity bytes)
    ∷ (resource_pods, new_quantity (pos default_pods_limit))
    ∷ []

unfoldable pub capacity_of : Option NetworkConfig → InstanceType → ℤ → ℤ → ResourceList
unfolding put_pods put_gpu ◌*ℤ◌
capacity_of network it cores bytes =
    put_pods network it (put_gpu it.gpu (base_capacity cores bytes))

-- `none` is the error of an instance type without its cores or its memory.
unfoldable pub calculate_capacity_and_allocatable :
    Quantities
    → OverheadOptions
    → Option NetworkConfig
    → InstanceType
    → Option (ResourceList × ResourceList)
unfolding capacity_of resources_subtract calculate_overhead
calculate_capacity_and_allocatable q opts network it = elim it.cpu [
  | none ↦ none
  | some cores ↦ elim it.memory [
    | none ↦ none
    | some bytes ↦ some (
      capacity_of network it cores bytes,
      resources_subtract (capacity_of network it cores bytes) (calculate_overhead q opts it),
    )
  ]
]

-- Go's division of an int64, towards zero, by a divisor above zero.
unfoldable pub quotient : ℤ → ℕ → ℤ
quotient (pos n) d = pos (n / d)
quotient (negsuc n) d = sub_ℕ 0 ((n + 1) / d)

unfoldable pub divide_quantity : Quantities → ℤ → ℕ → ℤ
unfolding quotient ◌*ℤ◌
divide_quantity q quantity zero = pos 0
divide_quantity q quantity (suc d) = new_quantity (quotient (q.value quantity) (suc d))

pub record InstanceTypeOverhead : Type 0 where
  pub eviction_threshold : ResourceList
  pub kube_reserved : ResourceList
  pub system_reserved : ResourceList

-- `totalOverhead[name]`, which is zero for a missing name.
abbrev pub quantity_at : String → ResourceList → ℤ
quantity_at name resources = or_default (lookup name resources) (pos 0)

-- A third of the overhead.
unfoldable pub third_of : Quantities → ResourceList → ResourceList
unfolding divide_quantity lookup
third_of q total =
    (resource_memory, divide_quantity q (quantity_at resource_memory total) 3)
    ∷ (resource_cpu, divide_quantity q (quantity_at resource_cpu total) 3)
    ∷ []

unfoldable pub split_overhead : Quantities → ResourceList → InstanceTypeOverhead
unfolding third_of
split_overhead q total = record {
  eviction_threshold = third_of q total;
  kube_reserved = third_of q total;
  system_reserved = third_of q total;
}
