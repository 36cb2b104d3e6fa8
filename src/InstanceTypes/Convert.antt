-- ===== src/InstanceTypes/Convert.antt =====
-- `convertECSInstanceType` and `CalculateGPUMemory` of pkg/providers/instancetype/instancetype.go. The
-- memory that ECS answers in GiB is given in MiB, of which all sizes on sale are whole numbers.
use karpenter_provider_aliba.Prelude.{
  List, Option, String, if◌then◌else◌, leb_ℤ, lookup, ltb, ltb_ℤ, negsuc, none, pos, some, ℕ, ℤ,
  ◌&&◌, ◌*ℤ◌, ◌*◌, ◌-◌, ◌/◌, ◌^◌,
}
use karpenter_provider_aliba.Instance.Api.{deref_int, deref_string}
use karpenter_provider_aliba.InstanceTypes.{Gpu, InstanceType, Quantity, ZoneInfo}
use karpenter_provider_aliba.InstanceTypes.GpuTables.{gpu_instance_type_family, gpu_instance_types}
use karpenter_provider_aliba.Utils.Capacity.{architecture_amd64, kube_architecture}

pub record EcsInstanceType : Type 0 where
  pub instance_type_id : Option String
  pub instance_type_family : Option String
  pub cpu_core_count : Option ℤ
  pub memory_size : Option ℕ
  pub cpu_architecture : Option String
  pub gpu_amount : Option ℤ
  pub gpu_spec : Option String
  pub eni_quantity : Option ℤ
  pub eni_private_ip_address_quantity : Option ℤ

-- `math.Floor(float64(mib) / 1024)`, which is exact below 2^53.
unfoldable pub covert_mib_to_gib : ℤ → ℤ
covert_mib_to_gib (pos n) = pos (n / 1024)
covert_mib_to_gib (negsuc n) = negsuc (n / 1024)

-- What follows the exact match, and the match of the family.
unfoldable pub family_gpu_memory : String → ℤ → ℤ
unfolding covert_mib_to_gib lookup gpu_instance_type_family ◌*ℤ◌
family_gpu_memory family gpu_amount = elim (lookup family gpu_instance_type_family) [
  | some memory ↦ covert_mib_to_gib (pos memory *ℤ gpu_amount)
  | none ↦ pos 0
]

-- What follows the test of the amount.
unfoldable pub known_gpu_memory : EcsInstanceType → ℤ
unfolding family_gpu_memory covert_mib_to_gib lookup gpu_instance_types
known_gpu_memory it = elim (lookup (deref_string it.instance_type_id) gpu_instance_types) [
  | some memory ↦ covert_mib_to_gib (pos memory)
  | none ↦ family_gpu_memory (deref_string it.instance_type_family) (deref_int it.gpu_amount)
]

unfoldable pub calculate_gpu_memory : EcsInstanceType → Option Quantity
unfolding known_gpu_memory
calculate_gpu_memory it =
    if leb_ℤ (deref_int it.gpu_amount) (pos 0) && leb_ℤ (pos 0) (deref_int it.gpu_amount)
    then none
    else some (known_gpu_memory it)

-- `int64(memoryGiB * 1024 * 1024 * 1024)` after the cap of 2^53 GiB. A float64 beyond the range of an
-- int64 becomes the least int64 on amd64.
unfoldable pub memory_bytes : ℕ → ℤ
memory_bytes mib =
    let capped = if ltb (2 ^ 53 * 1024) mib then 2 ^ 53 * 1024 else mib in
    let bytes = capped * 1048576 in if ltb bytes (2 ^ 63) then pos bytes else negsuc (2 ^ 63 - 1)

unfoldable pub gpu_of : EcsInstanceType → Option Gpu
unfolding calculate_gpu_memory
gpu_of it =
    if ltb_ℤ (pos 0) (deref_int it.gpu_amount)
    then some (record {
      count = some (deref_int it.gpu_amount);
      model = deref_string it.gpu_spec;
      memory = calculate_gpu_memory it;
    })
    else none

unfoldable pub architecture_of : Option String → String
unfolding kube_architecture
architecture_of none = architecture_amd64
architecture_of (some arch) = kube_architecture arch

-- An instance type without its cores or its memory is left out.
unfoldable pub convert_ecs_instance_type :
    EcsInstanceType → List (String × ZoneInfo) → Option InstanceType
unfolding memory_bytes gpu_of architecture_of
convert_ecs_instance_type it zones = elim it.cpu_core_count [
  | none ↦ none
  | some cores ↦ elim it.memory_size [
    | none ↦ none
    | some mib ↦ some (record {
      name = deref_string it.instance_type_id;
      architecture = architecture_of it.cpu_architecture;
      cpu = some cores;
      memory = some (memory_bytes mib);
      storage = some (pos 0);
      gpu = gpu_of it;
      zones = zones;
      eni_quantity = deref_int it.eni_quantity;
      eni_private_ip_address_quantity = deref_int it.eni_private_ip_address_quantity;
    })
  ]
]
