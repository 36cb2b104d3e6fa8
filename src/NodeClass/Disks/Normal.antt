-- ===== src/NodeClass/Disks/Normal.antt =====
-- What a successful normalisation of the disks guarantees.
use mathlib.Core.Path.{subst}
use karpenter_provider_aliba.Prelude.{
  >>-eq-ok, >>=-eq-ok, All, Bool, List, Option, String, [], ap, arith, fail_if, false, inl, inr,
  length, lookup, none, not, ok, ok_injective, refl, some, str_eq, str_eq_iff, suc, true, ℕ, ℤ,
  ◌&&◌, ◌+◌, ◌∷◌, ◌≡◌, ◌≢◌, ◌≤ℤ◌, ◌⊎◌,
}
use karpenter_provider_aliba.NodeClass.{DataDiskSpec, EcsNodeClassSpec, SystemDiskSpec}
use karpenter_provider_aliba.NodeClass.Disks.{
  DiskCategoryConstraint, DiskError, DiskPath, NormalizedDataDisk, NormalizedDisks,
  NormalizedSystemDisk, check_constraint, check_data_disk, check_system_disk, data_disk_of,
  default_system_disk_category, disk_category_constraints, instance_store_policy_raid0, is_nil,
  is_valid_performance_level, normalize_data_disks, normalize_disk_performance, normalize_disks,
  normalize_encrypted, normalize_instance_store_policy, system_disk_of,
  validate_disk_category_and_size,
}

-- The category is known and on sale, and the size lies in its range.
abbrev pub IsAllowedSize : String → ℤ → Type 0
IsAllowedSize category size =
    (c : DiskCategoryConstraint) × (lookup category disk_category_constraints ≡ some c)
    × (c.available ≡ true)
    × (c.min_size ≤ℤ size)
    × (size ≤ℤ c.max_size)

-- A performance level is set exactly for cloud_essd disks, and is one of PL0 to PL3.
abbrev pub IsAllowedLevel : String → String → Type 0
IsAllowedLevel category level =
    (category ≡ default_system_disk_category → is_valid_performance_level level ≡ true)
    × (category ≢ default_system_disk_category → level ≡ "")

-- A KMS key is named only for an encrypted disk.
abbrev pub IsAllowedKey : String → Option Bool → Type 0
IsAllowedKey kms_key_id encrypted = (kms_key_id ≡ "") ⊎ (encrypted ≡ some true)

abbrev pub IsNormalSystemDisk : NormalizedSystemDisk → Type 0
IsNormalSystemDisk d =
    IsAllowedSize d.category d.size
    × IsAllowedLevel d.category d.performance_level
    × IsAllowedKey d.kms_key_id d.encrypted

abbrev pub IsNormalDataDisk : NormalizedDataDisk → Type 0
IsNormalDataDisk d =
    IsAllowedSize d.category d.size
    × IsAllowedLevel d.category d.performance_level
    × IsAllowedKey d.kms_key_id d.encrypted

check_constraint-allowed :
    (path : DiskPath) (category : String) (size : ℤ) (o : Option DiskCategoryConstraint)
    → check_constraint path category size o ≡ ok tt
    → (c : DiskCategoryConstraint) × (o ≡ some c)
      × (c.available ≡ true)
      × (c.min_size ≤ℤ size)
      × (size ≤ℤ c.max_size)
unfolding check_constraint
check_constraint-allowed path category size none h = cc
check_constraint-allowed path category size (some c) h =
    (c, refl, ground arith, ground arith, ground arith)

validate_disk_category_and_size-IsAllowedSize :
    (path : DiskPath) (category : String) (size : ℤ)
    → validate_disk_category_and_size path category size ≡ ok tt
    → IsAllowedSize category size
unfolding validate_disk_category_and_size
validate_disk_category_and_size-IsAllowedSize path category size h =
    check_constraint-allowed path category size (lookup category disk_category_constraints) h

normalize_disk_performance-IsAllowedLevel :
    (path : DiskPath) (category level level' : String)
    → normalize_disk_performance path category level ≡ ok level'
    → IsAllowedLevel category level'
unfolding normalize_disk_performance
normalize_disk_performance-IsAllowedLevel path category level level' h = (
  ground (arith, str_eq_iff category default_system_disk_category),
  ground (arith, str_eq_iff category default_system_disk_category, str_eq_iff level ""),
)

-- `Encrypted` is nil or points to true after `normalizeEncrypted`.
abbrev IsNormalFlag : Option Bool → Type 0
IsNormalFlag o = (o ≡ none) ⊎ (o ≡ some true)

normalize_encrypted-IsNormalFlag : (o : Option Bool) → IsNormalFlag (normalize_encrypted o)
unfolding normalize_encrypted
normalize_encrypted-IsNormalFlag none = inl refl
normalize_encrypted-IsNormalFlag (some true) = inr refl
normalize_encrypted-IsNormalFlag (some false) = inl refl

key_allowed :
    (k : String) (o : Option Bool) (e : DiskError)
    → IsNormalFlag o
    → fail_if (not (str_eq k "") && is_nil o) e ≡ ok tt
    → IsAllowedKey k o
key_allowed k none e f h = inl (ground (arith, str_eq_iff k ""))
key_allowed k (some b) e (inl x) h = cc
key_allowed k (some b) e (inr x) h = inr x

check_system_disk-IsNormal :
    (d d' : NormalizedSystemDisk)
    → IsNormalFlag d.encrypted
    → check_system_disk d ≡ ok d'
    → IsNormalSystemDisk d'
unfolding check_system_disk
check_system_disk-IsNormal d d' f h =
    let (sized, h₁) = >>-eq-ok _ _ h in
    let (level, levelled, h₂) = >>=-eq-ok _ _ h₁ in
    let (keyed, h₃) = >>-eq-ok _ _ h₂ in
    subst IsNormalSystemDisk (ok_injective h₃) (
      validate_disk_category_and_size-IsAllowedSize _ d.category d.size sized,
      normalize_disk_performance-IsAllowedLevel _ d.category d.performance_level level levelled,
      key_allowed d.kms_key_id d.encrypted _ f keyed,
    )

check_data_disk-IsNormal :
    (i : ℕ) (d d' : NormalizedDataDisk)
    → IsNormalFlag d.encrypted
    → check_data_disk i d ≡ ok d'
    → IsNormalDataDisk d'
unfolding check_data_disk
check_data_disk-IsNormal i d d' f h =
    let (sized, h₁) = >>-eq-ok _ _ h in
    let (level, levelled, h₂) = >>=-eq-ok _ _ h₁ in
    let (keyed, h₃) = >>-eq-ok _ _ h₂ in
    subst IsNormalDataDisk (ok_injective h₃) (
      validate_disk_category_and_size-IsAllowedSize _ d.category d.size sized,
      normalize_disk_performance-IsAllowedLevel _ d.category d.performance_level level levelled,
      key_allowed d.kms_key_id d.encrypted _ f keyed,
    )

system_disk_of-IsNormalFlag :
    (disk : Option SystemDiskSpec) → IsNormalFlag (system_disk_of disk).encrypted
unfolding system_disk_of
system_disk_of-IsNormalFlag none = inl refl
system_disk_of-IsNormalFlag (some disk) = normalize_encrypted-IsNormalFlag disk.encrypted

data_disk_of-IsNormalFlag : (disk : DataDiskSpec) → IsNormalFlag (data_disk_of disk).encrypted
unfolding data_disk_of
data_disk_of-IsNormalFlag disk = normalize_encrypted-IsNormalFlag disk.encrypted

normalize_data_disks-IsNormal :
    (i : ℕ) (disks : List DataDiskSpec) (ds : List NormalizedDataDisk)
    → normalize_data_disks i disks ≡ ok ds
    → All IsNormalDataDisk ds × (length ds ≡ length disks)
unfolding normalize_data_disks
normalize_data_disks-IsNormal i [] ds h =
    let none_left : All IsNormalDataDisk [] × (length {A = NormalizedDataDisk} [] ≡ 0) =
      (tt, refl) in
    subst (λ ds. All IsNormalDataDisk ds × (length ds ≡ 0)) (ok_injective h) none_left
normalize_data_disks-IsNormal i (disk ∷ disks) ds h =
    let (first, checked, h₁) = >>=-eq-ok _ _ h in
    let (rest, more, h₂) = >>=-eq-ok _ _ h₁ in
    let (normal, counted) = normalize_data_disks-IsNormal (i + 1) disks rest more in
    let first_normal =
      check_data_disk-IsNormal i (data_disk_of disk) first (data_disk_of-IsNormalFlag disk)
        checked in
    let all : All IsNormalDataDisk (first ∷ rest) × (length (first ∷ rest) ≡ suc (length disks)) =
      ((first_normal, normal), ap suc counted) in
    subst (λ ds. All IsNormalDataDisk ds × (length ds ≡ suc (length disks))) (ok_injective h₂) all

normalize_instance_store_policy-allowed :
    (o o' : Option String)
    → normalize_instance_store_policy o ≡ ok o'
    → (o' ≡ none) ⊎ (o' ≡ some instance_store_policy_raid0)
unfolding normalize_instance_store_policy
normalize_instance_store_policy-allowed none o' h = inl (ground arith)
normalize_instance_store_policy-allowed (some p) o' h =
    inr (ground (arith, str_eq_iff p instance_store_policy_raid0))

-- The disks of a launch request after normalisation.
pub record IsNormal (spec : EcsNodeClassSpec) (disks : NormalizedDisks) : Type 0 where
  pub system_normal : IsNormalSystemDisk disks.system_disk
  pub data_normal : All IsNormalDataDisk disks.data_disks
  pub data_complete : length disks.data_disks ≡ length spec.data_disks
  pub policy_allowed :
      (disks.instance_store_policy ≡ none)
      ⊎ (disks.instance_store_policy ≡ some instance_store_policy_raid0)

-- When the disks are accepted, every disk of the request has a category on sale and a size in the
-- category's range, a performance level of PL0 to PL3 exactly if it is cloud_essd, and a KMS key
-- only if it is encrypted; no data disk is lost; and the instance store policy is nil or RAID0.
pub normalize_disks-IsNormal :
    (spec : EcsNodeClassSpec) (disks : NormalizedDisks)
    → normalize_disks spec ≡ ok disks
    → IsNormal spec disks
unfolding normalize_disks
normalize_disks-IsNormal spec disks h =
    let (policy, allowed, h₁) = >>=-eq-ok _ _ h in
    let (system_disk, checked, h₂) = >>=-eq-ok _ _ h₁ in
    let (data_disks, more, h₃) = >>=-eq-ok _ _ h₂ in
    let (normal, counted) = normalize_data_disks-IsNormal 0 spec.data_disks data_disks more in
    subst (IsNormal spec) (ok_injective h₃) (record {
      system_normal =
          check_system_disk-IsNormal (system_disk_of spec.system_disk) system_disk
            (system_disk_of-IsNormalFlag spec.system_disk) checked;
      data_normal = normal;
      data_complete = counted;
      policy_allowed =
          normalize_instance_store_policy-allowed spec.instance_store_policy policy allowed;
    })
