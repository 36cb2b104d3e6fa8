-- ===== src/NodeClass/Disks.antt =====
-- pkg/apis/v1alpha1/disks_normalize.go. Each message of `fmt.Errorf` is a constructor of `DiskError`
-- with the values that it is given; `path` is the first of them, as in the source.
pub mod Normal
use karpenter_provider_aliba.Prelude.{
  Bool, List, Option, Outcome, String, [], err, fail_if, false, if◌then◌else◌, lookup, ltb_ℤ, none,
  not, ok, pos, some, str_eq, true, ℕ, ℤ, ◌&&◌, ◌+◌, ◌>>=◌, ◌>>◌, ◌||◌, ◌∷◌,
}
use karpenter_provider_aliba.NodeClass.{DataDiskSpec, EcsNodeClassSpec, SystemDiskSpec}

abbrev pub default_system_disk_category : String
default_system_disk_category = "cloud_essd"

abbrev pub default_system_disk_size : ℤ
default_system_disk_size = pos 40

abbrev pub default_essd_performance_level : String
default_essd_performance_level = "PL0"

abbrev pub instance_store_policy_raid0 : String
instance_store_policy_raid0 = "RAID0"

-- "systemDisk" or "dataDisks[i]"
pub data DiskPath : Type 0 where
  system_disk_path : DiskPath
  data_disk_path : ℕ → DiskPath

pub data DiskError : Type 0 where
  instance_store_policy_unknown : DiskError
  category_unknown : DiskPath → DiskError
  category_not_supported : DiskPath → String → DiskError
  size_out_of_range : DiskPath → ℤ → ℤ → String → DiskError
  performance_level_not_applicable : DiskPath → DiskError
  performance_level_unknown : DiskPath → DiskError
  kms_key_requires_encryption : DiskPath → DiskError

pub record DiskCategoryConstraint : Type 0 where
  pub min_size : ℤ
  pub max_size : ℤ
  pub available : Bool

abbrev between : ℕ → ℕ → DiskCategoryConstraint
between lo hi = record { min_size = pos lo; max_size = pos hi; available = true }

-- A constraint that sets `available: false` alone leaves the sizes at 0.
abbrev unavailable : DiskCategoryConstraint
unavailable = record { min_size = pos 0; max_size = pos 0; available = false }

unfoldable pub disk_category_constraints : List (String × DiskCategoryConstraint)
disk_category_constraints =
    ("cloud_essd", between 20 32768)
    ∷ ("cloud_essd_entry", between 20 32768)
    ∷ ("cloud_efficiency", between 20 32768)
    ∷ ("cloud_pperf", between 20 32768)
    ∷ ("cloud_sperf", between 20 32768)
    ∷ ("cloud_ssd", between 20 32768)
    ∷ ("cloud_auto", between 40 32768)
    ∷ ("ephemeral_ssd", between 5 800)
    ∷ ("cloud", between 5 2000)
    ∷ ("cloud_essd_xc0", between 40 2048)
    ∷ ("cloud_essd_xc1", unavailable)
    ∷ ("elastic_ephemeral_disk_premium", between 64 8192)
    ∷ ("elastic_ephemeral_disk_standard", between 64 8192)
    ∷ []

pub record NormalizedSystemDisk : Type 0 where
  pub category : String
  pub size : ℤ
  pub performance_level : String
  pub encrypted : Option Bool
  pub kms_key_id : String

pub record NormalizedDataDisk : Type 0 where
  pub category : String
  pub size : ℤ
  pub device : String
  pub performance_level : String
  pub encrypted : Option Bool
  pub kms_key_id : String
  pub snapshot_id : String
  pub delete_with_instance : Option Bool

pub record NormalizedDisks : Type 0 where
  pub system_disk : NormalizedSystemDisk
  pub data_disks : List NormalizedDataDisk
  pub instance_store_policy : Option String

-- The value behind a text pointer, "" for a nil one.
abbrev pub text_or_empty : Option String → String
text_or_empty none = ""
text_or_empty (some s) = s

unfoldable pub normalize_encrypted : Option Bool → Option Bool
normalize_encrypted (some true) = some true
normalize_encrypted _ = none

-- The body of `validateDiskCategoryAndSize` after the lookup.
unfoldable pub check_constraint :
    DiskPath → String → ℤ → Option DiskCategoryConstraint → Outcome DiskError (Unit {0})
check_constraint path category size none = err (category_unknown path)
check_constraint path category size (some c) = do
  fail_if (not c.available) (category_not_supported path category)
  fail_if (ltb_ℤ size c.min_size || ltb_ℤ c.max_size size)
      (size_out_of_range path c.min_size c.max_size category)

unfoldable pub validate_disk_category_and_size :
    DiskPath → String → ℤ → Outcome DiskError (Unit {0})
unfolding check_constraint
validate_disk_category_and_size path category size =
    check_constraint path category size (lookup category disk_category_constraints)

unfoldable pub is_valid_performance_level : String → Bool
is_valid_performance_level level =
    str_eq level "PL0" || str_eq level "PL1" || str_eq level "PL2" || str_eq level "PL3"

-- The new value of `*performanceLevel`, or the error.
unfoldable pub normalize_disk_performance : DiskPath → String → String → Outcome DiskError String
unfolding is_valid_performance_level
normalize_disk_performance path category performance_level =
    if not (str_eq category default_system_disk_category)
    then (if not (str_eq performance_level "")
        then err (performance_level_not_applicable path)
        else ok performance_level)
    else let level =
        if str_eq performance_level "" then default_essd_performance_level else performance_level in
      if not (is_valid_performance_level level)
      then err (performance_level_unknown path)
      else ok level

-- The system disk before the checks: the defaults, overridden by what the spec sets.
unfoldable pub system_disk_of : Option SystemDiskSpec → NormalizedSystemDisk
unfolding normalize_encrypted
system_disk_of none = record {
  category = default_system_disk_category;
  size = default_system_disk_size;
  performance_level = "";
  encrypted = none;
  kms_key_id = "";
}
system_disk_of (some disk) = record {
  category = if not (str_eq disk.category "") then disk.category else default_system_disk_category;
  size = elim disk.size [ none ↦ default_system_disk_size | some n ↦ n ];
  performance_level = text_or_empty disk.performance_level;
  encrypted = normalize_encrypted disk.encrypted;
  kms_key_id = text_or_empty disk.kms_key_id;
}

unfoldable pub kept_false : Option Bool → Option Bool
kept_false (some false) = some false
kept_false _ = none

unfoldable pub data_disk_of : DataDiskSpec → NormalizedDataDisk
unfolding normalize_encrypted kept_false
data_disk_of disk = record {
  category = disk.category;
  size = disk.size;
  device = text_or_empty disk.device;
  performance_level = text_or_empty disk.performance_level;
  encrypted = normalize_encrypted disk.encrypted;
  kms_key_id = text_or_empty disk.kms_key_id;
  snapshot_id = text_or_empty disk.snapshot_id;
  delete_with_instance = kept_false disk.delete_with_instance;
}

abbrev pub is_nil : Option Bool → Bool
is_nil none = true
is_nil (some b) = false

unfoldable pub check_system_disk : NormalizedSystemDisk → Outcome DiskError NormalizedSystemDisk
unfolding validate_disk_category_and_size normalize_disk_performance
check_system_disk disk = do
  validate_disk_category_and_size system_disk_path disk.category disk.size
  level ← normalize_disk_performance system_disk_path disk.category disk.performance_level
  fail_if (not (str_eq disk.kms_key_id "") && is_nil disk.encrypted)
      (kms_key_requires_encryption system_disk_path)
  ok (record disk { performance_level = level })

unfoldable pub check_data_disk : ℕ → NormalizedDataDisk → Outcome DiskError NormalizedDataDisk
unfolding validate_disk_category_and_size normalize_disk_performance
check_data_disk i disk = do
  validate_disk_category_and_size (data_disk_path i) disk.category disk.size
  level ← normalize_disk_performance (data_disk_path i) disk.category disk.performance_level
  fail_if (not (str_eq disk.kms_key_id "") && is_nil disk.encrypted)
      (kms_key_requires_encryption (data_disk_path i))
  ok (record disk { performance_level = level })

-- The loop over the data disks, from index `i`.
unfoldable pub normalize_data_disks :
    ℕ → List DataDiskSpec → Outcome DiskError (List NormalizedDataDisk)
unfolding check_data_disk data_disk_of
normalize_data_disks i [] = ok []
normalize_data_disks i (disk ∷ disks) = do
  first ← check_data_disk i (data_disk_of disk)
  rest ← normalize_data_disks (i + 1) disks
  ok (first ∷ rest)

unfoldable pub normalize_instance_store_policy : Option String → Outcome DiskError (Option String)
normalize_instance_store_policy none = ok none
normalize_instance_store_policy (some policy) =
    if not (str_eq policy instance_store_policy_raid0)
    then err instance_store_policy_unknown
    else ok (some policy)

unfoldable pub normalize_disks : EcsNodeClassSpec → Outcome DiskError NormalizedDisks
unfolding normalize_instance_store_policy check_system_disk system_disk_of normalize_data_disks
normalize_disks spec = do
  policy ← normalize_instance_store_policy spec.instance_store_policy
  system_disk ← check_system_disk (system_disk_of spec.system_disk)
  data_disks ← normalize_data_disks 0 spec.data_disks
  ok (record { system_disk = system_disk; data_disks = data_disks; instance_store_policy = policy })
