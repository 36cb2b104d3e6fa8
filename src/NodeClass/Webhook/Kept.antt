-- ===== src/NodeClass/Webhook/Kept.antt =====
-- The defaults of the webhook keep the disks that a node class stands for.
use mathlib.Core.Path.{subst}
use karpenter_provider_aliba.Prelude.{
  >>-eq-ok, >>=-eq-ok, Bool, Bool-cases, Option, Option-cases, String, ap, arith, fail_if,
  if◌then◌else◌, inl, inr, none, not, ok, ok_injective, refl, some, str_eq, str_eq_iff, sym, ℤ,
  ◌&&◌, ◌∙◌, ◌≡◌, ◌⊎◌,
}
use karpenter_provider_aliba.NodeClass.{EcsNodeClassSpec, SystemDiskSpec}
use karpenter_provider_aliba.NodeClass.Disks.{
  DiskPath, NormalizedDisks, NormalizedSystemDisk, check_system_disk, default_system_disk_category,
  default_system_disk_size, is_nil, is_valid_performance_level, kms_key_requires_encryption,
  normalize_data_disks, normalize_disk_performance, normalize_disks, normalize_encrypted,
  normalize_instance_store_policy, system_disk_of, system_disk_path, text_or_empty,
  validate_disk_category_and_size,
}
use karpenter_provider_aliba.NodeClass.Webhook.{default_system_disk, fill_in, level_if_set}

abbrev with_level : NormalizedSystemDisk → String → NormalizedSystemDisk
with_level d level = record d { performance_level = level }

level_kept : (level : String) → text_or_empty (level_if_set level) ≡ level
level_kept level = elim (Bool-cases (str_eq level "")) [
  | inl e ↦ rw e (sym ((str_eq_iff level "").0 e))
  | inr e ↦ rw e refl
]

abbrev read_category : String → String
read_category category = if not (str_eq category "") then category else default_system_disk_category

-- The category of the normalised disk is read back as itself.
category_kept :
    (category : String)
    → read_category (if str_eq category "" then read_category category else category)
      ≡ read_category category
category_kept category = elim (Bool-cases (str_eq category "")) [
  | inl e ↦ rw e refl
  | inr e ↦ rw (e, e) refl
]

abbrev disk_of : String → ℤ → String → Option Bool → String → NormalizedSystemDisk
disk_of category size level encrypted key = record {
  category = category;
  size = size;
  performance_level = level;
  encrypted = encrypted;
  kms_key_id = key;
}

abbrev read_size : Option ℤ → ℤ
read_size none = default_system_disk_size
read_size (some n) = n

size_kept :
    (size : Option ℤ)
    → read_size (elim size as (λ _. Option ℤ) [ none ↦ some (read_size size) | some n ↦ some n ])
      ≡ read_size size
size_kept none = refl
size_kept (some n) = refl

-- A disk with defaults is read back as the normalised disk, or as the disk was before.
default_system_disk-read :
    (disk : Option SystemDiskSpec) (level : String)
    → (system_disk_of (some (default_system_disk (with_level (system_disk_of disk) level) disk))
        ≡ with_level (system_disk_of disk) level)
      ⊎ (system_disk_of (some (default_system_disk (with_level (system_disk_of disk) level) disk))
          ≡ system_disk_of disk)
unfolding system_disk_of default_system_disk normalize_encrypted
default_system_disk-read none level = inl (
    ap (λ l. disk_of default_system_disk_category default_system_disk_size l none "")
      (level_kept level))
default_system_disk-read (some disk) level = elim (Option-cases disk.performance_level) [
  | inl n ↦ inl (same_disk level (rw n (level_kept level)))
  | inr (l, n) ↦ inr (same_disk (text_or_empty disk.performance_level) (rw n refl))
]
  where
    before : NormalizedSystemDisk
    before = system_disk_of (some disk)

    made : SystemDiskSpec
    made = default_system_disk (with_level before level) (some disk)

    same_disk :
        (l : String)
        → text_or_empty made.performance_level ≡ l
        → system_disk_of (some made) ≡ with_level before l
    same_disk l e =
        ap
          (λ c.
            disk_of c (system_disk_of (some made)).size
              (system_disk_of (some made)).performance_level before.encrypted before.kms_key_id)
          (category_kept disk.category)
        ∙ (ap
              (λ n.
                disk_of before.category n (system_disk_of (some made)).performance_level
                  before.encrypted before.kms_key_id)
              (size_kept disk.size)
            ∙ ap (λ p. disk_of before.category before.size p before.encrypted before.kms_key_id) e)

normalize_disk_performance_again :
    (path : DiskPath) (category level level' : String)
    → normalize_disk_performance path category level ≡ ok level'
    → normalize_disk_performance path category level' ≡ ok level'
unfolding normalize_disk_performance is_valid_performance_level
normalize_disk_performance_again path category level level' h = ground (arith, h)

check_system_disk-parts :
    (d d' : NormalizedSystemDisk)
    → check_system_disk d ≡ ok d'
    → (level : String) × (validate_disk_category_and_size system_disk_path d.category d.size
        ≡ ok tt)
      × (normalize_disk_performance system_disk_path d.category d.performance_level ≡ ok level)
      × (fail_if
            (not (str_eq d.kms_key_id "") && is_nil d.encrypted)
            (kms_key_requires_encryption system_disk_path)
          ≡ ok tt)
      × (with_level d level ≡ d')
unfolding check_system_disk
check_system_disk-parts d d' h =
    let (sized, h₁) = >>-eq-ok _ _ h in
    let (level, levelled, h₂) = >>=-eq-ok _ _ h₁ in
    let (keyed, h₃) = >>-eq-ok _ _ h₂ in (level, sized, levelled, keyed, ok_injective h₃)

-- The normalised system disk passes the checks as it is.
check_system_disk-level :
    (d d' : NormalizedSystemDisk)
    → check_system_disk d ≡ ok d'
    → (level : String) × (d' ≡ with_level d level) × (check_system_disk d' ≡ ok d')
unfolding check_system_disk
check_system_disk-level d d' h =
    let (level, sized, levelled, keyed, made) = check_system_disk-parts d d' h in
    let again =
      normalize_disk_performance_again system_disk_path d.category d.performance_level level
        levelled in
    let checked : check_system_disk (with_level d level) ≡ ok (with_level d level) =
      rw (check_system_disk, sized, again, keyed) refl in
    (level, sym made, subst (λ e. check_system_disk e ≡ ok e) made checked)

system_disk-defaulted :
    (disk : Option SystemDiskSpec) (d' : NormalizedSystemDisk)
    → check_system_disk (system_disk_of disk) ≡ ok d'
    → check_system_disk (system_disk_of (some (default_system_disk d' disk))) ≡ ok d'
system_disk-defaulted disk d' h =
    let (level, made, again) = check_system_disk-level (system_disk_of disk) d' h in
    let given = ap (λ d. system_disk_of (some (default_system_disk d disk))) made in
    elim (default_system_disk-read disk level) [
      | inl normal ↦ ap check_system_disk (given ∙ (normal ∙ sym made)) ∙ again
      | inr before ↦ ap check_system_disk (given ∙ before) ∙ h
    ]

normalize_disks-parts :
    (spec : EcsNodeClassSpec) (n : NormalizedDisks)
    → normalize_disks spec ≡ ok n
    → (normalize_instance_store_policy spec.instance_store_policy ≡ ok n.instance_store_policy)
      × (check_system_disk (system_disk_of spec.system_disk) ≡ ok n.system_disk)
      × (normalize_data_disks 0 spec.data_disks ≡ ok n.data_disks)
unfolding normalize_disks
normalize_disks-parts spec n h =
    let (policy, allowed, h₁) = >>=-eq-ok _ _ h in
    let (system, checked, h₂) = >>=-eq-ok _ _ h₁ in
    let (data_disks, listed, h₃) = >>=-eq-ok _ _ h₂ in
    let made = ok_injective h₃ in
    (
      allowed ∙ ap (λ d. ok d.instance_store_policy) made,
      checked ∙ ap (λ d. ok d.system_disk) made,
      listed ∙ ap (λ d. ok d.data_disks) made,
    )

-- The defaults do not change the disks that a node class stands for.
pub normalize_disks-fill_in :
    (spec : EcsNodeClassSpec) (n : NormalizedDisks)
    → normalize_disks spec ≡ ok n
    → normalize_disks (fill_in n spec) ≡ ok n
unfolding normalize_disks fill_in
normalize_disks-fill_in spec n h =
    let (allowed, checked, listed) = normalize_disks-parts spec n h in
    rw
      (
        allowed,
        normalize_disks,
        system_disk-defaulted spec.system_disk n.system_disk checked,
        listed,
      )
      refl
