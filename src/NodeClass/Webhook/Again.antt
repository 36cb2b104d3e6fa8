-- ===== src/NodeClass/Webhook/Again.antt =====
-- The defaults of the webhook, filled in twice, are those filled in once.
use mathlib.Core.Path.{ap₂}
use karpenter_provider_aliba.Prelude.{
  Bool, Bool-cases, Option, String, ap, if_intro, if◌then◌else◌, inl, inr, none, pos, refl, some,
  str_eq, ℤ, ◌∙◌, ◌≡◌,
}
use karpenter_provider_aliba.NodeClass.{EcsNodeClassSpec, MetadataOptions, SystemDiskSpec}
use karpenter_provider_aliba.NodeClass.Disks.{NormalizedDisks, NormalizedSystemDisk}
use karpenter_provider_aliba.NodeClass.Webhook.{
  default_metadata_options, default_preference, default_system_disk, fill_in, level_if_set,
}

level_again :
    (o : Option String) → elim o as (λ _. Option String) [ none ↦ o | some l ↦ some l ] ≡ o
level_again none = refl
level_again (some l) = refl

option_again :
    {A : Type 0} (o : Option A) (given : Option A)
    → elim (elim o as (λ _. Option A) [ none ↦ given | some x ↦ some x ]) as (λ _. Option A) [
      | none ↦ given
      | some x ↦ some x
    ]
      ≡ elim o as (λ _. Option A) [ none ↦ given | some x ↦ some x ]
option_again none none = refl
option_again none (some g) = refl
option_again (some x) given = refl

abbrev spec_of : String → Option ℤ → Option String → Option Bool → Option String → SystemDiskSpec
spec_of category size level encrypted key = record {
  category = category;
  size = size;
  performance_level = level;
  encrypted = encrypted;
  kms_key_id = key;
}

text_again :
    (s given : String)
    → (let t = if str_eq s "" then given else s in if str_eq t "" then given else t)
      ≡ (if str_eq s "" then given else s)
text_again s given = elim (Bool-cases (str_eq s "")) [
  | inl e ↦ rw e (if_intro (λ t. t ≡ given) (str_eq given "") given given (λ _. refl) (λ _. refl))
  | inr e ↦ rw (e, e) refl
]

default_system_disk_again :
    (n : NormalizedSystemDisk) (disk : Option SystemDiskSpec)
    → default_system_disk n (some (default_system_disk n disk)) ≡ default_system_disk n disk
unfolding default_system_disk
default_system_disk_again n none =
    ap₂ (λ c l. spec_of c (some n.size) l none none)
      (if_intro (λ t. t ≡ n.category) (str_eq n.category "") _ _ (λ _. refl) (λ _. refl))
      (level_again (level_if_set n.performance_level))
default_system_disk_again n (some disk) =
    ap₂ (λ c (x : Option ℤ × Option String). spec_of c x.0 x.1 disk.encrypted disk.kms_key_id)
      (text_again disk.category n.category)
      (ap₂ (λ size level. (size, level)) (option_again disk.size (some n.size))
        (option_again disk.performance_level (level_if_set n.performance_level)))

default_metadata_options_again :
    (o : Option MetadataOptions)
    → default_metadata_options (default_metadata_options o) ≡ default_metadata_options o
unfolding default_metadata_options
default_metadata_options_again none = refl
default_metadata_options_again (some opts) =
    ap₂ (λ t h. some (record opts { http_tokens = t; http_put_response_hop_limit = h }))
      (text_again opts.http_tokens "optional")
      (option_again opts.http_put_response_hop_limit (some (pos 1)))

abbrev rebuilt :
    EcsNodeClassSpec → SystemDiskSpec → Option MetadataOptions → Option String → EcsNodeClassSpec
rebuilt spec disk opts preference = record spec {
  system_disk = some disk;
  metadata_options = opts;
  capacity_reservation_preference = preference;
}

pub fill_in_again :
    (n : NormalizedDisks) (spec : EcsNodeClassSpec) → fill_in n (fill_in n spec) ≡ fill_in n spec
unfolding fill_in
fill_in_again n spec =
    let disk = default_system_disk n.system_disk spec.system_disk in
    let opts = default_metadata_options spec.metadata_options in
    let preference = default_preference spec.capacity_reservation_preference in
    ap (λ d. rebuilt spec d (default_metadata_options opts) (default_preference preference))
      (default_system_disk_again n.system_disk spec.system_disk)
    ∙ (ap (λ o. rebuilt spec disk o (default_preference preference))
          (default_metadata_options_again spec.metadata_options)
        ∙ ap (λ p. rebuilt spec disk opts p)
            (preference_again spec.capacity_reservation_preference))
  where
    preference_again :
        (p : Option String) → default_preference (default_preference p) ≡ default_preference p
    preference_again none = refl
    preference_again (some p) = refl
