-- ===== src/NodeClass/Webhook/Defaulted.antt =====
-- What a successful Default keeps, and what it breaks.
use karpenter_provider_aliba.Prelude.{
  Outcome-cases, String, ap, arith, inl, inr, ok, ok_injective, refl, some, sym, ◌∙◌, ◌≡◌, ◌≢◌,
}
use karpenter_provider_aliba.NodeClass.{EcsNodeClassSpec}
use karpenter_provider_aliba.NodeClass.Disks.{NormalizedDisks, normalize_disks}
use karpenter_provider_aliba.NodeClass.Validation.{validate}
use karpenter_provider_aliba.NodeClass.Validation.Accepted.{validate-IsTemplateAlone}
use karpenter_provider_aliba.NodeClass.Webhook.{default_spec, fill_in}
use karpenter_provider_aliba.NodeClass.Webhook.Again.{fill_in_again}
use karpenter_provider_aliba.NodeClass.Webhook.Kept.{normalize_disks-fill_in}

default_spec-filled :
    (spec spec' : EcsNodeClassSpec)
    → default_spec spec ≡ ok spec'
    → (n : NormalizedDisks) × (normalize_disks spec ≡ ok n) × (fill_in n spec ≡ spec')
unfolding default_spec
default_spec-filled spec spec' h = elim (Outcome-cases (normalize_disks spec)) [
  | inl (n, e) ↦ (n, e, ok_injective (rw (e, default_spec) at h))
  | inr (e, bad) ↦ ground (arith, rw (bad, default_spec) at h)
]

-- When Default succeeds, the specification that it leaves stands for the same disks as before, and
-- a second Default changes nothing.
pub default_spec-kept :
    (spec spec' : EcsNodeClassSpec)
    → default_spec spec ≡ ok spec'
    → (normalize_disks spec' ≡ normalize_disks spec) × (default_spec spec' ≡ ok spec')
unfolding default_spec
default_spec-kept spec spec' h =
    let (n, normal, filled) = default_spec-filled spec spec' h in
    let kept = sym (ap normalize_disks filled) ∙ normalize_disks-fill_in spec n normal in
    (
      kept ∙ sym normal,
      refilled kept ∙ ap ok (ap (fill_in n) (sym filled) ∙ (fill_in_again n spec ∙ filled)),
    )
  where
    refilled :
        {n : NormalizedDisks}
        → normalize_disks spec' ≡ ok n
        → default_spec spec' ≡ ok (fill_in n spec')
    refilled e = rw (e, default_spec) refl

-- No specification with a launch template passes Validate after Default, which gives it the system disk
-- that Validate forbids beside a launch template.
pub default_spec-validate :
    (spec spec' : EcsNodeClassSpec) (id : String)
    → spec.launch_template_id ≡ some id
    → default_spec spec ≡ ok spec'
    → validate spec' ≢ ok tt
unfolding fill_in
default_spec-validate spec spec' id template h accepted =
    let (n, normal, filled) = default_spec-filled spec spec' h in
    let alone =
      validate-IsTemplateAlone spec' id (ap (λ s. s.launch_template_id) (sym filled) ∙ template)
        accepted in
    let set = ap (λ s. s.system_disk) filled ∙ alone.no_system_disk in cc
