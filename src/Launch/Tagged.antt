-- ===== src/Launch/Tagged.antt =====
-- A launch through the loops of createInstanceWithRetry, with Create of the instance provider.
use mathlib.Core.Path.{subst}
use karpenter_provider_aliba.Prelude.{
  Bool, Distinct, List, Option, Outcome, Outcome-cases, String, [], ap, arith, err, false, if_intro,
  if◌then◌else◌, inl, inr, is_empty, keys, length, lookup, none, ok, ok_injective, refl, some, sym,
  true, ℕ, ◌||◌, ◌∙◌, ◌∷◌, ◌≡◌,
}
use karpenter_provider_aliba.Errors.{is_insufficient_capacity_error, wrap_error}
use karpenter_provider_aliba.Instance.{CreateOptions}
use karpenter_provider_aliba.Instance.Calls.{Ecs}
use karpenter_provider_aliba.Instance.Calls.Tagged.{TagLaws}
use karpenter_provider_aliba.Instance.Create.{Launching, create}
use karpenter_provider_aliba.Instance.Create.Complete.{LaunchLaws, create-tagged}
use karpenter_provider_aliba.Instance.Requests.{Encoding}
use karpenter_provider_aliba.Launch.Fallback.{
  LaunchError, LaunchRequest, TypeName, create_instance_with_retry, failed_to_create,
  launch_failure, more_addresses, options_for, plan_launch, refused, try_instance_types,
  try_vswitches, vswitch_fallback_create,
}
use karpenter_provider_aliba.Launch.Options.{
  LaunchPlan, Refused, base_options, missing_parameters, validate_ram_role_for_create, with_vswitch,
}
use karpenter_provider_aliba.Launch.Tags.{ClaimMeta, build_instance_tags}
use karpenter_provider_aliba.Launch.Tags.Unique.{build_instance_tags-Distinct}
use karpenter_provider_aliba.NodeClass.{Image, VSwitch}
use karpenter_provider_aliba.NodeClass.Disks.{normalize_disks}
use karpenter_provider_aliba.Utils.Tags.{Tags}

-- What a successful search for an instance left.
Succeeded : {E W : Type 0} → (String → W → Type 0) → Outcome E String × W → Type 0
Succeeded P (ok id, w) = P id w
Succeeded P (err e, w) = Unit

options-tags :
    (plan : LaunchPlan) (first : Image) (images : List Image) (it : TypeName)
    → (options_for plan first images it).tags ≡ plan.tags
unfolding options_for base_options
options-tags plan first images it = refl

plan_launch-tags :
    (r : LaunchRequest) (plan : LaunchPlan)
    → plan_launch r.node_class r.requirements r.security_groups r.user_data r.tags r.dual_stack
      ≡ ok plan
    → plan.tags ≡ r.tags
unfolding plan_launch
plan_launch-tags r plan h = elim (Outcome-cases (validate_ram_role_for_create r.node_class)) [
  | inr (e, refused_role) ↦ ground (arith, rw (refused_role, plan_launch) at h)
  | inl (role, valid) ↦ elim (Outcome-cases (normalize_disks r.node_class.spec)) [
    | inr (e, bad) ↦ ground (arith, rw (valid, bad, plan_launch) at h)
    | inl (disks, normal) ↦
        let made = rw (valid, normal, plan_launch) at h in
        ap (λ (p : LaunchPlan). p.tags) (sym (ok_injective made))
  ]
]

module _ {W : Type 0} (create : CreateOptions → W → Outcome String String × W) (tags : Tags)
    (P : String → W → Type 0)
    (created : (o : CreateOptions) (w : W) → o.tags ≡ tags → Succeeded P (create o w)) where
  try_vswitches-Succeeded :
      (base : CreateOptions) (last : Option String) (vsws : List VSwitch) (w : W)
      → base.tags ≡ tags
      → Succeeded P (try_vswitches create base last vsws w)
  unfolding try_vswitches Succeeded
  try_vswitches-Succeeded base last [] w t = tt
  try_vswitches-Succeeded base last (vsw ∷ vsws) w t =
      answered (create (with_vswitch base vsw.id) w) (created (with_vswitch base vsw.id) w t)
        λ e w'. try_vswitches-Succeeded base (some e) vsws w' t
    where
      answered :
          (r : Outcome String String × W)
          → Succeeded {E = String} P r
          → ((e : String) (w' : W) → Succeeded P (try_vswitches create base (some e) vsws w'))
          → Succeeded {E = String} P (elim r.0 [
            | ok id ↦ (ok id, r.1)
            | err e ↦ elim (is_insufficient_capacity_error (some e)) [
              | true ↦ try_vswitches create base (some e) vsws r.1
              | false ↦ (err (wrap_error failed_to_create e), r.1)
            ]
          ])
      answered (ok id, w') here rest = here
      answered (err e, w') here rest =
          elim (is_insufficient_capacity_error (some e))
            as (λ b. Succeeded {E = String} P (elim b [
              | true ↦ try_vswitches create base (some e) vsws w'
              | false ↦ (err (wrap_error failed_to_create e), w')
            ])) [ true ↦ rest e w' | false ↦ tt ]

  module _ (sort_slice : (VSwitch → VSwitch → Bool) → List VSwitch → List VSwitch) where
    try_instance_types-Succeeded :
        (base : TypeName → CreateOptions) (n : ℕ) (last : Option String) (vsws : List VSwitch)
        (its : List TypeName) (w : W)
        → ((it : TypeName) → (base it).tags ≡ tags)
        → Succeeded P (try_instance_types create sort_slice base n last vsws its w)
    unfolding try_instance_types vswitch_fallback_create Succeeded
    try_instance_types-Succeeded base n last vsws [] w t = tt
    try_instance_types-Succeeded base n last vsws (it ∷ its) w t =
        answered (vswitch_fallback_create create sort_slice (base it) vsws w)
          (try_vswitches-Succeeded (base it) none (sort_slice more_addresses vsws) w (t it))
          λ e w'. try_instance_types-Succeeded base n (some e) vsws its w' t
      where
        answered :
            (r : Outcome String String × W)
            → Succeeded {E = String} P r
            → ((e : String) (w' : W)
                → Succeeded P (try_instance_types create sort_slice base n (some e) vsws its w'))
            → Succeeded {E = String} P (elim r.0 [
              | ok id ↦ (ok id, r.1)
              | err e ↦ elim (is_insufficient_capacity_error (some e)) [
                | true ↦ try_instance_types create sort_slice base n (some e) vsws its r.1
                | false ↦ (err (wrap_error failed_to_create e), r.1)
              ]
            ])
        answered (ok id, w') here rest = here
        answered (err e, w') here rest =
            elim (is_insufficient_capacity_error (some e))
              as (λ b. Succeeded {E = String} P (elim b [
                | true ↦ try_instance_types create sort_slice base n (some e) vsws its w'
                | false ↦ (err (wrap_error failed_to_create e), w')
              ])) [ true ↦ rest e w' | false ↦ tt ]

    create_instance_with_retry-Succeeded :
        (r : LaunchRequest) (w : W)
        → r.tags ≡ tags
        → Succeeded P (create_instance_with_retry create sort_slice r w)
    unfolding create_instance_with_retry Succeeded
    create_instance_with_retry-Succeeded r w t = from_images r.images
      where
        searched : LaunchPlan → Image → List Image → Outcome String String × W
        searched plan first images =
            try_instance_types create sort_slice (options_for plan first images)
              (length r.instance_types) none r.vswitches r.instance_types w

        launched :
            (s : Outcome String String × W)
            → Succeeded {E = String} P s
            → Succeeded {E = LaunchError} P (launch_failure s)
        launched (ok id, w') h = h
        launched (err e, w') h = tt

        planned :
            (first : Image) (images : List Image) (o : Outcome Refused LaunchPlan)
            → ((plan : LaunchPlan) → o ≡ ok plan → plan.tags ≡ tags)
            → Succeeded {E = LaunchError} P (elim o [
              | err e ↦ (err (refused e), w)
              | ok plan ↦ launch_failure (searched plan first images)
            ])
        planned first images (err e) h = tt
        planned first images (ok plan) h = launched (searched plan first images) (
            try_instance_types-Succeeded (options_for plan first images) (length r.instance_types)
              none r.vswitches r.instance_types w
              λ it. options-tags plan first images it ∙ h plan refl)

        from_images :
            (images : List Image)
            → Succeeded {E = LaunchError} P (elim images [
              | [] ↦ (err (refused missing_parameters), w)
              | first ∷ more ↦
                  if is_empty r.instance_types || is_empty r.vswitches || is_empty r.security_groups
                  then (err (refused missing_parameters), w)
                  else elim (plan_launch r.node_class r.requirements r.security_groups r.user_data
                      r.tags r.dual_stack) [
                        | err e ↦ (err (refused e), w)
                        | ok plan ↦ launch_failure (searched plan first more)
                      ]
            ])
        from_images [] = tt
        from_images (first ∷ more) =
            if_intro (Succeeded {E = LaunchError} P)
              (is_empty r.instance_types || is_empty r.vswitches || is_empty r.security_groups) _ _
              (λ h. tt) λ h. planned first more _ λ plan e. plan_launch-tags r plan e ∙ t

Succeeded-ok :
    {E W : Type 0} (P : String → W → Type 0) (r : Outcome E String × W) (id : String)
    → Succeeded P r
    → r.0 ≡ ok id
    → P id r.1
unfolding Succeeded
Succeeded-ok P (ok x, w) id s h = subst (λ i. P i w) (ok_injective h) s
Succeeded-ok P (err e, w) id s h = cc

created-Succeeded :
    {E W : Type 0} (P : String → W → Type 0) (r : Outcome E String × W)
    → ((id : String) → r.0 ≡ ok id → P id r.1)
    → Succeeded P r
unfolding Succeeded
created-Succeeded P (ok x, w) f = f x refl
created-Succeeded P (err e, w) f = tt

-- If RunInstances gives a new instance the tags of its request and TagResources takes requests of 1 to
-- 20 tags: an instance that createInstanceWithRetry returns has, after however many attempts, exactly
-- the tags that BuildInstanceTags made for the NodeClaim and its node class, whatever their number.
pub create_instance_with_retry-tagged :
    {W : Type 0} (ecs : Ecs W) (launching : Launching W) (e : Encoding)
    (tags_of : String → W → Tags)
    (sort_slice : (VSwitch → VSwitch → Bool) → List VSwitch → List VSwitch)
    → TagLaws ecs tags_of
    → LaunchLaws launching tags_of
    → (claim : ClaimMeta) (r : LaunchRequest) (w : W) (id : String)
    → r.tags ≡ build_instance_tags claim r.node_class.spec
    → (create_instance_with_retry (create ecs launching e) sort_slice r w).0 ≡ ok id
    → (k : String)
    → lookup k (tags_of id (create_instance_with_retry (create ecs launching e) sort_slice r w).1)
      ≡ lookup k (build_instance_tags claim r.node_class.spec)
create_instance_with_retry-tagged {W} ecs launching e tags_of sort_slice tag_laws laws claim r w id
      t h =
    Succeeded-ok HasTags (create_instance_with_retry (create ecs launching e) sort_slice r w) id
      (create_instance_with_retry-Succeeded (create ecs launching e)
        (build_instance_tags claim r.node_class.spec) HasTags created sort_slice r w t)
      h
  where
    HasTags : String → W → Type 0
    HasTags i v =
        (k : String)
        → lookup k (tags_of i v) ≡ lookup k (build_instance_tags claim r.node_class.spec)

    created :
        (o : CreateOptions) (v : W)
        → o.tags ≡ build_instance_tags claim r.node_class.spec
        → Succeeded HasTags (create ecs launching e o v)
    created o v same = created-Succeeded HasTags (create ecs launching e o v) λ i made k.
        (create-tagged ecs launching e tags_of tag_laws laws o v i
            (subst (λ (t : Tags). Distinct (keys t)) (sym same)
              (build_instance_tags-Distinct claim r.node_class.spec))
            made).1
          k
        ∙ ap (lookup k) same
