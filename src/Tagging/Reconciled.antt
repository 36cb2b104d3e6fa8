-- ===== src/Tagging/Reconciled.antt =====
-- What a reconcile of the tagging controller leaves on the instance.
use mathlib.Core.Path.{subst}
use karpenter_provider_aliba.Prelude.{
  Bool-cases, Distinct, List, Option-cases, Outcome, Outcome-cases, String, [], ap, arith, err, inl,
  inr, keys, lookup, none, ok, ok_injective, or_else, refl, some, sym, true, ℕ, ◌∙◌, ◌∷◌, ◌≡◌, ◌⊎◌,
}
use karpenter_provider_aliba.Instance.Api.{ApiInstance, Instance, convert_tags, instance_of}
use karpenter_provider_aliba.Instance.Cache.{Cache}
use karpenter_provider_aliba.Instance.Calls.{
  DescribeError, Ecs, InstanceError, Provider, describe_instances, get, get_described, is_complete,
  tag_instance, take_described,
}
use karpenter_provider_aliba.Instance.Calls.Tagged.{
  Refuses, TagEffects, tag_instance-refused, tag_instance-sets,
}
use karpenter_provider_aliba.Launch.Tags.{build_instance_tags}
use karpenter_provider_aliba.Launch.Tags.Unique.{build_instance_tags-Distinct}
use karpenter_provider_aliba.NodeClaim.{NodeClaim}
use karpenter_provider_aliba.NodeClass.{EcsNodeClassSpec}
use karpenter_provider_aliba.Tagging.{
  TaggingError, apply_diff, apply_missing, tag_claim, tags_to_apply,
}
use karpenter_provider_aliba.Tagging.Diff.{tags_to_apply-Distinct, tags_to_apply_complete}
use karpenter_provider_aliba.Utils.Tags.{Tags}

-- What the controller relies on beside the effects of tagging: ECS describes an instance with its tags.
pub record TagReports {W : Type 0} (ecs : Ecs W) (tags_of : String → W → Tags) : Type 0 where
  pub reports :
      (id k : String) (w : W) (x : ApiInstance) (xs : List ApiInstance)
      → (ecs.describe (id ∷ []) w).0 ≡ ok (x ∷ xs)
      → lookup k (convert_tags x.tags) ≡ lookup k (tags_of id (ecs.describe (id ∷ []) w).1)

-- The description behind a successful read.
fetched :
    (ttl now : ℕ) (id : String) (response : Outcome DescribeError (List ApiInstance))
    (cache : Cache) {inst : Instance}
    → (take_described ttl now id response cache).0 ≡ ok inst
    → (x : ApiInstance) × (xs : List ApiInstance) × (response ≡ ok (x ∷ xs))
      × (instance_of x ≡ inst)
unfolding take_described
fetched ttl now id (err e) cache h = ground arith
fetched ttl now id (ok []) cache h = ground arith
fetched ttl now id (ok (x ∷ xs)) cache h = elim (Bool-cases (is_complete x)) [
  | inl c ↦ (x, xs, refl, ok_injective (rw c at h))
  | inr c ↦ ground (arith, rw c at h)
]

module _ {W : Type 0} (ecs : Ecs W) (tags_of : String → W → Tags) (effects : TagEffects ecs tags_of)
    (reported : TagReports ecs tags_of) where
  described_tags :
      (id k : String) (w : W) (x : ApiInstance) (xs : List ApiInstance)
      → (describe_instances ecs (id ∷ []) w).0 ≡ ok (x ∷ xs)
      → lookup k (convert_tags x.tags)
        ≡ lookup k (tags_of id (describe_instances ecs (id ∷ []) w).1)
  unfolding describe_instances
  described_tags id k w x xs h = elim (Outcome-cases (ecs.describe (id ∷ []) w).0) [
    | inl (found, e) ↦
        rw (e, describe_instances)
          (reported.reports id k w x xs
            (e ∙ ap ok (ok_injective (rw (e, describe_instances) at h))))
    | inr (m, e) ↦ ground (arith, rw (e, describe_instances) at h)
  ]

  apply_missing-tagged :
      (id : String) (missing : Tags) (p : Provider W)
      → Distinct (keys missing)
      → (apply_missing ecs id missing p).0 ≡ none
      → (k : String)
      → lookup k (tags_of id (apply_missing ecs id missing p).1.cloud)
        ≡ or_else (lookup k missing) (lookup k (tags_of id p.cloud))
  unfolding apply_missing lookup
  apply_missing-tagged id [] p d h k = refl
  apply_missing-tagged id (t ∷ missing) p d h k =
      elim (Option-cases (tag_instance ecs id (t ∷ missing) p.cloud).0) [
        | inl taken ↦ tag_instance-sets ecs tags_of effects id (t ∷ missing) p.cloud d taken k
        | inr (m, unset) ↦ ground (arith, rw unset at h)
      ]

  -- The instance has every desired tag after the diff is applied.
  apply_diff-tagged :
      (id : String) (desired : Tags) (inst : Instance) (p : Provider W)
      → Distinct (keys desired)
      → ((k : String) → lookup k inst.tags ≡ lookup k (tags_of id p.cloud))
      → (apply_diff ecs id desired (ok inst) p).0 ≡ none
      → (k : String)
      → lookup k (tags_of id (apply_diff ecs id desired (ok inst) p).1.cloud)
        ≡ or_else (lookup k desired) (lookup k (tags_of id p.cloud))
  unfolding apply_diff
  apply_diff-tagged id desired inst p d current h k =
      apply_missing-tagged id (tags_to_apply inst.tags desired) p
        (tags_to_apply-Distinct inst.tags desired d) h k
      ∙ subst
          (λ o.
            or_else (lookup k (tags_to_apply inst.tags desired)) o ≡ or_else (lookup k desired) o)
          (current k) (tags_to_apply_complete inst.tags desired k d).0

  -- If tagging an instance succeeds, the instance has every tag that a launch would give it, with the same
  -- value, and its other tags as ECS described them.
  pub tag_claim-tagged :
      (ttl now : ℕ) (claim : NodeClaim) (spec : EcsNodeClassSpec) (id : String) (p : Provider W)
      → (tag_claim ecs ttl now claim spec id p).0 ≡ none
      → (k : String)
      → lookup k (tags_of id (tag_claim ecs ttl now claim spec id p).1.cloud)
        ≡ or_else
            (lookup k (build_instance_tags claim.meta spec))
            (lookup k (tags_of id (get ecs ttl now id true p).1.cloud))
  unfolding tag_claim get get_described instance_of apply_diff
  tag_claim-tagged ttl now claim spec id p h k =
      elim (Outcome-cases (get ecs ttl now id true p).0) [
        | inr (e, unread) ↦ ground (arith, rw unread at h)
        | inl (inst, read) ↦
            let (x, xs, described, same) =
              fetched ttl now id (describe_instances ecs (id ∷ []) p.cloud).0 p.cache read in
            let current : (j : String)
                → lookup j inst.tags ≡ lookup j (tags_of id (get ecs ttl now id true p).1.cloud) =
              λ j.
                ap (λ i. lookup j i.tags) (sym same) ∙ described_tags id j p.cloud x xs described in
            rw read (
              apply_diff-tagged id (build_instance_tags claim.meta spec) inst
                (get ecs ttl now id true p).1 (build_instance_tags-Distinct claim.meta spec) current
                (rw read at h) k)
      ]

module _ {W : Type 0} (ecs : Ecs W) where
  -- Why tagging fails: the instance could not be read, or ECS refused a request.
  pub tag_claim-failed :
      (ttl now : ℕ) (claim : NodeClaim) (spec : EcsNodeClassSpec) (id : String) (p : Provider W)
      {e : TaggingError}
      → (tag_claim ecs ttl now claim spec id p).0 ≡ some e
      → ((d : InstanceError) × ((get ecs ttl now id true p).0 ≡ err d)) ⊎ Refuses ecs id
  unfolding tag_claim apply_diff apply_missing
  tag_claim-failed ttl now claim spec id p h = elim (Outcome-cases (get ecs ttl now id true p).0) [
    | inr (d, unread) ↦ inl (d, unread)
    | inl (inst, read) ↦ inr (
        denied (tags_to_apply inst.tags (build_instance_tags claim.meta spec))
          (get ecs ttl now id true p).1 (rw read at h))
  ]
    where
      denied :
          {e : TaggingError} (missing : Tags) (p : Provider W)
          → (apply_missing ecs id missing p).0 ≡ some e
          → Refuses ecs id
      denied [] p h = ground arith
      denied (t ∷ missing) p h = elim (Option-cases (tag_instance ecs id (t ∷ missing) p.cloud).0) [
        | inl taken ↦ ground (arith, rw taken at h)
        | inr (m, unset) ↦ tag_instance-refused ecs id (t ∷ missing) p.cloud unset
      ]
