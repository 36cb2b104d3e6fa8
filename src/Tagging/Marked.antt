-- ===== src/Tagging/Marked.antt =====
-- A whole reconcile of the tagging controller, with the mark that it sets on a NodeClaim.
use karpenter_provider_aliba.Prelude.{
  Bool, Bool-cases, Option-cases, Outcome-cases, String, ap, arith, err, false, inl, inr, lookup,
  lookup-insert, not, ok, or_else, refl, some, str_eq, sym, true, ℕ, ◌||◌, ◌∙◌, ◌≡◌, ◌⊎◌,
}
use karpenter_provider_aliba.Instance.Calls.{Ecs, InstanceError, Provider, get}
use karpenter_provider_aliba.Instance.Calls.Tagged.{Refuses, TagEffects}
use karpenter_provider_aliba.Launch.Tags.{build_instance_tags}
use karpenter_provider_aliba.NodeClaim.{NodeClaim, kube_failed, kube_not_found}
use karpenter_provider_aliba.NodeClass.{EcsNodeClassSpec}
use karpenter_provider_aliba.NodeClass.Labels.{annotation_instance_tagged}
use karpenter_provider_aliba.ProviderId.{get_instance_id_from_provider_id}
use karpenter_provider_aliba.Tagging.{
  Kube, TaggingError, finish_tagging, is_taggable, mark_tagged, reconcile_claim, reconcile_tags,
  tag_claim,
}
use karpenter_provider_aliba.Tagging.Reconciled.{TagReports, tag_claim-failed, tag_claim-tagged}
use karpenter_provider_aliba.Utils.Tags.{Tags}

-- A taggable NodeClaim passes the other two guards of `Reconcile`.
taggable_guards :
    (claim : NodeClaim)
    → is_taggable claim ≡ true
    → (not (is_taggable claim) || str_eq claim.provider_id "" || claim.deleting) ≡ false
unfolding is_taggable
taggable_guards claim h = ground (arith, h)

-- What the controller relies on in the deep comparison: equal NodeClaims have equal annotations.
abbrev pub ComparesAnnotations : (NodeClaim → NodeClaim → Bool) → Type 0
ComparesAnnotations deep_equal =
    (a b : NodeClaim)
    → deep_equal a b ≡ true
    → (key : String) → lookup key a.annotations ≡ lookup key b.annotations

-- The mark changes a NodeClaim that is to be tagged.
mark_tagged-differs :
    (deep_equal : NodeClaim → NodeClaim → Bool)
    → ComparesAnnotations deep_equal
    → (claim : NodeClaim) → is_taggable claim ≡ true
    → deep_equal (mark_tagged claim) claim ≡ false
unfolding mark_tagged is_taggable
mark_tagged-differs deep_equal compares claim h =
    elim (Bool-cases (deep_equal (mark_tagged claim) claim)) [
      | inr differs ↦ differs
      | inl same ↦
          let marked : lookup annotation_instance_tagged claim.annotations ≡ some "true" =
            sym (compares (mark_tagged claim) claim same annotation_instance_tagged)
            ∙ lookup-insert annotation_instance_tagged annotation_instance_tagged "true"
                claim.annotations in
          ground (arith, rw (marked, is_taggable) at h)
    ]

module _ {W K : Type 0} (ecs : Ecs W) (kube : Kube K)
    (deep_equal : NodeClaim → NodeClaim → Bool) where
  finish_tagging-patch :
      (claim : NodeClaim) (k : K)
      → deep_equal (mark_tagged claim) claim ≡ false
      → (finish_tagging ecs kube deep_equal claim k).1 ≡ (kube.patch (mark_tagged claim) k).1
  unfolding finish_tagging
  finish_tagging-patch claim k h = elim (Outcome-cases (kube.patch (mark_tagged claim) k).0) [
    | inl (u, e) ↦ rw (h, finish_tagging, e) refl
    | inr (kube_not_found, e) ↦ rw (h, finish_tagging, e) refl
    | inr (kube_failed m, e) ↦ rw (h, finish_tagging, e) refl
  ]

  reconcile_claim-taggable :
      (ttl now : ℕ) (p : Provider W) (k : K) (claim : NodeClaim) (spec : EcsNodeClassSpec)
      → kube.get_node_claim k ≡ ok claim
      → is_taggable claim ≡ true
      → kube.get_node_class claim.node_class_name k ≡ ok spec
      → reconcile_claim ecs kube deep_equal ttl now (p, k)
        ≡ reconcile_tags ecs kube deep_equal ttl now claim spec (p, k)
  unfolding reconcile_claim
  reconcile_claim-taggable ttl now p k claim spec read taggable class =
      rw (read, reconcile_claim, taggable_guards claim taggable, class) refl

  -- For a NodeClaim that is to be tagged, with a node class and an instance ID, and if ECS sets the tags of
  -- the requests that it takes and describes an instance with its tags, and NodeClaims that compare equal
  -- have the same annotations: either Reconcile returns an error
  -- and leaves the cluster as it was, where the instance could not be read or ECS refuses some request of
  -- 1 to 20 tags for it; or it patches the NodeClaim with the mark of a tagged instance, and the instance
  -- has every tag that a launch would give it, with the same value.
  pub reconcile_claim-tagged :
      (tags_of : String → W → Tags)
      → TagEffects ecs tags_of
      → TagReports ecs tags_of
      → ComparesAnnotations deep_equal
      → (ttl now : ℕ) (p : Provider W) (k : K) (claim : NodeClaim) (spec : EcsNodeClassSpec)
      → kube.get_node_claim k ≡ ok claim
      → is_taggable claim ≡ true
      → kube.get_node_class claim.node_class_name k ≡ ok spec
      → str_eq (get_instance_id_from_provider_id claim.provider_id) "" ≡ false
      → let id = get_instance_id_from_provider_id claim.provider_id in
        let (r, (p', k')) = reconcile_claim ecs kube deep_equal ttl now (p, k) in
        ((e : TaggingError) × (r ≡ err e)
          × (k' ≡ k)
          × (((d : InstanceError) × ((get ecs ttl now id true p).0 ≡ err d)) ⊎ Refuses ecs id))
        ⊎ ((k' ≡ (kube.patch (mark_tagged claim) k).1)
            × ((key : String) (v : String)
                → lookup key (build_instance_tags claim.meta spec) ≡ some v
                → lookup key (tags_of id p'.cloud) ≡ some v))
  unfolding reconcile_tags
  reconcile_claim-tagged tags_of effects reported compares ttl now p k claim spec read taggable
        class named =
      let id = get_instance_id_from_provider_id claim.provider_id in
      let outer = reconcile_claim-taggable ttl now p k claim spec read taggable class in
      elim (Option-cases (tag_claim ecs ttl now claim spec id p).0) [
        | inr (e, unset) ↦
            rw (outer, named, reconcile_tags, unset)
              (inl (e, refl, refl, tag_claim-failed ecs ttl now claim spec id p unset))
        | inl succeeds ↦
            let tagged =
              tag_claim-tagged ecs tags_of effects reported ttl now claim spec id p succeeds in
            let changed = mark_tagged-differs deep_equal compares claim taggable in
            rw (outer, named, reconcile_tags, succeeds)
              (inr (
                finish_tagging-patch claim k changed,
                λ key v h.
                    tagged key
                    ∙ ap
                        (λ o.
                          or_else o (lookup key (tags_of id (get ecs ttl now id true p).1.cloud)))
                        h,
              ))
      ]
