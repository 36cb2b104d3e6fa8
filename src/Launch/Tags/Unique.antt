-- ===== src/Launch/Tags/Unique.antt =====
-- The keys of the tags of an instance are distinct.
use karpenter_provider_aliba.Prelude.{
  Distinct, Option-cases, [], if_intro, inl, inr, insert, insert-Distinct, keys, lookup, str_eq,
}
use karpenter_provider_aliba.Launch.Tags.{
  ClaimMeta, build_instance_tags, management_tags, traceability_tags,
}
use karpenter_provider_aliba.Launch.Tags.Insertion.{insert_all-Distinct}
use karpenter_provider_aliba.Launch.Tags.Kept.{pooled_tags}
use karpenter_provider_aliba.NodeClass.{EcsNodeClassSpec}
use karpenter_provider_aliba.NodeClass.Labels.{
  node_pool_label_key, tag_cluster_id, tag_managed_by, tag_managed_by_value, tag_node_claim,
  tag_node_pool,
}
use karpenter_provider_aliba.Utils.Tags.{Tags}

pooled_tags-Distinct :
    (claim : ClaimMeta) (tags : Tags)
    → Distinct (keys tags)
    → Distinct (keys (pooled_tags claim tags))
unfolding pooled_tags
pooled_tags-Distinct claim tags h = elim (Option-cases (lookup node_pool_label_key claim.labels)) [
  | inl n ↦ rw (n, pooled_tags, Distinct, keys) h
  | inr (v, n) ↦ rw (n, pooled_tags, Distinct, keys) (insert-Distinct tag_node_pool v tags h)
]

traceability_tags-Distinct :
    (claim : ClaimMeta) (tags : Tags)
    → Distinct (keys tags)
    → Distinct (keys (traceability_tags claim tags))
unfolding traceability_tags pooled_tags
traceability_tags-Distinct claim tags h =
    let pooled = pooled_tags-Distinct claim tags h in
    if_intro (λ (t : Tags). Distinct (keys t)) (str_eq claim.name "") _ _ (λ e. pooled)
      λ e. insert-Distinct tag_node_claim claim.name (pooled_tags claim tags) pooled

management_tags-Distinct : (spec : EcsNodeClassSpec) → Distinct (keys (management_tags spec))
unfolding management_tags
management_tags-Distinct spec =
    let managed = insert-Distinct tag_managed_by tag_managed_by_value [] tt in
    if_intro (λ (t : Tags). Distinct (keys t)) (str_eq spec.cluster_id "") _ _ (λ e. managed)
      λ e.
        insert-Distinct tag_cluster_id spec.cluster_id
          (insert tag_managed_by tag_managed_by_value []) managed

pub build_instance_tags-Distinct :
    (claim : ClaimMeta) (spec : EcsNodeClassSpec) → Distinct (keys (build_instance_tags claim spec))
unfolding build_instance_tags
build_instance_tags-Distinct claim spec =
    insert_all-Distinct spec.tags (traceability_tags claim (management_tags spec))
      (traceability_tags-Distinct claim (management_tags spec) (management_tags-Distinct spec))
