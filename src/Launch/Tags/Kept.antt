-- ===== src/Launch/Tags/Kept.antt =====
-- The tags that the controllers find an instance by.
use karpenter_provider_aliba.Prelude.{
  All, Bool-cases, Option-cases, String, [], ap, arith, false, if◌then◌else◌, inl, inr, insert,
  keys, lookup, lookup-insert, member, none, ok, refl, some, str_eq, str_eq_iff, sym, true, ◌∙◌,
  ◌∷◌, ◌≡◌,
}
use karpenter_provider_aliba.Launch.Tags.{
  ClaimMeta, build_instance_tags, management_tags, traceability_tags,
}
use karpenter_provider_aliba.Launch.Tags.Insertion.{lookup-insert_all}
use karpenter_provider_aliba.NodeClass.{EcsNodeClassSpec}
use karpenter_provider_aliba.NodeClass.Labels.{
  node_pool_label_key, tag_cluster_id, tag_managed_by, tag_managed_by_value, tag_node_claim,
  tag_node_pool,
}
use karpenter_provider_aliba.NodeClass.Validation.{restricted_tags, validate}
use karpenter_provider_aliba.NodeClass.Validation.Accepted.{validate-tags_allowed}
use karpenter_provider_aliba.Utils.Tags.{Tags}

not_a_user_tag :
    (k : String) (tags : Tags)
    → member k restricted_tags ≡ true
    → All (λ t. member t.0 restricted_tags ≡ false) tags
    → member k (keys tags) ≡ false
unfolding member
not_a_user_tag k [] restricted h = refl
not_a_user_tag k ((j, v) ∷ tags) restricted h = elim (Bool-cases (str_eq j k)) [
  | inl same ↦ ground (arith, contradiction ((str_eq_iff j k).0 same))
  | inr differ ↦ ground (arith, not_a_user_tag k tags restricted h.1)
]
  where
    contradiction : j ≡ k → true ≡ false
    contradiction e = sym restricted ∙ (ap (λ x. member x restricted_tags) (sym e) ∙ h.0)

-- What the user's tags cannot change.
pub record AreManaged (claim : ClaimMeta) (spec : EcsNodeClassSpec) (tags : Tags) : Type 0 where
  pub managed : lookup tag_managed_by tags ≡ some tag_managed_by_value
  pub clustered :
      str_eq spec.cluster_id "" ≡ false → lookup tag_cluster_id tags ≡ some spec.cluster_id
  pub claimed : str_eq claim.name "" ≡ false → lookup tag_node_claim tags ≡ some claim.name
  pub pooled :
      (pool : String)
      → lookup node_pool_label_key claim.labels ≡ some pool
      → lookup tag_node_pool tags ≡ some pool

module _ (claim : ClaimMeta) (tags : Tags) where
  unfoldable pub pooled_tags : Tags
  pooled_tags = elim (lookup node_pool_label_key claim.labels) [
    | none ↦ tags
    | some v ↦ insert tag_node_pool v tags
  ]

  lookup-pooled_tags :
      (k : String) → str_eq tag_node_pool k ≡ false → lookup k pooled_tags ≡ lookup k tags
  unfolding pooled_tags
  lookup-pooled_tags k h = elim (Option-cases (lookup node_pool_label_key claim.labels)) [
    | inl n ↦ rw (n, pooled_tags) refl
    | inr (v, n) ↦ rw (n, pooled_tags) (lookup-insert tag_node_pool k v tags ∙ rw h refl)
  ]

  lookup-claimed :
      (k : String)
      → lookup k (traceability_tags claim tags) ≡ (
          if str_eq claim.name ""
          then lookup k pooled_tags
          else if str_eq tag_node_claim k
          then some claim.name
          else lookup k pooled_tags)
  unfolding traceability_tags pooled_tags
  lookup-claimed k = elim (Bool-cases (str_eq claim.name "")) [
    | inl e ↦ rw e refl
    | inr e ↦ rw e (lookup-insert tag_node_claim k claim.name pooled_tags)
  ]

  lookup-traceability_tags :
      (k : String)
      → str_eq tag_node_pool k ≡ false
      → str_eq tag_node_claim k ≡ false
      → lookup k (traceability_tags claim tags) ≡ lookup k tags
  lookup-traceability_tags k h₁ h₂ = ground (arith, lookup-claimed k, lookup-pooled_tags k h₁)

  lookup-pool :
      (pool : String)
      → lookup node_pool_label_key claim.labels ≡ some pool
      → lookup tag_node_pool (traceability_tags claim tags) ≡ some pool
  unfolding pooled_tags
  lookup-pool pool h =
      let inserted : lookup tag_node_pool pooled_tags ≡ some pool =
        rw (h, pooled_tags) (lookup-insert tag_node_pool tag_node_pool pool tags) in
      ground (arith, lookup-claimed tag_node_pool, inserted)

layers-AreManaged :
    (claim : ClaimMeta) (spec : EcsNodeClassSpec)
    → AreManaged claim spec (traceability_tags claim (management_tags spec))
unfolding management_tags lookup insert
layers-AreManaged claim spec = record {
  managed =
      lookup-traceability_tags claim (management_tags spec) tag_managed_by refl refl ∙ management;
  clustered = λ h.
      lookup-traceability_tags claim (management_tags spec) tag_cluster_id refl refl ∙ rw h refl;
  claimed = λ h. lookup-claimed claim (management_tags spec) tag_node_claim ∙ rw h refl;
  pooled = lookup-pool claim (management_tags spec);
}
  where
    management : lookup tag_managed_by (management_tags spec) ≡ some tag_managed_by_value
    management = elim (Bool-cases (str_eq spec.cluster_id "")) [
      | inl e ↦ rw e refl
      | inr e ↦ rw e refl
    ]

-- The tags of an instance of an accepted node class name it as managed, with its cluster, its NodeClaim
-- and its NodePool where they are known, whatever tags the user asks for.
pub build_instance_tags-AreManaged :
    (claim : ClaimMeta) (spec : EcsNodeClassSpec)
    → validate spec ≡ ok tt
    → AreManaged claim spec (build_instance_tags claim spec)
unfolding build_instance_tags member
build_instance_tags-AreManaged claim spec accepted =
    let allowed = validate-tags_allowed spec accepted in
    let kept : (k : String)
        → member k restricted_tags ≡ true
        → lookup k (build_instance_tags claim spec)
          ≡ lookup k (traceability_tags claim (management_tags spec)) =
      λ k h. lookup-insert_all k spec.tags _ (not_a_user_tag k spec.tags h allowed) in
    let layers = layers-AreManaged claim spec in
    record {
      managed = kept tag_managed_by refl ∙ layers.managed;
      clustered = λ h. kept tag_cluster_id refl ∙ layers.clustered h;
      claimed = λ h. kept tag_node_claim refl ∙ layers.claimed h;
      pooled = λ pool h. kept tag_node_pool refl ∙ layers.pooled pool h;
    }
