-- ===== src/Launch/Tags.antt =====
-- `BuildInstanceTags` of pkg/cloudprovider/cloudprovider.go.
pub mod Insertion
pub mod Kept
pub mod Unique
use karpenter_provider_aliba.Prelude.{
  String, [], if◌then◌else◌, insert, lookup, none, some, str_eq, ◌∷◌,
}
use karpenter_provider_aliba.NodeClass.{EcsNodeClassSpec}
use karpenter_provider_aliba.NodeClass.Labels.{
  node_pool_label_key, tag_cluster_id, tag_managed_by, tag_managed_by_value, tag_node_claim,
  tag_node_pool,
}
use karpenter_provider_aliba.Utils.Tags.{Tags}

-- The parts of a NodeClaim that are read here.
pub record ClaimMeta : Type 0 where
  pub name : String
  pub labels : Tags

-- Layer 1.
unfoldable pub management_tags : EcsNodeClassSpec → Tags
unfolding insert
management_tags spec =
    let tags = insert tag_managed_by tag_managed_by_value [] in
    if str_eq spec.cluster_id "" then tags else insert tag_cluster_id spec.cluster_id tags

-- Layer 2.
unfoldable pub traceability_tags : ClaimMeta → Tags → Tags
unfolding insert lookup
traceability_tags claim tags =
    let pooled : Tags = elim (lookup node_pool_label_key claim.labels) [
      | none ↦ tags
      | some v ↦ insert tag_node_pool v tags
    ] in
    if str_eq claim.name "" then pooled else insert tag_node_claim claim.name pooled

-- Layer 3: the loop over the tags of the node class.
unfoldable pub insert_all : Tags → Tags → Tags
unfolding insert
insert_all [] tags = tags
insert_all ((k, v) ∷ more) tags = insert_all more (insert k v tags)

unfoldable pub build_instance_tags : ClaimMeta → EcsNodeClassSpec → Tags
unfolding management_tags traceability_tags insert_all
build_instance_tags claim spec =
    insert_all spec.tags (traceability_tags claim (management_tags spec))
