-- ===== src/Tagging.antt =====
-- The tagging controller, pkg/controllers/nodeclaim/tagging/controller.go. The client of Kubernetes, with
-- a state `K`, and the API of ECS are parameters.
pub mod Diff
pub mod Reconciled
pub mod Marked
use karpenter_provider_aliba.Prelude.{
  Bool, Option, Outcome, String, [], err, false, if◌then◌else◌, insert, is_empty, is_set_and,
  lookup, none, not, ok, some, str_eq, true, ℕ, ◌||◌, ◌∷◌,
}
use karpenter_provider_aliba.Instance.Api.{Instance}
use karpenter_provider_aliba.Instance.Calls.{Ecs, InstanceError, Provider, get, tag_instance}
use karpenter_provider_aliba.Launch.Tags.{build_instance_tags}
use karpenter_provider_aliba.NodeClaim.{KubeError, NodeClaim, kube_failed, kube_not_found}
use karpenter_provider_aliba.NodeClass.{EcsNodeClassSpec}
use karpenter_provider_aliba.NodeClass.Labels.{annotation_instance_tagged}
use karpenter_provider_aliba.ProviderId.{get_instance_id_from_provider_id}
use karpenter_provider_aliba.Utils.Tags.{Tags}

-- `isTaggable`
unfoldable pub is_taggable : NodeClaim → Bool
unfolding lookup
is_taggable claim =
    if is_set_and (lookup annotation_instance_tagged claim.annotations) (λ v. str_eq v "true")
    then false
    else if str_eq claim.provider_id ""
    then false
    else not claim.deleting

-- `currentV, exists := inst.Tags[k]; exists && currentV == v`
abbrev pub is_current : String → Option String → Bool
is_current v none = false
is_current v (some current) = str_eq current v

-- The loop over the desired tags.
unfoldable pub tags_to_apply : Tags → Tags → Tags
unfolding lookup
tags_to_apply current [] = []
tags_to_apply current ((k, v) ∷ desired) =
    let rest = tags_to_apply current desired in
    if is_current v (lookup k current) then rest else (k, v) ∷ rest

-- The errors of `Reconcile`: of the client, of reading the instance, and of TagInstance.
pub data TaggingError : Type 0 where
  client_failed : String → TaggingError
  instance_unread : InstanceError → TaggingError
  tags_refused : String → TaggingError

pub record Kube (K : Type 0) : Type 0 where
  pub get_node_claim : K → Outcome KubeError NodeClaim
  pub get_node_class : String → K → Outcome KubeError EcsNodeClassSpec
  pub patch : NodeClaim → K → Outcome KubeError (Unit {0}) × K

-- `nodeClaim.Annotations[…] = "true"`
unfoldable pub mark_tagged : NodeClaim → NodeClaim
unfolding insert
mark_tagged claim = record {
  meta = claim.meta;
  annotations = insert annotation_instance_tagged "true" claim.annotations;
  provider_id = claim.provider_id;
  deleting = claim.deleting;
  node_class_name = claim.node_class_name;
  creation_timestamp = claim.creation_timestamp;
}

module _ {W : Type 0} (ecs : Ecs W) where
  -- The end of `tagInstance`: the call of TagInstance, unless there is nothing to apply.
  unfoldable pub apply_missing : String → Tags → Provider W → Option TaggingError × Provider W
  unfolding tag_instance
  apply_missing id missing p =
      if is_empty missing
      then (none, p)
      else let (failure, w') = tag_instance ecs id missing p.cloud in
        (
          elim failure [ none ↦ none | some m ↦ some (tags_refused m) ],
          record { cache = p.cache; cloud = w' },
        )

  -- `tagInstance`, once the instance is read.
  unfoldable pub apply_diff :
      String → Tags → Outcome InstanceError Instance → Provider W → Option TaggingError × Provider W
  unfolding tags_to_apply apply_missing
  apply_diff id desired (err e) p = (some (instance_unread e), p)
  apply_diff id desired (ok inst) p = apply_missing id (tags_to_apply inst.tags desired) p

  -- `tagInstance` of the controller.
  unfoldable pub tag_claim :
      ℕ → ℕ → NodeClaim → EcsNodeClassSpec → String → Provider W → Option TaggingError × Provider W
  unfolding apply_diff build_instance_tags get
  tag_claim ttl now claim spec id p =
      let (found, p') = get ecs ttl now id true p in
      apply_diff id (build_instance_tags claim.meta spec) found p'

  module _ {K : Type 0} (kube : Kube K) (deep_equal : NodeClaim → NodeClaim → Bool) where
    -- The annotation and the patch that end a reconcile.
    unfoldable pub finish_tagging : NodeClaim → K → Outcome TaggingError (Unit {0}) × K
    unfolding mark_tagged
    finish_tagging claim k =
        if deep_equal (mark_tagged claim) claim
        then (ok tt, k)
        else let (patched, k') = kube.patch (mark_tagged claim) k in
          elim patched [
            | ok u ↦ (ok tt, k')
            | err kube_not_found ↦ (ok tt, k')
            | err (kube_failed m) ↦ (err (client_failed m), k')
          ]

    unfoldable pub reconcile_tags :
        ℕ
        → ℕ
        → NodeClaim
        → EcsNodeClassSpec
        → Provider W × K
        → Outcome TaggingError (Unit {0}) × (Provider W × K)
    unfolding tag_claim finish_tagging get_instance_id_from_provider_id
    reconcile_tags ttl now claim spec (p, k) =
        let id = get_instance_id_from_provider_id claim.provider_id in
        if str_eq id ""
        then (ok tt, (p, k))
        else let (failure, p') = tag_claim ttl now claim spec id p in
          elim failure [
            | some e ↦ (err e, (p', k))
            | none ↦ let (r, k') = finish_tagging claim k in (r, (p', k'))
          ]

    abbrev pub ignored : {S : Type 0} → KubeError → S → Outcome TaggingError (Unit {0}) × S
    ignored kube_not_found s = (ok tt, s)
    ignored (kube_failed m) s = (err (client_failed m), s)

    -- `Reconcile`
    unfoldable pub reconcile_claim :
        ℕ → ℕ → Provider W × K → Outcome TaggingError (Unit {0}) × (Provider W × K)
    unfolding is_taggable reconcile_tags
    reconcile_claim ttl now (p, k) = elim (kube.get_node_claim k) [
      | err e ↦ ignored e (p, k)
      | ok claim ↦
          if not (is_taggable claim) || str_eq claim.provider_id "" || claim.deleting
          then (ok tt, (p, k))
          else elim (kube.get_node_class claim.node_class_name k) [
            | err e ↦ ignored e (p, k)
            | ok spec ↦ reconcile_tags ttl now claim spec (p, k)
          ]
    ]
