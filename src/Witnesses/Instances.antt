-- ===== src/Witnesses/Instances.antt =====
-- Examples for the provider IDs, the instance provider and the tagging controller.
use karpenter_provider_aliba.Prelude.{
  Bool, List, Option, String, [], ap, arith, err, false, has_dot, if◌then◌else◌, insert, lookup,
  lookup-append, lookup-insert, member, none, ok, or_else, pos, refl, some, str_eq, str_eq_iff, sym,
  true, ◌&&◌, ◌++◌, ◌∙◌, ◌∷◌, ◌≡◌, ◌⊎◌,
}
use karpenter_provider_aliba.Instance.Api.{
  ApiInstance, Instance, add_tags, convert_tags, instance_of,
}
use karpenter_provider_aliba.Instance.Calls.{Ecs, InstanceError, Provider, get, tag_instance}
use karpenter_provider_aliba.Instance.Calls.Tagged.{Refuses, TagLaws, tag_instance-merged}
use karpenter_provider_aliba.Launch.Tags.{build_instance_tags}
use karpenter_provider_aliba.NodeClaim.{NodeClaim}
use karpenter_provider_aliba.ProviderId.{
  from_provider_id, from_provider_id-provider_id_of, get_instance_id_from_provider_id,
  provider_id_of,
}
use karpenter_provider_aliba.Tagging.{Kube, TaggingError, is_taggable, mark_tagged, reconcile_claim}
use karpenter_provider_aliba.Tagging.Marked.{reconcile_claim-tagged}
use karpenter_provider_aliba.Tagging.Reconciled.{TagReports}
use karpenter_provider_aliba.Utils.Tags.{Tags}
use karpenter_provider_aliba.Witnesses.Data.{sample_spec}

from_provider_id-provider_id_of_example :
    (from_provider_id (provider_id_of "cn-hangzhou" "i-1") ≡ "i-1")
    × (get_instance_id_from_provider_id (provider_id_of "cn-hangzhou" "i-1") ≡ "i-1")
unfolding has_dot
from_provider_id-provider_id_of_example = from_provider_id-provider_id_of "cn-hangzhou" "i-1" refl

-- ECS describes the tags of an instance in the opposite order of the map that it keeps.
unfoldable pub tags_described : Tags → List (Option String × Option String)
tags_described [] = []
tags_described ((k, v) ∷ tags) = tags_described tags ++ ((some k, some v) ∷ [])

abbrev pub described_instance : Tags → ApiInstance
described_instance tags = record {
  instance_id = some "i-1";
  region_id = some "cn-hangzhou";
  zone_id = some "cn-hangzhou-a";
  instance_type = some "ecs.g7.large";
  image_id = some "image-1";
  cpu = some (pos 2);
  memory = some (pos 8192);
  gpu_amount = none;
  gpu_spec = none;
  status = some "Running";
  creation_time = some "2025-01-01T00:00Z";
  tags = tags_described tags;
  instance_charge_type = some "PostPaid";
  spot_strategy = some "NoSpot";
  security_group_ids = some "sg-1" ∷ [];
  vswitch_id = some "vsw-a";
}

-- A cloud of one instance, whose state is its tags.
abbrev pub tagged_cloud : Ecs Tags
tagged_cloud = record {
  describe = λ ids tags. (ok (described_instance tags ∷ []), tags);
  delete_instances = λ id tags. (some "IncorrectInstanceStatus.Initializing", tags);
  tag_resources = λ id batch tags. (none, batch ++ tags);
}

abbrev pub its_tags : String → Tags → Tags
its_tags id tags = tags

pub tagged_cloud-TagLaws : TagLaws tagged_cloud its_tags
tagged_cloud-TagLaws = record {
  accepts = λ id batch w h. refl;
  merges = λ id k batch w h. lookup-append k batch w;
}

add_tags-append :
    (tags : List (Option String × Option String)) (k v : String) (made : Tags)
    → add_tags (tags ++ ((some k, some v) ∷ [])) made ≡ insert k v (add_tags tags made)
unfolding add_tags
add_tags-append [] k v made = refl
add_tags-append ((some j, some w) ∷ tags) k v made = add_tags-append tags k v (insert j w made)
add_tags-append ((some j, none) ∷ tags) k v made = add_tags-append tags k v made
add_tags-append ((none, o) ∷ tags) k v made = add_tags-append tags k v made

lookup-tags_described :
    (k : String) (tags : Tags) → lookup k (convert_tags (tags_described tags)) ≡ lookup k tags
unfolding convert_tags tags_described add_tags lookup
lookup-tags_described k [] = refl
lookup-tags_described k ((j, v) ∷ tags) =
    ap (lookup k) (add_tags-append (tags_described tags) j v [])
    ∙ (lookup-insert j k v (add_tags (tags_described tags) [])
        ∙ ap (λ o. if str_eq j k then some v else o) (lookup-tags_described k tags))

tagged_cloud-TagReports : TagReports tagged_cloud its_tags
tagged_cloud-TagReports = record {
  reports = λ id k w x xs h.
      let same : described_instance w ≡ x = cc in
      ap (λ i. lookup k (convert_tags i.tags)) (sym same) ∙ lookup-tags_described k w;
}

abbrev two_tags : Tags
two_tags = ("a", "1") ∷ ("b", "2") ∷ []

tag_instance-merged_example :
    ((tag_instance tagged_cloud "i-1" two_tags (("b", "0") ∷ [])).0 ≡ none)
    × ((k : String)
        → lookup k (tag_instance tagged_cloud "i-1" two_tags (("b", "0") ∷ [])).1
          ≡ or_else (lookup k two_tags) (lookup k (("b", "0") ∷ [])))
unfolding member
tag_instance-merged_example =
    tag_instance-merged tagged_cloud its_tags tagged_cloud-TagLaws "i-1" two_tags (("b", "0") ∷ [])
      (refl, (refl, tt))

abbrev fetched_instance : Instance
fetched_instance = instance_of (described_instance [])

abbrev empty_provider : Provider Tags
empty_provider = record { cache = []; cloud = [] }

fetch_test : (get tagged_cloud 30 100 "i-1" true empty_provider).0 ≡ ok fetched_instance
unfolding get
fetch_test = refl

abbrev sample_claim : NodeClaim
sample_claim = record {
  meta = record { name = "claim-1"; labels = ("karpenter.sh/nodepool", "pool-1") ∷ [] };
  annotations = [];
  provider_id = "cn-hangzhou.i-1";
  deleting = false;
  node_class_name = "default";
  creation_timestamp = 0;
}

-- A cluster whose state is its one NodeClaim.
abbrev one_claim : Kube NodeClaim
one_claim = record {
  get_node_claim = λ claim. ok claim;
  get_node_class = λ name claim. ok sample_spec;
  patch = λ claim old. (ok tt, claim);
}

-- Whether two NodeClaims have the same annotations.
same_annotations : Tags → Tags → Bool
same_annotations [] [] = true
same_annotations [] (e ∷ tags) = false
same_annotations (e ∷ tags) [] = false
same_annotations ((j, v) ∷ tags) ((k, w) ∷ others) =
    str_eq j k && str_eq v w && same_annotations tags others

same_annotations-lookup :
    (a b : Tags) → same_annotations a b ≡ true → (key : String) → lookup key a ≡ lookup key b
unfolding lookup same_annotations
same_annotations-lookup [] [] h key = refl
same_annotations-lookup [] (e ∷ tags) h key = ground (arith, h)
same_annotations-lookup (e ∷ tags) [] h key = ground (arith, h)
same_annotations-lookup ((j, v) ∷ tags) ((k, w) ∷ others) h key =
    let keyed : j ≡ k = (str_eq_iff j k).0 (ground arith) in
    let valued : v ≡ w = (str_eq_iff v w).0 (ground arith) in
    rw (keyed, valued)
      (ap (λ o. if str_eq k key then some w else o)
        (same_annotations-lookup tags others (ground arith) key))

abbrev by_annotations : NodeClaim → NodeClaim → Bool
by_annotations a b = same_annotations a.annotations b.annotations

reconcile_claim-tagged_example :
    let (r, (p', k')) =
      reconcile_claim tagged_cloud one_claim by_annotations 30 100 (empty_provider, sample_claim) in
    ((e : TaggingError) × (r ≡ err e)
      × (k' ≡ sample_claim)
      × (((d : InstanceError) × ((get tagged_cloud 30 100 "i-1" true empty_provider).0 ≡ err d))
          ⊎ Refuses tagged_cloud "i-1"))
    ⊎ ((k' ≡ mark_tagged sample_claim)
        × ((key : String) (v : String)
            → lookup key (build_instance_tags sample_claim.meta sample_spec) ≡ some v
            → lookup key p'.cloud ≡ some v))
unfolding is_taggable get_instance_id_from_provider_id lookup
reconcile_claim-tagged_example =
    reconcile_claim-tagged tagged_cloud one_claim by_annotations its_tags
      tagged_cloud-TagLaws.merges tagged_cloud-TagReports
      (λ a b h. same_annotations-lookup a.annotations b.annotations h) 30 100 empty_provider
      sample_claim sample_claim sample_spec refl refl refl refl
