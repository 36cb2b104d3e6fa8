-- ===== src/Witnesses/Collections.antt =====
-- Examples for the deletion of instances, the cache and the garbage collection.
use karpenter_provider_aliba.Prelude.{
  Bool, List, Option, Outcome, String, [], arith, err, false, lookup, member, none, ok, pos, refl,
  some, true, ℕ, ◌∷◌, ◌≡◌, ◌⊎◌,
}
use karpenter_provider_aliba.Collection.{
  CloudProvider, Cluster, delete_node_claim, find_node, run_collection,
}
use karpenter_provider_aliba.Collection.Runs.{
  Reads, RunEffect, run_collection-Deletions, run_collection-blind, run_collection-wrong_node,
}
use karpenter_provider_aliba.Instance.Api.{ApiInstance, instance_of}
use karpenter_provider_aliba.Instance.Cache.{CacheEntry, get_cached_instance}
use karpenter_provider_aliba.Instance.Cache.Reference.{
  Calls, after_calls, get_cached_instance-reference, reference, stored, swept,
}
use karpenter_provider_aliba.Instance.Calls.{
  Ecs, Provider, delete, get, node_claim_not_found, says_deleted,
}
use karpenter_provider_aliba.Instance.Calls.Deleted.{
  DeleteLaws, IsLoose, delete-get_stale, delete-gone, says_gone,
}
use karpenter_provider_aliba.Instance.Listing.{Page, list_instances}
use karpenter_provider_aliba.Instance.Listing.Complete.{
  PageLaws, list_instances-listed, listed, page_of,
}
use karpenter_provider_aliba.NodeClaim.{Node, NodeClaim}
use karpenter_provider_aliba.Status.Reconcile.{requeue_after}
use karpenter_provider_aliba.Utils.Tags.{Tags}

abbrev plain_instance : ApiInstance
plain_instance = record {
  instance_id = some "i-1";
  region_id = some "cn-hangzhou";
  zone_id = some "cn-hangzhou-a";
  instance_type = some "ecs.g8y.large";
  image_id = some "image-1";
  cpu = some (pos 2);
  memory = some (pos 8192);
  gpu_amount = none;
  gpu_spec = none;
  status = some "Running";
  creation_time = some "2025-01-01T00:00Z";
  tags = [];
  instance_charge_type = some "PostPaid";
  spot_strategy = some "SpotAsPriceGo";
  security_group_ids = none ∷ some "sg-1" ∷ [];
  vswitch_id = none;
}

abbrev gone_error : Bool → Option String
gone_error true = none
gone_error false = some "InvalidInstanceId.NotFound"

abbrev described_if : Bool → List ApiInstance
described_if true = plain_instance ∷ []
described_if false = []

-- A cloud of one instance, whose state is whether it exists.
abbrev mortal_cloud : Ecs Bool
mortal_cloud = record {
  describe = λ ids alive. (ok (described_if alive), alive);
  delete_instances = λ id alive. (gone_error alive, false);
  tag_resources = λ id batch alive. (none, alive);
}

abbrev is_alive : String → Bool → Bool
is_alive id alive = alive

none_described :
    (alive : Bool)
    → ◌≡◌ {A = Outcome String (List ApiInstance)} (ok (described_if alive)) (ok [])
    → alive ≡ false
none_described true h = cc
none_described false h = refl

mortal_cloud-DeleteLaws : DeleteLaws mortal_cloud is_alive
mortal_cloud-DeleteLaws = record {
  delete_finds_none = λ id e w h k. refl;
  describe_finds_none = λ id e w h k. cc;
  nothing_described = λ id w h. none_described w h;
}

abbrev cached_entry : CacheEntry
cached_entry = record { instance = instance_of plain_instance; expires_at = 130 }

abbrev living : Provider Bool
living = record { cache = ("i-1", cached_entry) ∷ []; cloud = true }

abbrev dead : Provider Bool
dead = record { cache = ("i-1", cached_entry) ∷ []; cloud = false }

delete_test : says_gone (delete mortal_cloud "i-1" living).0 ≡ true
unfolding delete
delete_test = refl

delete-gone_example :
    ((delete mortal_cloud "i-1" living).1.cloud ≡ false)
    ⊎ ((e : String) × (((mortal_cloud.delete_instances "i-1" true).0 ≡ some e)
          ⊎ ((mortal_cloud.describe ("i-1" ∷ []) false).0 ≡ err e))
        × IsLoose e)
delete-gone_example =
    delete-gone mortal_cloud is_alive mortal_cloud-DeleteLaws "i-1" living delete_test

delete-get_stale_example :
    ((delete mortal_cloud "i-1" dead).0
      ≡ some (node_claim_not_found "instance delete with err InvalidInstanceId.NotFound"))
    × ((get mortal_cloud 30 120 "i-1" false (delete mortal_cloud "i-1" dead).1).0
        ≡ ok (instance_of plain_instance))
unfolding says_deleted lookup
delete-get_stale_example =
    delete-get_stale mortal_cloud 30 120 "i-1" "InvalidInstanceId.NotFound" dead cached_entry refl
      refl refl (omega arith)

-- Stored at 100, swept at 120.
abbrev stored_then_swept : Calls
stored_then_swept = (120, swept) ∷ (100, stored "i-1" (instance_of plain_instance)) ∷ []

get_cached_instance-reference_example :
    (get_cached_instance 130 "i-1" (after_calls 30 stored_then_swept)).0
    ≡ reference 30 130 "i-1" stored_then_swept
get_cached_instance-reference_example =
    get_cached_instance-reference 30 130 "i-1" stored_then_swept (omega arith, (omega arith, tt))

reference_test : reference 30 130 "i-1" stored_then_swept ≡ some (instance_of plain_instance)
unfolding reference
reference_test = refl

expired_test : reference 30 131 "i-1" stored_then_swept ≡ none
unfolding reference
expired_test = refl

abbrev claim_of : String → NodeClaim
claim_of id = record {
  meta = record { name = "claim"; labels = [] };
  annotations = [];
  provider_id = id;
  deleting = false;
  node_class_name = "default";
  creation_timestamp = 0;
}

abbrev lists_one : Provider Bool → Outcome String (List NodeClaim) × Provider Bool
lists_one p = (ok (claim_of "cn-hangzhou.i-2" ∷ []), p)

abbrev provider_cloud : CloudProvider (Provider Bool)
provider_cloud = record { list = lists_one; delete = delete_node_claim mortal_cloud }

abbrev stray_node : Node
stray_node = record { name = "control-plane"; provider_id = "" }

-- A cluster with one NodeClaim, whose state is its nodes.
abbrev cluster_with : NodeClaim → Cluster (List Node)
cluster_with claim = record {
  list_node_claims = λ nodes. ok (claim ∷ []);
  list_nodes = λ nodes. ok nodes;
  delete_node = λ node nodes. (ok tt, []);
}

abbrev reads_with :
    (claim : NodeClaim)
    → Reads provider_cloud
        (cluster_with claim)
        living
        (stray_node ∷ [])
        (claim_of "cn-hangzhou.i-2" ∷ [])
        (stray_node ∷ [])
        claim
        []
reads_with claim = record { claims_read = refl; instances_read = refl; nodes_read = refl }

run_collection-Deletions_example :
    RunEffect provider_cloud
      (cluster_with (claim_of "cn-hangzhou.i-1"))
      100
      60
      living
      (stray_node ∷ [])
      (run_collection provider_cloud
        (cluster_with (claim_of "cn-hangzhou.i-1"))
        100
        60
        (living, stray_node ∷ [])).1
run_collection-Deletions_example =
    run_collection-Deletions provider_cloud (cluster_with (claim_of "cn-hangzhou.i-1")) 100 60
      living (stray_node ∷ [])

run_collection-blind_example :
    run_collection provider_cloud
      (cluster_with (claim_of "cn-hangzhou.i-2"))
      100
      60
      (living, stray_node ∷ [])
    ≡ ((requeue_after 300, none), (living, stray_node ∷ []))
unfolding member
run_collection-blind_example =
    run_collection-blind provider_cloud (cluster_with (claim_of "cn-hangzhou.i-2")) 100 60 living
      (stray_node ∷ []) (claim_of "cn-hangzhou.i-2" ∷ []) (stray_node ∷ [])
      (claim_of "cn-hangzhou.i-2") [] (reads_with (claim_of "cn-hangzhou.i-2")) (refl, tt)

run_collection-wrong_node_example :
    (run_collection provider_cloud (cluster_with (claim_of "")) 100 60 (living, stray_node ∷ [])).1
    ≡ (living, [])
unfolding member find_node
run_collection-wrong_node_example =
    run_collection-wrong_node mortal_cloud lists_one (cluster_with (claim_of "")) 100 60 living
      (stray_node ∷ []) (claim_of "cn-hangzhou.i-2" ∷ []) (stray_node ∷ []) (claim_of "") stray_node
      (reads_with (claim_of "")) refl refl (omega arith) refl

-- A cloud that pages through one instance with its memory and one without.
abbrev nameless : ApiInstance
nameless = record plain_instance { memory = none }

abbrev serve_page : Tags → ℕ → Bool → Outcome String (Option Page) × Bool
serve_page tags number alive = (ok (some (page_of (nameless ∷ plain_instance ∷ []) number)), alive)

serve_page-PageLaws : PageLaws serve_page [] (nameless ∷ plain_instance ∷ [])
serve_page-PageLaws = record { serves = λ number w. refl }

list_instances-listed_example :
    (list_instances serve_page 1 30 100 [] living).0 ≡ some (ok (instance_of plain_instance ∷ []))
unfolding listed
list_instances-listed_example =
    list_instances-listed serve_page [] (nameless ∷ plain_instance ∷ []) serve_page-PageLaws
      (omega arith) 30 100 1 living (omega arith) (omega arith)
