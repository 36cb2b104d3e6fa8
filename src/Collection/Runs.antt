-- ===== src/Collection/Runs.antt =====
-- A whole run of the garbage collection: what it deletes, and what it does not see.
use karpenter_provider_aliba.Prelude.{
  All, Bool, List, Outcome, Outcome-cases, String, [], ap, arith, false, inl, inr, member, none, ok,
  refl, some, true, ℕ, ◌+◌, ◌∙◌, ◌∷◌, ◌≡◌, ◌≤◌,
}
use karpenter_provider_aliba.Collection.{
  CloudProvider, Cluster, collect, collect_orphan, delete_found, delete_node_claim, find_node,
  is_orphan, provider_ids, run_collection, with_requeue,
}
use karpenter_provider_aliba.Collection.Orphans.{Deletions, collect-Deletions}
use karpenter_provider_aliba.Instance.Calls.{Ecs, Provider}
use karpenter_provider_aliba.Instance.Listing.Complete.{listed}
use karpenter_provider_aliba.NodeClaim.{Node, NodeClaim, kube_failed, kube_not_found}
use karpenter_provider_aliba.ProviderId.{from_provider_id}
use karpenter_provider_aliba.Status.Reconcile.{requeue_after}

-- The lists that a run reads, all without an error; there is a NodeClaim.
pub record Reads {S K : Type 0} (cloud : CloudProvider S) (cluster : Cluster K) (s : S) (k : K)
    (instances : List NodeClaim) (nodes : List Node) (first : NodeClaim) (others : List NodeClaim)
    : Type 0 where
  pub claims_read : cluster.list_node_claims k ≡ ok (first ∷ others)
  pub instances_read : (cloud.list s).0 ≡ ok instances
  pub nodes_read : cluster.list_nodes k ≡ ok nodes

module _ {S K : Type 0} (cloud : CloudProvider S) (cluster : Cluster K) (now protection : ℕ) (s : S)
    (k : K) (instances : List NodeClaim) (nodes : List Node) (first : NodeClaim)
    (others : List NodeClaim) (reads : Reads cloud cluster s k instances nodes first others) where
  run_lem :
      run_collection cloud cluster now protection (s, k)
      ≡ with_requeue cloud cluster (
          collect cloud cluster now protection
            (provider_ids instances)
            nodes
            (first ∷ others)
            false
            ((cloud.list s).1, k))
  unfolding run_collection
  run_lem = rw (reads.claims_read, run_collection, reads.instances_read, reads.nodes_read) refl

-- What a run may do to the states: nothing; the listing of instances alone; or, where the lists of
-- NodeClaims, instances and nodes were all read without an error, deletions that those lists allow.
pub data RunEffect {S K : Type 0} (cloud : CloudProvider S) (cluster : Cluster K)
    (now protection : ℕ) (s : S) (k : K) : S × K → Type 0 where
  untouched : RunEffect cloud cluster now protection s k (s, k)
  only_listed : RunEffect cloud cluster now protection s k ((cloud.list s).1, k)
  deleted :
      {st : S × K} (claims instances : List NodeClaim) (nodes : List Node)
      → cluster.list_node_claims k ≡ ok claims
      → (cloud.list s).0 ≡ ok instances
      → cluster.list_nodes k ≡ ok nodes
      → Deletions cloud cluster now protection instances nodes claims ((cloud.list s).1, k) st
      → RunEffect cloud cluster now protection s k st

-- A run deletes nothing unless it has read the NodeClaims, the instances of the cloud provider and the
-- nodes, all without an error. Then it deletes nothing but NodeClaims of the cluster that are older than
-- the protection and whose provider ID the cloud provider does not list, and nodes of the cluster with
-- the provider ID of such a NodeClaim.
pub run_collection-Deletions :
    {S K : Type 0} (cloud : CloudProvider S) (cluster : Cluster K) (now protection : ℕ) (s : S)
    (k : K)
    → RunEffect cloud cluster now protection s k
        (run_collection cloud cluster now protection (s, k)).1
unfolding run_collection
run_collection-Deletions {S} {K} cloud cluster now protection s k =
    elim (Outcome-cases (cluster.list_node_claims k)) [
      | inr (m, e) ↦ rw (e, run_collection) untouched
      | inl ([], e) ↦ rw (e, run_collection) untouched
      | inl (first ∷ others, e) ↦ elim (Outcome-cases (cloud.list s).0) [
        | inr (m, f) ↦ rw (e, run_collection, f) only_listed
        | inl (instances, f) ↦ elim (Outcome-cases (cluster.list_nodes k)) [
          | inr (m, g) ↦ rw (e, run_collection, f, g) only_listed
          | inl (nodes, g) ↦
              rw (e, run_collection, f, g)
                (deleted (first ∷ others) instances nodes e f g (
                  collect-Deletions cloud cluster now protection instances nodes (first ∷ others)
                    (first ∷ others) (λ c m. m) false ((cloud.list s).1, k)))
        ]
      ]
    ]

collect_found :
    {S K : Type 0} (cloud : CloudProvider S) (cluster : Cluster K) (now protection : ℕ)
    (listed : List String) (nodes : List Node) (claims : List NodeClaim) (found : Bool) (st : S × K)
    → All (λ c. member c.provider_id listed ≡ true) claims
    → collect cloud cluster now protection listed nodes claims found st ≡ (found, st)
unfolding collect is_orphan
collect_found cloud cluster now protection listed nodes [] found st h = refl
collect_found cloud cluster now protection listed nodes (claim ∷ claims) found st h =
    rw (h.0, collect) (collect_found cloud cluster now protection listed nodes claims found st h.1)

-- A run in a cluster with at least one NodeClaim, which reads all its lists without an error and in which
-- each NodeClaim has its instance, deletes nothing and asks for the next run in 300 seconds, whatever
-- other instances the cloud provider lists.
pub run_collection-blind :
    {S K : Type 0} (cloud : CloudProvider S) (cluster : Cluster K) (now protection : ℕ) (s : S)
    (k : K) (instances : List NodeClaim) (nodes : List Node) (first : NodeClaim)
    (others : List NodeClaim)
    → Reads cloud cluster s k instances nodes first others
    → All (λ c. member c.provider_id (provider_ids instances) ≡ true) (first ∷ others)
    → run_collection cloud cluster now protection (s, k)
      ≡ ((requeue_after 300, none), ((cloud.list s).1, k))
run_collection-blind cloud cluster now protection s k instances nodes first others reads alive =
    run_lem cloud cluster now protection s k instances nodes first others reads
    ∙ ap (with_requeue cloud cluster) (
        collect_found cloud cluster now protection (provider_ids instances) nodes (first ∷ others)
          false ((cloud.list s).1, k) alive)

delete_unlaunched :
    {W : Type 0} (ecs : Ecs W) (claim : NodeClaim) (p : Provider W)
    → claim.provider_id ≡ ""
    → delete_node_claim ecs claim p ≡ (none, p)
unfolding delete_node_claim from_provider_id
delete_unlaunched ecs claim p h = rw (ap from_provider_id h, delete_node_claim) refl

delete_found-node :
    {S K : Type 0} (cloud : CloudProvider S) (cluster : Cluster K) (node : Node) (k : K)
    → (delete_found cloud cluster (some node) k).1 ≡ (cluster.delete_node node k).1
unfolding delete_found
delete_found-node cloud cluster node k = elim (Outcome-cases (cluster.delete_node node k).0) [
  | inl (u, e) ↦ rw (e, delete_found) refl
  | inr (kube_not_found, e) ↦ rw (e, delete_found) refl
  | inr (kube_failed m, e) ↦ rw (e, delete_found) refl
]

collect_orphan-node :
    {W K : Type 0} (ecs : Ecs W) (list : Provider W → Outcome String (List NodeClaim) × Provider W)
    (cluster : Cluster K) (nodes : List Node) (claim : NodeClaim) (node : Node) (p : Provider W)
    (k : K)
    → claim.provider_id ≡ ""
    → find_node "" nodes ≡ some node
    → (collect_orphan
        (record { list = list; delete = delete_node_claim ecs })
        cluster
        nodes
        claim
        (p, k)).1
      ≡ (p, (cluster.delete_node node k).1)
unfolding collect_orphan
collect_orphan-node {W} ecs list cluster nodes claim node p k unlaunched first =
    let cloud : CloudProvider (Provider W) = record {
      list = list;
      delete = delete_node_claim ecs;
    } in
    let found : find_node claim.provider_id nodes ≡ some node =
      ap (λ id. find_node id nodes) unlaunched ∙ first in
    rw (delete_unlaunched ecs claim p unlaunched, collect_orphan, found)
      (ap (λ j. (p, j)) (delete_found-node cloud cluster node k))

-- A run in a cluster whose only NodeClaim still has no provider ID when its protection is over, in which
-- all lists are read without an error, no listed instance has an empty provider ID, and some node has:
-- the run deletes the first such node, although nothing connects it to the NodeClaim, and changes the
-- cloud provider no further than the listing does.
pub run_collection-wrong_node :
    {W K : Type 0} (ecs : Ecs W) (list : Provider W → Outcome String (List NodeClaim) × Provider W)
    (cluster : Cluster K) (now protection : ℕ) (p : Provider W) (k : K) (instances : List NodeClaim)
    (nodes : List Node) (claim : NodeClaim) (node : Node)
    → Reads
        (record { list = list; delete = delete_node_claim ecs })
        cluster
        p
        k
        instances
        nodes
        claim
        []
    → claim.provider_id ≡ ""
    → member "" (provider_ids instances) ≡ false
    → claim.creation_timestamp + protection ≤ now
    → find_node "" nodes ≡ some node
    → (run_collection
        (record { list = list; delete = delete_node_claim ecs })
        cluster
        now
        protection
        (p, k)).1
      ≡ ((list p).1, (cluster.delete_node node k).1)
unfolding collect collect_orphan is_orphan
run_collection-wrong_node {W} ecs list cluster now protection p k instances nodes claim node reads
      unlaunched absent aged first =
    let cloud : CloudProvider (Provider W) = record {
      list = list;
      delete = delete_node_claim ecs;
    } in
    ap (λ r. r.1) (run_lem cloud cluster now protection p k instances nodes claim [] reads)
    ∙ rw (orphan, collect)
        (collect_orphan-node ecs list cluster nodes claim node (list p).1 k unlaunched first)
  where
    orphan : is_orphan now protection (provider_ids instances) claim ≡ true
    orphan = aged_orphan (ap (λ id. member id (provider_ids instances)) unlaunched ∙ absent)
      where
        aged_orphan :
            member claim.provider_id (provider_ids instances) ≡ false
            → is_orphan now protection (provider_ids instances) claim ≡ true
        aged_orphan e = ground (arith, aged)
