-- ===== src/Collection.antt =====
-- The garbage collection controller, pkg/controllers/nodeclaim/garbagecollection/garbagecollection.go,
-- and `Delete` of pkg/cloudprovider/cloudprovider.go. The client of Kubernetes has the state `K`, and the
-- `cloudprovider.CloudProvider` of Karpenter that the controller holds the state `S`.
pub mod Orphans
pub mod Runs
use karpenter_provider_aliba.Prelude.{
  Bool, List, Option, Outcome, String, [], append_text, err, false, if◌then◌else◌, ltb, map, member,
  none, not, ok, some, str_eq, true, ℕ, ◌+◌, ◌-◌, ◌||◌, ◌∷◌,
}
use karpenter_provider_aliba.Instance.Calls.{
  Ecs, InstanceError, Provider, delete, instance_failed, nil_dereference, node_claim_not_found,
}
use karpenter_provider_aliba.NodeClaim.{KubeError, Node, NodeClaim, kube_failed, kube_not_found}
use karpenter_provider_aliba.ProviderId.{from_provider_id}
use karpenter_provider_aliba.Status.Reconcile.{ReconcileResult, done, requeue_after}

-- The interface `cloudprovider.CloudProvider`; the error of `Delete` is a `NodeClaimNotFoundError` or
-- another one.
pub record CloudProvider (S : Type 0) : Type 0 where
  pub list : S → Outcome String (List NodeClaim) × S
  pub delete : NodeClaim → S → Option InstanceError × S

pub record Cluster (K : Type 0) : Type 0 where
  pub list_node_claims : K → Outcome String (List NodeClaim)
  pub list_nodes : K → Outcome String (List Node)
  pub delete_node : Node → K → Outcome KubeError (Unit {0}) × K

-- `Delete` of the provider: a provider ID without an instance ID counts as deleted.
unfoldable pub delete_node_claim :
    {W : Type 0} → Ecs W → NodeClaim → Provider W → Option InstanceError × Provider W
unfolding from_provider_id delete
delete_node_claim ecs claim p =
    if str_eq (from_provider_id claim.provider_id) ""
    then (none, p)
    else delete ecs (from_provider_id claim.provider_id) p

-- `cloudprovider.IgnoreNodeClaimNotFoundError(err) != nil`
abbrev pub is_real_error : Option InstanceError → Bool
is_real_error none = false
is_real_error (some (node_claim_not_found m)) = false
is_real_error (some (instance_failed m)) = true
is_real_error (some nil_dereference) = true

-- `lo.FindIndexOf` by provider ID.
unfoldable pub find_node : String → List Node → Option Node
find_node id [] = none
find_node id (node ∷ nodes) =
    let rest = find_node id nodes in if str_eq node.provider_id id then some node else rest

-- The keys of `cloudProviderNodeClaimsByID`.
abbrev pub provider_ids : List NodeClaim → List String
provider_ids claims = map (λ c. c.provider_id) claims

-- A NodeClaim that the loop deletes.
unfoldable pub is_orphan : ℕ → ℕ → List String → NodeClaim → Bool
unfolding member
is_orphan now protection listed claim =
    if not (member claim.provider_id listed)
    then not (ltb now (claim.creation_timestamp + protection))
    else false

module _ {S K : Type 0} (cloud : CloudProvider S) (cluster : Cluster K) where
  -- The deletion of the node of an orphan, if there is one: whether the loop counts the orphan.
  unfoldable pub delete_found : Option Node → K → Bool × K
  delete_found none k = (true, k)
  delete_found (some node) k =
      let (answer, k') = cluster.delete_node node k in
      elim answer [
        | ok u ↦ (true, k')
        | err kube_not_found ↦ (true, k')
        | err (kube_failed m) ↦ (false, k')
      ]

  -- The body of the loop for an orphan.
  unfoldable pub collect_orphan : List Node → NodeClaim → S × K → Bool × (S × K)
  unfolding delete_found find_node
  collect_orphan nodes claim (s, k) =
      let (failure, s') = cloud.delete claim s in
      if is_real_error failure
      then (false, (s', k))
      else let (counted, k') = delete_found (find_node claim.provider_id nodes) k in
        (counted, (s', k'))

  -- The loop over the NodeClaims; the Boolean is `foundOrphans`.
  unfoldable pub collect :
      ℕ → ℕ → List String → List Node → List NodeClaim → Bool → S × K → Bool × (S × K)
  unfolding is_orphan collect_orphan
  collect now protection listed nodes [] found st = (found, st)
  collect now protection listed nodes (claim ∷ claims) found st =
      elim (is_orphan now protection listed claim) [
        | false ↦ collect now protection listed nodes claims found st
        | true ↦
            let (counted, st') = collect_orphan nodes claim st in
            collect now protection listed nodes claims (found || counted) st'
      ]

  abbrev pub with_requeue : Bool × (S × K) → (ReconcileResult × Option String) × (S × K)
  with_requeue (found, st) = ((requeue_after (if found then 60 else 300), none), st)

  -- `Reconcile`, once the run is due: its result, its error, and the new state.
  unfoldable pub run_collection : ℕ → ℕ → S × K → (ReconcileResult × Option String) × (S × K)
  unfolding collect
  run_collection now protection (s, k) = elim (cluster.list_node_claims k) [
    | err m ↦ ((done, some m), (s, k))
    | ok [] ↦ ((requeue_after 300, none), (s, k))
    | ok (claim ∷ claims) ↦
        let (listed, s') = cloud.list s in
        elim listed [
          | err m ↦ (
            (requeue_after 60, some (append_text "listing cloud provider instances, " m)),
            (s', k),
          )
          | ok instances ↦ elim (cluster.list_nodes k) [
            | err m ↦ ((requeue_after 300, some (append_text "listing nodes: " m)), (s', k))
            | ok nodes ↦ with_requeue (
                collect now protection (provider_ids instances) nodes (claim ∷ claims) false
                  (s', k))
          ]
        ]
  ]

  -- `Reconcile`; `lastRun` is part of the state. The clock does not run back.
  unfoldable pub reconcile_collection :
      ℕ → ℕ → ℕ → S × K → ((ReconcileResult × Option String) × (S × K)) × ℕ
  unfolding run_collection
  reconcile_collection now protection last_run st =
      if ltb now (last_run + 60)
      then (((requeue_after (60 - (now - last_run)), none), st), last_run)
      else (run_collection now protection st, now)
