-- ===== src/Collection/Orphans.antt =====
-- Which NodeClaims and nodes a collection may delete.
use mathlib.Core.List.{Memᴰ}
use karpenter_provider_aliba.Prelude.{
  Bool, Bool-cases, List, Option, Outcome-cases, String, [], ap, arith, false, inl, inr, member,
  none, refl, some, str_eq, str_eq_iff, sym, true, ℕ, ◌+◌, ◌||◌, ◌∙◌, ◌∷◌, ◌≡◌, ◌≤◌,
}
use karpenter_provider_aliba.Collection.{
  CloudProvider, Cluster, collect, collect_orphan, delete_found, find_node, is_orphan,
  is_real_error, provider_ids,
}
use karpenter_provider_aliba.NodeClaim.{Node, NodeClaim, kube_failed, kube_not_found}

find_node-listed :
    (id : String) (nodes : List Node) (node : Node)
    → find_node id nodes ≡ some node
    → Memᴰ node nodes × (node.provider_id ≡ id)
unfolding find_node
find_node-listed id [] node h = cc
find_node-listed id (n ∷ nodes) node h = elim (Bool-cases (str_eq n.provider_id id)) [
  | inl same ↦
      let first : n ≡ node = some_same (rw same at h) in
      (
        Memᴰ.head (sym first),
        sym (ap (λ m. m.provider_id) first) ∙ (str_eq_iff n.provider_id id).0 same,
      )
  | inr other ↦
      let rest = find_node-listed id nodes node (rw other at h) in (Memᴰ.tail rest.0, rest.1)
]
  where
    some_same : {a b : Node} → ◌≡◌ {A = Option Node} (some a) (some b) → a ≡ b
    some_same e = cc

module _ {S K : Type 0} (cloud : CloudProvider S) (cluster : Cluster K) (now protection : ℕ)
    (instances : List NodeClaim) (nodes : List Node) (claims : List NodeClaim) where
  -- A NodeClaim of the list that is due for deletion: no instance that the cloud provider lists has its
  -- provider ID, and its time of protection is over.
  pub record IsDue (claim : NodeClaim) : Type 0 where
    pub listed : Memᴰ claim claims
    pub absent : member claim.provider_id (provider_ids instances) ≡ false
    pub aged : claim.creation_timestamp + protection ≤ now

  -- The states that calls of `Delete` for such NodeClaims, and deletions of listed nodes with the provider
  -- ID of one, lead to.
  pub data Deletions : S × K → S × K → Type 0 where
    no_more : {st : S × K} → Deletions st st
    claim_deleted :
        {s : S} {k : K} {st : S × K} (claim : NodeClaim)
        → IsDue claim
        → Deletions ((cloud.delete claim s).1, k) st
        → Deletions (s, k) st
    node_deleted :
        {s : S} {k : K} {st : S × K} (claim : NodeClaim) (node : Node)
        → IsDue claim
        → Memᴰ node nodes
        → node.provider_id ≡ claim.provider_id
        → Deletions (s, (cluster.delete_node node k).1) st
        → Deletions (s, k) st

  Deletions-trans : {a b c : S × K} → Deletions a b → Deletions b c → Deletions a c
  Deletions-trans no_more e = e
  Deletions-trans (claim_deleted claim due d) e = claim_deleted claim due (Deletions-trans d e)
  Deletions-trans (node_deleted claim node due m same d) e =
      node_deleted claim node due m same (Deletions-trans d e)

  delete_found-Deletions :
      (claim : NodeClaim)
      → IsDue claim
      → (o : Option Node)
      → ((node : Node) → o ≡ some node → Memᴰ node nodes × (node.provider_id ≡ claim.provider_id))
      → (s : S) (k : K) → Deletions (s, k) (s, (delete_found cloud cluster o k).1)
  unfolding delete_found
  delete_found-Deletions claim due none h s k = no_more
  delete_found-Deletions claim due (some node) h s k =
      let (m, same) = h node refl in
      let one = node_deleted claim node due m same no_more in
      elim (Outcome-cases (cluster.delete_node node k).0) [
        | inl (u, e) ↦ rw (e, delete_found) one
        | inr (kube_not_found, e) ↦ rw (e, delete_found) one
        | inr (kube_failed f, e) ↦ rw (e, delete_found) one
      ]

  collect_orphan-Deletions :
      (claim : NodeClaim)
      → IsDue claim
      → (st : S × K) → Deletions st (collect_orphan cloud cluster nodes claim st).1
  unfolding collect_orphan
  collect_orphan-Deletions claim due (s, k) =
      elim (Bool-cases (is_real_error (cloud.delete claim s).0)) [
        | inl e ↦ rw (e, collect_orphan) (claim_deleted claim due no_more)
        | inr e ↦
            rw (e, collect_orphan)
              (claim_deleted claim due (
                delete_found-Deletions claim due (find_node claim.provider_id nodes)
                  (find_node-listed claim.provider_id nodes) (cloud.delete claim s).1 k))
      ]

  due :
      (claim : NodeClaim)
      → Memᴰ claim claims
      → is_orphan now protection (provider_ids instances) claim ≡ true
      → IsDue claim
  unfolding is_orphan
  due claim m h = record { listed = m; absent = ground (arith, h); aged = ground (arith, h) }

  pub collect-Deletions :
      (rest : List NodeClaim)
      → ((claim : NodeClaim) → Memᴰ claim rest → Memᴰ claim claims)
      → (found : Bool) (st : S × K)
      → Deletions st
          (collect cloud cluster now protection (provider_ids instances) nodes rest found st).1
  unfolding collect
  collect-Deletions [] sub found st = no_more
  collect-Deletions (claim ∷ rest) sub found st =
      let later = λ (c : NodeClaim) (m : Memᴰ c rest). sub c (Memᴰ.tail m) in
      elim (Bool-cases (is_orphan now protection (provider_ids instances) claim)) [
        | inl e ↦
            let step = collect_orphan cloud cluster nodes claim st in
            rw (e, collect)
              (Deletions-trans
                (collect_orphan-Deletions claim (due claim (sub claim (Memᴰ.head refl)) e) st)
                (collect-Deletions rest later (found || step.0) step.1))
        | inr e ↦ rw (e, collect) (collect-Deletions rest later found st)
      ]
