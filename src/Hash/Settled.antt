-- ===== src/Hash/Settled.antt =====
-- What a successful attempt of the hash controller leaves.
use karpenter_provider_aliba.Prelude.{
  Bool-cases, Option-cases, Outcome, Outcome-cases, String, arith, inl, inr, insert, lookup,
  lookup-insert, none, ok, refl, some, str_eq_iff, true, ◌↔◌, ◌∙◌, ◌≡◌,
}
use karpenter_provider_aliba.Hash.{
  AnnotatedClass, ClassStore, NodeClassHashInput, compute_hash, is_hashed, set_hash, update_once,
  write_hash,
}
use karpenter_provider_aliba.NodeClass.Labels.{
  annotation_ecs_node_class_hash, annotation_ecs_node_class_hash_version,
}
use karpenter_provider_aliba.Utils.Tags.{Tags, tag_value}

-- What the controller relies on: a node class is read back as it was written.
pub record StoreLaws {K : Type 0} (store : ClassStore K) : Type 0 where
  pub read_back :
      (class : AnnotatedClass) (k : K)
      → (store.update_class class k).0 ≡ none
      → store.get_class (store.update_class class k).1 ≡ ok class

tag_value_lem : (k v : String) (tags : Tags) → lookup k tags ≡ some v → tag_value k tags ≡ v
unfolding tag_value
tag_value_lem k v tags h = rw (h, tag_value) refl

tag_value-set_hash :
    (hash : String) (class : AnnotatedClass)
    → (tag_value annotation_ecs_node_class_hash (set_hash hash class).annotations ≡ hash)
      × (tag_value annotation_ecs_node_class_hash_version (set_hash hash class).annotations ≡ "v1")
unfolding set_hash
tag_value-set_hash hash class =
    let first = insert annotation_ecs_node_class_hash hash class.annotations in
    let version =
      lookup-insert annotation_ecs_node_class_hash_version annotation_ecs_node_class_hash_version
        "v1" first in
    let value =
      lookup-insert annotation_ecs_node_class_hash_version annotation_ecs_node_class_hash "v1" first
      ∙ lookup-insert annotation_ecs_node_class_hash annotation_ecs_node_class_hash hash
          class.annotations in
    (
      tag_value_lem annotation_ecs_node_class_hash hash _ value,
      tag_value_lem annotation_ecs_node_class_hash_version "v1" _ version,
    )

-- The guard of the code is that of the two annotations.
is_hashed_iff :
    (hash : String) (annotations : Tags)
    → (is_hashed hash annotations ≡ true) ↔ (
        (tag_value annotation_ecs_node_class_hash annotations ≡ hash)
        × (tag_value annotation_ecs_node_class_hash_version annotations ≡ "v1"))
unfolding is_hashed
is_hashed_iff hash annotations =
    let value = tag_value annotation_ecs_node_class_hash annotations in
    let version = tag_value annotation_ecs_node_class_hash_version annotations in
    (
      λ h. (
        (str_eq_iff value hash).0 (ground (arith, h)),
        (str_eq_iff version "v1").0 (ground (arith, h)),
      ),
      λ h. rw ((str_eq_iff value hash).1 h.0, (str_eq_iff version "v1").1 h.1) refl,
    )

-- The state after a success: the node class is there, and its annotations hold its hash and the version.
pub record IsSettled {K : Type 0} (store : ClassStore K)
    (digest : NodeClassHashInput → Outcome String String) (k : K) : Type 0 where
  pub class : AnnotatedClass
  pub hash : String
  pub stored_class : store.get_class k ≡ ok class
  pub computed : compute_hash store digest class.spec ≡ ok hash
  pub hashed : tag_value annotation_ecs_node_class_hash class.annotations ≡ hash
  pub versioned : tag_value annotation_ecs_node_class_hash_version class.annotations ≡ "v1"

module _ {K : Type 0} (store : ClassStore K) (digest : NodeClassHashInput → Outcome String String)
    (laws : StoreLaws store) where
  written :
      (latest : AnnotatedClass) (hash : String) (k : K)
      → store.get_class k ≡ ok latest
      → compute_hash store digest latest.spec ≡ ok hash
      → (write_hash store digest latest (ok hash) k).0 ≡ none
      → IsSettled store digest (write_hash store digest latest (ok hash) k).1
  unfolding write_hash
  written latest hash k read computed h = elim (Bool-cases (is_hashed hash latest.annotations)) [
    | inl held ↦
        rw (held, write_hash)
          (record {
            class = latest;
            hash = hash;
            stored_class = read;
            computed = computed;
            hashed = ((is_hashed_iff hash latest.annotations).0 held).0;
            versioned = ((is_hashed_iff hash latest.annotations).0 held).1;
          })
    | inr old ↦ elim (Option-cases (store.update_class (set_hash hash latest) k).0) [
      | inl n ↦
          rw (old, write_hash)
            (record {
              class = set_hash hash latest;
              hash = hash;
              stored_class = laws.read_back (set_hash hash latest) k n;
              computed = unfold set_hash in computed;
              hashed = (tag_value-set_hash hash latest).0;
              versioned = (tag_value-set_hash hash latest).1;
            })
      | inr (e, n) ↦ ground (arith, rw (old, n, write_hash) at h)
    ]
  ]

  settled_again : (k : K) → IsSettled store digest k → update_once store digest k ≡ (none, k)
  unfolding update_once write_hash
  settled_again k s =
      let held = (is_hashed_iff s.hash s.class.annotations).1 (s.hashed, s.versioned) in
      rw (s.stored_class, update_once, s.computed, held, write_hash) refl

  -- An attempt that succeeds leaves the node class with the hash of its specification and the version of
  -- the hashes in its annotations, and another attempt then succeeds and writes nothing.
  pub update_once-IsSettled :
      (k : K)
      → (update_once store digest k).0 ≡ none
      → IsSettled store digest (update_once store digest k).1
        × (update_once store digest (update_once store digest k).1
            ≡ (none, (update_once store digest k).1))
  unfolding update_once write_hash
  update_once-IsSettled k h = (settled k h, settled_again _ (settled k h))
    where
      settled :
          (k : K)
          → (update_once store digest k).0 ≡ none
          → IsSettled store digest (update_once store digest k).1
      settled k h = elim (Outcome-cases (store.get_class k)) [
        | inr (e, n) ↦ ground (arith, rw (n, update_once) at h)
        | inl (latest, read) ↦ elim (Outcome-cases (compute_hash store digest latest.spec)) [
          | inr (m, n) ↦ ground (arith, rw (read, update_once, n, write_hash) at h)
          | inl (hash, computed) ↦
              rw (read, update_once, computed)
                (written latest hash k read computed (rw (read, update_once, computed) at h))
        ]
      ]
