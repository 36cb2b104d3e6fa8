-- ===== src/Instance/Create/Complete.antt =====
-- An instance that Create made has every tag of the options, however many requests that takes.
use mathlib.Core.List.{map-append}
use mathlib.Core.Path.{subst}
use karpenter_provider_aliba.Prelude.{
  All, Ascending, Ascending-drop, Distinct, List, Option, Outcome, String, [], ap, arith, concat,
  err, keys, length, lookup, none, not-member_of_All-lt, ok, ok_injective, or_else, refl, some, sym,
  ◌++◌, ◌∙◌, ◌∷◌, ◌≡◌, ◌≤◌,
}
use karpenter_provider_aliba.Instance.{CreateOptions}
use karpenter_provider_aliba.Instance.Calls.{Ecs, tag_instance}
use karpenter_provider_aliba.Instance.Calls.Tagged.{TagLaws, or_else-swap, tag_instance-merged}
use karpenter_provider_aliba.Instance.Create.{
  Launching, apply_deferred, create, created_id, finish_create, groups_error,
}
use karpenter_provider_aliba.Instance.Requests.{
  Encoding, RunInstancesRequest, deferred_batches, first_batch, run_instances_request,
}
use karpenter_provider_aliba.Utils.SecurityGroups.{normalize_ids}
use karpenter_provider_aliba.Utils.Tags.{Tags, batch_tags, max_tags_per_request}
use karpenter_provider_aliba.Utils.Tags.Batches.{
  IsBatch, batch_tags-IsBatch, concat-batch_tags-Ascending, lookup-concat-batch_tags,
}

-- What Create relies on: an answer of RunInstances with an ID stands for an instance that has the tags of
-- the request, and no others.
pub record LaunchLaws {W : Type 0} (launching : Launching W) (tags_of : String → W → Tags)
    : Type 0 where
  pub tagged :
      (request : RunInstancesRequest) (id k : String) (ids : List (Option String)) (w : W)
      → (launching.run_instances request w).0 ≡ ok (some (some id ∷ ids))
      → lookup k (tags_of id (launching.run_instances request w).1) ≡ lookup k request.tag

Ascending-Distinct : (xs : List String) → Ascending xs → Distinct xs
Ascending-Distinct [] a = tt
Ascending-Distinct (x ∷ xs) a = (not-member_of_All-lt x xs a.0, Ascending-Distinct xs a.1)

or_else-none : (o : Option String) → or_else o none ≡ o
or_else-none none = refl
or_else-none (some v) = refl

All-append-left {κ} : (P : String → Type κ) (xs ys : List String) → All P (xs ++ ys) → All P xs
All-append-left P [] ys a = tt
All-append-left P (x ∷ xs) ys a = (a.0, All-append-left P xs ys a.1)

Ascending-append-left : (xs ys : List String) → Ascending (xs ++ ys) → Ascending xs
Ascending-append-left [] ys a = tt
Ascending-append-left (x ∷ xs) ys a = (All-append-left _ xs ys a.0, Ascending-append-left xs ys a.1)

first_batch-bound :
    (batches : List Tags)
    → All IsBatch batches
    → length (first_batch batches) ≤ max_tags_per_request
first_batch-bound [] h = omega arith
first_batch-bound (batch ∷ batches) h = h.0.1

module _ {W : Type 0} (ecs : Ecs W) (launching : Launching W) (e : Encoding)
    (tags_of : String → W → Tags) (tag_laws : TagLaws ecs tags_of) where
  -- The deferred batches add their tags to those that the instance has.
  apply_deferred-tags :
      (id k : String) (batches : List Tags) (w : W)
      → Ascending (keys (concat batches))
      → lookup k (tags_of id (apply_deferred ecs launching e id batches w))
        ≡ or_else (lookup k (concat batches)) (lookup k (tags_of id w))
  unfolding apply_deferred lookup
  apply_deferred-tags id k [] w a = refl
  apply_deferred-tags id k (batch ∷ batches) w a =
      let apart : Ascending (keys batch ++ keys (concat batches)) =
        subst Ascending (map-append (λ e. e.0) batch (concat batches)) a in
      let merged = tag_instance-merged ecs tags_of tag_laws id batch w (
        Ascending-Distinct (keys batch)
          (Ascending-append-left (keys batch) (keys (concat batches)) apart)) in
      apply_deferred-tags id k batches (tag_instance ecs id batch w).1
        (Ascending-drop (keys batch) (keys (concat batches)) apart)
      ∙ (ap (or_else (lookup k (concat batches))) (merged.1 k)
          ∙ or_else-swap k batch (concat batches) (lookup k (tags_of id w)) apart)

  -- The tags after the deferred batches, if those of the request are there before.
  all_batches-tags :
      (id k : String) (batches : List Tags) (w : W)
      → Ascending (keys (concat batches))
      → lookup k (tags_of id w) ≡ lookup k (first_batch batches)
      → lookup k (tags_of id (apply_deferred ecs launching e id (deferred_batches batches) w))
        ≡ lookup k (concat batches)
  unfolding apply_deferred
  all_batches-tags id k [] w a h = h
  all_batches-tags id k (batch ∷ batches) w a h =
      let apart : Ascending (keys batch ++ keys (concat batches)) =
        subst Ascending (map-append (λ e. e.0) batch (concat batches)) a in
      let joined = or_else-swap k batch (concat batches) none apart in
      apply_deferred-tags id k batches w (Ascending-drop (keys batch) (keys (concat batches)) apart)
      ∙ (ap (or_else (lookup k (concat batches))) (h ∙ sym (or_else-none (lookup k batch)))
          ∙ (joined ∙ or_else-none (lookup k (batch ++ concat batches))))

  -- A creation that succeeds had an ID in its answer, and then applied the deferred batches.
  finish_create-ok :
      (batches : List Tags) (r : Outcome String (Option (List (Option String))) × W) (id : String)
      → (finish_create ecs launching e batches r).0 ≡ ok id
      → (ids : List (Option String)) × (r.0 ≡ ok (some (some id ∷ ids)))
        × ((finish_create ecs launching e batches r).1
            ≡ apply_deferred ecs launching e id (deferred_batches batches) r.1)
  unfolding finish_create created_id
  finish_create-ok batches (err m, w) id h = cc
  finish_create-ok batches (ok none, w) id h = cc
  finish_create-ok batches (ok (some []), w) id h = cc
  finish_create-ok batches (ok (some (none ∷ ids)), w) id h = cc
  finish_create-ok batches (ok (some (some first ∷ ids)), w) id h =
      let same = ok_injective h in
      (
        ids,
        ap (λ x. ok (some (some x ∷ ids))) same,
        ap (λ x. apply_deferred ecs launching e x (deferred_batches batches) w) same,
      )

  -- If RunInstances gives the new instance the tags of its request, and TagResources takes requests of 1
  -- to 20 tags: when Create returns an ID, the request took at most 20 tags, and the instance has each
  -- tag of the options with its value and no other tag.
  pub create-tagged :
      LaunchLaws launching tags_of
      → (opts : CreateOptions) (w : W) (id : String) → Distinct (keys opts.tags)
      → (create ecs launching e opts w).0 ≡ ok id
      → (length
            (run_instances_request e opts
              (normalize_ids opts.security_group_ids)
              (batch_tags opts.tags)).tag
          ≤ max_tags_per_request)
        × ((k : String)
            → lookup k (tags_of id (create ecs launching e opts w).1) ≡ lookup k opts.tags)
  unfolding create run_instances_request
  create-tagged laws opts w id d h = (
    first_batch-bound (batch_tags opts.tags) (batch_tags-IsBatch opts.tags),
    λ k. made k (groups_error groups) h,
  )
    where
      groups : List String
      groups = normalize_ids opts.security_group_ids

      request : RunInstancesRequest
      request = run_instances_request e opts groups (batch_tags opts.tags)

      result : Option String → Outcome String String × W
      result o = elim o [
        | some message ↦ (err message, w)
        | none ↦
            finish_create ecs launching e (batch_tags opts.tags) (launching.run_instances request w)
      ]

      made :
          (k : String) (o : Option String)
          → (result o).0 ≡ ok id
          → lookup k (tags_of id (result o).1) ≡ lookup k opts.tags
      made k (some message) g = cc
      made k none g =
          let answer = launching.run_instances request w in
          let (ids, answered, finished) = finish_create-ok (batch_tags opts.tags) answer id g in
          ap (λ x. lookup k (tags_of id x)) finished
          ∙ (all_batches-tags id k (batch_tags opts.tags) answer.1
                (concat-batch_tags-Ascending opts.tags d) (laws.tagged request id k ids w answered)
              ∙ lookup-concat-batch_tags k opts.tags)
