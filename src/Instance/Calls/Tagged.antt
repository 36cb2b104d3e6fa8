-- ===== src/Instance/Calls/Tagged.antt =====
-- `TagInstance` sets every tag that it is given, however many batches that takes.
use mathlib.Core.Path.{subst}
use mathlib.Core.List.{map-append}
use karpenter_provider_aliba.Prelude.{
  All, Ascending, Ascending-drop, Distinct, List, Option, Option-cases, String, [], ap,
  apart_of_Ascending, arith, concat, inl, inr, keys, length, lookup, lookup-append,
  lookup-none_of_not-member, member, none, or_else, refl, some, sym, true, ℕ, ◌++◌, ◌+◌, ◌∙◌, ◌∷◌,
  ◌≡◌,
}
use karpenter_provider_aliba.Instance.Calls.{Ecs, tag_batches, tag_instance}
use karpenter_provider_aliba.Utils.Tags.{Tags, batch_tags}
use karpenter_provider_aliba.Utils.Tags.Batches.{
  IsBatch, batch_tags-IsBatch, concat-batch_tags-Ascending, lookup-concat-batch_tags,
}

-- A request that ECS takes sets its tags and leaves the others of the instance.
abbrev pub TagEffects : {W : Type 0} → Ecs W → (String → W → Tags) → Type 0
TagEffects {W} ecs tags_of =
    (id k : String) (batch : Tags) (w : W)
    → (ecs.tag_resources id batch w).0 ≡ none
    → lookup k (tags_of id (ecs.tag_resources id batch w).1)
      ≡ or_else (lookup k batch) (lookup k (tags_of id w))

-- In some state, ECS refuses a request of 1 to 20 tags for the instance.
abbrev pub Refuses : {W : Type 0} → Ecs W → String → Type 0
Refuses {W} ecs id =
    (batch : Tags) × (w : W) × (m : String) × IsBatch batch
    × ((ecs.tag_resources id batch w).0 ≡ some m)

-- What TagInstance relies on: ECS takes every request of 1 to 20 tags, and a request that it takes sets
-- its tags and leaves the others of the instance.
pub record TagLaws {W : Type 0} (ecs : Ecs W) (tags_of : String → W → Tags) : Type 0 where
  pub accepts :
      (id : String) (batch : Tags) (w : W) → IsBatch batch → (ecs.tag_resources id batch w).0 ≡ none
  pub merges : TagEffects ecs tags_of

member_of_lookup :
    (k v : String) (tags : Tags) → lookup k tags ≡ some v → member k (keys tags) ≡ true
unfolding lookup member
member_of_lookup k v [] h = cc
member_of_lookup k v ((j, w) ∷ tags) h = ground (arith, member_of_lookup k v tags)

-- A later batch does not change a tag of an earlier one.
pub or_else-swap :
    (k : String) (b c : Tags) (old : Option String)
    → Ascending (keys b ++ keys c)
    → or_else (lookup k c) (or_else (lookup k b) old) ≡ or_else (lookup k (b ++ c)) old
or_else-swap k b c old h = elim (Option-cases (lookup k b)) [
  | inl n ↦ rw (lookup-append k b c, n) refl
  | inr (v, n) ↦
      let absent =
        lookup-none_of_not-member k c
          (apart_of_Ascending k (keys b) (keys c) h (member_of_lookup k v b n)) in
      rw (lookup-append k b c, n, absent) refl
]

module _ {W : Type 0} (ecs : Ecs W) where
  tag_batches-refused :
      (id : String) (i n : ℕ) (batches : List Tags) (w : W) {m : String}
      → All IsBatch batches
      → (tag_batches ecs id i n batches w).0 ≡ some m
      → Refuses ecs id
  unfolding tag_batches
  tag_batches-refused id i n [] w h e = ground arith
  tag_batches-refused id i n (batch ∷ batches) w h e =
      elim (Option-cases (ecs.tag_resources id batch w).0) [
        | inl taken ↦
            tag_batches-refused id (i + 1) n batches (ecs.tag_resources id batch w).1 h.1
              (rw (taken, tag_batches) at e)
        | inr (m, denied) ↦ (batch, w, m, h.0, denied)
      ]

  -- If TagInstance fails, ECS refused one of its requests.
  pub tag_instance-refused :
      (id : String) (tags : Tags) (w : W) {m : String}
      → (tag_instance ecs id tags w).0 ≡ some m
      → Refuses ecs id
  unfolding tag_instance
  tag_instance-refused id [] w e = ground arith
  tag_instance-refused id (t ∷ tags) w e =
      tag_batches-refused id 1 (length (batch_tags (t ∷ tags))) (batch_tags (t ∷ tags)) w
        (batch_tags-IsBatch (t ∷ tags)) e

module _ {W : Type 0} (ecs : Ecs W) (tags_of : String → W → Tags)
    (effects : TagEffects ecs tags_of) where
  tag_batches-sets :
      (id : String) (i n : ℕ) (batches : List Tags) (w : W)
      → Ascending (keys (concat batches))
      → (tag_batches ecs id i n batches w).0 ≡ none
      → (k : String)
      → lookup k (tags_of id (tag_batches ecs id i n batches w).1)
        ≡ or_else (lookup k (concat batches)) (lookup k (tags_of id w))
  unfolding tag_batches lookup
  tag_batches-sets id i n [] w a e k = refl
  tag_batches-sets id i n (batch ∷ batches) w a e k =
      elim (Option-cases (ecs.tag_resources id batch w).0) [
        | inl taken ↦
            let apart : Ascending (keys batch ++ keys (concat batches)) =
              subst Ascending (map-append (λ e. e.0) batch (concat batches)) a in
            let rest =
              tag_batches-sets id (i + 1) n batches (ecs.tag_resources id batch w).1
                (Ascending-drop (keys batch) (keys (concat batches)) apart)
                (rw (taken, tag_batches) at e) k in
            rw (taken, tag_batches)
              (rest
                ∙ (ap (or_else (lookup k (concat batches))) (effects id k batch w taken)
                    ∙ or_else-swap k batch (concat batches) (lookup k (tags_of id w)) apart))
        | inr (m, denied) ↦ ground (arith, rw (denied, tag_batches) at e)
      ]

  -- A TagInstance that succeeds sets each of its tags and leaves the others of the instance.
  pub tag_instance-sets :
      (id : String) (tags : Tags) (w : W)
      → Distinct (keys tags)
      → (tag_instance ecs id tags w).0 ≡ none
      → (k : String)
      → lookup k (tags_of id (tag_instance ecs id tags w).1)
        ≡ or_else (lookup k tags) (lookup k (tags_of id w))
  unfolding tag_instance lookup
  tag_instance-sets id [] w d e k = refl
  tag_instance-sets id (t ∷ tags) w d e k =
      tag_batches-sets id 1 (length (batch_tags (t ∷ tags))) (batch_tags (t ∷ tags)) w
        (concat-batch_tags-Ascending (t ∷ tags) d) e k
      ∙ ap (λ o. or_else o (lookup k (tags_of id w))) (lookup-concat-batch_tags k (t ∷ tags))

module _ {W : Type 0} (ecs : Ecs W) (tags_of : String → W → Tags) (laws : TagLaws ecs tags_of) where
  -- If ECS takes requests of 1 to 20 tags, TagInstance succeeds with any number of tags, after which the
  -- instance has each of them with its value, and its other tags as before.
  pub tag_instance-merged :
      (id : String) (tags : Tags) (w : W)
      → Distinct (keys tags)
      → ((tag_instance ecs id tags w).0 ≡ none)
        × ((k : String)
            → lookup k (tags_of id (tag_instance ecs id tags w).1)
              ≡ or_else (lookup k tags) (lookup k (tags_of id w)))
  tag_instance-merged id tags w d = elim (Option-cases (tag_instance ecs id tags w).0) [
    | inl taken ↦ (taken, tag_instance-sets ecs tags_of laws.merges id tags w d taken)
    | inr (m, unset) ↦
        let (batch, v, m', small, denied) = tag_instance-refused ecs id tags w unset in
        ground (arith, sym denied ∙ laws.accepts id batch v small)
  ]
