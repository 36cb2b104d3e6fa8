-- ===== src/Utils/Tags.antt =====
-- pkg/utils/ecs/tags.go. A tag map is an association list; its keys are distinct, as Go's are.
pub mod Batches
use karpenter_provider_aliba.Prelude.{
  List, String, [], drop, if◌then◌else◌, keys, length, lookup, ltb, map, none, some, sort_texts,
  suc, take, zero, ℕ, ◌+◌, ◌-◌, ◌∷◌,
}

abbrev pub Tags : Type 0
Tags = List (String × String)

abbrev pub max_tags_per_request : ℕ
max_tags_per_request = 20

-- `tags[k]`, which is "" for a missing key.
unfoldable pub tag_value : String → Tags → String
unfolding lookup
tag_value k tags = elim (lookup k tags) [ none ↦ "" | some v ↦ v ]

-- `batch[k] = tags[k]` for each key of `keys[i:end]`. The keys are distinct, so each makes an entry.
unfoldable pub batch_of : Tags → List String → Tags
unfolding tag_value
batch_of tags ks = map (λ k. (k, tag_value k tags)) ks

-- The loop over `i`, with fuel. `Tags.Batches` shows that one more than the number of keys is enough.
unfoldable pub batches_from : ℕ → ℕ → List String → Tags → List Tags
unfolding batch_of
batches_from zero i ks tags = []
batches_from (suc fuel) i ks tags =
    let end =
      if ltb (length ks) (i + max_tags_per_request) then length ks else i + max_tags_per_request in
    let rest = batches_from fuel (i + max_tags_per_request) ks tags in
    if ltb i (length ks) then batch_of tags (take (end - i) (drop i ks)) ∷ rest else []

unfoldable pub batch_tags : Tags → List Tags
unfolding batches_from sort_texts
batch_tags [] = []
batch_tags (t ∷ tags) =
    let ks = sort_texts (keys (t ∷ tags)) in batches_from (suc (length ks)) 0 ks (t ∷ tags)
