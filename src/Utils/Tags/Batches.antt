-- ===== src/Utils/Tags/Batches.antt =====
-- The batches of a tag map respect the request limit and hold every tag once.
use mathlib.Core.List.{map-append}
use karpenter_provider_aliba.Prelude.{
  All, Ascending, Bool-cases, Distinct, List, String, [], ap, arith, concat, drop, drop-add,
  drop_all, if◌then◌else◌, inl, inr, keys, length, length-drop, length-map, length-sort_texts,
  length-take, lookup, lookup-none_of_not-member, ltb, member, member-sort_texts, none, refl, some,
  sort_texts, sort_texts-Ascending, str_eq_iff, suc, sym, take, take-append-drop, take_all, tests,
  true, zero, ℕ, ◌++◌, ◌+◌, ◌-◌, ◌/◌, ◌<◌, ◌∙◌, ◌∷◌, ◌≡◌, ◌≤◌,
}
use karpenter_provider_aliba.Utils.Tags.{
  Tags, batch_of, batch_tags, batches_from, max_tags_per_request, tag_value,
}

-- `keys[i:end]` is the next 20 keys, or all that are left.
abbrev slice_end : ℕ → ℕ → ℕ
slice_end i n = if ltb n (i + max_tags_per_request) then n else i + max_tags_per_request

add-sub_self : (i : ℕ) → i + max_tags_per_request - i ≡ max_tags_per_request
add-sub_self i = omega arith

slice_lem :
    (i : ℕ) (ks : List String)
    → take (slice_end i (length ks) - i) (drop i ks) ≡ take max_tags_per_request (drop i ks)
slice_lem i ks = elim (Bool-cases (ltb (length ks) (i + max_tags_per_request))) [
  | inl short ↦ rw short (
      take_all (length ks - i) (drop i ks) (omega (arith, length-drop i ks))
      ∙ sym (take_all max_tags_per_request (drop i ks) (omega (tests, length-drop i ks, short))))
  | inr long ↦ rw long (ap (λ n. take n (drop i ks)) (add-sub_self i))
]

length-batch_of : (tags : Tags) (ks : List String) → length (batch_of tags ks) ≡ length ks
unfolding batch_of
length-batch_of tags ks = length-map (λ k. (k, tag_value k tags)) ks

batch_of-append :
    (tags : Tags) (xs ys : List String)
    → batch_of tags (xs ++ ys) ≡ batch_of tags xs ++ batch_of tags ys
unfolding batch_of
batch_of-append tags xs ys = map-append (λ k. (k, tag_value k tags)) xs ys

abbrev pub IsBatch : Tags → Type 0
IsBatch batch = (1 ≤ length batch) × (length batch ≤ max_tags_per_request)

batches_from-IsBatch :
    (fuel i : ℕ) (ks : List String) (tags : Tags) → All IsBatch (batches_from fuel i ks tags)
unfolding batches_from
batches_from-IsBatch zero i ks tags = tt
batches_from-IsBatch (suc fuel) i ks tags = elim (Bool-cases (ltb i (length ks))) [
  | inl more ↦ rw more (batch more, batches_from-IsBatch fuel (i + max_tags_per_request) ks tags)
  | inr done ↦ rw done tt
]
  where
    batch :
        ltb i (length ks) ≡ true
        → IsBatch (batch_of tags (take (slice_end i (length ks) - i) (drop i ks)))
    batch more = omega (
      tests,
      more,
      length-batch_of tags (take (slice_end i (length ks) - i) (drop i ks)),
      ap length (slice_lem i ks),
      length-take max_tags_per_request (drop i ks),
      length-drop i ks,
    )

joined :
    (i : ℕ) (ks : List String)
    → take max_tags_per_request (drop i ks) ++ drop (i + max_tags_per_request) ks ≡ drop i ks
joined i ks =
    rw (drop-add i max_tags_per_request ks) (take-append-drop max_tags_per_request (drop i ks))

-- The loop's batches, joined, are the entries of the keys from `i` on.
concat-batches_from :
    (fuel i : ℕ) (ks : List String) (tags : Tags)
    → length ks < fuel + i
    → concat (batches_from fuel i ks tags) ≡ batch_of tags (drop i ks)
unfolding batches_from
concat-batches_from zero i ks tags h = rw (drop_all i ks (omega arith)) (unfold batch_of in refl)
concat-batches_from (suc fuel) i ks tags h = elim (Bool-cases (ltb i (length ks))) [
  | inl more ↦ rw more (
      rw (slice_lem i ks, concat-batches_from fuel (i + max_tags_per_request) ks tags (omega arith))
        (sym (
            batch_of-append tags (take max_tags_per_request (drop i ks))
              (drop (i + max_tags_per_request) ks))
          ∙ ap (batch_of tags) (joined i ks)))
  | inr done ↦ rw done (rw (drop_all i ks (ground arith)) (unfold batch_of in refl))
]

length-batches_from :
    (fuel i : ℕ) (ks : List String) (tags : Tags)
    → length ks < fuel + i
    → length (batches_from fuel i ks tags) ≡ (length ks - i + 19) / max_tags_per_request
unfolding batches_from
length-batches_from zero i ks tags h = omega arith
length-batches_from (suc fuel) i ks tags h =
    ground (arith, length-batches_from fuel (i + max_tags_per_request) ks tags (omega arith))

lookup-batch_of :
    (tags : Tags) (k : String) (ks : List String)
    → lookup k (batch_of tags ks) ≡ (if member k ks then some (tag_value k tags) else none)
unfolding lookup member batch_of
lookup-batch_of tags k [] = refl
lookup-batch_of tags k (j ∷ ks) = ground (arith, lookup-batch_of tags k ks, str_eq_iff j k, same)
  where
    same : j ≡ k → tag_value j tags ≡ tag_value k tags
    same e = ap (λ x. tag_value x tags) e

found_of_member :
    (k : String) (tags : Tags)
    → member k (keys tags) ≡ true
    → lookup k tags ≡ some (tag_value k tags)
unfolding tag_value lookup member
found_of_member k [] h = ground arith
found_of_member k ((j, v) ∷ tags) h = ground (arith, found_of_member k tags)

keys-batch_of : (tags : Tags) (ks : List String) → keys (batch_of tags ks) ≡ ks
unfolding batch_of
keys-batch_of tags [] = refl
keys-batch_of tags (k ∷ ks) = ap (◌∷◌ k) (keys-batch_of tags ks)

concat-batch_tags :
    (tags : Tags) → concat (batch_tags tags) ≡ batch_of tags (sort_texts (keys tags))
unfolding batch_tags
concat-batch_tags [] = unfold batch_of sort_texts in refl
concat-batch_tags (t ∷ tags) =
    concat-batches_from (suc (length (sort_texts (keys (t ∷ tags))))) 0
      (sort_texts (keys (t ∷ tags))) (t ∷ tags) (omega arith)

-- Every batch holds at least one and at most 20 tags.
pub batch_tags-IsBatch : (tags : Tags) → All IsBatch (batch_tags tags)
unfolding batch_tags
batch_tags-IsBatch [] = tt
batch_tags-IsBatch (t ∷ tags) =
    let ks = sort_texts (keys (t ∷ tags)) in batches_from-IsBatch (suc (length ks)) 0 ks (t ∷ tags)

-- There are as many batches as the tags need, 20 to a batch: no request is made in vain.
pub length-batch_tags :
    (tags : Tags) → length (batch_tags tags) ≡ (length tags + 19) / max_tags_per_request
unfolding batch_tags
length-batch_tags [] = refl
length-batch_tags (t ∷ tags) = omega (
  arith,
  length-batches_from (suc (length (sort_texts (keys (t ∷ tags))))) 0 (sort_texts (keys (t ∷ tags)))
      (t ∷ tags),
  length-sort_texts (keys (t ∷ tags)),
  length-map {0, 0} {A = String × String} (λ e. e.0) (t ∷ tags),
)

-- The batches together hold every tag of the map with its value, and no other tag.
pub lookup-concat-batch_tags :
    (k : String) (tags : Tags) → lookup k (concat (batch_tags tags)) ≡ lookup k tags
lookup-concat-batch_tags k tags = ground (
  arith,
  ap (lookup k) (concat-batch_tags tags),
  lookup-batch_of tags k (sort_texts (keys tags)),
  member-sort_texts k (keys tags),
  found_of_member k tags,
  lookup-none_of_not-member k tags,
)

-- No tag is in two batches, and the tags rise in key order from batch to batch.
pub concat-batch_tags-Ascending :
    (tags : Tags) → Distinct (keys tags) → Ascending (keys (concat (batch_tags tags)))
concat-batch_tags-Ascending tags h =
    rw (concat-batch_tags tags, keys-batch_of tags (sort_texts (keys tags)))
      (sort_texts-Ascending (keys tags) h)
