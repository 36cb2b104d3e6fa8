-- ===== src/Tagging/Diff.antt =====
-- The diff of the tagging controller is complete and has nothing in vain.
use karpenter_provider_aliba.Prelude.{
  Bool-cases, Distinct, Option, String, [], ap, arith, false, if_intro, inl, inr, keys, lookup,
  lookup-none_of_not-member, member, none, or_else, refl, some, str_eq, str_eq_iff, sym, true, ◌∙◌,
  ◌∷◌, ◌≡◌, ◌≢◌,
}
use karpenter_provider_aliba.Tagging.{is_current, tags_to_apply}
use karpenter_provider_aliba.Utils.Tags.{Tags}

to_apply_absent :
    (k : String) (current desired : Tags)
    → member k (keys desired) ≡ false
    → member k (keys (tags_to_apply current desired)) ≡ false
unfolding member tags_to_apply
to_apply_absent k current [] h = refl
to_apply_absent k current ((j, v) ∷ desired) h = ground (arith, to_apply_absent k current desired)

pub tags_to_apply-Distinct :
    (current desired : Tags)
    → Distinct (keys desired)
    → Distinct (keys (tags_to_apply current desired))
unfolding tags_to_apply
tags_to_apply-Distinct current [] h = tt
tags_to_apply-Distinct current ((j, v) ∷ desired) h =
    if_intro (λ (t : Tags). Distinct (keys t)) (is_current v (lookup j current)) _ _
      (λ e. tags_to_apply-Distinct current desired h.1)
      λ e. (to_apply_absent j current desired h.0, tags_to_apply-Distinct current desired h.1)

is_current-true : (v : String) (o : Option String) → is_current v o ≡ true → o ≡ some v
is_current-true v none h = ground arith
is_current-true v (some c) h = ap some ((str_eq_iff c v).0 h)

is_current-false :
    (v w : String) (o : Option String)
    → is_current v o ≡ false
    → ◌≡◌ {A = Option String} (some v) (some w)
    → o ≢ some w
is_current-false v w none h e k = ground arith
is_current-false v w (some c) h e k =
    let same : c ≡ v = cc in ground (arith, (str_eq_iff c v).1 same)

-- Setting the tags of the diff gives the instance each desired tag with its value and leaves its other
-- tags; and no tag of the diff is on the instance with its value already.
pub tags_to_apply_complete :
    (current desired : Tags) (k : String)
    → Distinct (keys desired)
    → (or_else (lookup k (tags_to_apply current desired)) (lookup k current)
        ≡ or_else (lookup k desired) (lookup k current))
      × ((v : String)
          → lookup k (tags_to_apply current desired) ≡ some v
          → lookup k current ≢ some v)
unfolding tags_to_apply lookup member
tags_to_apply_complete current [] k h = (refl, λ v e. ground arith)
tags_to_apply_complete current ((j, v) ∷ desired) k h = elim (Bool-cases (str_eq j k)) [
  | inl same ↦
      let absent : lookup k (tags_to_apply current desired) ≡ none =
        lookup-none_of_not-member k (tags_to_apply current desired)
          (to_apply_absent k current desired (rw ((str_eq_iff j k).0 same) at h.0)) in
      let now = ap (λ i. lookup i current) ((str_eq_iff j k).0 same) in
      elim (Bool-cases (is_current v (lookup j current))) [
        | inl fresh ↦
            let held = sym now ∙ is_current-true v (lookup j current) fresh in
            rw (fresh, same, absent, held) (refl, λ w e. ground arith)
        | inr old ↦
            rw (old, same)
              (refl, λ w e k'. is_current-false v w (lookup j current) old e (now ∙ k'))
      ]
  | inr other ↦
      let rest = tags_to_apply_complete current desired k h.1 in
      elim (Bool-cases (is_current v (lookup j current))) [
        | inl fresh ↦ rw (fresh, other) rest
        | inr old ↦ rw (old, other) rest
      ]
]
