-- ===== src/Utils/SecurityGroups/Equality.antt =====
-- What the normal form of a list of security group IDs is, and what `EqualIDs` decides.
use karpenter_provider_aliba.Prelude.{
  Ascending, Ascending-ext, Bool-cases, Distinct, List, String, [], ap, arith, false, inl, inr,
  length, member, member-sort_texts, refl, sort_texts-Ascending, str_eq, str_eq_iff, str_eq_refl,
  sym, true, ◌||◌, ◌↔◌, ◌∙◌, ◌∷◌, ◌≡◌,
}
use karpenter_provider_aliba.Utils.SecurityGroups.{
  add_seen, collect_seen, normalize_ids, same_at_each_index, equal_ids,
}

member-add_seen :
    (a id : String) (seen : List String)
    → member a (add_seen id seen) ≡ str_eq id a || member a seen
unfolding member add_seen
member-add_seen a id seen = ground (arith, str_eq_iff id a, same)
  where
    same : id ≡ a → member id seen ≡ member a seen
    same e = ap (λ x. member x seen) e

member-collect_seen :
    (a : String) (seen ids : List String)
    → member a (collect_seen seen ids) ≡ member a ids || member a seen
unfolding member collect_seen
member-collect_seen a seen [] = refl
member-collect_seen a seen (id ∷ ids) =
    ground (arith, member-collect_seen a (add_seen id seen) ids, member-add_seen a id seen)

collect_seen-Distinct : (seen ids : List String) → Distinct seen → Distinct (collect_seen seen ids)
unfolding collect_seen
collect_seen-Distinct seen [] h = h
collect_seen-Distinct seen (id ∷ ids) h = collect_seen-Distinct (add_seen id seen) ids (extended h)
  where
    extended : Distinct seen → Distinct (add_seen id seen)
    extended d = elim (Bool-cases (member id seen)) [
      | inl old ↦ rw old d
      | inr new ↦ rw new (new, d)
    ]

-- Normalising keeps exactly the IDs of the list.
pub member-normalize_ids :
    (a : String) (ids : List String) → member a (normalize_ids ids) ≡ member a ids
unfolding normalize_ids
member-normalize_ids a [] = refl
member-normalize_ids a (id ∷ ids) = ground (
  arith,
  member-sort_texts a (collect_seen [] (id ∷ ids)),
  member-collect_seen a [] (id ∷ ids),
  nowhere,
)
  where
    nowhere : member a [] ≡ false
    nowhere = unfold member in refl

-- The normal form is strictly rising: sorted, and without duplicates.
pub normalize_ids-Ascending : (ids : List String) → Ascending (normalize_ids ids)
unfolding normalize_ids
normalize_ids-Ascending [] = tt
normalize_ids-Ascending (id ∷ ids) =
    sort_texts-Ascending (collect_seen [] (id ∷ ids)) (collect_seen-Distinct [] (id ∷ ids) tt)

eq_of_same_at_each_index :
    (xs ys : List String) → length xs ≡ length ys → same_at_each_index xs ys ≡ true → xs ≡ ys
unfolding same_at_each_index
eq_of_same_at_each_index [] [] e h = refl
eq_of_same_at_each_index [] (y ∷ ys) e h = absurd (omega arith)
eq_of_same_at_each_index (x ∷ xs) [] e h = ground arith
eq_of_same_at_each_index (x ∷ xs) (y ∷ ys) e h =
    ground (arith, eq_of_same_at_each_index xs ys, str_eq_iff x y)

same_at_each_index_refl : (xs : List String) → same_at_each_index xs xs ≡ true
unfolding same_at_each_index
same_at_each_index_refl [] = refl
same_at_each_index_refl (x ∷ xs) = ground (arith, str_eq_refl x, same_at_each_index_refl xs)

-- `EqualIDs` holds exactly of two lists with the same IDs, whatever their order and repetitions.
pub equal_ids_iff :
    (left right : List String)
    → (equal_ids left right ≡ true) ↔ ((a : String) → member a left ≡ member a right)
unfolding equal_ids
equal_ids_iff left right = (forth, back)
  where
    l : List String
    l = normalize_ids left

    r : List String
    r = normalize_ids right

    forth : equal_ids left right ≡ true → (a : String) → member a left ≡ member a right
    forth h a =
        sym (member-normalize_ids a left)
        ∙ ap (member a) (eq_of_same_at_each_index l r (ground arith) (ground arith))
        ∙ member-normalize_ids a right

    back : ((a : String) → member a left ≡ member a right) → equal_ids left right ≡ true
    back same =
        let e : l ≡ r =
          Ascending-ext l r (normalize_ids-Ascending left) (normalize_ids-Ascending right)
            λ a. member-normalize_ids a left ∙ same a ∙ sym (member-normalize_ids a right) in
        rw (e, equal_ids) (ground (arith, same_at_each_index_refl r))

-- Normalising twice is normalising once.
pub normalize_ids_idempotent :
    (ids : List String) → normalize_ids (normalize_ids ids) ≡ normalize_ids ids
normalize_ids_idempotent ids =
    Ascending-ext (normalize_ids (normalize_ids ids)) (normalize_ids ids)
      (normalize_ids-Ascending (normalize_ids ids)) (normalize_ids-Ascending ids)
      λ a. member-normalize_ids a (normalize_ids ids)
