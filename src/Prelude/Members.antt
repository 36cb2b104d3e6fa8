-- ===== src/Prelude/Members.antt =====
-- Lists of texts as Go's maps and `sort.Strings` treat them: membership, and the sorted list.
use Prim.Native.Nat.{suc}
use Prim.Native.String.{String}
use mathlib.Core.Path.{◌≡◌, refl, sym, ap, ap₂, ◌∙◌}
use mathlib.Core.Logic.{inl, inr}
use mathlib.Core.Bool.{Bool, true, false, not, ◌&&◌, ◌||◌}
use mathlib.Core.List.{List, [], ◌∷◌, ◌++◌}
use native.Mathlib.Omega.{arith}
use text.Mathlib.Text.{◌==◌ as str_eq}
use text.Mathlib.TextEquality.{eq_iff}
use text.Mathlib.TextPositions.{eq_refl}
use karpenter_provider_aliba.Prelude.Tests.{Bool-cases, if◌then◌else◌}
use karpenter_provider_aliba.Prelude.Lists.{All, length}
use karpenter_provider_aliba.Prelude.Texts.{lt_text, lt_text_irrefl, lt_text_total, lt_text_trans}

unfoldable pub member : String → List String → Bool
member a [] = false
member a (x ∷ xs) = str_eq x a || member a xs

-- One pass of the insertion that sorts a list of texts.
unfoldable pub insert_text : String → List String → List String
insert_text a [] = a ∷ []
insert_text a (x ∷ xs) = let rest = insert_text a xs in if lt_text x a then x ∷ rest else a ∷ x ∷ xs

-- `sort.Strings`.
unfoldable pub sort_texts : List String → List String
unfolding insert_text
sort_texts [] = []
sort_texts (x ∷ xs) = insert_text x (sort_texts xs)

-- No two elements are the same text.
abbrev pub Distinct : List String → Type 0
Distinct [] = Unit
Distinct (x ∷ xs) = (member x xs ≡ false) × Distinct xs

-- Strictly rising, hence also without duplicates.
abbrev pub Ascending : List String → Type 0
Ascending [] = Unit
Ascending (x ∷ xs) = All (λ y. lt_text x y ≡ true) xs × Ascending xs

pub member-insert_text :
    (a b : String) (xs : List String) → member b (insert_text a xs) ≡ str_eq a b || member b xs
unfolding member insert_text
member-insert_text a b [] = refl
member-insert_text a b (x ∷ xs) = ground (arith, member-insert_text a b xs)

pub member-sort_texts : (b : String) (xs : List String) → member b (sort_texts xs) ≡ member b xs
unfolding member sort_texts
member-sort_texts b [] = refl
member-sort_texts b (x ∷ xs) =
    ground (arith, member-insert_text x b (sort_texts xs), member-sort_texts b xs)

pub length-insert_text :
    (a : String) (xs : List String) → length (insert_text a xs) ≡ suc (length xs)
unfolding insert_text
length-insert_text a [] = refl
length-insert_text a (x ∷ xs) = ground (arith, length-insert_text a xs)

pub length-sort_texts : (xs : List String) → length (sort_texts xs) ≡ length xs
unfolding sort_texts
length-sort_texts [] = refl
length-sort_texts (x ∷ xs) =
    ground (arith, length-insert_text x (sort_texts xs), length-sort_texts xs)

All-lt_trans :
    (a x : String) (xs : List String)
    → lt_text a x ≡ true
    → All (λ y. lt_text x y ≡ true) xs
    → All (λ y. lt_text a y ≡ true) xs
All-lt_trans a x [] h k = tt
All-lt_trans a x (y ∷ ys) h k = (lt_text_trans a x y h k.0, All-lt_trans a x ys h k.1)

All-lt-insert_text :
    (x a : String) (xs : List String)
    → lt_text x a ≡ true
    → All (λ y. lt_text x y ≡ true) xs
    → All (λ y. lt_text x y ≡ true) (insert_text a xs)
unfolding insert_text
All-lt-insert_text x a [] h k = (h, tt)
All-lt-insert_text x a (y ∷ ys) h k = ground (arith, All-lt-insert_text x a ys h k.1)

insert_text-Ascending :
    (a : String) (xs : List String)
    → member a xs ≡ false
    → Ascending xs
    → Ascending (insert_text a xs)
unfolding member insert_text
insert_text-Ascending a [] m h = (tt, tt)
insert_text-Ascending a (x ∷ xs) m h = elim (lt_text_total x a) [
  | inl e ↦ ground (arith, eq_iff x a)
  | inr (inl before) ↦
      rw before
        (All-lt-insert_text x a xs before h.0, insert_text-Ascending a xs (ground arith) h.1)
  | inr (inr after) ↦
      ground (arith, lt_text_irrefl x, lt_text_trans x a x, All-lt_trans a x xs after h.0)
]

-- Sorting a list without duplicates gives a strictly rising list.
pub sort_texts-Ascending : (xs : List String) → Distinct xs → Ascending (sort_texts xs)
unfolding sort_texts
sort_texts-Ascending [] h = tt
sort_texts-Ascending (x ∷ xs) h =
    insert_text-Ascending x (sort_texts xs) (member-sort_texts x xs ∙ h.0)
      (sort_texts-Ascending xs h.1)

pub not-member_of_All-lt :
    (a : String) (xs : List String) → All (λ y. lt_text a y ≡ true) xs → member a xs ≡ false
unfolding member
not-member_of_All-lt a [] h = refl
not-member_of_All-lt a (x ∷ xs) h =
    ground (arith, not-member_of_All-lt a xs h.1, eq_iff x a, lt_text_irrefl a, lemma)
  where
    lemma : x ≡ a → lt_text a a ≡ true
    lemma e = rw e at h.0

lt_of_member :
    (a b : String) (xs : List String)
    → All (λ y. lt_text a y ≡ true) xs
    → member b xs ≡ true
    → lt_text a b ≡ true
unfolding member
lt_of_member a b [] h m = ground arith
lt_of_member a b (x ∷ xs) h m = elim (Bool-cases (str_eq x b)) [
  | inl e ↦ rw ((eq_iff x b).0 e) at h.0
  | inr e ↦ lt_of_member a b xs h.1 (ground arith)
]

-- A strictly rising list is determined by its members.
pub Ascending-ext :
    (xs ys : List String)
    → Ascending xs
    → Ascending ys
    → ((a : String) → member a xs ≡ member a ys)
    → xs ≡ ys
unfolding member
Ascending-ext [] [] h k same = refl
Ascending-ext [] (y ∷ ys) h k same = ground (arith, same y, eq_refl y)
Ascending-ext (x ∷ xs) [] h k same = ground (arith, same x, eq_refl x)
Ascending-ext (x ∷ xs) (y ∷ ys) h k same = ap₂ ◌∷◌ heads (Ascending-ext xs ys h.1 k.1 tails)
  where
    heads : x ≡ y
    heads = elim (lt_text_total x y) [
      | inl e ↦ e
      | inr (inl less) ↦ ground (
        arith,
        same x,
        eq_refl x,
        not-member_of_All-lt x (y ∷ ys) (less, All-lt_trans x y ys less k.0),
      )
      | inr (inr more) ↦ ground (
        arith,
        same y,
        eq_refl y,
        not-member_of_All-lt y (x ∷ xs) (more, All-lt_trans y x xs more h.0),
      )
    ]

    tails : (a : String) → member a xs ≡ member a ys
    tails a =
        ground (arith, heads, same a, eq_iff x a, eq_iff y a, not-member_of_All-lt x xs h.0, absent)
      where
        absent : member x ys ≡ false
        absent = rw heads (not-member_of_All-lt y ys k.0)

pub member-append :
    (xs ys : List String) (a : String) → member a (xs ++ ys) ≡ (member a xs || member a ys)
unfolding member
member-append [] ys a = refl
member-append (x ∷ xs) ys a = ground (arith, member-append xs ys a)

-- No text of the first list is in the second.
unfoldable pub are_apart : List String → List String → Bool
unfolding member
are_apart [] ys = true
are_apart (x ∷ xs) ys = let rest = are_apart xs ys in not (member x ys) && rest

pub apart :
    (xs ys : List String)
    → are_apart xs ys ≡ true
    → (a : String) → member a xs ≡ true
    → member a ys ≡ false
unfolding are_apart member
apart [] ys h a m = ground (arith, m)
apart (x ∷ xs) ys h a m = elim (Bool-cases (str_eq x a)) [
  | inl e ↦ ap (λ y. member y ys) (sym ((eq_iff x a).0 e)) ∙ first (member x ys) (are_apart xs ys) h
  | inr e ↦ apart xs ys (ground (arith, h)) a (ground (arith, m))
]
  where
    first : (p q : Bool) → (not p && q) ≡ true → p ≡ false
    first p q k = ground arith

-- The parts of a strictly rising list have nothing in common.
pub apart_of_Ascending :
    (a : String) (xs ys : List String)
    → Ascending (xs ++ ys)
    → member a xs ≡ true
    → member a ys ≡ false
unfolding member
apart_of_Ascending a [] ys h m = ground arith
apart_of_Ascending a (x ∷ xs) ys h m = elim (Bool-cases (str_eq x a)) [
  | inl e ↦
      ap (λ b. member b ys) (sym ((eq_iff x a).0 e))
      ∙ absent (member x xs) (member x ys)
          (sym (member-append xs ys x) ∙ not-member_of_All-lt x (xs ++ ys) h.0)
  | inr e ↦ apart_of_Ascending a xs ys h.1 (ground (arith, m))
]
  where
    absent : (p q : Bool) → (p || q) ≡ false → q ≡ false
    absent p q k = ground arith

pub Ascending-drop : (xs ys : List String) → Ascending (xs ++ ys) → Ascending ys
Ascending-drop [] ys h = h
Ascending-drop (x ∷ xs) ys h = Ascending-drop xs ys h.1
