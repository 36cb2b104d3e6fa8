-- ===== src/Prelude/Splits.antt =====
-- `strings.Split(s, ".")`, and its last part.
use Prim.Native.Nat.{suc, ◌≤◌}
use Prim.Native.Char.{Char, code}
use Prim.Native.String.{String, ◌++◌}
use mathlib.Core.Path.{◌≡◌, refl, ◌∙◌}
use mathlib.Core.Logic.{inl, inr}
use mathlib.Core.Bool.{Bool, true, false, ◌||◌}
use mathlib.Core.List.{List, [], ◌∷◌}
use native.Mathlib.Omega.{arith}
use text.Mathlib.TextLemmas.{cons-append, nil-append}
use karpenter_provider_aliba.Prelude.Tests.{Bool-cases, ◌==◌, if◌then◌else◌}
use karpenter_provider_aliba.Prelude.Lists.{length}

unfoldable pub has_dot : String → Bool
has_dot String.[] = false
has_dot (String.◌∷◌ c s) = code c == b'.' || has_dot s

-- A character before the first part.
abbrev pub cons_first : Char → List String → List String
cons_first c [] = String.◌∷◌ c String.[] ∷ []
cons_first c (part ∷ parts) = String.◌∷◌ c part ∷ parts

unfoldable pub split_dots : String → List String
split_dots String.[] = String.[] ∷ []
split_dots (String.◌∷◌ c s) =
    let parts = split_dots s in if code c == b'.' then String.[] ∷ parts else cons_first c parts

-- `parts[len(parts)-1]`; `Split` gives at least one part.
abbrev pub last_of : List String → String
last_of [] = ""
last_of (part ∷ []) = part
last_of (part ∷ next ∷ parts) = last_of (next ∷ parts)

pub split_dots_whole : (s : String) → has_dot s ≡ false → split_dots s ≡ (s ∷ [])
unfolding has_dot split_dots
split_dots_whole String.[] h = refl
split_dots_whole (String.◌∷◌ c s) h = ground (arith, split_dots_whole s)

cons_first_last :
    (c : Char) (parts : List String)
    → 2 ≤ length parts
    → (2 ≤ length (cons_first c parts)) × (last_of (cons_first c parts) ≡ last_of parts)
cons_first_last c [] h = ground arith
cons_first_last c (p ∷ []) h = ground arith
cons_first_last c (p ∷ q ∷ parts) h = (h, refl)

pub length-split_dots : (s : String) → has_dot s ≡ true → 2 ≤ length (split_dots s)
unfolding has_dot split_dots
length-split_dots String.[] h = ground arith
length-split_dots (String.◌∷◌ c s) h = elim (Bool-cases (code c == b'.')) [
  | inl dot ↦ rw dot (nonempty s)
  | inr other ↦ rw other (cons_first_last c (split_dots s) (length-split_dots s (ground arith))).0
]
  where
    cons_nonempty : (d : Char) (parts : List String) → 2 ≤ suc (length (cons_first d parts))
    cons_nonempty d [] = omega arith
    cons_nonempty d (p ∷ ps) = omega arith

    nonempty : (t : String) → 2 ≤ suc (length (split_dots t))
    nonempty String.[] = omega arith
    nonempty (String.◌∷◌ d t) = elim (Bool-cases (code d == b'.')) [
      | inl dot ↦ rw dot (ground (arith, nonempty t))
      | inr other ↦ rw other (cons_nonempty d (split_dots t))
    ]

-- The part after the last dot.
pub split_dots-append :
    (s t : String)
    → has_dot t ≡ false
    → (2 ≤ length (split_dots (s ++ (String.◌∷◌ "." t))))
      × (last_of (split_dots (s ++ (String.◌∷◌ "." t))) ≡ t)
unfolding split_dots
split_dots-append String.[] t h = rw (nil-append, split_dots_whole t h) (omega arith, refl)
split_dots-append (String.◌∷◌ c s) t h =
    let rest = split_dots-append s t h in
    elim (Bool-cases (code c == b'.')) [
      | inl dot ↦ rw (cons-append, dot) (after_dot (split_dots (s ++ (String.◌∷◌ "." t))) rest)
      | inr other ↦
          let longer = cons_first_last c (split_dots (s ++ (String.◌∷◌ "." t))) rest.0 in
          rw (cons-append, other) (longer.0, longer.1 ∙ rest.1)
    ]
  where
    after_dot :
        (parts : List String)
        → (2 ≤ length parts) × (last_of parts ≡ t)
        → (2 ≤ suc (length parts)) × (last_of (String.[] ∷ parts) ≡ t)
    after_dot [] k = ground (arith, k.0)
    after_dot (p ∷ ps) k = (ground (arith, k.0), k.1)
