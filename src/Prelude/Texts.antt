-- ===== src/Prelude/Texts.antt =====
-- The parts of Go's `strings` package that the program calls, over native texts.
-- `lt_text` is Go's `<` on strings: bytewise order is the order of code points in UTF-8.
use Prim.Native.Char.{code}
use Prim.Native.String.{String, [], ◌∷◌, ◌++◌}
use mathlib.Core.Path.{◌≡◌, refl, ap₂}
use mathlib.Core.Logic.{◌⊎◌, inl, inr}
use mathlib.Core.Bool.{Bool, true, false, not, ◌&&◌, ◌||◌}
use native.Mathlib.Omega.{arith}
use text.Mathlib.TextEquality.{Char-path}
use text.Mathlib.TextLemmas.{cons-append, nil-append}
use karpenter_provider_aliba.Prelude.Tests.{Bool-cases, ltb, ◌==◌}

unfoldable pub lt_text : String → String → Bool
lt_text [] [] = false
lt_text [] (d ∷ t) = true
lt_text (c ∷ s) [] = false
lt_text (c ∷ s) (d ∷ t) = ltb (code c) (code d) || ((code c == code d) && lt_text s t)

pub lt_text_irrefl : (s : String) → lt_text s s ≡ false
unfolding lt_text
lt_text_irrefl [] = refl
lt_text_irrefl (c ∷ s) = ground (arith, lt_text_irrefl s)

pub lt_text_trans : (s t u : String) → lt_text s t ≡ true → lt_text t u ≡ true → lt_text s u ≡ true
unfolding lt_text
lt_text_trans [] [] u h k = ground arith
lt_text_trans [] (d ∷ t) [] h k = ground arith
lt_text_trans [] (d ∷ t) (e ∷ u) h k = refl
lt_text_trans (c ∷ s) [] u h k = ground arith
lt_text_trans (c ∷ s) (d ∷ t) [] h k = ground arith
lt_text_trans (c ∷ s) (d ∷ t) (e ∷ u) h k = ground (arith, lt_text_trans s t u)

pub lt_text_total : (s t : String) → (s ≡ t) ⊎ ((lt_text s t ≡ true) ⊎ (lt_text t s ≡ true))
unfolding lt_text
lt_text_total [] [] = inl refl
lt_text_total [] (d ∷ t) = inr (inl refl)
lt_text_total (c ∷ s) [] = inr (inr refl)
lt_text_total (c ∷ s) (d ∷ t) = elim (lt_text_total s t) [
  | inl e ↦ heads e
  | inr h ↦ inr (ground arith)
]
  where
    heads :
        s ≡ t
        → ((c ∷ s) ≡ (d ∷ t))
          ⊎ ((lt_text (c ∷ s) (d ∷ t) ≡ true) ⊎ (lt_text (d ∷ t) (c ∷ s) ≡ true))
    heads e = elim (Bool-cases (code c == code d)) [
      | inl same ↦ inl (ap₂ ◌∷◌ (Char-path c d (ground arith)) e)
      | inr differ ↦ inr (ground arith)
    ]

-- `s + t`
abbrev pub append_text : String → String → String
append_text s t = s ++ t

-- `strings.HasPrefix(s, prefix)`.
unfoldable pub has_prefix : String → String → Bool
has_prefix s [] = true
has_prefix [] (d ∷ t) = false
has_prefix (c ∷ s) (d ∷ t) = (code c == code d) && has_prefix s t

-- `strings.Contains(s, sub)`.
unfoldable pub contains_text : String → String → Bool
unfolding has_prefix
contains_text [] sub = has_prefix [] sub
contains_text (c ∷ s) sub = has_prefix (c ∷ s) sub || contains_text s sub

-- A prefix of a text does not change what the text contains.
pub contains_text-append :
    (p s sub : String) → contains_text s sub ≡ true → contains_text (p ++ s) sub ≡ true
unfolding contains_text
contains_text-append [] s sub h = rw nil-append h
contains_text-append (c ∷ p) s sub h =
    rw cons-append (ground (arith, contains_text-append p s sub h))

-- No character of the second text is the first of the first.
unfoldable pub starts_nowhere : String → String → Bool
starts_nowhere [] p = false
starts_nowhere (d ∷ t) [] = true
starts_nowhere (d ∷ t) (c ∷ p) =
    let rest = starts_nowhere (d ∷ t) p in not (code c == code d) && rest

-- A prefix in which a text cannot begin does not change whether the text is contained.
pub contains_text-skip :
    (p s sub : String)
    → starts_nowhere sub p ≡ true
    → contains_text (append_text p s) sub ≡ contains_text s sub
unfolding starts_nowhere contains_text has_prefix
contains_text-skip p s [] h = ground arith
contains_text-skip [] s (d ∷ t) h = rw nil-append refl
contains_text-skip (c ∷ p) s (d ∷ t) h =
    rw cons-append (ground (arith, contains_text-skip p s (d ∷ t)))
