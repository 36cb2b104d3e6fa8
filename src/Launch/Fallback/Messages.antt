-- ===== src/Launch/Fallback/Messages.antt =====
-- The texts that the launch puts before an error do not change its class.
use mathlib.Core.Path.{ap₂}
use karpenter_provider_aliba.Prelude.{
  Bool, List, String, [], arith, contains_text-skip, refl, some, starts_nowhere, true, ◌&&◌, ◌||◌,
  ◌∷◌, ◌≡◌,
}
use karpenter_provider_aliba.Errors.{
  capacity_codes, classified, contains_one, is_insufficient_capacity_error, wrap_error,
}
use karpenter_provider_aliba.Launch.Fallback.{all_vswitches_exhausted, failed_to_create}

all_start_nowhere : String → List String → Bool
unfolding starts_nowhere
all_start_nowhere p [] = true
all_start_nowhere p (c ∷ codes) = starts_nowhere c p && all_start_nowhere p codes

contains_one-skip :
    (p s : String) (codes : List String)
    → all_start_nowhere p codes ≡ true
    → contains_one (wrap_error p s) codes ≡ contains_one s codes
unfolding contains_one wrap_error all_start_nowhere
contains_one-skip p s [] h = refl
contains_one-skip p s (c ∷ codes) h =
    ap₂ ◌||◌ (contains_text-skip p s c (ground arith)) (contains_one-skip p s codes (ground arith))

module _ (e : String) where
  pub is_insufficient_capacity_error-failed_to_create :
      is_insufficient_capacity_error (some (wrap_error failed_to_create e))
      ≡ is_insufficient_capacity_error (some e)
  unfolding is_insufficient_capacity_error classified all_start_nowhere
  is_insufficient_capacity_error-failed_to_create =
      contains_one-skip failed_to_create e capacity_codes refl

  pub is_insufficient_capacity_error-all_vswitches_exhausted :
      is_insufficient_capacity_error (some (wrap_error all_vswitches_exhausted e))
      ≡ is_insufficient_capacity_error (some e)
  unfolding is_insufficient_capacity_error classified all_start_nowhere
  is_insufficient_capacity_error-all_vswitches_exhausted =
      contains_one-skip all_vswitches_exhausted e capacity_codes refl
