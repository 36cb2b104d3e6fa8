-- ===== src/Errors/Wrapping.antt =====
-- Wrapping an error never takes it out of a class.
use karpenter_provider_aliba.Prelude.{
  List, String, [], arith, contains_text-append, some, true, ◌∷◌, ◌≡◌,
}
use karpenter_provider_aliba.Errors.{
  capacity_codes, contains_one, is_insufficient_capacity_error, wrap_error,
}

contains_one-wrap_error :
    (prefix msg : String) (codes : List String)
    → contains_one msg codes ≡ true
    → contains_one (wrap_error prefix msg) codes ≡ true
unfolding contains_one wrap_error
contains_one-wrap_error prefix msg [] h = h
contains_one-wrap_error prefix msg (c ∷ codes) h =
    ground (arith, contains_text-append prefix msg c, contains_one-wrap_error prefix msg codes)

-- A wrapped shortage of capacity is still one, so that the next vSwitch or type is tried.
pub is_insufficient_capacity_error-wrap_error :
    (prefix msg : String)
    → is_insufficient_capacity_error (some msg) ≡ true
    → is_insufficient_capacity_error (some (wrap_error prefix msg)) ≡ true
unfolding is_insufficient_capacity_error
is_insufficient_capacity_error-wrap_error prefix msg h =
    contains_one-wrap_error prefix msg capacity_codes h
