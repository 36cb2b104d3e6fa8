-- ===== src/Launch/Fallback/Completeness.antt =====
-- A launch succeeds where it can.
use mathlib.Core.List.{Memᴰ}
use mathlib.Core.List.Memᴰ
use karpenter_provider_aliba.Prelude.{Bool, List, Outcome, String, err, false, ok, some, true, ◌≡◌}
use karpenter_provider_aliba.Errors.{is_insufficient_capacity_error}
use karpenter_provider_aliba.Instance.{CreateOptions}
use karpenter_provider_aliba.Instance.Create.{create}
use karpenter_provider_aliba.Launch.Fallback.Search.{Create}

abbrev pub is_ok : {E A : Type 0} → Outcome E A → Bool
is_ok (ok a) = true
is_ok (err e) = false

-- The cloud serves these options whatever state it is in.
abbrev pub Serves : {W : Type 0} → Create W → CreateOptions → Type 0
Serves {W} create opts = (w : W) → is_ok (create opts w).0 ≡ true

-- Every error that these options meet is a shortage of capacity.
abbrev pub OnlyShort : {W : Type 0} → Create W → CreateOptions → Type 0
OnlyShort {W} create opts =
    (w : W) (e : String)
    → (create opts w).0 ≡ err e
    → is_insufficient_capacity_error (some e) ≡ true
