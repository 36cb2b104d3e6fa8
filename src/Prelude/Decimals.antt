-- ===== src/Prelude/Decimals.antt =====
-- `fmt.Sprintf("%d", n)` for a natural number.
use Prim.Native.Nat.{ℕ, zero, suc, ◌+◌, ◌/◌, ◌%◌}
use Prim.Native.String.{String, slice, ◌++◌}
use karpenter_provider_aliba.Prelude.Int.{ℤ, pos, negsuc}
use karpenter_provider_aliba.Prelude.Tests.{if◌then◌else◌, ltb}

-- The digits of a number, with fuel for each.
digits : ℕ → ℕ → String
digits zero n = ""
digits (suc fuel) n =
    let before = digits fuel (n / 10) in
    let last = slice "0123456789" (n % 10) (n % 10 + 1) in if ltb n 10 then last else before ++ last

-- A Go `int` has at most 19 digits.
unfoldable pub decimal : ℕ → String
unfolding digits
decimal n = digits 20 n

-- `fmt.Sprint` of an integer.
unfoldable pub show_int : ℤ → String
unfolding decimal
show_int (pos n) = decimal n
show_int (negsuc n) = "-" ++ decimal (n + 1)
