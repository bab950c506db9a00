-- ===== src/Base/Decimal.antt =====
-- `{}` of an unsigned number, and `str::parse::<usize>`.
pub mod RoundTrip
use Prim.Native.Nat.{ℕ, zero, suc, ◌+◌, ◌-◌, ◌*◌, ◌/◌, ◌%◌, ◌^◌}
use mathlib.Core.List.{[], ◌∷◌}
use mathlib.Core.Option.{Option, none, some}
use app_opt.Base.Tests.{ltb, ◌==◌, if◌then◌else◌}
use app_opt.Base.Text.{Text, is_digit}

-- The digits of `n` in front of `out`. A number has fewer digits than the fuel `n`.
digits : ℕ → ℕ → Text → Text
digits zero n out = (b'0' + n % 10) ∷ out
digits (suc f) n out =
    let more = digits f (n / 10) ((b'0' + n % 10) ∷ out) in
    if ltb n 10 then (b'0' + n % 10) ∷ out else more

unfoldable pub decimal : ℕ → Text
unfolding digits
decimal n = digits n n []

-- Digits behind the number `n`, below the bound of the type.
scan : ℕ → Text → ℕ → Option ℕ
scan bound [] n = some n
scan bound (c ∷ s) n =
    let more = scan bound s (n * 10 + (c - b'0')) in
    if is_digit c then (if ltb (n * 10 + (c - b'0')) bound then more else none) else none

-- One `+` may stand in front; no digit at all is an error.
unfoldable pub parse_uint : ℕ → Text → Option ℕ
unfolding scan
parse_uint bound [] = none
parse_uint bound (c ∷ []) = scan bound (c ∷ []) 0
parse_uint bound (c ∷ d ∷ s) = if c == b'+' then scan bound (d ∷ s) 0 else scan bound (c ∷ d ∷ s) 0

abbrev pub usize_bound : ℕ
usize_bound = 2 ^ 64

abbrev pub usize_max : ℕ
usize_max = 2 ^ 64 - 1
