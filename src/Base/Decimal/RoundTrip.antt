-- ===== src/Base/Decimal/RoundTrip.antt =====
-- Printing a number and parsing it back.
use Prim.Native.Nat.{ℕ, zero, suc, ◌+◌, ◌/◌, ◌%◌, ◌≤◌, ◌<◌}
use mathlib.Core.List.{[], ◌∷◌, cons-ne-nil}
use mathlib.Core.Logic.{◌≢◌}
use mathlib.Core.Option.{some}
use mathlib.Core.Path.{◌≡◌, refl}
use native.Mathlib.Omega.{arith}
use app_opt.Base.Lists.{All}
use app_opt.Base.Text.{Text}
use app_opt.Base.Decimal.{digits, decimal, scan, parse_uint}

abbrev pub IsDigit : ℕ → Type 0
IsDigit c = (b'0' ≤ c) × (c ≤ b'9')

scan_last :
    (bound n : ℕ) (out : Text)
    → n < bound
    → scan bound ((b'0' + n % 10) ∷ out) (n / 10) ≡ scan bound out n
unfolding scan
scan_last bound n out h = ground arith

scan-digits :
    (bound f n : ℕ) (out : Text)
    → n ≤ f
    → n < bound
    → scan bound (digits f n out) 0 ≡ scan bound out n
unfolding digits
scan-digits bound zero n out h fits = ground (arith, scan_last bound n out fits)
scan-digits bound (suc f) n out h fits =
    ground (arith, scan_last bound n out fits, scan-digits bound f (n / 10) ((b'0' + n % 10) ∷ out))

digits-IsDigit : (f n : ℕ) (out : Text) → All IsDigit out → All IsDigit (digits f n out)
unfolding digits
digits-IsDigit zero n out h = (omega arith, h)
digits-IsDigit (suc f) n out h =
    ground (arith, digits-IsDigit f (n / 10) ((b'0' + n % 10) ∷ out) (omega arith, h))

digits-ne-nil : (f n : ℕ) (out : Text) → digits f n out ≢ []
unfolding digits
digits-ne-nil zero n out = cons-ne-nil _ _
digits-ne-nil (suc f) n out = ground (arith, digits-ne-nil f (n / 10) ((b'0' + n % 10) ∷ out))

pub decimal-IsDigit : (n : ℕ) → All IsDigit (decimal n)
unfolding decimal
decimal-IsDigit n = digits-IsDigit n n [] tt

pub decimal-ne-nil : (n : ℕ) → decimal n ≢ []
unfolding decimal
decimal-ne-nil n = digits-ne-nil n n []

parse_uint-scan :
    (bound : ℕ) (s : Text) → All IsDigit s → s ≢ [] → parse_uint bound s ≡ scan bound s 0
unfolding parse_uint
parse_uint-scan bound [] d h = absurd (h refl)
parse_uint-scan bound (c ∷ []) d h = refl
parse_uint-scan bound (c ∷ e ∷ s) d h = ground arith

pub parse_uint-decimal : (bound n : ℕ) → n < bound → parse_uint bound (decimal n) ≡ some n
unfolding scan
parse_uint-decimal bound n h =
    rw (parse_uint-scan bound _ (decimal-IsDigit n) (decimal-ne-nil n))
      (unfold decimal in scan-digits bound n n [] (omega arith) h)
