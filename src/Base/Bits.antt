-- ===== src/Base/Bits.antt =====
-- Machine words bit by bit: `1 << i`, `|` and `& (1 << i)` of cpuset.rs at variables.
use Prim.Native.Nat.{
  ℕ, zero, suc, ◌+◌, ◌*◌, ◌/◌, ◌%◌, ◌^◌, ◌≤◌, ◌<◌, min, max, bit_and, bit_or, digits,
  bit_and-bitwise, bit_or-bitwise,
}
use mathlib.Core.Path.{◌≡◌, refl, ap, sym, ◌∙◌}
use mathlib.Core.Bool.{Bool, false, ◌||◌, not}
use native.Mathlib.Omega.{arith}
use native.Mathlib.Nat.{pow-suc, one-le-pow, pow-le-pow_right}
use app_opt.Base.Tests.{◌==◌, if◌then◌else◌}

-- Bit `i` of a word, as a number.
abbrev pub bit : ℕ → ℕ → ℕ
bit w zero = w % 2
bit w (suc i) = bit (w / 2) i

-- More fuel than the first number changes nothing, whatever the operation on digits.
digits-fuel :
    (rest : ℕ → ℕ) (op : ℕ → ℕ → ℕ) (x y n m : ℕ)
    → x ≤ n
    → x ≤ m
    → digits rest op n x y ≡ digits rest op m x y
digits-fuel rest op (suc x) y zero m below _ = absurd (omega arith)
digits-fuel rest op (suc x) y (suc n) zero _ below = absurd (omega arith)
digits-fuel rest op (suc x) y (suc n) (suc m) below_n below_m =
    ap (λ (t : ℕ). t * 2 + op (suc x % 2) (y % 2))
      (digits-fuel rest op (suc x / 2) (y / 2) n m (omega arith) (omega arith))
digits-fuel rest op zero y zero zero _ _ = refl
digits-fuel rest op zero y zero (suc m) _ _ = refl
digits-fuel rest op zero y (suc n) zero _ _ = refl
digits-fuel rest op zero y (suc n) (suc m) _ _ = refl

-- The lowest digit, and the digits above it.
pub bit_or_step : (a b : ℕ) → bit_or a b ≡ bit_or (a / 2) (b / 2) * 2 + max (a % 2) (b % 2)
bit_or_step zero b = omega (arith, bit_or-bitwise 0 b, bit_or-bitwise 0 (b / 2))
bit_or_step (suc a) b =
    bit_or-bitwise (suc a) b
    ∙ ap (λ (t : ℕ). t * 2 + max (suc a % 2) (b % 2))
        (digits-fuel (λ y. y) max (suc a / 2) (b / 2) a (suc a / 2) (omega arith) (omega arith)
          ∙ sym (bit_or-bitwise (suc a / 2) (b / 2)))

pub bit_and_low : (x y : ℕ) → bit_and x y ≡ bit_and (x / 2) (y / 2) * 2 + min (x % 2) (y % 2)
bit_and_low zero y = omega (arith, bit_and-bitwise 0 y, bit_and-bitwise 0 (y / 2))
bit_and_low (suc x) y =
    bit_and-bitwise (suc x) y
    ∙ ap (λ (t : ℕ). t * 2 + min (suc x % 2) (y % 2))
        (digits-fuel (λ _. zero) min (suc x / 2) (y / 2) x (suc x / 2) (omega arith) (omega arith)
          ∙ sym (bit_and-bitwise (suc x / 2) (y / 2)))

pub bit-lt : (w i : ℕ) → bit w i < 2
bit-lt w zero = omega arith
bit-lt w (suc i) = bit-lt (w / 2) i

-- No bit is shared with zero.
bit_and-zero : (fuel w : ℕ) → w ≤ fuel → bit_and w 0 ≡ 0
bit_and-zero fuel zero h = bit_and-bitwise 0 0
bit_and-zero zero (suc w) h = absurd (omega arith)
bit_and-zero (suc fuel) (suc w) h =
    let above = bit_and-zero fuel (suc w / 2) (omega arith) in
    omega (arith, above, bit_and_low (suc w) 0)

-- `word & (1 << i)` keeps bit `i` in its place.
pub bit_and-pow : (i w : ℕ) → bit_and w (2 ^ i) ≡ bit w i * 2 ^ i
bit_and-pow zero w = omega (arith, bit_and_low w 1, bit_and-zero (w / 2) (w / 2) (omega arith))
bit_and-pow (suc i) w =
    let half : 2 ^ suc i / 2 ≡ 2 ^ i = omega (arith, pow-suc 2 i) in
    let step : bit_and w (2 ^ suc i) ≡ bit_and (w / 2) (2 ^ i) * 2 =
      rw (← half) (omega (arith, bit_and_low w (2 ^ suc i), pow-suc 2 i)) in
    omega (arith, step, bit_and-pow i (w / 2), ap (λ (t : ℕ). bit (w / 2) i * t) (pow-suc 2 i))

pub bit-bit_or : (i a b : ℕ) → bit (bit_or a b) i ≡ max (bit a i) (bit b i)
bit-bit_or zero a b = omega (arith, bit_or_step a b)
bit-bit_or (suc i) a b =
    let half : bit_or a b / 2 ≡ bit_or (a / 2) (b / 2) = omega (arith, bit_or_step a b) in
    rw half (bit-bit_or i (a / 2) (b / 2))

bit-zero : (i : ℕ) → bit 0 i ≡ 0
bit-zero zero = refl
bit-zero (suc i) = bit-zero i

pub bit-pow : (k i : ℕ) → bit (2 ^ k) i ≡ (if k == i then 1 else 0)
bit-pow zero zero = refl
bit-pow zero (suc i) = ground (arith, bit-zero i)
bit-pow (suc k) zero = ground (arith, pow-suc 2 k)
bit-pow (suc k) (suc i) =
    let half : 2 ^ suc k / 2 ≡ 2 ^ k = omega (arith, pow-suc 2 k) in
    rw half (ground (arith, bit-pow k i))

pub bit_or-lt : (n a b : ℕ) → a < 2 ^ n → b < 2 ^ n → bit_or a b < 2 ^ n
bit_or-lt zero a b ha hb =
    let ea : a ≡ 0 = omega arith in
    let eb : b ≡ 0 = omega arith in rw (ea, bit_or-bitwise 0 b, eb) (omega arith)
bit_or-lt (suc n) a b ha hb = omega (
  arith,
  bit_or_step a b,
  pow-suc 2 n,
  bit_or-lt n (a / 2) (b / 2) (omega (arith, pow-suc 2 n)) (omega (arith, pow-suc 2 n)),
)

pub pow-lt-pow : (i n : ℕ) → i < n → 2 ^ i < 2 ^ n
pow-lt-pow i n h = omega (
  arith,
  pow-suc 2 i,
  one-le-pow i 2,
  pow-le-pow_right {n = 2} (omega arith) {i = suc i} {j = n} h,
)

-- `word & (1 << i) != 0`
abbrev pub test_bit : ℕ → ℕ → Bool
test_bit w i = not (bit_and w (2 ^ i) == 0)

pub test_bit-bit : (w i : ℕ) → test_bit w i ≡ (bit w i == 1)
test_bit-bit w i = grind (arith, bit_and-pow i w, bit-lt w i, one-le-pow i 2)

pub test_bit-bit_or : (a b i : ℕ) → test_bit (bit_or a b) i ≡ (test_bit a i || test_bit b i)
test_bit-bit_or a b i =
    rw (test_bit-bit (bit_or a b) i, test_bit-bit a i, test_bit-bit b i)
      (ground (arith, bit-bit_or i a b, bit-lt a i, bit-lt b i))

pub test_bit-pow : (k i : ℕ) → test_bit (2 ^ k) i ≡ (k == i)
test_bit-pow k i = rw (test_bit-bit (2 ^ k) i) (ground (arith, bit-pow k i))

pub test_bit-zero : (i : ℕ) → test_bit 0 i ≡ false
test_bit-zero i = ground (arith, bit_and-bitwise 0 (2 ^ i))

-- A word is its bits.
pub bit-ext : (n a b : ℕ) → a < 2 ^ n → b < 2 ^ n → ((i : ℕ) → i < n → bit a i ≡ bit b i) → a ≡ b
bit-ext zero a b ha hb e = omega arith
bit-ext (suc n) a b ha hb e =
    let low : a % 2 ≡ b % 2 = e 0 (omega arith) in
    let high : a / 2 ≡ b / 2 =
      bit-ext n (a / 2) (b / 2) (omega (arith, pow-suc 2 n)) (omega (arith, pow-suc 2 n))
        (λ i h. e (suc i) (omega arith)) in
    omega arith
