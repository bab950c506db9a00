-- ===== src/Cpu/Set/Count.antt =====
-- `CpuSet::count`, which the program only compares with 0.
use app_opt.Base.{
  ℕ, zero, suc, ◌+◌, ◌*◌, ◌/◌, ◌%◌, ◌≤◌, ◌<◌, true, List, [], ◌∷◌, get_or, length, ◌≡◌, refl, arith,
  Bool-cases, ==_iff, ltb, ltb→lt, ◌==◌, inl, inr,
}
use app_opt.Base.Bits.{bit, test_bit-bit}
use app_opt.Cpu.Set.{CpuSet, is_set, count, count_ones, count_words}
use app_opt.Cpu.Set.Laws.{IsValid}

bit-le-count_ones : (n i w : ℕ) → i < n → bit w i ≤ count_ones n w
unfolding count_ones
bit-le-count_ones zero i w h = elim h [ ]
bit-le-count_ones (suc n) zero w h = omega arith
bit-le-count_ones (suc n) (suc i) w h = omega (arith, bit-le-count_ones n i (w / 2) (omega arith))

count_ones-zero : (n : ℕ) → count_ones n 0 ≡ 0
unfolding count_ones
count_ones-zero zero = refl
count_ones-zero (suc n) = omega (arith, count_ones-zero n)

count_ones-le-count_words : (ws : List ℕ) (i : ℕ) → count_ones 64 (get_or ws i 0) ≤ count_words ws
unfolding count_words
count_ones-le-count_words [] i = omega (arith, count_ones-zero 64)
count_ones-le-count_words (w ∷ ws) zero = omega arith
count_ones-le-count_words (w ∷ ws) (suc i) = omega (arith, count_ones-le-count_words ws i)

some_bit : (n w : ℕ) → 0 < count_ones n w → (i : ℕ) × (i < n) × (bit w i ≡ 1)
unfolding count_ones
some_bit zero w h = elim h [ ]
some_bit (suc n) w h = elim (Bool-cases (w % 2 == 1)) [
  | inl odd ↦ (0, omega arith, (==_iff (w % 2) 1).0 odd)
  | inr even ↦ let (i, near, one) = some_bit n (w / 2) (ground arith) in (suc i, omega arith, one)
]

some_word :
    (ws : List ℕ)
    → 0 < count_words ws
    → (i : ℕ) × (i < length ws) × (0 < count_ones 64 (get_or ws i 0))
unfolding count_words
some_word [] h = absurd (omega arith)
some_word (w ∷ ws) h = elim (Bool-cases (ltb 0 (count_ones 64 w))) [
  | inl here ↦ (0, omega arith, ltb→lt 0 (count_ones 64 w) here)
  | inr there ↦
      let (i, near, some_there) = some_word ws (ground arith) in (suc i, omega arith, some_there)
]

-- A set with a member has a positive count.
pub is_set-count : (s : CpuSet) (j : ℕ) → is_set s j ≡ true → 0 < count s
unfolding is_set count
is_set-count s j h = ground (
  arith,
  test_bit-bit (get_or s.bits (j / 64) 0) (j % 64),
  bit-le-count_ones 64 (j % 64) (get_or s.bits (j / 64) 0),
  count_ones-le-count_words s.bits (j / 64),
)

-- A positive count comes of a member.
pub count-is_set : (s : CpuSet) → IsValid s → 0 < count s → (j : ℕ) × (is_set s j ≡ true)
unfolding count
count-is_set s v h =
    let (i, near, some_there) = some_word s.bits h in
    let (k, small, one) = some_bit 64 (get_or s.bits i 0) some_there in
    let word : (i * 64 + k) / 64 ≡ i = omega arith in
    let place : (i * 64 + k) % 64 ≡ k = omega arith in
    (
      i * 64 + k,
      unfold is_set in
          rw (word, place, test_bit-bit (get_or s.bits i 0) k, one) (ground (arith, v.sixteen)),
    )
