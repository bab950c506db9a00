-- ===== src/Cpu/Set.antt =====
-- `CpuSet` of AppOpt/src/cpuset.rs: sixteen 64-bit words, laid out as `cpu_set_t`.
pub mod Laws
pub mod Count
use app_opt.Base.{
  ℕ, zero, suc, ◌+◌, ◌/◌, ◌%◌, ◌^◌, Bool, true, false, ◌&&◌, List, [], ◌∷◌, ltb, ◌==◌,
  if◌then◌else◌, get_or, replicate, bit_or,
}
use app_opt.Base.{set as write}
use app_opt.Base.Bits.{test_bit}

abbrev pub cpu_setsize : ℕ
cpu_setsize = 1024

abbrev pub cpu_word_bits : ℕ
cpu_word_bits = 64

abbrev pub cpu_words : ℕ
cpu_words = cpu_setsize / cpu_word_bits

pub record CpuSet : Type 0 where
  pub bits : List ℕ

unfoldable pub new : CpuSet
new = record { bits = replicate cpu_words 0 }

-- `bits[cpu / 64] |= 1 << (cpu % 64)`, when the CPU is in range.
unfoldable pub set : CpuSet → ℕ → CpuSet
set s cpu =
    if ltb cpu cpu_setsize
    then record s {
      bits =
          write s.bits (cpu / cpu_word_bits)
            (bit_or (get_or s.bits (cpu / cpu_word_bits) 0) (2 ^ (cpu % cpu_word_bits)));
    }
    else s

unfoldable pub is_set : CpuSet → ℕ → Bool
is_set s cpu =
    ltb cpu cpu_setsize && test_bit (get_or s.bits (cpu / cpu_word_bits) 0) (cpu % cpu_word_bits)

-- `u64::count_ones`, over the first `n` bits.
unfoldable pub count_ones : ℕ → ℕ → ℕ
count_ones zero w = 0
count_ones (suc n) w = w % 2 + count_ones n (w / 2)

unfoldable pub count_words : List ℕ → ℕ
count_words [] = 0
count_words (w ∷ ws) = count_ones cpu_word_bits w + count_words ws

unfoldable pub count : CpuSet → ℕ
unfolding count_words
count s = count_words s.bits

-- `zip` stops at the shorter list, and the rest of the left one stays.
unfoldable pub or_words : List ℕ → List ℕ → List ℕ
or_words [] other = []
or_words (d ∷ ds) [] = d ∷ ds
or_words (d ∷ ds) (s ∷ ss) = bit_or d s ∷ or_words ds ss

unfoldable pub or : CpuSet → CpuSet → CpuSet
unfolding or_words
or s other = record { bits = or_words s.bits other.bits }

unfoldable pub eq_words : List ℕ → List ℕ → Bool
eq_words [] [] = true
eq_words (x ∷ xs) (y ∷ ys) = x == y && eq_words xs ys
eq_words _ _ = false

-- The derived `PartialEq`.
unfoldable pub eq_set : CpuSet → CpuSet → Bool
unfolding eq_words
eq_set a b = eq_words a.bits b.bits
