-- ===== src/Cpu/Set/Laws.antt =====
-- What the operations of `CpuSet` do to its members.
use app_opt.Base.{
  ℕ, zero, suc, ◌/◌, ◌%◌, ◌^◌, ◌<◌, false, ◌&&◌, ◌||◌, List, [], ◌∷◌, ltb, ◌==◌, get_or, length,
  All, bit_or, ◌≡◌, refl, arith, sym, ◌∙◌, length-set, get_or-replicate, All-set, All-get_or,
  get_or-set_self, get_or-set_ne, Bool-cases, ltb→lt, ==_iff, inl, inr,
}
use app_opt.Base.{set as write}
use app_opt.Base.Bits.{
  test_bit, test_bit-zero, test_bit-bit_or, test_bit-pow, bit_or-lt, pow-lt-pow,
}
use app_opt.Cpu.Set.{cpu_setsize, cpu_words, CpuSet, new, set, is_set, or, or_words}

-- Sixteen words of 64 bits.
pub record IsValid (s : CpuSet) : Type 0 where
  pub sixteen : length s.bits ≡ cpu_words
  pub words : All (λ w. w < 2 ^ 64) s.bits

pub new-IsValid : IsValid new
unfolding new
new-IsValid = record { sixteen = refl; words = omega arith }

pub set-IsValid : (s : CpuSet) (cpu : ℕ) → IsValid s → IsValid (set s cpu)
unfolding set
set-IsValid s cpu v = elim (Bool-cases (ltb cpu cpu_setsize)) [
  | inl near ↦ rw near (record {
    sixteen = length-set s.bits _ _ ∙ v.sixteen;
    words = All-set _ s.bits _ _ v.words (
        bit_or-lt 64 _ _ (All-get_or _ s.bits (cpu / 64) 0 v.words (omega arith))
          (pow-lt-pow (cpu % 64) 64 (omega arith)));
  })
  | inr far ↦ rw far v
]

or_words-All :
    (n : ℕ) (a b : List ℕ)
    → All (λ w. w < 2 ^ n) a
    → All (λ w. w < 2 ^ n) b
    → All (λ w. w < 2 ^ n) (or_words a b)
unfolding or_words
or_words-All n [] b ha hb = tt
or_words-All n (x ∷ a) [] ha hb = ha
or_words-All n (x ∷ a) (y ∷ b) ha hb = (bit_or-lt n x y ha.0 hb.0, or_words-All n a b ha.1 hb.1)

length-or_words : (a b : List ℕ) → length (or_words a b) ≡ length a
unfolding or_words
length-or_words [] b = refl
length-or_words (x ∷ a) [] = refl
length-or_words (x ∷ a) (y ∷ b) = omega (arith, length-or_words a b)

pub or-IsValid : (a b : CpuSet) → IsValid a → IsValid b → IsValid (or a b)
unfolding or
or-IsValid a b va vb = record {
  sixteen = length-or_words a.bits b.bits ∙ va.sixteen;
  words = or_words-All 64 a.bits b.bits va.words vb.words;
}

pub is_set-new : (cpu : ℕ) → is_set new cpu ≡ false
unfolding is_set new
is_set-new cpu =
    ground (arith, get_or-replicate {A = ℕ} cpu_words (cpu / 64) 0, test_bit-zero (cpu % 64))

test_bit-write :
    (xs : List ℕ) (a k b i : ℕ)
    → a < length xs
    → test_bit (get_or (write xs a (bit_or (get_or xs a 0) (2 ^ k))) b 0) i
      ≡ ((a == b && k == i) || test_bit (get_or xs b 0) i)
test_bit-write xs a k b i h = elim (Bool-cases (a == b)) [
  | inl same ↦
      let e : a ≡ b = (==_iff a b).0 same in
      rw (same, ← e, get_or-set_self xs a _ 0 h, test_bit-bit_or _ _ i, test_bit-pow k i)
        (ground arith)
  | inr other ↦ rw (other, get_or-set_ne xs a b _ 0 (λ e. cc ((==_iff a b).1 e))) refl
]

-- A set bit is the member that was added, or an old one.
pub is_set-set :
    (s : CpuSet) (cpu j : ℕ)
    → IsValid s
    → is_set (set s cpu) j ≡ ((cpu == j && ltb j cpu_setsize) || is_set s j)
unfolding is_set set
is_set-set s cpu j v = elim (Bool-cases (ltb cpu cpu_setsize)) [
  | inl near ↦
      rw
        (
          near,
          test_bit-write s.bits (cpu / 64) (cpu % 64) (j / 64) (j % 64)
              (omega (arith, v.sixteen, ltb→lt cpu cpu_setsize near)),
        )
        (ground arith)
  | inr far ↦ rw far (ground arith)
]

get_or-or_words :
    (a b : List ℕ) (i : ℕ)
    → length a ≡ length b
    → get_or (or_words a b) i 0 ≡ bit_or (get_or a i 0) (get_or b i 0)
unfolding or_words
get_or-or_words [] [] i h = refl
get_or-or_words [] (y ∷ b) i h = absurd (omega arith)
get_or-or_words (x ∷ a) [] i h = absurd (omega arith)
get_or-or_words (x ∷ a) (y ∷ b) zero h = refl
get_or-or_words (x ∷ a) (y ∷ b) (suc i) h = get_or-or_words a b i (omega arith)

pub is_set-or :
    (a b : CpuSet) (j : ℕ) → IsValid a → IsValid b → is_set (or a b) j ≡ (is_set a j || is_set b j)
unfolding is_set or
is_set-or a b j va vb =
    rw
      (
        get_or-or_words a.bits b.bits (j / 64) (va.sixteen ∙ sym vb.sixteen),
        test_bit-bit_or _ _ (j % 64),
      )
      (ground arith)
