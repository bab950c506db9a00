-- ===== src/Cpu/Ranges/RoundTrip.antt =====
-- Printing a set and parsing the text gives the set back.
use app_opt.Base.{
  ℕ, ◌+◌, ◌*◌, ◌/◌, ◌%◌, ◌≤◌, ◌<◌, true, false, ◌&&◌, List, [], ◌∷◌, ◌++◌, none, some, any, All,
  All-append, get_or, ltb, ◌==◌, ◌≡◌, ◌≢◌, refl, sym, ap, ◌∙◌, arith, Bool-cases, ==_iff, inl, inr,
  append-nil, get_or-ext, All-get_or,
}
use app_opt.Base.Bits.{bit, bit-ext, bit-lt, test_bit, test_bit-bit}
use app_opt.Base.Decimal.{decimal, usize_bound}
use app_opt.Base.Decimal.RoundTrip.{decimal-IsDigit, decimal-ne-nil, parse_uint-decimal}
use app_opt.Base.Text.{
  Text, is_empty, is_whitespace, trim, split, Lacks, trim_solid, split-Lacks, split-append,
  split_first-Lacks, split_first-append,
}
use app_opt.Cpu.Ranges.{print_range, range_of, to_range_string, parse_cpu_ranges}
use app_opt.Cpu.Ranges.Intervals.{Printed, to_range_string-Printed, is_set_words}
use app_opt.Cpu.Ranges.Members.{Fits, member}
use app_opt.Cpu.Ranges.Parse.{covers, is_set-parse_cpu_ranges, parse_cpu_ranges-IsValid}
use app_opt.Cpu.Ranges.Print.{render, in_range}
use app_opt.Cpu.Set.{CpuSet, cpu_setsize, is_set}
use app_opt.Cpu.Set.Laws.{IsValid}

-- Digits and `-` only.
abbrev IsPlain : ℕ → Type 0
IsPlain c = (b'-' ≤ c) × (c ≤ b'9')

All-map : {P Q : ℕ → Type 0} (s : Text) → ((c : ℕ) → P c → Q c) → All P s → All Q s
All-map [] f h = tt
All-map (c ∷ s) f h = (f c h.0, All-map s f h.1)

digits-IsPlain : (n : ℕ) → All IsPlain (decimal n)
digits-IsPlain n = All-map (decimal n) (λ c h. omega arith) (decimal-IsDigit n)

print_range-IsPlain : (lo hi : ℕ) → All IsPlain (print_range lo hi)
unfolding print_range
print_range-IsPlain lo hi = elim (Bool-cases (lo == hi)) [
  | inl same ↦ rw same (digits-IsPlain lo)
  | inr other ↦ rw other (
      All-append IsPlain (decimal lo) (b'-' ∷ decimal hi) (digits-IsPlain lo)
        ((omega arith, omega arith), digits-IsPlain hi))
]

plain_solid : (c : ℕ) → IsPlain c → is_whitespace c ≡ false
unfolding is_whitespace
plain_solid c h = ground arith

digits_lack : (n : ℕ) → Lacks b'-' (decimal n)
digits_lack n = All-map (decimal n) (λ c h. omega arith) (decimal-IsDigit n)

not_empty : (s t : Text) → s ≢ [] → (is_empty s ≡ false) × (is_empty (s ++ t) ≡ false)
not_empty [] t h = absurd (h refl)
not_empty (c ∷ s) t h = (refl, refl)

print_range-ne-nil : (lo hi : ℕ) → is_empty (print_range lo hi) ≡ false
unfolding print_range
print_range-ne-nil lo hi = elim (Bool-cases (lo == hi)) [
  | inl same ↦ rw same (not_empty (decimal lo) [] (decimal-ne-nil lo)).0
  | inr other ↦ rw other (not_empty (decimal lo) (b'-' ∷ decimal hi) (decimal-ne-nil lo)).1
]

range_of_one : (n : ℕ) → n < cpu_setsize → range_of (decimal n) ≡ some (n, n)
unfolding range_of
range_of_one n lt =
    rw (split_first-Lacks b'-' (decimal n) (digits_lack n), range_of)
      (rw (parse_uint-decimal usize_bound n (omega arith)) (ground arith))

range_of_two :
    (lo hi : ℕ)
    → lo ≤ hi
    → hi < cpu_setsize
    → range_of (decimal lo ++ (b'-' ∷ decimal hi)) ≡ some (lo, hi)
unfolding range_of
range_of_two lo hi le lt =
    rw (split_first-append b'-' (decimal lo) (decimal hi) (digits_lack lo), range_of)
      (rw
        (
          parse_uint-decimal usize_bound lo (omega arith),
          parse_uint-decimal usize_bound hi (omega arith),
        )
        (ground arith))

range_of-print_range :
    (lo hi : ℕ) → lo ≤ hi → hi < cpu_setsize → range_of (print_range lo hi) ≡ some (lo, hi)
unfolding print_range
range_of-print_range lo hi le lt = elim (Bool-cases (lo == hi)) [
  | inl same ↦ rw (same, range_of_one lo (omega arith), (==_iff lo hi).0 same) refl
  | inr other ↦ rw (other, range_of_two lo hi le lt) refl
]

covers-print_range :
    (j lo hi : ℕ) → lo ≤ hi → hi < cpu_setsize → covers j (print_range lo hi) ≡ in_range j (lo, hi)
covers-print_range j lo hi le lt =
    rw
      (
        trim_solid (print_range lo hi)
            (All-map (print_range lo hi) plain_solid (print_range-IsPlain lo hi)),
        print_range-ne-nil lo hi,
        range_of-print_range lo hi le lt,
      )
      refl

range-Lacks : (lo hi : ℕ) → Lacks b',' (print_range lo hi)
range-Lacks lo hi = All-map (print_range lo hi) (λ c h. omega arith) (print_range-IsPlain lo hi)

any-render_rest :
    (j lo hi : ℕ) (rs : List (ℕ × ℕ))
    → All Fits ((lo, hi) ∷ rs)
    → any (covers j) (split b',' (render ((lo, hi) ∷ rs))) ≡ member j ((lo, hi) ∷ rs)
any-render_rest j lo hi [] f =
    rw
      (
        append-nil (print_range lo hi),
        split-Lacks b',' (print_range lo hi) (range-Lacks lo hi),
        covers-print_range j lo hi f.0.0 f.0.1,
      )
      refl
any-render_rest j lo hi ((lo', hi') ∷ rs) f =
    rw
      (
        split-append b',' (print_range lo hi) (render ((lo', hi') ∷ rs)) (range-Lacks lo hi),
        covers-print_range j lo hi f.0.0 f.0.1,
        any-render_rest j lo' hi' rs f.1,
      )
      refl

any-render :
    (j : ℕ) (rs : List (ℕ × ℕ))
    → All Fits rs
    → any (covers j) (split b',' (render rs)) ≡ member j rs
unfolding split trim
any-render j [] f = refl
any-render j ((lo, hi) ∷ rs) f = any-render_rest j lo hi rs f

CpuSet-ext : (s t : CpuSet) → IsValid s → IsValid t → ((j : ℕ) → is_set s j ≡ is_set t j) → s ≡ t
CpuSet-ext s t vs vt e =
    ap {B = CpuSet} (λ b. record { bits = b })
      (get_or-ext s.bits t.bits 0 (vs.sixteen ∙ sym vt.sixteen) (λ i h.
        bit-ext 64 _ _ (All-get_or _ s.bits i 0 vs.words (omega arith))
          (All-get_or _ t.bits i 0 vt.words (omega arith))
          (λ k small. same_bit i k small (omega (arith, vs.sixteen)))))
  where
    same_bit : (i k : ℕ) → k < 64 → i < 16 → bit (get_or s.bits i 0) k ≡ bit (get_or t.bits i 0) k
    same_bit i k small near =
        let word : (i * 64 + k) / 64 ≡ i = omega arith in
        let place : (i * 64 + k) % 64 ≡ k = omega arith in
        let here : test_bit (get_or s.bits i 0) k ≡ test_bit (get_or t.bits i 0) k =
          rw (word, place) at
            (is_set_words s (i * 64 + k) vs
              ∙ e (i * 64 + k)
              ∙ sym (is_set_words t (i * 64 + k) vt)) in
        ground (
          arith,
          here,
          test_bit-bit (get_or s.bits i 0) k,
          test_bit-bit (get_or t.bits i 0) k,
          bit-lt (get_or s.bits i 0) k,
          bit-lt (get_or t.bits i 0) k,
        )

-- Parsing the printed form of a valid set of CPUs, with no restriction to present CPUs, gives the
-- set back.
pub parse_cpu_ranges-to_range_string :
    (s : CpuSet) → IsValid s → parse_cpu_ranges (to_range_string s) none ≡ s
parse_cpu_ranges-to_range_string s v =
    let p = to_range_string-Printed s v in
    CpuSet-ext _ s (parse_cpu_ranges-IsValid (to_range_string s) none) v
      (λ j. is_set-parse_cpu_ranges (to_range_string s) none j ∙ printed p j)
  where
    printed :
        (p : Printed s) (j : ℕ)
        → (any (covers j) (split b',' (to_range_string s)) && ltb j cpu_setsize && true)
          ≡ is_set s j
    printed p j =
        rw (p.text, any-render j p.ranges p.fits, p.members j)
          (elim (Bool-cases (ltb j cpu_setsize)) [
            | inl near ↦ rw near (ground arith)
            | inr far ↦ unfold is_set in rw far refl
          ])
