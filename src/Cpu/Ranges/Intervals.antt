-- ===== src/Cpu/Ranges/Intervals.antt =====
-- The text that `to_range_string` prints, as a list of intervals.
use app_opt.Base.{
  ℕ, zero, suc, ◌+◌, ◌-◌, ◌*◌, ◌/◌, ◌%◌, ◌≤◌, Bool, true, false, ◌&&◌, ◌||◌, List, [], ◌∷◌, ◌++◌,
  none, All, All-append, length, get_or, ltb, leb, ◌==◌, ◌≡◌, refl, ap, ◌∙◌, arith, Bool-cases,
  ==_iff, inl, inr,
}
use app_opt.Base.Bits.{test_bit, test_bit-zero}
use app_opt.Cpu.Ranges.{Printer, push, words_loop, to_range_string}
use app_opt.Cpu.Ranges.Members.{
  Fits, Holds, Holds-ext, word-Holds, member, member-append, run_list-Fits,
}
use app_opt.Cpu.Ranges.Print.{render, run_list, push-concrete}
use app_opt.Cpu.Set.{CpuSet, cpu_setsize, is_set}
use app_opt.Cpu.Set.Laws.{IsValid}

words_step :
    (idx word : ℕ) (words : List ℕ) (j : ℕ) (old : Bool)
    → ((old || (j / 64 == idx && test_bit word (j % 64)))
        || (leb (idx + 1) (j / 64) && test_bit (get_or words (j / 64 - (idx + 1)) 0) (j % 64)))
      ≡ (old || (leb idx (j / 64) && test_bit (get_or (word ∷ words) (j / 64 - idx) 0) (j % 64)))
words_step idx word words j old = elim (Bool-cases (j / 64 == idx)) [
  | inl same ↦
      let e : j / 64 - idx ≡ 0 = omega (arith, (==_iff (j / 64) idx).0 same) in rw e (ground arith)
  | inr other ↦ elim (Bool-cases (leb idx (j / 64))) [
    | inl above ↦
        let e : j / 64 - idx ≡ suc (j / 64 - (idx + 1)) = ground arith in rw e (ground arith)
    | inr below ↦ ground arith
  ]
]

words_loop-Holds :
    (words : List ℕ) (idx : ℕ) (p : Printer) (f : ℕ → Bool)
    → idx + length words ≤ 16
    → Holds p (idx * 64) f
    → Holds
        (words_loop idx words p)
        ((idx + length words) * 64)
        (λ j. f j || (leb idx (j / 64) && test_bit (get_or words (j / 64 - idx) 0) (j % 64)))
unfolding words_loop
words_loop-Holds [] idx p f h v =
    Holds-ext ((idx + 0) * 64) _ (omega arith) (λ j. ground (arith, test_bit-zero (j % 64))) v
words_loop-Holds (word ∷ words) idx p f h v =
    Holds-ext ((idx + suc (length words)) * 64) _ (omega arith)
      (λ j. words_step idx word words j (f j))
      (words_loop-Holds words (idx + 1) _ _ (omega arith) (word-Holds idx word p f (omega arith) v))

-- The printed text is a list of intervals, which hold exactly the members of the set.
pub record Printed (s : CpuSet) : Type 0 where
  pub ranges : List (ℕ × ℕ)
  pub text : to_range_string s ≡ render ranges
  pub fits : All Fits ranges
  pub members : (j : ℕ) → member j ranges ≡ is_set s j

get_or_beyond : (ws : List ℕ) (i : ℕ) → length ws ≤ i → get_or ws i 0 ≡ 0
get_or_beyond [] i h = refl
get_or_beyond (w ∷ ws) zero h = absurd (omega arith)
get_or_beyond (w ∷ ws) (suc i) h = get_or_beyond ws i (omega arith)

pub is_set_words :
    (s : CpuSet) (j : ℕ) → IsValid s → test_bit (get_or s.bits (j / 64) 0) (j % 64) ≡ is_set s j
unfolding is_set
is_set_words s j v = elim (Bool-cases (ltb j cpu_setsize)) [
  | inl near ↦ rw near refl
  | inr far ↦
      rw (far, get_or_beyond s.bits (j / 64) (ground (arith, v.sixteen)), test_bit-zero (j % 64))
        refl
]

abbrev start : Printer
start = record { result = []; start = none; end = none; first = true }

start-Holds : Holds start (0 * 64) (λ j. false)
start-Holds = record {
  closed = [];
  run = none;
  is = refl;
  fits = tt;
  below = tt;
  members = λ j. refl;
}

pub to_range_string-Printed : (s : CpuSet) → IsValid s → Printed s
to_range_string-Printed s v =
    let h = words_loop-Holds s.bits 0 start (λ j. false) (omega (arith, v.sixteen)) start-Holds in
    record {
      ranges = h.closed ++ run_list h.run;
      text =
          unfold to_range_string in ap (λ q. (push q).result) h.is ∙ push-concrete h.closed h.run;
      fits =
          All-append Fits h.closed (run_list h.run) h.fits
            (run_list-Fits h.run _ (omega (arith, v.sixteen)) h.below);
      members = λ j. member-append j h.closed (run_list h.run) ∙ h.members j ∙ last j;
    }
  where
    last :
        (j : ℕ)
        → (false || (leb 0 (j / 64) && test_bit (get_or s.bits (j / 64 - 0) 0) (j % 64)))
          ≡ is_set s j
    last j = let e : j / 64 - 0 ≡ j / 64 = omega arith in rw (e, is_set_words s j v) (ground arith)
