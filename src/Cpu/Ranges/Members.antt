-- ===== src/Cpu/Ranges/Members.antt =====
-- The intervals that `to_range_string` prints hold exactly the members of the set.
use app_opt.Base.{
  ℕ, zero, suc, ◌+◌, ◌-◌, ◌*◌, ◌/◌, ◌%◌, ◌≤◌, ◌<◌, Bool, ◌&&◌, ◌||◌, List, [], ◌∷◌, ◌++◌, Option,
  none, some, any, All, All-append, ltb, leb, ◌==◌, if◌then◌else◌, ◌≡◌, refl, ap, ◌∙◌, arith,
  Bool-cases, ==_iff, inl, inr,
}
use app_opt.Base.Bits.{test_bit, test_bit-zero}
use app_opt.Cpu.Ranges.{Printer, add_cpu, bits_loop, close_run}
use app_opt.Cpu.Ranges.Print.{
  in_range, concrete, run_list, add_run, add_cpu-concrete, close_run-concrete,
}
use app_opt.Cpu.Set.{cpu_setsize}

abbrev pub Fits : ℕ × ℕ → Type 0
Fits (lo, hi) = (lo ≤ hi) × (hi < cpu_setsize)

abbrev pub RunBelow : Option (ℕ × ℕ) → ℕ → Type 0
RunBelow none n = Unit
RunBelow (some (lo, hi)) n = (lo ≤ hi) × (hi < n)

abbrev pub member : ℕ → List (ℕ × ℕ) → Bool
member j rs = any (in_range j) rs

pub member-append :
    (j : ℕ) (rs ss : List (ℕ × ℕ)) → member j (rs ++ ss) ≡ (member j rs || member j ss)
member-append j [] ss = refl
member-append j (r ∷ rs) ss = ground (arith, member-append j rs ss)

-- The printer `p` has seen the CPUs below `n`, and holds those at which `f` is true.
pub record Holds (p : Printer) (n : ℕ) (f : ℕ → Bool) : Type 0 where
  pub closed : List (ℕ × ℕ)
  pub run : Option (ℕ × ℕ)
  pub is : p ≡ concrete (record { closed = closed; run = run })
  pub fits : All Fits closed
  pub below : RunBelow run n
  pub members : (j : ℕ) → (member j closed || member j (run_list run)) ≡ f j

RunBelow-mono : (run : Option (ℕ × ℕ)) {n m : ℕ} → n ≤ m → RunBelow run n → RunBelow run m
RunBelow-mono none h b = tt
RunBelow-mono (some (lo, hi)) h b = omega arith

pub Holds-ext :
    {p : Printer} {n : ℕ} {f : ℕ → Bool} (m : ℕ) (g : ℕ → Bool)
    → n ≤ m
    → ((j : ℕ) → f j ≡ g j)
    → Holds p n f
    → Holds p m g
Holds-ext m g le e v = record {
  closed = v.closed;
  run = v.run;
  is = v.is;
  fits = v.fits;
  below = RunBelow-mono v.run le v.below;
  members = λ j. v.members j ∙ e j;
}

add_run-Fits :
    (cpu : ℕ) (closed : List (ℕ × ℕ)) (run : Option (ℕ × ℕ))
    → All Fits closed
    → RunBelow run cpu
    → cpu < cpu_setsize
    → All Fits (add_run cpu closed run).closed × RunBelow (add_run cpu closed run).run (cpu + 1)
add_run-Fits cpu closed none f b h = (f, (omega arith, omega arith))
add_run-Fits cpu closed (some (lo, hi)) f b h =
    ground (arith, All-append Fits closed ((lo, hi) ∷ []) f ((b.0, omega arith), tt))

add_run-member :
    (cpu : ℕ) (closed : List (ℕ × ℕ)) (run : Option (ℕ × ℕ)) (j : ℕ)
    → RunBelow run cpu
    → (member j (add_run cpu closed run).closed || member j (run_list (add_run cpu closed run).run))
      ≡ ((member j closed || member j (run_list run)) || cpu == j)
add_run-member cpu closed none j b = ground arith
add_run-member cpu closed (some (lo, hi)) j b =
    ground (arith, member-append j closed ((lo, hi) ∷ []))

add_cpu-Holds :
    {p : Printer} {f : ℕ → Bool} (cpu : ℕ)
    → cpu < cpu_setsize
    → Holds p cpu f
    → Holds (add_cpu cpu p) (cpu + 1) (λ j. f j || cpu == j)
add_cpu-Holds cpu h v =
    let kept = add_run-Fits cpu v.closed v.run v.fits v.below h in
    record {
      closed = (add_run cpu v.closed v.run).closed;
      run = (add_run cpu v.closed v.run).run;
      is = ap (add_cpu cpu) v.is ∙ add_cpu-concrete cpu v.closed v.run;
      fits = kept.0;
      below = kept.1;
      members =
          λ j. add_run-member cpu v.closed v.run j v.below ∙ ap (λ b. b || cpu == j) (v.members j);
    }

pub run_list-Fits :
    (run : Option (ℕ × ℕ)) (n : ℕ) → n ≤ cpu_setsize → RunBelow run n → All Fits (run_list run)
run_list-Fits none n h b = tt
run_list-Fits (some (lo, hi)) n h b = ((b.0, omega arith), tt)

close_run-Holds :
    {p : Printer} {f : ℕ → Bool} (n : ℕ) → n ≤ cpu_setsize → Holds p n f → Holds (close_run p) n f
close_run-Holds n h v = record {
  closed = v.closed ++ run_list v.run;
  run = none;
  is = ap close_run v.is ∙ close_run-concrete v.closed v.run;
  fits = All-append Fits v.closed (run_list v.run) v.fits (run_list-Fits v.run n h v.below);
  below = tt;
  members = λ j. ground (arith, member-append j v.closed (run_list v.run), v.members j);
}

-- One round of the loop over the bits of a word.
bit-Holds :
    (c bit word : ℕ) (p : Printer) (f : ℕ → Bool)
    → c < cpu_setsize
    → Holds p c f
    → Holds
        (if test_bit word bit then add_cpu c p else p)
        (c + 1)
        (λ j. f j || (c == j && test_bit word bit))
bit-Holds c bit word p f h v = elim (Bool-cases (test_bit word bit)) [
  | inl one ↦ rw one (Holds-ext (c + 1) _ (omega arith) (λ j. ground arith) (add_cpu-Holds c h v))
  | inr clear ↦ rw clear (Holds-ext (c + 1) _ (omega arith) (λ j. ground arith) v)
]

bits_step :
    (n bit base word j : ℕ) (old : Bool)
    → ((old || (base + bit == j && test_bit word bit))
        || (leb (base + (bit + 1)) j && ltb j (base + (bit + 1) + n) && test_bit word (j - base)))
      ≡ (old || (leb (base + bit) j && ltb j (base + bit + suc n) && test_bit word (j - base)))
bits_step n bit base word j old = elim (Bool-cases (base + bit == j)) [
  | inl same ↦
      let e : j - base ≡ bit = omega (arith, (==_iff (base + bit) j).0 same) in rw e (ground arith)
  | inr other ↦ ground arith
]

bits_loop-Holds :
    (n bit base word : ℕ) (p : Printer) (f : ℕ → Bool)
    → base + bit + n ≤ cpu_setsize
    → Holds p (base + bit) f
    → Holds
        (bits_loop n bit base word p)
        (base + bit + n)
        (λ j. f j || (leb (base + bit) j && ltb j (base + bit + n) && test_bit word (j - base)))
unfolding bits_loop
bits_loop-Holds zero bit base word p f h v =
    Holds-ext (base + bit + 0) _ (omega arith) (λ j. ground arith) v
bits_loop-Holds (suc n) bit base word p f h v =
    Holds-ext (base + bit + suc n) _ (omega arith) (λ j. bits_step n bit base word j (f j))
      (bits_loop-Holds n (bit + 1) base word _ _ (omega arith) (
        Holds-ext (base + (bit + 1)) _ (omega arith) (λ j. refl)
          (bit-Holds (base + bit) bit word p f (omega arith) v)))

word_members :
    (idx word j : ℕ) (old : Bool)
    → (old || (leb (idx * 64 + 0) j && ltb j (idx * 64 + 0 + 64) && test_bit word (j - idx * 64)))
      ≡ (old || (j / 64 == idx && test_bit word (j % 64)))
word_members idx word j old = elim (Bool-cases (j / 64 == idx)) [
  | inl same ↦
      let e : j - idx * 64 ≡ j % 64 = omega (arith, (==_iff (j / 64) idx).0 same) in
      rw e (ground arith)
  | inr other ↦ ground arith
]

-- One word: the CPUs from `idx * 64` on.
abbrev pub step_word : ℕ → ℕ → Printer → Printer
step_word idx word p = if word == 0 then close_run p else bits_loop 64 0 (idx * 64) word p

pub word-Holds :
    (idx word : ℕ) (p : Printer) (f : ℕ → Bool)
    → idx < 16
    → Holds p (idx * 64) f
    → Holds
        (step_word idx word p)
        ((idx + 1) * 64)
        (λ j. f j || (j / 64 == idx && test_bit word (j % 64)))
word-Holds idx word p f h v = elim (Bool-cases (word == 0)) [
  | inl blank ↦
      let e : word ≡ 0 = (==_iff word 0).0 blank in
      rw e (
        Holds-ext ((idx + 1) * 64) _ (omega arith) (λ j. ground (arith, test_bit-zero (j % 64)))
          (close_run-Holds (idx * 64) (omega arith) v))
  | inr full ↦ rw full (
      Holds-ext ((idx + 1) * 64) _ (omega arith) (λ j. word_members idx word j (f j))
        (bits_loop-Holds 64 0 (idx * 64) word p f (omega arith)
          (Holds-ext (idx * 64 + 0) f (omega arith) (λ j. refl) v)))
]
