-- ===== src/Cpu/Ranges.antt =====
-- The text form of a CPU set in AppOpt/src/cpuset.rs: `to_range_string`, `push_range`,
-- `parse_cpu_ranges`.
pub mod Parse
pub mod Print
pub mod Members
pub mod Intervals
pub mod RoundTrip
use app_opt.Base.{
  ℕ, zero, suc, ◌+◌, ◌-◌, ◌*◌, min, Bool, true, false, not, ◌&&◌, List, [], ◌∷◌, ◌++◌, Option, none,
  some, ltb, ◌==◌, if◌then◌else◌,
}
use app_opt.Base.Bits.{test_bit}
use app_opt.Base.Decimal.{decimal, parse_uint, usize_bound, usize_max}
use app_opt.Base.Text.{Text, is_empty, is_some, trim, split, split_first}
use app_opt.Cpu.Set.{CpuSet, cpu_setsize, cpu_word_bits, new, set, is_set}

-- The local variables of `to_range_string`.
pub record Printer : Type 0 where
  pub result : Text
  pub start : Option ℕ
  pub end : Option ℕ
  pub first : Bool

unfoldable pub print_range : ℕ → ℕ → Text
print_range lo hi = if lo == hi then decimal lo else decimal lo ++ (b'-' ∷ decimal hi)

-- `push_range` appends to the text and clears `first`, when both ends are there.
unfoldable pub push_range : Text → Option ℕ → Option ℕ → Bool → Text × Bool
push_range s (some lo) (some hi) first =
    ((if first then s else s ++ (b',' ∷ [])) ++ print_range lo hi, false)
push_range s _ _ first = (s, first)

unfoldable pub push : Printer → Printer
unfolding push_range
push p =
    let pushed = push_range p.result p.start p.end p.first in
    record p { result = pushed.0; first = pushed.1 }

abbrev pub follows : Option ℕ → ℕ → Bool
follows none cpu = false
follows (some e) cpu = cpu == e + 1

-- One CPU whose bit is set.
unfoldable pub add_cpu : ℕ → Printer → Printer
unfolding push
add_cpu cpu p =
    if not (is_some p.start)
    then record p { start = some cpu; end = some cpu }
    else if follows p.end cpu
    then record p { end = some cpu }
    else record (push p) { start = some cpu; end = some cpu }

-- `for bit in 0..64`, with `n` rounds left.
unfoldable pub bits_loop : ℕ → ℕ → ℕ → ℕ → Printer → Printer
bits_loop zero bit base word p = p
bits_loop (suc n) bit base word p =
    bits_loop n (bit + 1) base word (if test_bit word bit then add_cpu (base + bit) p else p)

unfoldable pub close_run : Printer → Printer
unfolding push
close_run p = if is_some p.start then record (push p) { start = none; end = none } else p

unfoldable pub words_loop : ℕ → List ℕ → Printer → Printer
words_loop idx [] p = p
words_loop idx (word ∷ words) p =
    words_loop (idx + 1) words
      (if word == 0 then close_run p else bits_loop cpu_word_bits 0 (idx * cpu_word_bits) word p)

unfoldable pub to_range_string : CpuSet → Text
unfolding words_loop bits_loop add_cpu close_run push print_range
to_range_string s =
    let p = words_loop 0 s.bits (record { result = []; start = none; end = none; first = true }) in
    (push p).result

abbrev pub or_max : Option ℕ → ℕ
or_max none = usize_max
or_max (some n) = n

abbrev pub or_else : Option ℕ → ℕ → ℕ
or_else none d = d
or_else (some n) d = n

-- `(lo, hi)`, or `none` where the loop goes on to the next part.
unfoldable pub range_of : Text → Option (ℕ × ℕ)
range_of part = elim (split_first b'-' part) [
  | some (l, r) ↦
      let a = or_max (parse_uint usize_bound l) in
      let b = or_else (parse_uint usize_bound r) a in
      if a == usize_max then none else if ltb b a then some (b, a) else some (a, b)
  | none ↦
      let a = or_max (parse_uint usize_bound part) in if a == usize_max then none else some (a, a)
]

abbrev pub allowed : Option CpuSet → ℕ → Bool
allowed none i = true
allowed (some present) i = is_set present i

-- `for i in lo..=hi`, with `n` rounds left.
unfoldable pub fill : Option CpuSet → ℕ → ℕ → CpuSet → CpuSet
fill present zero i s = s
fill present (suc n) i s = fill present n (i + 1) (if allowed present i then set s i else s)

unfoldable pub add_range : Option CpuSet → Option (ℕ × ℕ) → CpuSet → CpuSet
unfolding fill
add_range present none s = s
add_range present (some (lo, hi)) s = fill present (suc (min hi (cpu_setsize - 1)) - lo) lo s

unfoldable pub parse_parts : Option CpuSet → List Text → CpuSet → CpuSet
parse_parts present [] s = s
parse_parts present (part ∷ parts) s =
    parse_parts present parts
      (if is_empty (trim part) then s else add_range present (range_of (trim part)) s)

unfoldable pub parse_cpu_ranges : Text → Option CpuSet → CpuSet
unfolding parse_parts add_range range_of
parse_cpu_ranges spec present =
    if is_empty spec then new else parse_parts present (split b',' spec) new
