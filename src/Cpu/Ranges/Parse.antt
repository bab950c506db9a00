-- ===== src/Cpu/Ranges/Parse.antt =====
-- `parse_cpu_ranges` gives the CPUs that some part of the text covers.
use app_opt.Base.{
  ℕ, zero, suc, ◌+◌, ◌-◌, min, Bool, false, ◌&&◌, ◌||◌, List, [], ◌∷◌, Option, none, some, any, ltb,
  leb, ◌==◌, if◌then◌else◌, ◌≡◌, refl, arith, Bool-cases, ==_iff, inl, inr,
}
use app_opt.Base.Text.{Text, is_empty, trim, split}
use app_opt.Cpu.Ranges.{range_of, allowed, fill, add_range, parse_parts, parse_cpu_ranges}
use app_opt.Cpu.Set.{CpuSet, cpu_setsize, new, set, is_set}
use app_opt.Cpu.Set.Laws.{IsValid, new-IsValid, set-IsValid, is_set-new, is_set-set}

-- What one part covers: the closed interval of its bounds.
abbrev pub covers_range : ℕ → Option (ℕ × ℕ) → Bool
covers_range j none = false
covers_range j (some (lo, hi)) = leb lo j && leb j hi

abbrev pub covers : ℕ → Text → Bool
covers j part = if is_empty (trim part) then false else covers_range j (range_of (trim part))

fill-IsValid :
    (present : Option CpuSet) (n i : ℕ) (s : CpuSet) → IsValid s → IsValid (fill present n i s)
unfolding fill
fill-IsValid present zero i s v = v
fill-IsValid present (suc n) i s v = elim (Bool-cases (allowed present i)) [
  | inl in_set ↦ rw in_set (fill-IsValid present n (i + 1) (set s i) (set-IsValid s i v))
  | inr out ↦ rw out (fill-IsValid present n (i + 1) s v)
]

is_set-fill :
    (present : Option CpuSet) (n i : ℕ) (s : CpuSet) (j : ℕ)
    → IsValid s
    → is_set (fill present n i s) j
      ≡ ((leb i j && ltb j (i + n) && ltb j cpu_setsize && allowed present j) || is_set s j)
unfolding fill
is_set-fill present zero i s j v = ground arith
is_set-fill present (suc n) i s j v = elim (Bool-cases (allowed present i)) [
  | inl in_set ↦
      rw (in_set, is_set-fill present n (i + 1) (set s i) j (set-IsValid s i v), is_set-set s i j v)
        (elim (Bool-cases (i == j)) [
          | inl same ↦ let e : i ≡ j = (==_iff i j).0 same in rw (← e, in_set) (ground arith)
          | inr other ↦ ground arith
        ])
  | inr out ↦
      rw (out, is_set-fill present n (i + 1) s j v)
        (elim (Bool-cases (i == j)) [
          | inl same ↦ let e : i ≡ j = (==_iff i j).0 same in rw (← e, out) (ground arith)
          | inr other ↦ ground arith
        ])
]

pub add_range-IsValid :
    (present : Option CpuSet) (r : Option (ℕ × ℕ)) (s : CpuSet)
    → IsValid s
    → IsValid (add_range present r s)
unfolding add_range
add_range-IsValid present none s v = v
add_range-IsValid present (some (lo, hi)) s v =
    fill-IsValid present (suc (min hi (cpu_setsize - 1)) - lo) lo s v

is_set-add_range :
    (present : Option CpuSet) (r : Option (ℕ × ℕ)) (s : CpuSet) (j : ℕ)
    → IsValid s
    → is_set (add_range present r s) j
      ≡ ((covers_range j r && ltb j cpu_setsize && allowed present j) || is_set s j)
is_set-add_range present none s j v = unfold add_range in refl
is_set-add_range present (some (lo, hi)) s j v =
    unfold add_range in
    rw (is_set-fill present (suc (min hi (cpu_setsize - 1)) - lo) lo s j v) (ground arith)

step-IsValid :
    (present : Option CpuSet) (part : Text) (s : CpuSet)
    → IsValid s
    → IsValid (if is_empty (trim part) then s else add_range present (range_of (trim part)) s)
step-IsValid present part s v = elim (Bool-cases (is_empty (trim part))) [
  | inl blank ↦ rw blank v
  | inr full ↦ rw full (add_range-IsValid present (range_of (trim part)) s v)
]

parse_parts-IsValid :
    (present : Option CpuSet) (parts : List Text) (s : CpuSet)
    → IsValid s
    → IsValid (parse_parts present parts s)
unfolding parse_parts
parse_parts-IsValid present [] s v = v
parse_parts-IsValid present (part ∷ parts) s v =
    parse_parts-IsValid present parts _ (step-IsValid present part s v)

is_set-parse_parts :
    (present : Option CpuSet) (parts : List Text) (s : CpuSet) (j : ℕ)
    → IsValid s
    → is_set (parse_parts present parts s) j
      ≡ ((any (covers j) parts && ltb j cpu_setsize && allowed present j) || is_set s j)
unfolding parse_parts
is_set-parse_parts present [] s j v = refl
is_set-parse_parts present (part ∷ parts) s j v =
    rw (is_set-parse_parts present parts _ j (step-IsValid present part s v))
      (elim (Bool-cases (is_empty (trim part))) [
        | inl blank ↦ rw blank refl
        | inr full ↦ rw (full, is_set-add_range present (range_of (trim part)) s j v) (ground arith)
      ])

pub parse_cpu_ranges-IsValid :
    (spec : Text) (present : Option CpuSet) → IsValid (parse_cpu_ranges spec present)
unfolding parse_cpu_ranges
parse_cpu_ranges-IsValid [] present = new-IsValid
parse_cpu_ranges-IsValid (c ∷ spec) present =
    parse_parts-IsValid present (split b',' (c ∷ spec)) new new-IsValid

-- A CPU is in the parsed set exactly when some part covers it, it is below the size of the set, and
-- it is present (where the present CPUs are given).
pub is_set-parse_cpu_ranges :
    (spec : Text) (present : Option CpuSet) (j : ℕ)
    → is_set (parse_cpu_ranges spec present) j
      ≡ (any (covers j) (split b',' spec) && ltb j cpu_setsize && allowed present j)
unfolding parse_cpu_ranges split trim
is_set-parse_cpu_ranges [] present j = is_set-new j
is_set-parse_cpu_ranges (c ∷ spec) present j =
    rw (is_set-parse_parts present (split b',' (c ∷ spec)) new j new-IsValid, is_set-new j)
      (ground arith)
