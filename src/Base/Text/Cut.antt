-- ===== src/Base/Text/Cut.antt =====
-- The `str` methods that walk a text.
use Prim.Native.Char.{code}
use Prim.Native.String.{String}
use Prim.Native.Nat.{ℕ, ◌+◌}
use mathlib.Core.Bool.{Bool, true, false, ◌&&◌, ◌||◌}
use mathlib.Core.List.{List, [], ◌∷◌, ◌++◌}
use mathlib.Core.Option.{Option, none, some}
use app_opt.Base.Tests.{ltb, leb, ◌==◌, if◌then◌else◌}

abbrev pub Text : Type 0
Text = List ℕ

abbrev pub codes : String → Text
codes String.[] = []
codes (String.◌∷◌ c s) = code c ∷ codes s

-- `char::is_whitespace`: the characters of the Unicode property White_Space.
unfoldable pub is_whitespace : ℕ → Bool
is_whitespace c =
    (leb 0x09 c && leb c 0x0d)
    || c == 0x20
    || c == 0x85
    || c == 0xa0
    || c == 0x1680
    || (leb 0x2000 c && leb c 0x200a)
    || c == 0x2028
    || c == 0x2029
    || c == 0x202f
    || c == 0x205f
    || c == 0x3000

abbrev pub is_digit : ℕ → Bool
is_digit c = leb b'0' c && leb c b'9'

abbrev pub is_empty {ℓ} : {A : Type ℓ} → List A → Bool
is_empty [] = true
is_empty (_ ∷ _) = false

unfoldable pub trim_start : Text → Text
trim_start [] = []
trim_start (c ∷ s) = if is_whitespace c then trim_start s else c ∷ s

-- A character is dropped when only white space follows it.
abbrev cons_trimmed : ℕ → Text → Text
cons_trimmed c [] = if is_whitespace c then [] else c ∷ []
cons_trimmed c (d ∷ s) = c ∷ d ∷ s

unfoldable pub trim_end : Text → Text
trim_end [] = []
trim_end (c ∷ s) = cons_trimmed c (trim_end s)

unfoldable pub trim : Text → Text
unfolding trim_start trim_end is_whitespace
trim s = trim_end (trim_start s)

unfoldable pub eq_text : Text → Text → Bool
eq_text [] [] = true
eq_text (x ∷ xs) (y ∷ ys) = x == y && eq_text xs ys
eq_text _ _ = false

-- `s.strip_prefix(p)`
unfoldable pub strip_prefix : Text → Text → Option Text
strip_prefix [] s = some s
strip_prefix (x ∷ p) [] = none
strip_prefix (x ∷ p) (y ∷ s) = if x == y then strip_prefix p s else none

abbrev pub is_some {ℓ} : {A : Type ℓ} → Option A → Bool
is_some none = false
is_some (some _) = true

abbrev pub starts_with : Text → Text → Bool
starts_with p s = is_some (strip_prefix p s)

-- `s.ends_with(p)`: some tail of `s` is `p`.
unfoldable pub ends_with : Text → Text → Bool
ends_with p [] = eq_text p []
ends_with p (c ∷ s) = eq_text p (c ∷ s) || ends_with p s

-- `s.strip_suffix(c)` of a character.
unfoldable pub strip_suffix_char : ℕ → Text → Option Text
strip_suffix_char c [] = none
strip_suffix_char c (x ∷ []) = if x == c then some [] else none
strip_suffix_char c (x ∷ y ∷ s) = elim (strip_suffix_char c (y ∷ s)) [
  | none ↦ none
  | some t ↦ some (x ∷ t)
]

unfoldable pub contains_char : ℕ → Text → Bool
contains_char c [] = false
contains_char c (x ∷ s) = x == c || contains_char c s

-- The parts round the first `c`, as `find(c)` or `split_once(c)` gives them.
unfoldable pub split_first : ℕ → Text → Option (Text × Text)
split_first c [] = none
split_first c (x ∷ s) =
    let rest = split_first c s in
    if x == c then some ([], s) else elim rest [ none ↦ none | some (a, b) ↦ some (x ∷ a, b) ]

-- The parts round the last `c`, as `rfind(c)` gives them.
unfoldable pub split_last : ℕ → Text → Option (Text × Text)
split_last c [] = none
split_last c (x ∷ s) = elim (split_last c s) [
  | some (a, b) ↦ some (x ∷ a, b)
  | none ↦ if x == c then some ([], s) else none
]

-- `s.split(c)`: there is always a first part.
abbrev first_part : ℕ → List Text → List Text
first_part x [] = (x ∷ []) ∷ []
first_part x (p ∷ ps) = (x ∷ p) ∷ ps

unfoldable pub split : ℕ → Text → List Text
split c [] = [] ∷ []
split c (x ∷ s) = if x == c then [] ∷ split c s else first_part x (split c s)

-- `s.len()`: the bytes of the UTF-8 form.
abbrev pub utf8_width : ℕ → ℕ
utf8_width c = if ltb c 0x80 then 1 else if ltb c 0x800 then 2 else if ltb c 0x10000 then 3 else 4

abbrev pub byte_len : Text → ℕ
byte_len [] = 0
byte_len (c ∷ s) = utf8_width c + byte_len s

-- `str::lines`: ended by `\n` or `\r\n`; there is no line behind the last end.
abbrev strip_cr : Text → Text
strip_cr l = elim (strip_suffix_char b'\r' l) [ none ↦ l | some t ↦ t ]

abbrev ended_lines : List Text → List Text
ended_lines [] = []
ended_lines (l ∷ []) = if is_empty l then [] else l ∷ []
ended_lines (l ∷ m ∷ ls) = strip_cr l ∷ ended_lines (m ∷ ls)

unfoldable pub lines : Text → List Text
unfolding split strip_suffix_char
lines s = ended_lines (split b'\n' s)

-- `lines.join("\n")`, and then `push('\n')`.
unfoldable pub join_lines : List Text → Text
join_lines [] = []
join_lines (l ∷ []) = l
join_lines (l ∷ m ∷ ls) = l ++ (b'\n' ∷ join_lines (m ∷ ls))

-- `s.split_whitespace()`: the longest runs of other characters.
abbrev into_word : ℕ → Bool → List Text → List Text
into_word c starts [] = (c ∷ []) ∷ []
into_word c starts (w ∷ ws) = if starts then (c ∷ []) ∷ w ∷ ws else (c ∷ w) ∷ ws

abbrev starts_blank : Text → Bool
starts_blank [] = true
starts_blank (c ∷ s) = is_whitespace c

unfoldable pub split_whitespace : Text → List Text
unfolding is_whitespace
split_whitespace [] = []
split_whitespace (c ∷ s) =
    if is_whitespace c
    then split_whitespace s
    else into_word c (starts_blank s) (split_whitespace s)
