-- ===== src/Config/Line.antt =====
-- The line grammar of AppOpt/src/config.rs. A position in a text counts characters.
pub mod Single
pub mod Print
use app_opt.Base.{
  ℕ, Bool, true, false, not, ◌&&◌, ◌||◌, List, [], ◌∷◌, ◌++◌, Option, none, some, all, length, take,
  ◌==◌, if◌then◌else◌,
}
use app_opt.Base.Text.{
  Text, codes, is_empty, is_whitespace, is_digit, eq_text, trim, trim_end, split, split_first,
  split_last, starts_with, strip_suffix_char,
}

abbrev is_core_name : Text → Bool
is_core_name t =
    eq_text t (codes "e-core")
    || eq_text t (codes "p-core")
    || eq_text t (codes "hp-core")
    || eq_text t (codes "all-core")

abbrev is_number_pair : Option (Text × Text) → Bool
is_number_pair none = false
is_number_pair (some (a, b)) =
    not (is_empty a) && not (is_empty b) && all is_digit a && all is_digit b

-- One part of a CPU specification, which is not blank.
unfoldable pub spec_part_like : Text → Bool
spec_part_like t = is_core_name t || all is_digit t || is_number_pair (split_first b'-' t)

unfoldable pub spec_parts_like : Bool → List Text → Bool
unfolding spec_part_like
spec_parts_like seen [] = seen
spec_parts_like seen (part ∷ parts) =
    if is_empty (trim part)
    then spec_parts_like seen parts
    else (spec_part_like (trim part) && spec_parts_like true parts)

unfoldable pub spec_like : Text → Bool
unfolding spec_parts_like
spec_like s = spec_parts_like false (split b',' s)

-- `#` or `//` after white space begins a comment.
unfoldable pub comment_scan : Bool → Text → Text → Option ℕ
comment_scan prev_ws before [] = none
comment_scan prev_ws before (c ∷ s) =
    if prev_ws && (c == b'#' || (c == b'/' && starts_with (codes "//") (c ∷ s)))
    then some (length (trim_end before))
    else comment_scan (is_whitespace c) (before ++ (c ∷ [])) s

unfoldable pub comment_at : Text → Option ℕ
unfolding comment_scan
comment_at s = comment_scan false [] s

abbrev pub or_length : Option ℕ → Text → ℕ
or_length none s = length s
or_length (some i) s = i

unfoldable pub strip_comment : Text → Text
unfolding comment_at
strip_comment s = take (or_length (comment_at s) s) s

-- The inner `kv` of `split_rule_line`.
unfoldable pub kv : Text → Option (Text × Text)
kv s = elim (split_last b'=' s) [
  | none ↦ none
  | some (k, v) ↦ if is_empty (trim k) then none else some (trim k, trim v)
]

-- The first `}` with a key and a value in front of it.
unfoldable pub closed_pair : Text → Text → Option (Text × Text)
unfolding kv
closed_pair before [] = none
closed_pair before (c ∷ s) =
    let rest = closed_pair (before ++ (c ∷ [])) s in
    if c == b'}' then elim (kv before) [ some r ↦ some r | none ↦ rest ] else rest

pub record RuleLine : Type 0 where
  pub name : Text
  pub cpus : Text
  pub closed : Bool

unfoldable pub split_rule_line : Text → Option RuleLine
unfolding closed_pair strip_comment
split_rule_line p = elim (closed_pair [] (strip_comment p)) [
  | some (k, v) ↦ some (record { name = k; cpus = v; closed = true })
  | none ↦ elim (kv (strip_comment p)) [
    | some (k, v) ↦ some (record { name = k; cpus = v; closed = false })
    | none ↦ none
  ]
]

abbrev ends_block : Text → Bool
ends_block [] = true
ends_block (c ∷ r) = is_whitespace c || c == b'#' || starts_with (codes "//") (c ∷ r)

unfoldable pub close_like : Text → Bool
close_like [] = false
close_like (c ∷ r) = if c == b'}' then ends_block r else false

-- What follows a `rfind('=')` in `split_single_line`: `left` up to the last `}` and `{`.
unfoldable pub single_left : Text → Text → Option (Text × Text × Text)
single_left before cpus = elim (strip_suffix_char b'}' (trim_end before)) [
  | none ↦ none
  | some left ↦ elim (split_first b'{' (trim_end left)) [
    | none ↦ none
    | some (pkg, thread) ↦
        if is_empty (trim pkg) || is_empty (trim thread)
        then none
        else some (trim pkg, trim thread, cpus)
  ]
]

unfoldable pub split_single_line : Text → Option (Text × Text × Text)
unfolding single_left
split_single_line body = elim (split_last b'=' body) [
  | none ↦ none
  | some (before, after) ↦ single_left before (trim after)
]

pub data OuterLine : Type 0 where
  rule : Text → Text → Bool → OuterLine
  bare_open : Text → OuterLine
  pending : Text → OuterLine
  single : Text → Text → Text → Bool → OuterLine
  junk : OuterLine

-- `parse_outer` behind `split_single_line`.
unfoldable pub parse_plain : Bool → Text → OuterLine
unfolding close_like
parse_plain open_brace body =
    if not open_brace && close_like body then junk else elim (split_last b'=' body) [
      | some (pkg, cpus) ↦
          if is_empty (trim cpus)
          then (if open_brace then bare_open (trim pkg) else pending (trim pkg))
          else rule (trim pkg) (trim cpus) open_brace
      | none ↦ if open_brace then bare_open body else pending body
    ]

unfoldable pub parse_body : Bool → Text → OuterLine
unfolding split_single_line parse_plain
parse_body open_brace body = elim (split_single_line body) [
  | some (pkg, thread, cpus) ↦ single pkg thread cpus open_brace
  | none ↦ parse_plain open_brace body
]

unfoldable pub parse_outer : Text → OuterLine
unfolding parse_body strip_comment
parse_outer p = elim (strip_suffix_char b'{' (strip_comment p)) [
  | some b ↦ parse_body true (trim_end b)
  | none ↦ parse_body false (strip_comment p)
]
