-- ===== src/Config/Line/Single.antt =====
-- A line `pkg{thread}=cpus` of the grammar in AppOpt/src/config.rs always names a thread.
use app_opt.Base.{◌≡◌, ◌≢◌, refl, Bool, true, false, Option, none, some, arith}
use app_opt.Base.Text.{Text, is_empty, trim, trim_end, strip_suffix_char, split_last}
use app_opt.Config.Line.{
  single, parse_outer, parse_body, parse_plain, single_left, split_single_line, strip_comment,
}

single_left-thread :
    (before cpus : Text) {pg th c : Text}
    → single_left before cpus ≡ some (pg, th, c)
    → is_empty th ≡ false
unfolding single_left
single_left-thread before cpus h = ground arith

split_single_line-thread :
    (body : Text) {pg th c : Text} → split_single_line body ≡ some (pg, th, c) → is_empty th ≡ false
unfolding split_single_line
split_single_line-thread body {pg} {th} {c} h = by_parts (split_last b'=' body) h
  where
    by_parts :
        (o : Option (Text × Text))
        → (elim o [ none ↦ none | some (before, after) ↦ single_left before (trim after) ])
          ≡ some (pg, th, c)
        → is_empty th ≡ false
    by_parts none g = absurd (cc g)
    by_parts (some (before, after)) g = single_left-thread before (trim after) g

parse_plain-single :
    (b : Bool) (body : Text) {pg th c : Text} {o : Bool} → parse_plain b body ≢ single pg th c o
unfolding parse_plain
parse_plain-single b body h = ground arith

parse_body-single :
    (b : Bool) (body : Text) {pg th c : Text} {o : Bool}
    → parse_body b body ≡ single pg th c o
    → is_empty th ≡ false
unfolding parse_body
parse_body-single b body {pg} {th} {c} {o} h = by_single (split_single_line body) refl h
  where
    by_single :
        (r : Option (Text × Text × Text))
        → split_single_line body ≡ r
        → (elim r [
          | some (pkg, thread, cpus) ↦ single pkg thread cpus b
          | none ↦ parse_plain b body
        ])
          ≡ single pg th c o
        → is_empty th ≡ false
    by_single none e g = absurd (parse_plain-single b body g)
    by_single (some (x, y, z)) e g = let named = split_single_line-thread body e in cc (named, g)

-- A line of its own always names a thread.
pub parse_outer-single :
    (p : Text) {pg th c : Text} {o : Bool} → parse_outer p ≡ single pg th c o → is_empty th ≡ false
unfolding parse_outer
parse_outer-single p {pg} {th} {c} {o} h = by_brace (strip_suffix_char b'{' (strip_comment p)) h
  where
    by_brace :
        (r : Option Text)
        → (elim r [
          | some b ↦ parse_body true (trim_end b)
          | none ↦ parse_body false (strip_comment p)
        ])
          ≡ single pg th c o
        → is_empty th ≡ false
    by_brace none g = parse_body-single false (strip_comment p) g
    by_brace (some b) g = parse_body-single true (trim_end b) g
