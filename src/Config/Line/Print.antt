-- ===== src/Config/Line/Print.antt =====
-- A line `pkg=cpus` as AppOpt/src/rule_edit.rs writes it, read by the grammar in AppOpt/src/config.rs.
use app_opt.Base.{
  ℕ, ◌≡◌, ◌∙◌, ap, refl, true, false, [], ◌∷◌, ◌++◌, Option, none, some, All-append, length, take,
  ◌||◌, arith, if◌then◌else◌,
}
use app_opt.Base.Text.{
  Text, is_empty, is_whitespace, trim, trim_end, split_last, split_first, strip_suffix_char, Lacks,
  IsSolid, trim_solid, trim_end_solid,
}
use app_opt.Config.Line.{
  OuterLine, rule, comment_scan, comment_at, strip_comment, single_left, split_single_line,
  close_like, parse_plain, parse_body, parse_outer,
}

-- Names and values that the grammar gives back as they are.
pub record IsPlain (pkg cpus : Text) : Type 0 where
  pub solid_pkg : IsSolid pkg
  pub solid_cpus : IsSolid cpus
  pub no_open : Lacks b'{' cpus
  pub no_equals : Lacks b'=' cpus
  pub no_close : Lacks b'}' pkg
  pub value : is_empty cpus ≡ false

comment_scan_solid : (before s : Text) → IsSolid s → comment_scan false before s ≡ none
unfolding comment_scan
comment_scan_solid before [] h = refl
comment_scan_solid before (c ∷ s) h = rw h.0 (comment_scan_solid (before ++ (c ∷ [])) s h.1)

take-length : (s : Text) → take (length s) s ≡ s
take-length [] = refl
take-length (c ∷ s) = ap (◌∷◌ c) (take-length s)

strip_comment_solid : (s : Text) → IsSolid s → strip_comment s ≡ s
unfolding strip_comment comment_at
strip_comment_solid s h = rw (comment_scan_solid [] s h) (take-length s)

strip_suffix_char-Lacks : (b : ℕ) (s : Text) → Lacks b s → strip_suffix_char b s ≡ none
unfolding strip_suffix_char
strip_suffix_char-Lacks b [] h = refl
strip_suffix_char-Lacks b (x ∷ []) h = ground (arith, h.0)
strip_suffix_char-Lacks b (x ∷ y ∷ s) h = rw (strip_suffix_char-Lacks b (y ∷ s) h.1) refl

-- The last character decides.
strip_suffix_char-append :
    (b : ℕ) (s : Text) (c : ℕ) (t : Text)
    → Lacks b (c ∷ t)
    → strip_suffix_char b (s ++ (c ∷ t)) ≡ none
unfolding strip_suffix_char
strip_suffix_char-append b [] c t h = strip_suffix_char-Lacks b (c ∷ t) h
strip_suffix_char-append b (x ∷ []) c t h = rw (strip_suffix_char-Lacks b (c ∷ t) h) refl
strip_suffix_char-append b (x ∷ y ∷ s) c t h = rw (strip_suffix_char-append b (y ∷ s) c t h) refl

split_last-Lacks : (b : ℕ) (s : Text) → Lacks b s → split_last b s ≡ none
unfolding split_last
split_last-Lacks b [] h = refl
split_last-Lacks b (x ∷ s) h = rw (split_last-Lacks b s h.1) (ground (arith, h.0))

split_last-append : (b : ℕ) (p s : Text) → Lacks b s → split_last b (p ++ (b ∷ s)) ≡ some (p, s)
unfolding split_last
split_last-append b [] s h = rw (split_last-Lacks b s h) (ground arith)
split_last-append b (x ∷ p) s h = rw (split_last-append b p s h) refl

close_like-Lacks : (p s : Text) → Lacks b'}' p → close_like (p ++ (b'=' ∷ s)) ≡ false
unfolding close_like
close_like-Lacks [] s h = refl
close_like-Lacks (x ∷ p) s h = ground (arith, h.0)

pub rule_line-IsSolid : (pkg cpus : Text) → IsPlain pkg cpus → IsSolid (pkg ++ (b'=' ∷ cpus))
unfolding is_whitespace
rule_line-IsSolid pkg cpus h =
    All-append (λ c. is_whitespace c ≡ false) pkg (b'=' ∷ cpus) h.solid_pkg (refl, h.solid_cpus)

single_left-plain : (pkg cpus : Text) → IsPlain pkg cpus → single_left pkg (trim cpus) ≡ none
unfolding single_left
single_left-plain pkg cpus h =
    ap {A = Option Text}
      (λ o. elim o [
        | none ↦ none
        | some left ↦ elim (split_first b'{' (trim_end left)) [
          | none ↦ none
          | some (pg, thread) ↦
              if is_empty (trim pg) || is_empty (trim thread)
              then none
              else some (trim pg, trim thread, trim cpus)
        ]
      ])
      (ap (strip_suffix_char b'}') (trim_end_solid pkg h.solid_pkg)
        ∙ strip_suffix_char-Lacks b'}' pkg h.no_close)

not_single : (pkg cpus : Text) → IsPlain pkg cpus → split_single_line (pkg ++ (b'=' ∷ cpus)) ≡ none
unfolding split_single_line
not_single pkg cpus h =
    ap {A = Option (Text × Text)}
      (λ o. elim o [ none ↦ none | some (before, after) ↦ single_left before (trim after) ])
      (split_last-append b'=' pkg cpus h.no_equals)
    ∙ single_left-plain pkg cpus h

plain_rule :
    (pkg cpus : Text)
    → IsPlain pkg cpus
    → parse_plain false (pkg ++ (b'=' ∷ cpus)) ≡ rule pkg cpus false
unfolding parse_plain
plain_rule pkg cpus h = rw (close_like-Lacks pkg cpus h.no_close) (
    rw (split_last-append b'=' pkg cpus h.no_equals)
      (rw (trim_solid cpus h.solid_cpus) (rw h.value (rw (trim_solid pkg h.solid_pkg) refl))))

parse_body-rule_line :
    (pkg cpus : Text)
    → IsPlain pkg cpus
    → parse_body false (pkg ++ (b'=' ∷ cpus)) ≡ rule pkg cpus false
unfolding parse_body
parse_body-rule_line pkg cpus h =
    ap {A = Option (Text × Text × Text)}
      (λ o. elim o [
        | some (pg, th, cp) ↦ OuterLine.single pg th cp false
        | none ↦ parse_plain false (pkg ++ (b'=' ∷ cpus))
      ])
      (not_single pkg cpus h)
    ∙ plain_rule pkg cpus h

-- A line that the rule editor writes for a plain name and value is read by the grammar as the rule
-- of that name and value, without a block.
pub parse_outer-rule_line :
    (pkg cpus : Text) → IsPlain pkg cpus → parse_outer (pkg ++ (b'=' ∷ cpus)) ≡ rule pkg cpus false
unfolding parse_outer
parse_outer-rule_line pkg cpus h =
    let line = pkg ++ (b'=' ∷ cpus) in
    ap {A = Text}
      (λ s. elim (strip_suffix_char b'{' s) [
        | some b ↦ parse_body true (trim_end b)
        | none ↦ parse_body false s
      ])
      (strip_comment_solid line (rule_line-IsSolid pkg cpus h))
    ∙ ap {A = Option Text}
        (λ o. elim o [ some b ↦ parse_body true (trim_end b) | none ↦ parse_body false line ])
        (strip_suffix_char-append b'{' pkg b'=' cpus (λ e. absurd (cc e), h.no_open))
    ∙ parse_body-rule_line pkg cpus h
