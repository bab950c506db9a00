-- ===== src/Ebpf/Comm.antt =====
-- `comm_str` of AppOpt/src/ebpf_mode.rs: the name in the array of an event. `utf8` is `from_utf8`.
use app_opt.Base.{
  ℕ, zero, suc, ◌-◌, ◌≡◌, ◌∙◌, refl, ap, List, [], ◌∷◌, ◌++◌, Option, none, some, length, replicate,
  arith, ◌==◌,
}
use app_opt.Base.Text.{Text, trim, trim_solid, IsSolid, Lacks}
use app_opt.Ebpf.Whitelist.{comm_array}
use app_opt.Scan.Readers.{until}

abbrev or_empty : Option Text → Text
or_empty none = []
or_empty (some s) = s

unfoldable pub comm_str : (List ℕ → Option Text) → List ℕ → Text
comm_str utf8 comm = trim (or_empty (utf8 (until (λ b. b == 0) comm)))

until-zeros : (t : List ℕ) (n : ℕ) → Lacks 0 t → until (λ b. b == 0) (t ++ replicate n 0) ≡ t
unfolding until
until-zeros [] zero h = refl
until-zeros [] (suc n) h = refl
until-zeros (c ∷ t) n h = ground (arith, h.0, until-zeros t n h.1)

-- A name without white space, of bytes that are not zero and that are its own text, comes back from
-- its array.
comm_str-comm_array :
    (utf8 : List ℕ → Option Text) (t : Text)
    → utf8 t ≡ some t
    → IsSolid t
    → Lacks 0 t
    → comm_str utf8 (comm_array t) ≡ t
unfolding comm_str
comm_str-comm_array utf8 t same solid full =
    ap (λ s. trim (or_empty (utf8 s))) (until-zeros t (16 - length t) full)
    ∙ ap (λ o. trim (or_empty o)) same
    ∙ trim_solid t solid
