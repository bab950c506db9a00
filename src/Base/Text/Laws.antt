-- ===== src/Base/Text/Laws.antt =====
-- Laws of the `str` methods.
use Prim.Native.Nat.{ℕ}
use mathlib.Core.Path.{◌≡◌, refl}
use mathlib.Core.Logic.{◌↔◌, ◌≢◌}
use mathlib.Core.Bool.{true, false}
use mathlib.Core.List.{[], ◌∷◌, ◌++◌}
use mathlib.Core.Option.{none, some}
use native.Mathlib.Omega.{arith}
use app_opt.Base.Lists.{All}
use app_opt.Base.Text.Cut.{
  Text, eq_text, is_whitespace, trim_start, trim_end, trim, split, split_first, contains_char,
}

pub eq_text_iff : (a b : Text) → (eq_text a b ≡ true) ↔ (a ≡ b)
unfolding eq_text
eq_text_iff (x ∷ a) (y ∷ b) = ground (arith, eq_text_iff a b)
eq_text_iff _ _ = ground arith

pub eq_text_refl : (a : Text) → eq_text a a ≡ true
eq_text_refl a = (eq_text_iff a a).1 refl

abbrev pub Lacks : ℕ → Text → Type 0
Lacks b = All (λ c. c ≢ b)

-- A text with no white space is its own trim.
abbrev pub IsSolid : Text → Type 0
IsSolid = All (λ c. is_whitespace c ≡ false)

trim_start_solid : (s : Text) → IsSolid s → trim_start s ≡ s
unfolding trim_start
trim_start_solid [] h = refl
trim_start_solid (c ∷ s) h = rw h.0 refl

pub trim_end_solid : (s : Text) → IsSolid s → trim_end s ≡ s
unfolding trim_end
trim_end_solid [] h = refl
trim_end_solid (c ∷ []) h = rw h.0 refl
trim_end_solid (c ∷ d ∷ s) h = rw (trim_end_solid (d ∷ s) h.1) refl

pub trim_solid : (s : Text) → IsSolid s → trim s ≡ s
trim_solid s h = unfold trim in rw (trim_start_solid s h) (trim_end_solid s h)

pub split-Lacks : (b : ℕ) (p : Text) → Lacks b p → split b p ≡ p ∷ []
unfolding split
split-Lacks b [] h = refl
split-Lacks b (c ∷ p) h = ground (arith, split-Lacks b p h.1)

pub split-append :
    (b : ℕ) (p rest : Text) → Lacks b p → split b (p ++ (b ∷ rest)) ≡ p ∷ split b rest
unfolding split
split-append b [] rest h = ground arith
split-append b (c ∷ p) rest h = ground (arith, split-append b p rest h.1)

pub split_first-Lacks : (b : ℕ) (p : Text) → Lacks b p → split_first b p ≡ none
unfolding split_first
split_first-Lacks b [] h = refl
split_first-Lacks b (c ∷ p) h = ground (arith, split_first-Lacks b p h.1)

pub split_first-append :
    (b : ℕ) (p rest : Text) → Lacks b p → split_first b (p ++ (b ∷ rest)) ≡ some (p, rest)
unfolding split_first
split_first-append b [] rest h = ground arith
split_first-append b (c ∷ p) rest h = ground (arith, split_first-append b p rest h.1)

pub contains_char-Lacks : (c : ℕ) (s : Text) → contains_char c s ≡ false → Lacks c s
unfolding contains_char
contains_char-Lacks c [] h = tt
contains_char-Lacks c (x ∷ s) h = ground (arith, contains_char-Lacks c s)
