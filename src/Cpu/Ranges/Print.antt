-- ===== src/Cpu/Ranges/Print.antt =====
-- `to_range_string` prints intervals that hold exactly the members of the set.
use app_opt.Base.{
  ℕ, ◌+◌, Bool, false, ◌&&◌, ◌||◌, List, [], ◌∷◌, ◌++◌, Option, none, some, any, leb, ◌==◌,
  if◌then◌else◌, ◌≡◌, refl, ap, arith, append_assoc, append-nil,
}
use app_opt.Base.Text.{Text, is_empty}
use app_opt.Cpu.Ranges.{Printer, print_range, push, add_cpu, close_run}

-- Intervals as text, with commas between them.
abbrev pub render_rest : List (ℕ × ℕ) → Text
render_rest [] = []
render_rest ((lo, hi) ∷ rs) = (b',' ∷ print_range lo hi) ++ render_rest rs

abbrev pub render : List (ℕ × ℕ) → Text
render [] = []
render ((lo, hi) ∷ rs) = print_range lo hi ++ render_rest rs

abbrev pub in_range : ℕ → ℕ × ℕ → Bool
in_range j (lo, hi) = leb lo j && leb j hi

-- The loop's variables as what they stand for: the intervals printed, and the one still open.
pub record Runs : Type 0 where
  pub closed : List (ℕ × ℕ)
  pub run : Option (ℕ × ℕ)

abbrev pub start_of : Option (ℕ × ℕ) → Option ℕ
start_of none = none
start_of (some (lo, hi)) = some lo

abbrev pub end_of : Option (ℕ × ℕ) → Option ℕ
end_of none = none
end_of (some (lo, hi)) = some hi

abbrev pub concrete : Runs → Printer
concrete r = record {
  result = render r.closed;
  start = start_of r.run;
  end = end_of r.run;
  first = is_empty r.closed;
}

abbrev pub run_list : Option (ℕ × ℕ) → List (ℕ × ℕ)
run_list none = []
run_list (some r) = r ∷ []

abbrev pub intervals : Runs → List (ℕ × ℕ)
intervals r = r.closed ++ run_list r.run

render_rest-append :
    (rs ss : List (ℕ × ℕ)) → render_rest (rs ++ ss) ≡ render_rest rs ++ render_rest ss
render_rest-append [] ss = refl
render_rest-append ((lo, hi) ∷ rs) ss =
    ap (λ (t : Text). b',' ∷ t) (rw (render_rest-append rs ss, append_assoc) refl)

render-snoc :
    (rs : List (ℕ × ℕ)) (lo hi : ℕ)
    → render (rs ++ ((lo, hi) ∷ []))
      ≡ (if is_empty rs then render rs else render rs ++ (b',' ∷ [])) ++ print_range lo hi
render-snoc [] lo hi = append-nil _
render-snoc (r ∷ rs) lo hi = simp (render_rest-append, append_assoc, append-nil)

any-append :
    (j : ℕ) (rs ss : List (ℕ × ℕ))
    → any (in_range j) (rs ++ ss) ≡ (any (in_range j) rs || any (in_range j) ss)
any-append j [] ss = refl
any-append j (r ∷ rs) ss = ground (arith, any-append j rs ss)

is_empty-snoc : (rs : List (ℕ × ℕ)) (r : ℕ × ℕ) → is_empty (rs ++ (r ∷ [])) ≡ false
is_empty-snoc [] r = refl
is_empty-snoc (x ∷ rs) r = refl

abbrev pub add_run : ℕ → List (ℕ × ℕ) → Option (ℕ × ℕ) → Runs
add_run cpu closed none = record { closed = closed; run = some (cpu, cpu) }
add_run cpu closed (some (lo, hi)) =
    if cpu == hi + 1
    then record { closed = closed; run = some (lo, cpu) }
    else record { closed = closed ++ ((lo, hi) ∷ []); run = some (cpu, cpu) }

pub add_cpu-concrete :
    (cpu : ℕ) (closed : List (ℕ × ℕ)) (run : Option (ℕ × ℕ))
    → add_cpu cpu (concrete (record { closed = closed; run = run }))
      ≡ concrete (add_run cpu closed run)
unfolding add_cpu
add_cpu-concrete cpu closed none = refl
add_cpu-concrete cpu closed (some (lo, hi)) =
    ground (arith, render-snoc closed lo hi, is_empty-snoc closed (lo, hi))

pub close_run-concrete :
    (closed : List (ℕ × ℕ)) (run : Option (ℕ × ℕ))
    → close_run (concrete (record { closed = closed; run = run }))
      ≡ concrete (record { closed = closed ++ run_list run; run = none })
unfolding close_run
close_run-concrete closed none = rw append-nil
close_run-concrete closed (some (lo, hi)) =
    ground (arith, render-snoc closed lo hi, is_empty-snoc closed (lo, hi))

pub push-concrete :
    (closed : List (ℕ × ℕ)) (run : Option (ℕ × ℕ))
    → (push (concrete (record { closed = closed; run = run }))).result
      ≡ render (closed ++ run_list run)
unfolding push
push-concrete closed none = rw append-nil
push-concrete closed (some (lo, hi)) = ground (arith, render-snoc closed lo hi)
