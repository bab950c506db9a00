-- ===== src/Edit/Mentions.antt =====
-- What the steps of `target_scan` of AppOpt/src/rule_edit.rs leave of the lines that name the package.
use app_opt.Base.{
  or_true, ℕ, ◌≡◌, refl, ap, ◌∙◌, Bool, true, false, not, ◌&&◌, ◌||◌, List, [], ◌∷◌, ◌++◌, Option,
  none, some, filter, Bool-cases, inl, inr, if_elim, if◌then◌else◌,
}
use app_opt.Base.Text.{Text, is_empty, eq_text, is_some}
use app_opt.Config.Line.{RuleLine}
use app_opt.Edit.{PkgLine, ThreadLoc, Target, single_locs, singles, any_line}
use app_opt.Edit.Scan.{
  Scan, push_loc, add_loc, close_target, open_target, leave, first_line, in_target, note_single,
}

abbrev Filled : List ThreadLoc → Type 0
Filled ls = not (is_empty ls) ≡ true

Filled-append : (xs ys : List ThreadLoc) → (is_empty xs ≡ true → Filled ys) → Filled (xs ++ ys)
Filled-append [] ys h = h refl
Filled-append (x ∷ xs) ys h = refl

Filled-left :
    (xs ys zs : List ThreadLoc) → (Filled xs → Filled ys) → Filled (xs ++ zs) → Filled (ys ++ zs)
Filled-left [] [] zs f h = h
Filled-left (x ∷ xs) [] zs f h = absurd (cc (f refl))
Filled-left xs (y ∷ ys) zs f h = refl

Filled-right :
    (xs ys zs : List ThreadLoc) → (Filled ys → Filled zs) → Filled (xs ++ ys) → Filled (xs ++ zs)
Filled-right [] ys zs f h = f h
Filled-right (x ∷ xs) ys zs f h = refl

Filled-filter :
    (p : ThreadLoc → Bool) (xs ys : List ThreadLoc)
    → Filled (filter p xs)
    → Filled (filter p (xs ++ ys))
Filled-filter p [] ys h = absurd (cc h)
Filled-filter p (x ∷ xs) ys h = elim (Bool-cases (p x)) [
  | inl e ↦ rw e refl
  | inr e ↦ rw e (Filled-filter p xs ys (by_test e h))
]
  where
    by_test :
        p x ≡ false → Filled (if p x then x ∷ filter p xs else filter p xs) → Filled (filter p xs)
    by_test e = rw e (λ h. h)

Filled-last :
    (xs : List ThreadLoc) (loc : ThreadLoc)
    → loc.single ≡ true
    → Filled (filter (λ l. l.single) (xs ++ (loc ∷ [])))
Filled-last [] loc h = rw h refl
Filled-last (x ∷ xs) loc h =
    if_elim {A = List ThreadLoc} Filled x.single refl (Filled-last xs loc h)

-- A location that comes in takes none away, and one of a line of its own counts.
push_loc-Filled :
    (name : Text) (loc : ThreadLoc) (m : List (Text × List ThreadLoc))
    → Filled (single_locs m)
    → Filled (single_locs (push_loc name loc m))
unfolding push_loc
push_loc-Filled name loc [] h = absurd (cc h)
push_loc-Filled name loc ((k, locs) ∷ m) h =
    if_elim {A = List (Text × List ThreadLoc)} (λ e. Filled (single_locs e)) (eq_text k name)
      (Filled-left (filter (λ l. l.single) locs) _ (single_locs m)
        (Filled-filter (λ l. l.single) locs (loc ∷ [])) h)
      (Filled-right (filter (λ l. l.single) locs) (single_locs m) _ (push_loc-Filled name loc m) h)

push_loc-single :
    (name : Text) (loc : ThreadLoc) (m : List (Text × List ThreadLoc))
    → loc.single ≡ true
    → Filled (single_locs (push_loc name loc m))
unfolding push_loc
push_loc-single name loc [] h = rw h refl
push_loc-single name loc ((k, locs) ∷ m) h =
    if_elim {A = List (Text × List ThreadLoc)} (λ e. Filled (single_locs e)) (eq_text k name)
      (Filled-left (loc ∷ []) _ (single_locs m) (λ _. Filled-last locs loc h) refl)
      (Filled-right (filter (λ l. l.single) locs) (loc ∷ []) _ (λ _. push_loc-single name loc m h)
        (Filled-append (filter (λ l. l.single) locs) (loc ∷ []) (λ _. refl)))

pub any_line-add_loc :
    (name : Text) (loc : ThreadLoc) (t : Target)
    → any_line t ≡ true
    → any_line (add_loc name loc t) ≡ true
unfolding any_line
any_line-add_loc name loc t h = by_line (is_some t.pkg_line) h
  where
    by_line :
        (b : Bool)
        → (b || not (is_empty (singles t))) ≡ true
        → (b || not (is_empty (single_locs (push_loc name loc t.threads)))) ≡ true
    by_line true g = refl
    by_line false g = push_loc-Filled name loc t.threads g

pub any_line-single :
    (name : Text) (loc : ThreadLoc) (t : Target)
    → loc.single ≡ true
    → any_line (add_loc name loc t) ≡ true
unfolding any_line
any_line-single name loc t h =
    ap (λ b. is_some t.pkg_line || b) (push_loc-single name loc t.threads h)
    ∙ or_true (is_some t.pkg_line)

pub any_line-close :
    (b : Bool) (i : ℕ) (t : Target) → any_line t ≡ true → any_line (close_target b i t) ≡ true
unfolding any_line
any_line-close b i t h =
    if_elim {A = Target} (λ u. any_line u ≡ true) (b && not (is_some t.block_close)) h h

pub any_line-open : (i : ℕ) (t : Target) → any_line t ≡ true → any_line (open_target i t) ≡ true
unfolding any_line
any_line-open i t h = if_elim {A = Target} (λ u. any_line u ≡ true) (is_some t.block_close) h h

pub any_line-first : (l : PkgLine) (t : Target) → any_line (first_line l t) ≡ true
unfolding any_line
any_line-first l t = by_line t.pkg_line refl
  where
    by_line :
        (o : Option PkgLine)
        → t.pkg_line ≡ o
        → any_line (if is_some o then t else record t { pkg_line = some l }) ≡ true
    by_line none e = refl
    by_line (some k) e = rw e refl

pub any_line-in_target :
    (i : ℕ) (r : RuleLine) (s : Scan)
    → any_line s.target ≡ true
    → any_line (in_target i r s).target ≡ true
any_line-in_target i r s h =
    if_elim {A = Scan} (λ u. any_line u.target ≡ true) (s.target_block && not (is_empty r.name))
      (any_line-add_loc r.name _ s.target h) h

pub any_line-leave :
    (i : ℕ) (s : Scan) → any_line s.target ≡ true → any_line (leave i s).target ≡ true
any_line-leave i s h = any_line-close s.target_block i s.target h

pub any_line-note :
    (pkg : Text) (i : ℕ) (pg th : Text) (opens : Bool) (t : Target)
    → any_line t ≡ true
    → any_line (note_single pkg i pg th opens t) ≡ true
any_line-note pkg i pg th opens t h =
    if_elim {A = Target} (λ u. any_line u ≡ true) (eq_text pg pkg && not (is_empty th))
      (any_line-add_loc th _ t h) h

pub any_line-noted :
    (pkg : Text) (i : ℕ) (pg th : Text) (opens : Bool) (t : Target)
    → eq_text pg pkg ≡ true
    → is_empty th ≡ false
    → any_line (note_single pkg i pg th opens t) ≡ true
any_line-noted pkg i pg th opens t e f = rw e (rw f (any_line-single th _ t refl))
