-- ===== src/Edit/Idxs.antt =====
-- The line numbers that `rule_delete_pkg` of AppOpt/src/rule_edit.rs takes away in one round.
use app_opt.Base.{
  ℕ, zero, suc, ◌+◌, ◌-◌, ◌<◌, ◌≤◌, ◌≡◌, refl, ap, Bool, true, false, not, List, [], ◌∷◌, Option,
  none, some, All, All-append, length, erase_idx, filter, leb, ◌==◌, Bool-cases, inl, inr, arith,
  if_elim,
}
use app_opt.Base.Text.{Text, is_empty, is_some}
use app_opt.Edit.{PkgLine, ThreadLoc, Target, single_locs, singles, pkg_lines}
use app_opt.Edit.Bounds.{Below, LocsBelow, InRange}
use app_opt.Edit.Ops.{
  numbers, idxs_of, inner_locs, greatest, end_of, block_lines, insert_idx, sort_idxs, dedup_idx,
  dedup_idxs, doomed, remove_idxs,
}

length-erase_idx :
    (ls : List Text) (i : ℕ) → i < length ls → length (erase_idx ls i) + 1 ≡ length ls
length-erase_idx [] i h = absurd (omega (arith, h))
length-erase_idx (x ∷ ls) zero h = omega arith
length-erase_idx (x ∷ ls) (suc i) h = omega (arith, length-erase_idx ls i (omega (arith, h)))

-- Numbers from `lo` on that do not fall, and that rise.
abbrev Climbs : ℕ → List ℕ → Type 0
Climbs lo [] = Unit
Climbs lo (i ∷ is) = lo ≤ i × Climbs i is

abbrev Rises : ℕ → List ℕ → Type 0
Rises lo [] = Unit
Rises lo (i ∷ is) = lo ≤ i × Rises (suc i) is

Climbs-lower : (lo i : ℕ) (is : List ℕ) → lo ≤ i → Climbs i is → Climbs lo is
Climbs-lower lo i [] h c = tt
Climbs-lower lo i (j ∷ js) h c = (omega (arith, h, c.0), c.1)

leb-true : (i j : ℕ) → leb i j ≡ true → i ≤ j
leb-true i j e = ground arith

leb-false : (i j : ℕ) → leb i j ≡ false → j ≤ i
leb-false i j e = ground arith

==-false : (i j : ℕ) → i ≤ j → (i == j) ≡ false → suc i ≤ j
==-false i j h e = ground arith

insert_idx-Climbs : (lo i : ℕ) (js : List ℕ) → lo ≤ i → Climbs lo js → Climbs lo (insert_idx i js)
unfolding insert_idx
insert_idx-Climbs lo i [] h c = (h, tt)
insert_idx-Climbs lo i (j ∷ js) h c = elim (Bool-cases (leb i j)) [
  | inl e ↦ rw e (h, (leb-true i j e, c.1))
  | inr e ↦ rw e (c.0, insert_idx-Climbs j i js (leb-false i j e) c.1)
]

pub sort_idxs-Climbs : (is : List ℕ) → Climbs 0 (sort_idxs is)
unfolding sort_idxs
sort_idxs-Climbs [] = tt
sort_idxs-Climbs (i ∷ is) = insert_idx-Climbs 0 i (sort_idxs is) (omega arith) (sort_idxs-Climbs is)

dedup_idx-Rises : (i : ℕ) (js : List ℕ) → Climbs i js → Rises (suc i) (dedup_idx i js)
unfolding dedup_idx
dedup_idx-Rises i [] c = tt
dedup_idx-Rises i (j ∷ js) c = elim (Bool-cases (i == j)) [
  | inl e ↦ rw e (dedup_idx-Rises i js (Climbs-lower i j js c.0 c.1))
  | inr e ↦ rw e (==-false i j c.0 e, dedup_idx-Rises j js c.1)
]

pub dedup_idxs-Rises : (is : List ℕ) → Climbs 0 is → Rises 0 (dedup_idxs is)
unfolding dedup_idxs
dedup_idxs-Rises [] c = tt
dedup_idxs-Rises (i ∷ is) c = (omega arith, dedup_idx-Rises i is c.1)

module _ (n : ℕ) where
  insert_idx-All :
      (i : ℕ) (js : List ℕ) → i < n → All (λ k. k < n) js → All (λ k. k < n) (insert_idx i js)
  unfolding insert_idx
  insert_idx-All i [] h hs = (h, tt)
  insert_idx-All i (j ∷ js) h hs =
      if_elim (All (λ k. k < n)) (leb i j) (h, hs) (hs.0, insert_idx-All i js h hs.1)

  pub sort_idxs-All : (is : List ℕ) → All (λ k. k < n) is → All (λ k. k < n) (sort_idxs is)
  unfolding sort_idxs
  sort_idxs-All [] h = tt
  sort_idxs-All (i ∷ is) h = insert_idx-All i (sort_idxs is) h.0 (sort_idxs-All is h.1)

  dedup_idx-All : (i : ℕ) (js : List ℕ) → All (λ k. k < n) js → All (λ k. k < n) (dedup_idx i js)
  unfolding dedup_idx
  dedup_idx-All i [] h = tt
  dedup_idx-All i (j ∷ js) h =
      if_elim (All (λ k. k < n)) (i == j) (dedup_idx-All i js h.1) (h.0, dedup_idx-All j js h.1)

  pub dedup_idxs-All : (is : List ℕ) → All (λ k. k < n) is → All (λ k. k < n) (dedup_idxs is)
  unfolding dedup_idxs
  dedup_idxs-All [] h = tt
  dedup_idxs-All (i ∷ is) h = (h.0, dedup_idx-All i is h.1)

  -- Rising numbers below `n` are not more than there are.
  length-Rises :
      (lo : ℕ) (is : List ℕ) → lo ≤ n → Rises lo is → All (λ k. k < n) is → lo + length is ≤ n
  length-Rises lo [] h r hs = omega (arith, h)
  length-Rises lo (i ∷ is) h r hs =
      let k = length-Rises (suc i) is hs.0 r.1 hs.1 in omega (arith, k, r.0)

  numbers-All : (i k : ℕ) → k ≤ n - i → All (λ j. j < n) (numbers i k)
  unfolding numbers
  numbers-All i zero h = tt
  numbers-All i (suc k) h = (omega (arith, h), numbers-All (i + 1) k (omega (arith, h)))

  greatest-below : (d : ℕ) (is : List ℕ) → d < n → All (λ k. k < n) is → greatest d is < n
  greatest-below d [] h hs = h
  greatest-below d (i ∷ []) h hs = hs.0
  greatest-below d (i ∷ j ∷ is) h hs =
      let k = greatest-below d (j ∷ is) h hs.1 in omega (arith, k, hs.0)

  idxs_of-All : (locs : List ThreadLoc) → LocsBelow n locs → All (λ k. k < n) (idxs_of locs)
  unfolding idxs_of
  idxs_of-All [] h = tt
  idxs_of-All (l ∷ locs) h = (h.0, idxs_of-All locs h.1)

  filter-All :
      (p : ThreadLoc → Bool) (locs : List ThreadLoc)
      → LocsBelow n locs
      → LocsBelow n (filter p locs)
  filter-All p [] h = tt
  filter-All p (l ∷ locs) h =
      if_elim (LocsBelow n) (p l) (h.0, filter-All p locs h.1) (filter-All p locs h.1)

  single_locs-All :
      (m : List (Text × List ThreadLoc))
      → All (λ e. LocsBelow n e.1) m
      → LocsBelow n (single_locs m)
  single_locs-All [] h = tt
  single_locs-All ((name, locs) ∷ m) h =
      All-append (λ l. l.idx < n) (filter (λ l. l.single) locs) (single_locs m)
        (filter-All _ locs h.0) (single_locs-All m h.1)

  inner_locs-All :
      (m : List (Text × List ThreadLoc)) → All (λ e. LocsBelow n e.1) m → LocsBelow n (inner_locs m)
  inner_locs-All [] h = tt
  inner_locs-All ((name, locs) ∷ m) h =
      All-append (λ l. l.idx < n) (filter (λ l. not l.single) locs) (inner_locs m)
        (filter-All _ locs h.0) (inner_locs-All m h.1)

  end_of-Below :
      (t : Target) (opens : ℕ) (c : Option ℕ)
      → InRange n t
      → opens < n
      → Below n c
      → end_of t opens c < n
  end_of-Below t opens none h ho hc =
      greatest-below opens (idxs_of (inner_locs t.threads)) ho
        (idxs_of-All (inner_locs t.threads) (inner_locs-All t.threads h.threads))
  end_of-Below t opens (some close) h ho hc = hc

  block_lines-All :
      (t : Target) (o : Option ℕ) → InRange n t → Below n o → All (λ k. k < n) (block_lines t o)
  block_lines-All t none h ho = tt
  block_lines-All t (some opens) h ho =
      let e = end_of-Below t opens t.block_close h ho h.closed in
      numbers-All opens _ (omega (arith, e))

  pub doomed-All : (t : Target) → InRange n t → All (λ k. k < n) (doomed t)
  unfolding doomed
  doomed-All t h =
      All-append (λ k. k < n) (pkg_lines t.pkg_line) _ h.line
        (All-append (λ k. k < n) (block_lines t t.block_open) (idxs_of (singles t))
          (block_lines-All t t.block_open h h.opened)
          (idxs_of-All (singles t) (single_locs-All t.threads h.threads)))

-- Each of the numbers takes one line away.
pub length-remove_idxs :
    (lo : ℕ) (is : List ℕ) (ls : List Text)
    → Rises lo is
    → All (λ k. k < length ls) is
    → length (remove_idxs is ls) + length is ≡ length ls
unfolding remove_idxs
length-remove_idxs lo [] ls r h = omega arith
length-remove_idxs lo (i ∷ is) ls r h =
    let rest = length-remove_idxs (suc i) is ls r.1 h.1 in
    let room = length-Rises (length ls) (suc i) is h.0 r.1 h.1 in
    let one = length-erase_idx (remove_idxs is ls) i (omega (arith, rest, room)) in
    omega (arith, rest, one)

length-insert_idx : (i : ℕ) (is : List ℕ) → length (insert_idx i is) ≡ suc (length is)
unfolding insert_idx
length-insert_idx i [] = refl
length-insert_idx i (j ∷ js) =
    if_elim {A = List ℕ} (λ l. length l ≡ suc (length (j ∷ js))) (leb i j) refl
      (ap suc (length-insert_idx i js))

pub sort_idxs-nonempty : (is : List ℕ) → 0 < length is → 0 < length (sort_idxs is)
unfolding sort_idxs
sort_idxs-nonempty [] h = h
sort_idxs-nonempty (i ∷ is) h = omega (arith, length-insert_idx i (sort_idxs is))

pub dedup_idxs-nonempty : (is : List ℕ) → 0 < length is → 0 < length (dedup_idxs is)
unfolding dedup_idxs
dedup_idxs-nonempty [] h = h
dedup_idxs-nonempty (i ∷ is) h = omega arith

pub pkg_lines-nonempty : (l : Option PkgLine) → is_some l ≡ true → 0 < length (pkg_lines l)
pkg_lines-nonempty none h = absurd (cc h)
pkg_lines-nonempty (some l) h = omega arith

pub idxs_of-nonempty :
    (locs : List ThreadLoc) → not (is_empty locs) ≡ true → 0 < length (idxs_of locs)
unfolding idxs_of
idxs_of-nonempty [] h = absurd (cc h)
idxs_of-nonempty (l ∷ locs) h = omega arith
