-- ===== src/Ebpf/Whitelist.antt =====
-- What user space would match, the filter of the kernel lets pass.
use app_opt.Base.{
  ℕ, zero, suc, ◌+◌, ◌-◌, ◌<◌, ◌≤◌, min, Bool, true, false, List, [], ◌∷◌, ◌++◌, append-nil, some,
  ◌≡◌, ◌≢◌, refl, sym, ap, ◌∙◌, ◌⊎◌, arith, length, length-append, take, drop, replicate, leb,
  Bool-cases, Option-cases, inl, inr, lt→ltb, ==_iff, ◌==◌,
}
use app_opt.Base.Dict.{lookup, contains, text_eq}
use app_opt.Base.Text.{
  Text, eq_text, eq_text_iff, is_empty, is_some, starts_with, ends_with, strip_prefix, byte_len,
}
use app_opt.Ebpf.{as_bytes, prefix_key, suffix_key, keys_of, comm_keys_build}
use app_opt.Ebpf.Keys.{
  contains-comm_keys_build, contains-prefix_key, contains-suffix_key, as_bytes-append,
  as_bytes_ascii, IsAscii, eq_text_refl,
}
use app_opt.Kernel.{Maps, key_at, whitelist_matched}
use app_opt.Kernel.Filter.{whitelist_matched_hit}
use app_opt.Match.{find_pkg, comm_to_pkg}

-- The array of a name: 16 bytes, the last of them zeros.
abbrev pub comm_array : List ℕ → List ℕ
comm_array t = t ++ replicate (16 - length t) 0

take-zeros : (n m : ℕ) → n ≤ m → take n (replicate m zero) ≡ replicate n zero
take-zeros zero m h = refl
take-zeros (suc n) zero h = absurd (omega arith)
take-zeros (suc n) (suc m) h = ap (λ l. zero ∷ l) (take-zeros n m (omega arith))

-- The first `n` of a list that is filled up: `k` are its own, and `z` are zeros.
take-padded :
    (n m k z : ℕ) (t : List ℕ)
    → n ≤ length t + m
    → k ≡ min (length t) n
    → z ≡ n - k
    → take n (t ++ replicate m zero) ≡ take k t ++ replicate z zero
take-padded n m zero z [] h own zeros =
    take-zeros n m (omega arith) ∙ ap (λ (i : ℕ). replicate i zero) (omega arith)
take-padded n m (suc k) z [] h own zeros = absurd (omega arith)
take-padded zero m zero zero (c ∷ t) h own zeros = refl
take-padded zero m zero (suc z) (c ∷ t) h own zeros = absurd (omega arith)
take-padded zero m (suc k) z (c ∷ t) h own zeros = absurd (omega arith)
take-padded (suc n) m zero z (c ∷ t) h own zeros = absurd (omega arith)
take-padded (suc n) m (suc k) z (c ∷ t) h own zeros =
    ap (λ l. c ∷ l) (take-padded n m k z t (omega arith) (omega arith) (omega arith))

take-append : (n : ℕ) (s t : List ℕ) → n ≤ length s → take n (s ++ t) ≡ take n s
take-append zero s t h = refl
take-append (suc n) [] t h = absurd (omega arith)
take-append (suc n) (c ∷ s) t h = ap (λ l. c ∷ l) (take-append n s t (omega arith))

take-length : (n : ℕ) (s : List ℕ) → length s ≡ n → take n s ≡ s
take-length zero [] h = refl
take-length zero (c ∷ s) h = absurd (omega arith)
take-length (suc n) [] h = refl
take-length (suc n) (c ∷ s) h = ap (λ l. c ∷ l) (take-length n s (omega arith))

drop-append : (n : ℕ) (s t : List ℕ) → n ≤ length s → drop n (s ++ t) ≡ drop n s ++ t
drop-append zero s t h = refl
drop-append (suc n) [] t h = absurd (omega arith)
drop-append (suc n) (c ∷ s) t h = drop-append n s t (omega arith)

drop-past : (s t : List ℕ) (n m : ℕ) → m ≡ length s + n → drop m (s ++ t) ≡ drop n t
drop-past [] t n m h = ap (λ k. drop k t) (omega arith)
drop-past (c ∷ s) t n zero h = absurd (omega arith)
drop-past (c ∷ s) t n (suc m) h = drop-past s t n m (omega arith)

length-drop : (n : ℕ) (s : List ℕ) → length (drop n s) ≡ length s - n
length-drop zero s = omega arith
length-drop (suc n) [] = omega arith
length-drop (suc n) (c ∷ s) = omega (arith, length-drop n s)

-- The first window of a name is the prefix key of the name itself, and of what it begins.
first_window : (t : List ℕ) → length t ≤ 15 → key_at 0 (comm_array t) ≡ prefix_key t
first_window t h =
    take-padded 8 (16 - length t) (min (length t) 8) (8 - min (length t) 8) t (omega arith) refl
      refl

prefix_key-long : (t : List ℕ) → 8 ≤ length t → prefix_key t ≡ take 8 t
prefix_key-long t h =
    sym (take-padded 8 0 (min (length t) 8) (8 - min (length t) 8) t (omega arith) refl refl)
    ∙ ap (take 8) (append-nil t)

prefix_window : (t rest : List ℕ) → 15 ≤ length t → key_at 0 (comm_array t) ≡ prefix_key (t ++ rest)
prefix_window t rest long =
    take-append 8 t (replicate (16 - length t) 0) (omega arith)
    ∙ sym (take-append 8 t rest (omega arith))
    ∙ sym (prefix_key-long (t ++ rest) (omega (arith, length-append t rest)))

-- The last eight bytes of a name are the suffix key of what it ends.
suffix_window :
    (t front : List ℕ)
    → 15 ≤ length t
    → key_at (length t - 8) (comm_array t) ≡ suffix_key (front ++ t)
suffix_window t front long =
    ap (take 8) (drop-append (length t - 8) t (replicate (16 - length t) 0) (omega arith))
    ∙ take-append 8 (drop (length t - 8) t) (replicate (16 - length t) 0)
        (omega (arith, length-drop (length t - 8) t))
    ∙ take-length 8 (drop (length t - 8) t) (omega (arith, length-drop (length t - 8) t))
    ∙ sym (
        drop-past front t (length t - 8) (length (front ++ t) - 8)
          (omega (arith, length-append front t)))

-- A text that starts with a name is the name and a rest.
starts_with-append : (t p : Text) → starts_with t p ≡ true → (rest : Text) × (p ≡ t ++ rest)
unfolding strip_prefix
starts_with-append [] p h = (p, refl)
starts_with-append (c ∷ t) [] h = absurd (cc h)
starts_with-append (c ∷ t) (d ∷ p) h = elim (Bool-cases (c == d)) [
  | inl same ↦
      let (rest, e) = starts_with-append t p (rw same at h) in
      (rest, ap (λ l. d ∷ l) e ∙ ap (λ x. x ∷ (t ++ rest)) (sym ((==_iff c d).0 same)))
  | inr other ↦ absurd (cc (rw other at h))
]

ends_with-append : (t p : Text) → ends_with t p ≡ true → (front : Text) × (p ≡ front ++ t)
unfolding ends_with
ends_with-append t [] h = ([], sym ((eq_text_iff t []).0 h))
ends_with-append t (c ∷ p) h = elim (Bool-cases (eq_text t (c ∷ p))) [
  | inl same ↦ ([], sym ((eq_text_iff t (c ∷ p)).0 same))
  | inr other ↦
      let (front, e) = ends_with-append t p (rw other at h) in (c ∷ front, ap (λ l. c ∷ l) e)
]

find_pkg-found :
    (test : Text → Bool) (pkgs : List Text) (p : Text)
    → find_pkg test pkgs ≡ some p
    → (contains p pkgs ≡ true) × (test p ≡ true)
unfolding find_pkg
find_pkg-found test [] p h = absurd (cc h)
find_pkg-found test (q ∷ pkgs) p h = elim (Bool-cases (test q)) [
  | inl fits ↦ let same : q ≡ p = cc (rw fits at h) in rw (← same) (rw (eq_text_refl q) refl, fits)
  | inr other ↦
      let (there, fits) = find_pkg-found test pkgs p (rw other at h) in
      (rw there (ground arith), fits)
]

-- How user space finds a package: by its whole name, or by its start or its end for a long name.
comm_to_pkg-found :
    (t p : Text) (pkgs : List Text)
    → comm_to_pkg t pkgs ≡ some p
    → (contains p pkgs ≡ true)
      × ((t ≡ p)
          ⊎ (leb 15 (byte_len t) ≡ true) × ((starts_with t p ≡ true) ⊎ (ends_with t p ≡ true)))
unfolding comm_to_pkg
comm_to_pkg-found t p pkgs h = elim (Bool-cases (contains t pkgs)) [
  | inl whole ↦ let same : t ≡ p = cc (rw whole at h) in (rw (← same) whole, inl same)
  | inr part ↦ elim (Bool-cases (leb 15 (byte_len t))) [
    | inr short ↦ absurd (cc (rw (part, short) at h))
    | inl long ↦ elim (Option-cases (find_pkg (λ q. starts_with t q) pkgs)) [
      | inl e ↦
          let (there, fits) =
            find_pkg-found (λ q. ends_with t q) pkgs p (rw (part, long, e) at h) in
          (there, inr (long, inr fits))
      | inr (q, e) ↦
          let same : q ≡ p = cc (rw (part, long, e) at h) in
          let (there, fits) = find_pkg-found (λ q. starts_with t q) pkgs q e in
          (rw (← same) there, inr (long, inl (rw (← same) fits)))
    ]
  ]
]

byte_len_ascii : (t : Text) → IsAscii t → byte_len t ≡ length t
byte_len_ascii [] h = refl
byte_len_ascii (c ∷ t) (small, h) = ground (arith, byte_len_ascii t h, small)

long_name : (t : Text) → IsAscii t → leb 15 (byte_len t) ≡ true → 15 ≤ length t
long_name t ascii h = let e = byte_len_ascii t ascii in ground (arith, e, h)

not_empty : (t : List ℕ) → 8 < length t → is_empty t ≡ false
not_empty [] h = absurd (omega arith)
not_empty (c ∷ t) h = refl

-- The map of the kernel has every key of the packages.
abbrev pub HasKeys : List Text → Maps → Type 0
HasKeys pkgs m =
    (k : List ℕ)
    → contains k (comm_keys_build pkgs) ≡ true
    → is_some (lookup k m.target_comm_map) ≡ true

module _ (pkgs : List Text) (m : Maps) (keys : HasKeys pkgs m) (p : Text)
    (there : contains p pkgs ≡ true) where
  passes :
      (j : ℕ) (t k : List ℕ)
      → j < 9
      → key_at j (comm_array t) ≡ k
      → contains k (keys_of (as_bytes p)) ≡ true
      → whitelist_matched (comm_array t) m ≡ true
  passes j t k near window key =
      whitelist_matched_hit j (comm_array t) m near
        (rw window (keys k (contains-comm_keys_build k p pkgs there key)))

  passes-prefix :
      (t rest : List ℕ)
      → t ≢ []
      → as_bytes p ≡ t ++ rest
      → key_at 0 (comm_array t) ≡ prefix_key (t ++ rest)
      → whitelist_matched (comm_array t) m ≡ true
  passes-prefix [] rest named bytes window = absurd (named refl)
  passes-prefix (c ∷ t) rest named bytes window =
      passes 0 (c ∷ t) (prefix_key (c ∷ (t ++ rest))) (omega arith) window
        (rw bytes (contains-prefix_key (c ∷ (t ++ rest)) refl))

  passes-suffix :
      (t front : List ℕ)
      → 15 ≤ length t
      → length t ≤ 15
      → as_bytes p ≡ front ++ t
      → whitelist_matched (comm_array t) m ≡ true
  passes-suffix t front long short bytes =
      passes (length t - 8) t (suffix_key (front ++ t)) (omega arith) (suffix_window t front long) (
        rw bytes (
          contains-suffix_key (front ++ t)
            (not_empty (front ++ t) (omega (arith, length-append front t)))
            (lt→ltb 8 (length (front ++ t)) (omega (arith, length-append front t)))))

-- The filter of the kernel loses no name that user space would match: a name of one to fifteen
-- ASCII characters that stands for a package passes, when the map has every key of the packages.
pub comm_to_pkg-whitelist_matched :
    (t p : Text) (pkgs : List Text) (m : Maps)
    → IsAscii t
    → t ≢ []
    → length t ≤ 15
    → HasKeys pkgs m
    → comm_to_pkg t pkgs ≡ some p
    → whitelist_matched (comm_array t) m ≡ true
comm_to_pkg-whitelist_matched t p pkgs m ascii named short keys h =
    let (there, how) = comm_to_pkg-found t p pkgs h in
    let bytes = as_bytes_ascii t ascii in
    elim how [
      | inl whole ↦
          passes-prefix pkgs m keys p there t [] named (rw (← whole) bytes ∙ sym (append-nil t))
            (first_window t short ∙ ap prefix_key (sym (append-nil t)))
      | inr (long, inl starts) ↦
          let (rest, e) = starts_with-append t p starts in
          passes-prefix pkgs m keys p there t (as_bytes rest) named
            (ap as_bytes e ∙ as_bytes-append t rest ∙ ap (λ b. b ++ as_bytes rest) bytes)
            (prefix_window t (as_bytes rest) (long_name t ascii long))
      | inr (long, inr ends) ↦
          let (front, e) = ends_with-append t p ends in
          passes-suffix pkgs m keys p there t (as_bytes front) (long_name t ascii long) short
            (ap as_bytes e ∙ as_bytes-append front t ∙ ap (λ b. as_bytes front ++ b) bytes)
    ]
