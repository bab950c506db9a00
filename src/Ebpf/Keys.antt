-- ===== src/Ebpf/Keys.antt =====
-- Which keys a set of packages gives, and how a key lies in a name.
use app_opt.Base.{
  ℕ, ◌<◌, true, false, ◌||◌, List, [], ◌∷◌, ◌++◌, append_assoc, All, ◌≡◌, refl, sym, ap, ◌∙◌, arith,
  length, ltb, lt→ltb, Bool-cases, inl, inr,
}
use app_opt.Base.Dict.{contains, text_eq}
use app_opt.Base.Text.{Text, eq_text, eq_text_iff, is_empty}
use app_opt.Ebpf.{
  encode, as_bytes, prefix_key, suffix_key, keys_of, push_keys, insert_key, sort_keys, dedup_after,
  dedup, comm_keys_build,
}

contains-insert_key :
    (k j : List ℕ) (js : List (List ℕ))
    → contains k (insert_key j js) ≡ (eq_text j k || contains k js)
unfolding insert_key
contains-insert_key k j [] = refl
contains-insert_key k j (i ∷ js) = ground (arith, contains-insert_key k j js)

contains-sort_keys : (k : List ℕ) (ks : List (List ℕ)) → contains k (sort_keys ks) ≡ contains k ks
unfolding sort_keys
contains-sort_keys k [] = refl
contains-sort_keys k (j ∷ ks) =
    contains-insert_key k j (sort_keys ks) ∙ ap (λ b. eq_text j k || b) (contains-sort_keys k ks)

contains-dedup_after :
    (k j : List ℕ) (js : List (List ℕ))
    → (eq_text j k || contains k (dedup_after j js)) ≡ (eq_text j k || contains k js)
unfolding dedup_after
contains-dedup_after k j [] = refl
contains-dedup_after k j (i ∷ js) = elim (Bool-cases (eq_text j i)) [
  | inl same ↦
      rw same (rw (← (eq_text_iff j i).0 same) (ground (arith, contains-dedup_after k j js)))
  | inr other ↦ rw other (ap (λ b. eq_text j k || b) (contains-dedup_after k i js))
]

contains-dedup : (k : List ℕ) (ks : List (List ℕ)) → contains k (dedup ks) ≡ contains k ks
unfolding dedup
contains-dedup k [] = refl
contains-dedup k (j ∷ ks) = contains-dedup_after k j ks

contains-append :
    (k : List ℕ) (xs ys : List (List ℕ)) → contains k (xs ++ ys) ≡ (contains k xs || contains k ys)
contains-append k [] ys = refl
contains-append k (x ∷ xs) ys = ground (arith, contains-append k xs ys)

contains-push_keys :
    (k : List ℕ) (p : Text) (pkgs : List Text)
    → contains p pkgs ≡ true
    → contains k (keys_of (as_bytes p)) ≡ true
    → contains k (push_keys pkgs) ≡ true
unfolding push_keys
contains-push_keys k p [] h key = h
contains-push_keys k p (q ∷ pkgs) h key =
    contains-append k (keys_of (as_bytes q)) (push_keys pkgs) ∙ elim (Bool-cases (eq_text q p)) [
      | inl same ↦ rw ((eq_text_iff q p).0 same) (rw key refl)
      | inr other ↦ rw (contains-push_keys k p pkgs (rw other at h) key) (ground arith)
    ]

-- Every key of a package of the set is in the list.
pub contains-comm_keys_build :
    (k : List ℕ) (p : Text) (pkgs : List Text)
    → contains p pkgs ≡ true
    → contains k (keys_of (as_bytes p)) ≡ true
    → contains k (comm_keys_build pkgs) ≡ true
unfolding comm_keys_build
contains-comm_keys_build k p pkgs h key =
    contains-dedup k (sort_keys (push_keys pkgs))
    ∙ contains-sort_keys k (push_keys pkgs)
    ∙ contains-push_keys k p pkgs h key

pub eq_text_refl : (t : List ℕ) → eq_text t t ≡ true
eq_text_refl t = (eq_text_iff t t).1 refl

pub contains-prefix_key :
    (bytes : List ℕ) → is_empty bytes ≡ false → contains (prefix_key bytes) (keys_of bytes) ≡ true
unfolding keys_of
contains-prefix_key bytes h = elim (Bool-cases (ltb 8 (length bytes))) [
  | inl long ↦ rw (h, long, eq_text_refl (prefix_key bytes)) refl
  | inr short ↦ rw (h, short, eq_text_refl (prefix_key bytes)) refl
]

pub contains-suffix_key :
    (bytes : List ℕ)
    → is_empty bytes ≡ false
    → ltb 8 (length bytes) ≡ true
    → contains (suffix_key bytes) (keys_of bytes) ≡ true
unfolding keys_of
contains-suffix_key bytes h long = rw (h, long, eq_text_refl (suffix_key bytes)) (ground arith)

pub as_bytes-append : (s t : Text) → as_bytes (s ++ t) ≡ as_bytes s ++ as_bytes t
unfolding as_bytes
as_bytes-append [] t = refl
as_bytes-append (c ∷ s) t =
    ap (λ x. encode c ++ x) (as_bytes-append s t) ∙ sym (append_assoc (encode c) _ _)

abbrev pub IsAscii : Text → Type 0
IsAscii t = All (λ c. c < 0x80) t

pub as_bytes_ascii : (t : Text) → IsAscii t → as_bytes t ≡ t
unfolding as_bytes encode
as_bytes_ascii [] h = refl
as_bytes_ascii (c ∷ t) (small, h) =
    let fits = lt→ltb c 0x80 small in rw (fits, as_bytes_ascii t h) refl
