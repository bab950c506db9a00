-- ===== src/Ebpf.antt =====
-- AppOpt/src/ebpf_mode.rs: the keys that user space puts into the kernel's filter.
pub mod Keys
pub mod Whitelist
pub mod Capacity
pub mod Comm
pub mod Events
use app_opt.Base.{
  ℕ, ◌+◌, ◌-◌, ◌*◌, ◌/◌, ◌%◌, Bool, true, false, not, List, [], ◌∷◌, ◌++◌, ltb, leb, min, length,
  take, drop, replicate, if◌then◌else◌,
}
use app_opt.Base.Dict.{insert, text_eq}
use app_opt.Base.Text.{Text, eq_text, is_empty}

-- The UTF-8 bytes of a code point.
unfoldable pub encode : ℕ → List ℕ
encode c =
    if ltb c 0x80
    then c ∷ []
    else if ltb c 0x800
    then (0xc0 + c / 64) ∷ (0x80 + c % 64) ∷ []
    else if ltb c 0x10000
    then (0xe0 + c / 4096) ∷ (0x80 + c / 64 % 64) ∷ (0x80 + c % 64) ∷ []
    else (0xf0 + c / 262144) ∷ (0x80 + c / 4096 % 64) ∷ (0x80 + c / 64 % 64) ∷ (0x80 + c % 64) ∷ []

-- `str::as_bytes`
unfoldable pub as_bytes : Text → List ℕ
as_bytes [] = []
as_bytes (c ∷ s) = encode c ++ as_bytes s

-- The first eight bytes, filled up with zeros.
abbrev pub prefix_key : List ℕ → List ℕ
prefix_key bytes = take (min (length bytes) 8) bytes ++ replicate (8 - min (length bytes) 8) 0

abbrev pub suffix_key : List ℕ → List ℕ
suffix_key bytes = drop (length bytes - 8) bytes

-- The keys of one package.
unfoldable pub keys_of : List ℕ → List (List ℕ)
keys_of bytes =
    if is_empty bytes
    then []
    else if ltb 8 (length bytes)
    then prefix_key bytes ∷ suffix_key bytes ∷ []
    else prefix_key bytes ∷ []

unfoldable pub push_keys : List Text → List (List ℕ)
unfolding keys_of as_bytes
push_keys [] = []
push_keys (pkg ∷ pkgs) = keys_of (as_bytes pkg) ++ push_keys pkgs

-- The order of arrays of bytes, as `sort` uses it.
unfoldable pub le_key : List ℕ → List ℕ → Bool
le_key [] y = true
le_key (a ∷ x) [] = false
le_key (a ∷ x) (b ∷ y) =
    let rest = le_key x y in if ltb a b then true else if ltb b a then false else rest

unfoldable pub insert_key : List ℕ → List (List ℕ) → List (List ℕ)
insert_key k [] = k ∷ []
insert_key k (j ∷ js) = let rest = insert_key k js in if le_key k j then k ∷ j ∷ js else j ∷ rest

unfoldable pub sort_keys : List (List ℕ) → List (List ℕ)
sort_keys [] = []
sort_keys (k ∷ ks) = insert_key k (sort_keys ks)

-- `dedup` drops a key that equals the one before it.
unfoldable pub dedup_after : List ℕ → List (List ℕ) → List (List ℕ)
dedup_after k [] = []
dedup_after k (j ∷ js) = if eq_text k j then dedup_after k js else j ∷ dedup_after j js

unfoldable pub dedup : List (List ℕ) → List (List ℕ)
dedup [] = []
dedup (k ∷ ks) = k ∷ dedup_after k ks

unfoldable pub comm_keys_build : List Text → List (List ℕ)
unfolding push_keys sort_keys dedup
comm_keys_build pkgs = dedup (sort_keys (push_keys pkgs))

abbrev pub KeyMap : Type 0
KeyMap = List (List ℕ × ℕ)

-- The insertions of `comm_map_init`: how many succeed, and the map after them. `accepts` says whether
-- the kernel takes a key.
unfoldable pub insert_keys : (List ℕ → KeyMap → Bool) → List (List ℕ) → ℕ → KeyMap → ℕ × KeyMap
insert_keys accepts [] count m = (count, m)
insert_keys accepts (k ∷ ks) count m =
    let taken = accepts k m in
    insert_keys accepts ks (if taken then count + 1 else count) (if taken then insert k 1 m else m)

-- Whether to reload, and the map: `found` says whether the map is there, and `clear` takes away the
-- old keys that the kernel lets go.
unfoldable pub comm_map_init :
    (List ℕ → KeyMap → Bool) → (KeyMap → KeyMap) → Bool → List Text → ℕ → KeyMap → Bool × KeyMap
comm_map_init accepts clear found pkgs comm_capacity m =
    let entries = comm_keys_build pkgs in
    if ltb comm_capacity (length entries)
    then (true, m)
    else if not found
    then (false, m)
    else (let inserted = insert_keys accepts entries 0 (clear m) in
        (ltb inserted.0 (length entries), inserted.1))
