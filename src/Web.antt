-- ===== src/Web.antt =====
-- AppOpt/src/web.rs: the web interface. Here are the tests on what a request holds, the names of sets of
-- CPUs, and what the handlers take of serde_json.
pub mod Settings
pub mod Rules
pub mod Service
pub mod Rates
pub mod Http
use app_opt.Base.{
  ℕ, Bool, true, false, not, ◌&&◌, ◌||◌, ◌≡◌, List, [], ◌∷◌, Option, none, some, any, all, leb, ltb,
  ◌==◌, if◌then◌else◌,
}
use app_opt.Base.Dict.{lookup, text_eq}
use app_opt.Base.Text.{
  Text, codes, is_empty, byte_len, contains_char, starts_with, ends_with, eq_text, trim,
}
use app_opt.Config.Load.{is_control}
use app_opt.Cpu.Ranges.{to_range_string}
use app_opt.Cpu.Set.{CpuSet, count, eq_set}
use app_opt.Cpu.Topology.{CpuTopology}

-- What a field of an object holds.
pub data Item : Type 0 where
  flag : Bool → Item
  num : ℕ → Item
  str : Text → Item

-- serde_json: documents, values, and `v[key].as_str()` with its like, which give nothing where `v` has
-- no such field or one of another kind.
pub record Serde : Type 1 where
  pub Doc : Type 0
  pub Value : Type 0
  pub from_doc : Doc → Option Value
  pub to_doc : Value → Doc
  pub object : List (Text × Item) → Value
  pub as_str : Value → Text → Option Text
  pub as_u64 : Value → Text → Option ℕ
  pub as_bool : Value → Text → Option Bool

abbrev pub str_of : Option Item → Option Text
str_of (some (str s)) = some s
str_of (some (num n)) = none
str_of (some (flag b)) = none
str_of none = none

abbrev pub num_of : Option Item → Option ℕ
num_of (some (num n)) = some n
num_of (some (str s)) = none
num_of (some (flag b)) = none
num_of none = none

abbrev pub flag_of : Option Item → Option Bool
flag_of (some (flag b)) = some b
flag_of (some (num n)) = none
flag_of (some (str s)) = none
flag_of none = none

-- A value is read back as it was written, and an object answers by its fields.
pub record IsSerde (S : Serde) : Type 0 where
  pub reads_back : (v : S.Value) → S.from_doc (S.to_doc v) ≡ some v
  pub field_str :
      (m : List (Text × Item)) (k : Text) → S.as_str (S.object m) k ≡ str_of (lookup k m)
  pub field_u64 :
      (m : List (Text × Item)) (k : Text) → S.as_u64 (S.object m) k ≡ num_of (lookup k m)
  pub field_bool :
      (m : List (Text × Item)) (k : Text) → S.as_bool (S.object m) k ≡ flag_of (lookup k m)

-- `s.contains(p)` of a text.
unfoldable pub contains_text : Text → Text → Bool
contains_text p [] = is_empty p
contains_text p (c ∷ s) = starts_with p (c ∷ s) || contains_text p s

unfoldable pub token_ok : Text → ℕ → Bool
token_ok s max =
    let t = trim s in
    not (is_empty t)
    && ltb (byte_len t) max
    && not (any is_control t)
    && not (contains_char b'#' t)
    && not (contains_text (codes "//") t)

unfoldable pub pkg_shape_ok : Text → Bool
pkg_shape_ok pkg = not (contains_char b'{' pkg && ends_with (codes "}") pkg)

unfoldable pub valid_name : Text → Bool
valid_name s =
    not (is_empty s)
    && ltb (byte_len s) 64
    && not (contains_char b'/' s)
    && not (any (λ c. leb c 0x20) s)

unfoldable pub valid_path : Text → Bool
valid_path s = not (is_empty s) && ltb (byte_len s) 256 && not (any is_control s)

unfoldable pub spec_name : CpuSet → CpuTopology → Text
spec_name cpus topo =
    if ltb 0 (count cpus)
    then (if eq_set cpus topo.e_core
        then codes "e-core"
        else if eq_set cpus topo.p_core
        then codes "p-core"
        else if eq_set cpus topo.hp_core
        then codes "hp-core"
        else if eq_set cpus topo.present_cpus
        then codes "all-core"
        else to_range_string cpus)
    else to_range_string cpus

-- The answer of a handler: `{"ok": true}`, or a status with a message.
pub data Reply : Type 0 where
  fine : Reply
  err_json : ℕ → Text → Reply

abbrev pub status_of : Reply → ℕ
status_of fine = 200
status_of (err_json code msg) = code
