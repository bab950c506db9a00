-- ===== src/Web/Http.antt =====
-- Requests to AppOpt/src/web.rs: how one is read from a connection, and which of them are answered.
pub mod Laws
use app_opt.Base.{
  ℕ, ◌^◌, Bool, true, false, not, ◌&&◌, ◌||◌, List, [], ◌∷◌, ◌++◌, Option, none, some, length, take,
  ltb, if◌then◌else◌,
}
use app_opt.Base.Decimal.{parse_uint, usize_bound, usize_max}
use app_opt.Base.Text.{
  Text, codes, is_empty, eq_text, trim, lines, split, split_first, split_whitespace, starts_with,
  strip_prefix,
}
use app_opt.Web.{contains_text}
use app_opt.Web.Rules.Suggest.{to_ascii_lowercase}

pub record Request : Type 0 where
  pub method : Text
  pub path : Text
  pub host : Text
  pub origin : Text
  pub fetch_site : Text
  pub content_type : Text
  pub body : Text
  pub keep_alive : Bool

-- The lines that `read_until` gives, each with its end; a stream that ends gives an empty one.
unfoldable pub read_head : List Text → Text → Option (Text × List Text)
read_head [] head = none
read_head (line ∷ ls) head =
    let rest = read_head ls (head ++ line) in
    if is_empty line
    then none
    else if eq_text line (codes "\r\n") || eq_text line (codes "\n")
    then some (head, ls)
    else if ltb 8192 (length (head ++ line))
    then none
    else rest

-- The local variables that the header fields fill.
pub record Fields : Type 0 where
  pub host : Text
  pub origin : Text
  pub site : Text
  pub ctype : Text
  pub len : ℕ
  pub conn : Text

abbrev pub no_fields : Fields
no_fields = record { host = []; origin = []; site = []; ctype = []; len = 0; conn = [] }

abbrev or_usize_max : Option ℕ → ℕ
or_usize_max none = usize_max
or_usize_max (some n) = n

-- One header field, by its name in small letters; `none` is the refusal of `transfer-encoding`.
unfoldable pub set_field : Text → Text → Fields → Option Fields
set_field k v f =
    if eq_text k (codes "host")
    then some (record f { host = to_ascii_lowercase v })
    else if eq_text k (codes "origin")
    then some (record f { origin = to_ascii_lowercase v })
    else if eq_text k (codes "sec-fetch-site")
    then some (record f { site = to_ascii_lowercase v })
    else if eq_text k (codes "content-type")
    then some (record f { ctype = to_ascii_lowercase v })
    else if eq_text k (codes "content-length")
    then some (record f { len = or_usize_max (parse_uint usize_bound v) })
    else if eq_text k (codes "connection")
    then some (record f { conn = to_ascii_lowercase v })
    else if eq_text k (codes "transfer-encoding")
    then none
    else some f

abbrev pub field_line : Option (Text × Text) → Fields → Option Fields
field_line none f = some f
field_line (some (k, v)) f = set_field (to_ascii_lowercase (trim k)) (trim v) f

-- Whether a line is the field of a name.
abbrev pub field_is : Text → Option (Text × Text) → Bool
field_is name none = false
field_is name (some (k, v)) = eq_text (to_ascii_lowercase (trim k)) name

unfoldable pub read_fields : List Text → Fields → Option Fields
unfolding set_field
read_fields [] f = some f
read_fields (h ∷ hs) f = elim (field_line (split_first b':' h) f) [
  | none ↦ none
  | some g ↦ read_fields hs g
]

abbrev pub first_of : List Text → Text
first_of [] = []
first_of (p ∷ ps) = p

abbrev pub version_of : List Text → Text
version_of [] = codes "HTTP/1.1"
version_of (v ∷ ps) = v

unfoldable pub flatten : List Text → Text
flatten [] = []
flatten (l ∷ ls) = l ++ flatten ls

-- `read_exact` of the body.
abbrev pub body_of : ℕ → List Text → Option Text
body_of len rest = if ltb (length (flatten rest)) len then none else some (take len (flatten rest))

abbrev pub keeps_alive : Text → Text → Bool
keeps_alive version conn =
    if eq_text version (codes "HTTP/1.0")
    then contains_text (codes "keep-alive") conn
    else not (contains_text (codes "close") conn)

abbrev pub with_body : Text → Text → Text → Fields → Option Text → Option Request
with_body method path version f none = none
with_body method path version f (some body) = some (record {
  method = method;
  path = path;
  host = f.host;
  origin = f.origin;
  fetch_site = f.site;
  content_type = f.ctype;
  body = body;
  keep_alive = keeps_alive version f.conn;
})

abbrev pub with_fields : Text → Text → Text → List Text → Option Fields → Option Request
with_fields method path version rest none = none
with_fields method path version rest (some f) =
    if ltb 16384 f.len then none else with_body method path version f (body_of f.len rest)

abbrev pub with_start : List Text → List Text → List Text → Option Request
with_start (method ∷ target ∷ more) hs rest =
    with_fields method (first_of (split b'?' target)) (version_of more) rest
      (read_fields hs no_fields)
with_start (method ∷ []) hs rest = none
with_start [] hs rest = none

abbrev pub with_lines : List Text → List Text → Option Request
with_lines [] rest = none
with_lines (start ∷ hs) rest = with_start (split_whitespace start) hs rest

abbrev pub with_head : (Text → Text) → Option (Text × List Text) → Option Request
with_head decode none = none
with_head decode (some (head, rest)) = with_lines (lines (decode head)) rest

-- `request_read`; `decode` is `from_utf8_lossy`.
unfoldable pub request_read : (Text → Text) → List Text → Option Request
unfolding read_head read_fields flatten
request_read decode stream = with_head decode (read_head stream [])

-- `strip_suffix(":8889")`, by the text from its end.
abbrev pub port_str : Text
port_str = codes ":8889"

unfoldable pub strip_port : Text → Text
strip_port [] = []
strip_port (c ∷ s) = let rest = strip_port s in if eq_text (c ∷ s) port_str then [] else c ∷ rest

unfoldable pub origin_ok : Request → Bool
unfolding strip_port
origin_ok req =
    (eq_text (strip_port req.host) (codes "127.0.0.1")
      || eq_text (strip_port req.host) (codes "localhost"))
    && (is_empty req.origin
        || eq_text req.origin (codes "null")
        || eq_text req.fetch_site []
        || eq_text req.fetch_site (codes "none")
        || eq_text req.fetch_site (codes "same-origin"))
    && (not (eq_text req.method (codes "POST"))
        || starts_with (codes "application/json") req.content_type)

pub data Route : Type 0 where
  status_json rules_json config_json rule_api rule_del_api rule_rename_api config_set_api
        suggest_api refresh_status_json refresh_config_json refresh_config_set_api refresh_apps_json
        refresh_app_add_api refresh_app_del_api unknown :
      Route

unfoldable pub get_route : Text → Route
get_route path =
    if eq_text path (codes "/api/status")
    then status_json
    else if eq_text path (codes "/api/rules")
    then rules_json
    else if eq_text path (codes "/api/config")
    then config_json
    else if eq_text path (codes "/api/refresh/status")
    then refresh_status_json
    else if eq_text path (codes "/api/refresh/config")
    then refresh_config_json
    else if eq_text path (codes "/api/refresh/apps")
    then refresh_apps_json
    else unknown

unfoldable pub post_route : Text → Route
post_route path =
    if eq_text path (codes "/api/rule")
    then rule_api
    else if eq_text path (codes "/api/rule/del")
    then rule_del_api
    else if eq_text path (codes "/api/rule/rename")
    then rule_rename_api
    else if eq_text path (codes "/api/config")
    then config_set_api
    else if eq_text path (codes "/api/suggest")
    then suggest_api
    else if eq_text path (codes "/api/refresh/config")
    then refresh_config_set_api
    else if eq_text path (codes "/api/refresh/app")
    then refresh_app_add_api
    else if eq_text path (codes "/api/refresh/app/del")
    then refresh_app_del_api
    else unknown

abbrev pub route : Text → Text → Route
route method path =
    if eq_text method (codes "GET")
    then get_route path
    else if eq_text method (codes "POST")
    then post_route path
    else unknown

-- Who answers a request.
pub data Handled : Type 0 where
  forbidden : Handled
  index : Bool → Handled
  api : Route → Bool → Handled

-- `dispatch`; the flag says whether the connection is closed.
unfoldable pub dispatch : Request → Handled
unfolding origin_ok get_route post_route
dispatch req =
    if not (origin_ok req)
    then forbidden
    else if eq_text req.method (codes "GET")
        && (eq_text req.path (codes "/") || eq_text req.path (codes "/index.html"))
    then index (not req.keep_alive)
    else api (route req.method req.path) (not req.keep_alive)
