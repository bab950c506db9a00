-- ===== src/Web/Http/Laws.antt =====
-- Requests to AppOpt/src/web.rs: the bound on a body, and requests without a host.
use app_opt.Base.{
  ℕ, zero, suc, ◌≤◌, Bool, true, false, ◌≡◌, ◌∙◌, sym, refl, ap, subst, List, [], ◌∷◌, Option, none,
  some, All, length, take, ltb, arith, if◌then◌else◌,
}
use app_opt.Base.Text.{Text, codes, eq_text, split_first, split, trim, lines, split_whitespace}
use app_opt.Web.Http.{
  Request, Fields, no_fields, read_head, set_field, field_line, read_fields, flatten, body_of,
  with_body, with_fields, with_start, with_lines, request_read, origin_ok, dispatch, forbidden,
  strip_port, with_head, first_of, version_of, field_is,
}
use app_opt.Web.Rules.Suggest.{to_ascii_lowercase}

length-take : (n : ℕ) (s : Text) → length (take n s) ≤ n
length-take zero s = omega arith
length-take (suc n) [] = omega arith
length-take (suc n) (c ∷ s) = omega (arith, length-take n s)

body_of-length :
    (len : ℕ) (rest : List Text) {b : Text} → body_of len rest ≡ some b → length b ≤ len
body_of-length len rest {b} h = by_room (ltb (length (flatten rest)) len) h
  where
    by_room :
        (c : Bool) → (if c then none else some (take len (flatten rest))) ≡ some b → length b ≤ len
    by_room true g = absurd (cc g)
    by_room false g =
        let same : take len (flatten rest) ≡ b = cc g in
        subst (λ t. length t ≤ len) same (length-take len (flatten rest))

some-injective : {A : Type 0} {a b : A} → some a ≡ some b → a ≡ b
some-injective h = cc h

with_body-body :
    (method path version : Text) (f : Fields) (o : Option Text) {r : Request}
    → with_body method path version f o ≡ some r
    → (o ≡ some r.body) × (r.host ≡ f.host)
with_body-body method path version f none h = absurd (cc h)
with_body-body method path version f (some b) h =
    let same = some-injective h in (ap (λ q. some q.body) same, ap (λ q. q.host) (sym same))

within : (n len : ℕ) → n ≤ len → ltb 16384 len ≡ false → n ≤ 16384
within n len k e = ground arith

with_fields-body :
    (method path version : Text) (rest : List Text) (f : Fields) {r : Request}
    → with_fields method path version rest (some f) ≡ some r
    → (length r.body ≤ 16384) × (r.host ≡ f.host)
with_fields-body method path version rest f {r} h = by_length (ltb 16384 f.len) refl h
  where
    by_length :
        (b : Bool)
        → ltb 16384 f.len ≡ b
        → (if b then none else with_body method path version f (body_of f.len rest)) ≡ some r
        → (length r.body ≤ 16384) × (r.host ≡ f.host)
    by_length true e g = absurd (cc g)
    by_length false e g =
        let read = with_body-body method path version f (body_of f.len rest) g in
        let short = body_of-length f.len rest read.0 in
        (within (length r.body) f.len short e, read.1)

-- A field that is not `host` leaves the host.
abbrev pub NoHost : Text → Type 0
NoHost h = field_is (codes "host") (split_first b':' h) ≡ false

set_field-host :
    (k v : Text) (f g : Fields)
    → eq_text k (codes "host") ≡ false
    → set_field k v f ≡ some g
    → g.host ≡ f.host
unfolding set_field
set_field-host k v f g e h = ground arith

field_line-host :
    (o : Option (Text × Text)) (f g : Fields)
    → field_is (codes "host") o ≡ false
    → field_line o f ≡ some g
    → g.host ≡ f.host
field_line-host none f g e h = ap (λ q. q.host) (sym (some-injective h))
field_line-host (some (k, v)) f g e h =
    set_field-host (to_ascii_lowercase (trim k)) (trim v) f g e h

read_fields-host :
    (hs : List Text) (f g : Fields) → All NoHost hs → read_fields hs f ≡ some g → g.host ≡ f.host
unfolding read_fields
read_fields-host [] f g n h = ap (λ q. q.host) (sym (some-injective h))
read_fields-host (x ∷ hs) f g n h =
    by_field (field_line (split_first b':' x) f) refl h (λ k. read_fields-host hs k g n.1)
  where
    by_field :
        (o : Option Fields)
        → field_line (split_first b':' x) f ≡ o
        → (elim o [ none ↦ none | some k ↦ read_fields hs k ]) ≡ some g
        → ((k : Fields) → read_fields hs k ≡ some g → g.host ≡ k.host)
        → g.host ≡ f.host
    by_field none e q rest = absurd (cc q)
    by_field (some k) e q rest = rest k q ∙ field_line-host (split_first b':' x) f k n.0 e

with_start-body :
    (parts hs rest : List Text) {r : Request}
    → with_start parts hs rest ≡ some r
    → (length r.body ≤ 16384) × (All NoHost hs → r.host ≡ [])
with_start-body [] hs rest h = absurd (cc h)
with_start-body (m ∷ []) hs rest h = absurd (cc h)
with_start-body (m ∷ target ∷ more) hs rest {r} h = by_fields (read_fields hs no_fields) refl h
  where
    by_fields :
        (o : Option Fields)
        → read_fields hs no_fields ≡ o
        → with_fields m (first_of (split b'?' target)) (version_of more) rest o ≡ some r
        → (length r.body ≤ 16384) × (All NoHost hs → r.host ≡ [])
    by_fields none e g = absurd (cc g)
    by_fields (some f) e g =
        let read = with_fields-body m (first_of (split b'?' target)) (version_of more) rest f g in
        (read.0, λ n. read.1 ∙ read_fields-host hs no_fields f n e)

with_lines-body :
    (ls rest : List Text) {r : Request} → with_lines ls rest ≡ some r → length r.body ≤ 16384
with_lines-body [] rest h = absurd (cc h)
with_lines-body (start ∷ hs) rest h = (with_start-body (split_whitespace start) hs rest h).0

with_head-body :
    (decode : Text → Text) (o : Option (Text × List Text)) {r : Request}
    → with_head decode o ≡ some r
    → length r.body ≤ 16384
with_head-body decode none h = absurd (cc h)
with_head-body decode (some (head, rest)) h = with_lines-body (lines (decode head)) rest h

pub request_read-body :
    (decode : Text → Text) (stream : List Text) {r : Request}
    → request_read decode stream ≡ some r
    → length r.body ≤ 16384
unfolding request_read
request_read-body decode stream h = with_head-body decode (read_head stream []) h

hostless : (r : Request) → r.host ≡ [] → dispatch r ≡ forbidden
unfolding dispatch origin_ok eq_text strip_port
hostless r h = rw h refl

pub dispatch-NoHost :
    (start : Text) (hs rest : List Text) {r : Request}
    → with_lines (start ∷ hs) rest ≡ some r
    → All NoHost hs
    → dispatch r ≡ forbidden
dispatch-NoHost start hs rest {r} h n =
    hostless r ((with_start-body (split_whitespace start) hs rest h).1 n)
