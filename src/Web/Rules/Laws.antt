-- ===== src/Web/Rules/Laws.antt =====
-- A rule that the web interface of AppOpt/src/web.rs accepts, and the loader of AppOpt/src/config.rs.
use app_opt.Base.{
  ℕ, ◌<◌, Bool, true, false, not, ◌&&◌, ◌||◌, ◌≡◌, ◌≢◌, ◌∙◌, sym, subst, refl, ap, List, [], ◌∷◌,
  ◌++◌, none, any, leb, ◌==◌, arith, if◌then◌else◌,
}
use app_opt.Base.Text.{Text, codes, is_empty, byte_len, trim}
use app_opt.Config.Line.{spec_like}
use app_opt.Config.Load.{AppConfig, Env, make_rule, is_control, max_pkg_len, max_thread_len}
use app_opt.Cpu.Set.{count}
use app_opt.Cpu.Spec.{parse_cpu_spec}
use app_opt.Edit.Ops.{answer, rule_upsert}
use app_opt.Web.{fine, token_ok, pkg_shape_ok}
use app_opt.Web.Rules.{Served, refuse, upserted, rule_set}

-- A test that refuses is passed by what ends well.
passed :
    (b : Bool) (code : ℕ) (msg : Text) (r : Served)
    → (if b then refuse code msg else r).reply ≡ fine
    → (b ≡ false) × (r.reply ≡ fine)
passed true code msg r h = absurd (cc h)
passed false code msg r h = (refl, h)

token_ok-checks :
    (s : Text) (max : ℕ)
    → token_ok s max ≡ true
    → (is_empty (trim s) ≡ false) × (byte_len (trim s) < max) × (any is_control (trim s) ≡ false)
unfolding token_ok
token_ok-checks s max h = ground arith

any-append :
    (p : ℕ → Bool) (xs ys : Text) → any p xs ≡ false → any p ys ≡ false → any p (xs ++ ys) ≡ false
any-append p [] ys hx hy = hy
any-append p (x ∷ xs) ys hx hy = ground (arith, any-append p xs ys)

makes :
    (env : Env) (pkg thread cpus : Text)
    → is_empty pkg ≡ false
    → byte_len pkg < max_pkg_len
    → byte_len thread < max_thread_len
    → any is_control (pkg ++ thread) ≡ false
    → spec_like cpus ≡ true
    → (count (parse_cpu_spec cpus env.topo) == 0) ≡ false
    → make_rule env pkg thread cpus ≢ none
unfolding make_rule
makes env pkg thread cpus named short thin plain like found = ground arith

names_ok :
    (a b c : Bool) → (not a || (not b && not c)) ≡ false → (a ≡ true) × (b ≡ false → c ≡ true)
names_ok true b c h = ground arith
names_ok false b c h = absurd (cc h)

cpus_ok : (a b c d : Bool) → (a || b || not c || d) ≡ false → (c ≡ true) × (d ≡ false)
cpus_ok a b c d h = ground arith

thread-plain :
    (thread : Text)
    → trim thread ≡ thread
    → (is_empty thread ≡ false → token_ok thread max_thread_len ≡ true)
    → (byte_len thread < max_thread_len) × (any is_control thread ≡ false)
thread-plain [] same h = (omega arith, refl)
thread-plain (c ∷ thread) same h =
    let checked = token_ok-checks (c ∷ thread) max_thread_len (h refl) in
    (
      subst (λ t. byte_len t < max_thread_len) same checked.1,
      ap (any is_control) (sym same) ∙ checked.2,
    )

-- The tests that a rule answered with success has passed.
pub rule_set-tests :
    (write_file : Text → Bool) (ls : List Text) (pkg thread cpus : Text) (cfg : AppConfig)
    → (rule_set write_file ls pkg thread cpus cfg).reply ≡ fine
    → (token_ok pkg max_pkg_len ≡ true)
      × (is_empty thread ≡ false → token_ok thread max_thread_len ≡ true)
      × (spec_like cpus ≡ true)
      × ((count (parse_cpu_spec cpus cfg.topo) == 0) ≡ false)
      × (rule_set write_file ls pkg thread cpus cfg
          ≡ (let e = rule_upsert ls pkg thread cpus in upserted e (answer write_file e)))
unfolding rule_set
rule_set-tests write_file ls pkg thread cpus cfg h =
    let first =
      passed
        (not (token_ok pkg max_pkg_len)
          || (not (is_empty thread) && not (token_ok thread max_thread_len)))
        400 (codes "名称含有非法字符") _ h in
    let second =
      passed (is_empty thread && not (pkg_shape_ok pkg)) 400 (codes "包名含 { 且以 } 结尾时不支持包级规则，可改用线程规则")
        _ first.1 in
    let third =
      passed
        (is_empty cpus
          || leb 64 (byte_len cpus)
          || not (spec_like cpus)
          || count (parse_cpu_spec cpus cfg.topo) == 0)
        400 (codes "无效的 CPU 规格") _ second.1 in
    let names = names_ok _ _ _ first.0 in
    let spec = cpus_ok (is_empty cpus) (leb 64 (byte_len cpus)) _ _ third.0 in
    (names.0, names.1, spec.0, spec.1, rw first.0 (rw second.0 (rw third.0 refl)))

-- A rule with trimmed names that is answered with success passes the tests of `add_rule` over the
-- same topology.
pub rule_set-make_rule :
    (env : Env) (write_file : Text → Bool) (ls : List Text) (pkg thread cpus : Text)
    (cfg : AppConfig)
    → env.topo ≡ cfg.topo
    → trim pkg ≡ pkg
    → trim thread ≡ thread
    → (rule_set write_file ls pkg thread cpus cfg).reply ≡ fine
    → make_rule env pkg thread cpus ≢ none
rule_set-make_rule env write_file ls pkg thread cpus cfg same same_pkg same_thread h =
    let tests = rule_set-tests write_file ls pkg thread cpus cfg h in
    let own = token_ok-checks pkg max_pkg_len tests.0 in
    let other = thread-plain thread same_thread tests.1 in
    makes env pkg thread cpus (ap is_empty (sym same_pkg) ∙ own.0)
      (subst (λ t. byte_len t < max_pkg_len) same_pkg own.1) other.0
      (any-append is_control pkg thread (ap (any is_control) (sym same_pkg) ∙ own.2) other.1)
      tests.2 (ap (λ t. count (parse_cpu_spec cpus t) == 0) same ∙ tests.3)
