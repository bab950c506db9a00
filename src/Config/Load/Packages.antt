-- ===== src/Config/Load/Packages.antt =====
-- The package sets of a configuration hold what its rules say.
use app_opt.Base.{true, not, ◌&&◌, List, [], ◌∷◌, any, ◌≡◌, refl, ◌∙◌, arith, Bool-cases, inl, inr}
use app_opt.Base.Dict.{contains, text_eq}
use app_opt.Base.Text.{Text, is_empty, eq_text, eq_text_iff}
use app_opt.Config.Load.{AffinityRule, to_set, rule_pkgs, thread_pkgs, config_of}
use app_opt.Cpu.Topology.{CpuTopology}

contains-eq : (t u : Text) (ts : List Text) → eq_text t u ≡ true → contains t ts ≡ contains u ts
contains-eq t u ts h = let e : t ≡ u = (eq_text_iff t u).0 h in rw e refl

contains-to_set : (p : Text) (ts : List Text) → contains p (to_set ts) ≡ contains p ts
unfolding to_set
contains-to_set p [] = refl
contains-to_set p (t ∷ ts) = elim (Bool-cases (contains t (to_set ts))) [
  | inl there ↦ rw there (ground (arith, contains-to_set p ts, contains-eq t p (to_set ts)))
  | inr new ↦ rw new (ground (arith, contains-to_set p ts))
]

contains-rule_pkgs :
    (p : Text) (rs : List AffinityRule) → contains p (rule_pkgs rs) ≡ any (λ r. eq_text r.pkg p) rs
unfolding rule_pkgs
contains-rule_pkgs p [] = refl
contains-rule_pkgs p (r ∷ rs) = ground (arith, contains-rule_pkgs p rs)

contains-thread_pkgs :
    (p : Text) (rs : List AffinityRule)
    → contains p (thread_pkgs rs) ≡ any (λ r. not (is_empty r.thread) && eq_text r.pkg p) rs
unfolding thread_pkgs
contains-thread_pkgs p [] = refl
contains-thread_pkgs p (r ∷ rs) = ground (arith, contains-thread_pkgs p rs)

-- `pkgs` holds the packages of all rules, and `has_thread_rules` those of the rules that name a
-- thread.
pub config_of_sets :
    (topo : CpuTopology) (rs : List AffinityRule) (p : Text)
    → (contains p (config_of topo rs).pkgs ≡ any (λ r. eq_text r.pkg p) rs)
      × (contains p (config_of topo rs).has_thread_rules
          ≡ any (λ r. not (is_empty r.thread) && eq_text r.pkg p) rs)
unfolding config_of
config_of_sets topo rs p = (
  contains-to_set p (rule_pkgs rs) ∙ contains-rule_pkgs p rs,
  contains-to_set p (thread_pkgs rs) ∙ contains-thread_pkgs p rs,
)
