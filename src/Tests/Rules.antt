-- ===== src/Tests/Rules.antt =====
-- The configuration file, and the rules a thread meets.
use app_opt.Base.{
  ℕ, true, false, not, ◌&&◌, ◌≡◌, [], ◌∷◌, Option, none, some, any, All, refl, if◌then◌else◌,
}
use app_opt.Base.Dict.{contains, text_eq}
use app_opt.Base.Text.{
  lines, Text, codes, is_empty, eq_text, strip_suffix_char, is_whitespace, trim_end, split_last,
  trim, strip_prefix, ends_with,
}
use app_opt.Config.Line.{parse_outer, rule}
use app_opt.Config.Load.Blocks.{load_lines-settled}
use app_opt.Config.Load.{
  load_lines, initial, AppConfig, ConfigFile, config_of, load_config, load_content,
}
use app_opt.Config.Load.Packages.{config_of_sets}
use app_opt.Config.Load.Rules.{IsRule, load_config-IsRule}
use app_opt.Cpu.Dirs.{ensure_cpuset_dir}
use app_opt.Cpu.Set.{CpuSet, is_set}
use app_opt.Match.{thread_affinity, comm_to_pkg, fnmatch_c, until_nul}
use app_opt.Match.Threads.{
  thread_match, pkg_match, thread_affinity-thread, thread_affinity-pkg, thread_affinity-none,
}
use app_opt.Tests.Data.{topo, topo-TopologyValid, env, fnmatch, cfg, cfg-IsRule}

parse_outer_rule : parse_outer (codes "com.a=0-3 # note") ≡ rule (codes "com.a") (codes "0-3") false
unfolding parse_outer strip_suffix_char is_whitespace trim_end split_last trim
parse_outer_rule = refl

comm_to_pkg_suffix :
    comm_to_pkg (codes "e.app.name.long") (codes "com.example.app.name.long" ∷ [])
    ≡ some (codes "com.example.app.name.long")
unfolding comm_to_pkg eq_text strip_prefix ends_with
comm_to_pkg_suffix = refl

abbrev file : ConfigFile
file = record { mtime = some 5; content = some (codes "com.a=1\n# note\ncom.b {\n  Render=e\n}\n") }

abbrev loaded_cfg : Option AppConfig → AppConfig
loaded_cfg none = cfg
loaded_cfg (some c) = c

-- The configuration that the file gives.
abbrev file_cfg : AppConfig
file_cfg = loaded_cfg (load_config env file 4 0).config

load_config-IsRule_example : All IsRule file_cfg.rules
unfolding load_config load_content
load_config-IsRule_example = load_config-IsRule env file 4 0 topo-TopologyValid refl

config_of_sets_example :
    (contains (codes "com.a") (config_of topo cfg.rules).pkgs
      ≡ any (λ r. eq_text r.pkg (codes "com.a")) cfg.rules)
    × (contains (codes "com.a") (config_of topo cfg.rules).has_thread_rules
        ≡ any (λ r. not (is_empty r.thread) && eq_text r.pkg (codes "com.a")) cfg.rules)
config_of_sets_example = config_of_sets topo cfg.rules (codes "com.a")

thread_affinity-thread_example :
    (cpus : CpuSet) × (thread_affinity fnmatch env (codes "com.a") (codes "RenderThread") cfg
      ≡ some (record {
        cpus = cpus;
        cpuset_dir = ensure_cpuset_dir env.sys env.base cpus cfg.topo;
        is_thread_rule = true;
      }))
    × ((j : ℕ)
        → is_set cpus j
          ≡ any
              (λ r.
                thread_match fnmatch (codes "com.a") (codes "RenderThread") r && is_set r.cpus j)
              cfg.rules)
unfolding config_of fnmatch_c until_nul eq_text strip_prefix
thread_affinity-thread_example =
    thread_affinity-thread fnmatch env (codes "com.a") (codes "RenderThread") cfg cfg-IsRule
      (λ e. absurd (cc e)) refl

thread_affinity-pkg_example :
    (cpus : CpuSet) × (dir : Text) × (thread_affinity fnmatch env
        (codes "com.a")
        (codes "Other")
        cfg
      ≡ some (record { cpus = cpus; cpuset_dir = dir; is_thread_rule = false }))
    × ((j : ℕ)
        → is_set cpus j ≡ any (λ r. pkg_match (codes "com.a") r && is_set r.cpus j) cfg.rules)
unfolding config_of fnmatch_c until_nul eq_text strip_prefix
thread_affinity-pkg_example =
    thread_affinity-pkg fnmatch env (codes "com.a") (codes "Other") cfg cfg-IsRule refl refl

thread_affinity-none_example : thread_affinity fnmatch env (codes "com.b") (codes "Other") cfg ≡ (
    if contains (codes "com.b") cfg.has_thread_rules
    then some (record { cpus = cfg.topo.present_cpus; cpuset_dir = []; is_thread_rule = false })
    else none)
unfolding config_of fnmatch_c until_nul eq_text strip_prefix
thread_affinity-none_example =
    thread_affinity-none fnmatch env (codes "com.b") (codes "Other") cfg refl refl

load_lines-settled_example :
    (let l = load_lines env (lines (codes "com.a\n{\nRender=e\n}\ncom.b")) initial in
      (if l.in_block then l.pending_pkg else l.cur_pkg) ≡ [])
load_lines-settled_example = load_lines-settled env (codes "com.a\n{\nRender=e\n}\ncom.b")
