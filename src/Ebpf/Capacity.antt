-- ===== src/Ebpf/Capacity.antt =====
-- When `comm_map_init` asks for no reload, the filter is complete.
use app_opt.Base.Dict.{text_eq}
use app_opt.Base.Text.{Text}
