-- ===== src/Entry.antt =====
-- src/main.cpp: `main`, behind the reading of the configuration, which is in Config.Cli. The calls of
-- the logger and of `signal` are left out.
use uproxy.Base.{
  ℕ, Bool, List, Option, none, some, if◌then◌else◌, bytes_eq, codes, Result, ok, err, stuck,
}
use uproxy.Base.Text.{is_empty}
use uproxy.Config.{ProxyConfig, LogConfig}
use uproxy.Config.Cli.{main_config}
use uproxy.Log.{Logger, parse_log_level}

-- Whether the calls of `open` and `fdopen` succeed for a file.
pub record LogAnswers : Type 0 where
  pub opens : List ℕ → Bool
  pub streams : Bool

unfoldable pub make_logger : LogConfig → Logger
unfolding parse_log_level
make_logger cfg = record {
  min_level = parse_log_level cfg.level;
  json_format = bytes_eq cfg.format (codes "json");
}

-- The logger, unless its file cannot be opened.
unfoldable pub open_log : LogAnswers → LogConfig → Option Logger
unfolding make_logger
open_log k cfg =
    if is_empty cfg.file
    then some (make_logger cfg)
    else if k.opens cfg.file
    then (if k.streams then some (make_logger cfg) else none)
    else none

-- The exit status of a server that has run.
unfoldable pub exit_status : {A : Type 0} → Result A → Result ℕ
exit_status (ok w) = ok 0
exit_status (err e) = ok 1
exit_status stuck = stuck

-- `disk` is what `std::ifstream` reads and `file_exists` what `stat` finds; `run` is `ProxyServer::run`
-- for a configuration.
unfoldable pub main :
    {A : Type 0}
    → (List ℕ → Option (List ℕ))
    → (List ℕ → Bool)
    → List (List ℕ)
    → LogAnswers
    → (ProxyConfig → Result A)
    → Result ℕ
unfolding main_config open_log exit_status
main disk file_exists args k run = with_config (main_config disk file_exists args)
  where
    with_config : Result ProxyConfig → Result ℕ
    with_config (err e) = ok 1
    with_config stuck = stuck
    with_config (ok cfg) = elim (open_log k cfg.log) [
      | none ↦ ok 1
      | some logger ↦ exit_status (run cfg)
    ]
