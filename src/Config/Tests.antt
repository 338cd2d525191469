-- ===== src/Config/Tests.antt =====
-- src/config.cpp, src/main.cpp: a configuration file and a command line that are read and accepted.
use uproxy.Base.{
  ℕ, ◌≡◌, ◌↔◌, refl, arith, Bool, false, List, [], ◌∷◌, ◌++◌, Option, none, some, bytes_eq, codes,
  ok, if◌then◌else◌,
}
use uproxy.Base.Text.{to_string}
use uproxy.Config.{ProxyConfig, default_upstream, default_config}
use uproxy.Config.Cli.{named_upstream, parse_upstream_cli, main_config}
use uproxy.Config.Validate.{config_validate}
use uproxy.Config.Address.{parse_upstream_cli-weighted}
use uproxy.Config.Usable.{IsUsable, config_validate_lem, main_config_lem}
use uproxy.Config.Bounds.{IsBounded}

-- One file, of five lines.
abbrev text : List ℕ
text =
    codes "[proxy]"
    ++ 10 ∷ codes "listen_port = 9000 # the port"
    ++ 10 ∷ codes "[[upstream]]"
    ++ 10 ∷ codes "addr = \"10.0.0.1\""
    ++ 10 ∷ codes "port = 81"

abbrev disk : List ℕ → Option (List ℕ)
disk path = if bytes_eq path (codes "a.toml") then some text else none

abbrev arguments : List (List ℕ)
arguments =
    codes "--config"
    ∷ codes "a.toml"
    ∷ codes "--no-tls"
    ∷ codes "--upstream"
    ∷ codes "localhost:3000:weight=7"
    ∷ []

abbrev no_file : List ℕ → Bool
no_file path = bytes_eq path (codes "a.toml")

abbrev started : ProxyConfig
started = record default_config {
  listen_port = 9000;
  tls = record default_config.tls { enabled = false };
  upstreams =
      record default_upstream { addr = codes "10.0.0.1"; port = 81 }
      ∷ record (named_upstream (codes "localhost") 3000) { weight = 7 }
      ∷ [];
}

main_starts : main_config disk no_file arguments ≡ ok started
unfolding main_config to_string
main_starts = refl

main_config_lem_example : IsUsable no_file started × IsBounded started
main_config_lem_example = main_config_lem disk no_file arguments main_starts

parse_upstream_cli-weighted_example :
    parse_upstream_cli (codes "h" ++ 58 ∷ (to_string 80 ++ 58 ∷ (codes "weight=" ++ to_string 3)))
    ≡ ok (record (named_upstream (codes "h") 80) { weight = 3 })
parse_upstream_cli-weighted_example =
    parse_upstream_cli-weighted (codes "h") 80 ((λ e. cc), tt) (omega arith) (omega arith) 3
      (omega arith) (omega arith)

config_validate_lem_example :
    (config_validate no_file started ≡ ok started) ↔ IsUsable no_file started
config_validate_lem_example = config_validate_lem no_file started
