-- ===== src/Config/Cli.antt =====
-- src/config.cpp: `parse_upstream_cli` and `config_apply_cli`, and the start of src/main.cpp. The
-- command line is the list of the arguments behind the program's name.
use uproxy.Base.{
  ℕ, ◌+◌, ◌-◌, Bool, false, List, [], ◌∷◌, ◌++◌, Option, none, some, ◌==◌, if◌then◌else◌, length,
  take, drop, bytes_eq, codes, Result, ok, err, ◌>>=◌, fail_if, from_code, from_code_text,
  config_invalid,
}
use uproxy.Base.Text.{any, starts_with, find, find_from, to_string}
use uproxy.Config.{UpstreamConfig, ProxyConfig, default_upstream, default_config}
use uproxy.Config.Values.{parse_u32, parse_port}
use uproxy.Config.File.{config_from_file}
use uproxy.Config.Validate.{config_validate}

-- An upstream with its address and port, and the name that these give it.
abbrev pub named_upstream : List ℕ → ℕ → UpstreamConfig
named_upstream addr port = record default_upstream {
  addr = addr;
  port = port;
  name = addr ++ b':' ∷ to_string port;
}

-- The option behind the second colon: an error of `parse_u32` has the same text as a weight of 0.
unfoldable pub parse_weight_option : List ℕ → UpstreamConfig → Result UpstreamConfig
unfolding parse_u32
parse_weight_option suffix cfg =
    let invalid = from_code config_invalid "invalid upstream weight" in
    let weighted =
      parse_u32 (drop (length (codes "weight=")) suffix) (codes "invalid upstream weight") >>= λ w.
      fail_if (w == 0) invalid (ok (record cfg { weight = w })) in
    if starts_with (codes "weight=") suffix
    then weighted
    else err (from_code config_invalid "unsupported upstream option")

unfoldable pub parse_upstream_cli : List ℕ → Result UpstreamConfig
unfolding parse_port parse_weight_option
parse_upstream_cli s = elim (find (codes ":") s) [
  | none ↦ err (from_code config_invalid "upstream requires addr:port")
  | some colon ↦ elim (find_from (codes ":") (colon + 1) s) [
    | none ↦ parse_port (drop (colon + 1) s) (codes "invalid upstream port") >>= λ port.
        ok (named_upstream (take colon s) port)
    | some next ↦
        parse_port (take (next - colon - 1) (drop (colon + 1) s)) (codes "invalid upstream port")
        >>= λ port. parse_weight_option (drop (next + 1) s) (named_upstream (take colon s) port)
  ]
]

-- The options that call `need_value`.
abbrev pub takes_value : List ℕ → Bool
takes_value arg = any (bytes_eq arg) (
    codes "--config"
    ∷ codes "--listen-addr"
    ∷ codes "--listen-port"
    ∷ codes "--tls-port"
    ∷ codes "--upstream"
    ∷ codes "--log-level"
    ∷ codes "--workers"
    ∷ [])

-- An argument that takes no value: `--no-tls`, or one that is ignored.
abbrev pub apply_flag : List ℕ → ProxyConfig → ProxyConfig
apply_flag arg base =
    if bytes_eq arg (codes "--no-tls")
    then record base { tls = record base.tls { enabled = false } }
    else base

module _ (open_file : List ℕ → Option (List ℕ)) where
  -- An option with its value.
  unfoldable pub apply_value : List ℕ → List ℕ → ProxyConfig → Result ProxyConfig
  unfolding config_from_file parse_port parse_u32 parse_upstream_cli
  apply_value arg value base =
      let loaded = config_from_file open_file value in
      let listen =
        parse_port value (codes "listen port") >>= λ p. ok (record base { listen_port = p }) in
      let secure = parse_port value (codes "tls port") >>= λ p. ok (record base { tls_port = p }) in
      let added = parse_upstream_cli value >>= λ u.
      ok (record base { upstreams = base.upstreams ++ u ∷ [] }) in
      let workers =
        parse_u32 value (codes "workers") >>= λ n. ok (record base { worker_threads = n }) in
      if bytes_eq arg (codes "--config")
      then loaded
      else if bytes_eq arg (codes "--listen-addr")
      then ok (record base { listen_addr = value })
      else if bytes_eq arg (codes "--listen-port")
      then listen
      else if bytes_eq arg (codes "--tls-port")
      then secure
      else if bytes_eq arg (codes "--upstream")
      then added
      else if bytes_eq arg (codes "--log-level")
      then ok (record base { log = record base.log { level = value } })
      else workers

  unfoldable pub config_apply_cli : List (List ℕ) → ProxyConfig → Result ProxyConfig
  unfolding apply_value
  config_apply_cli [] base = ok base
  config_apply_cli (arg ∷ []) base =
      fail_if (takes_value arg) (from_code_text config_invalid (arg ++ codes " requires value"))
        (ok (apply_flag arg base))
  config_apply_cli (arg ∷ value ∷ rest) base =
      let valued = apply_value arg value base >>= config_apply_cli rest in
      let plain = config_apply_cli (value ∷ rest) (apply_flag arg base) in
      if takes_value arg then valued else plain

  -- The configuration that `main` starts the server with.
  unfoldable pub main_config : (List ℕ → Bool) → List (List ℕ) → Result ProxyConfig
  unfolding config_apply_cli config_validate
  main_config file_exists args =
      config_apply_cli args default_config >>= config_validate file_exists
