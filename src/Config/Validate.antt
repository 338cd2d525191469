-- ===== src/Config/Validate.antt =====
-- src/config.cpp: `config_validate`. Whether `stat` finds a regular file under a path is an
-- argument of `file_exists`.
use uproxy.Base.{
  ℕ, Bool, true, false, not, ◌&&◌, ◌||◌, List, [], ◌∷◌, ◌==◌, if◌then◌else◌, bytes_eq, codes,
  Result, ok, fail_if, from_code, config_invalid,
}
use uproxy.Base.Text.{any, is_empty}
use uproxy.Config.{UpstreamConfig, ProxyConfig}

abbrev pub log_levels : List (List ℕ)
log_levels = codes "trace" ∷ codes "debug" ∷ codes "info" ∷ codes "warn" ∷ codes "error" ∷ []

abbrev pub log_formats : List (List ℕ)
log_formats = codes "json" ∷ codes "text" ∷ []

abbrev pub tls_versions : List (List ℕ)
tls_versions = codes "tls1.2" ∷ codes "tls1.3" ∷ []

abbrev pub no_upstreams : List UpstreamConfig → Bool
no_upstreams [] = true
no_upstreams (u ∷ us) = false

abbrev pub is_bad : UpstreamConfig → Bool
is_bad u = is_empty u.addr || (u.port == 0 || u.weight == 0)

module _ (is_file : List ℕ → Bool) where
  unfoldable pub file_exists : List ℕ → Bool
  file_exists path = if is_empty path then false else is_file path

  unfoldable pub config_validate : ProxyConfig → Result ProxyConfig
  unfolding file_exists
  config_validate cfg =
      let invalid = from_code config_invalid in
      fail_if (no_upstreams cfg.upstreams) (invalid "zero upstreams") (
        fail_if (not (any (bytes_eq cfg.log.level) log_levels)) (invalid "invalid log level") (
          fail_if (not (any (bytes_eq cfg.log.format) log_formats)) (invalid "invalid log format") (
            fail_if (any is_bad cfg.upstreams) (invalid "invalid upstream") (
              fail_if
                (cfg.tls.enabled
                  && (not (file_exists cfg.tls.cert_file) || not (file_exists cfg.tls.key_file)))
                (invalid "missing TLS certificate or key")
                (fail_if (not (any (bytes_eq cfg.tls.min_version) tls_versions))
                  (invalid "invalid TLS minimum version") (ok cfg))))))
