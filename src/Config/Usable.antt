-- ===== src/Config/Usable.antt =====
-- src/config.cpp, src/main.cpp: what `config_validate` accepts, and what the server starts with.
use uproxy.Base.{
  ℕ, ◌<◌, ◌≡◌, ◌≢◌, ◌↔◌, ◌⊎◌, refl, sym, ap, ◌∙◌, Bool, true, false, not, ◌&&◌, ◌||◌, List, [], ◌∷◌,
  Option, Bool-cases, inl, inr, arith, All, bytes_eq, bytes_eq→eq, bytes_eq_refl, ok, fail_if-eq-ok,
  bind-eq-ok,
}
use mathlib.Core.Path.{subst}
use uproxy.Base.Text.{any, is_empty}
use uproxy.Config.{UpstreamConfig, ProxyConfig, default_config}
use uproxy.Config.Cli.{config_apply_cli, main_config}
use uproxy.Config.Validate.{
  log_levels, log_formats, tls_versions, no_upstreams, is_bad, file_exists, config_validate,
}
use uproxy.Config.Bounds.{IsBounded}
use uproxy.Config.Loaded.{default_config-IsBounded, config_apply_cli-IsBounded}

-- Being one of some texts.
abbrev pub IsOneOf : List ℕ → List (List ℕ) → Type 0
IsOneOf t [] = ⊥
IsOneOf t (s ∷ ss) = (t ≡ s) ⊎ IsOneOf t ss

-- A path that is not empty and names a regular file.
abbrev pub IsRegular : (List ℕ → Bool) → List ℕ → Type 0
IsRegular is_file path = (path ≢ []) × (is_file path ≡ true)

pub record IsUsableUpstream (u : UpstreamConfig) : Type 0 where
  pub some_addr : u.addr ≢ []
  pub some_port : 0 < u.port
  pub some_weight : 0 < u.weight

-- What the server needs, where `is_file` tells the paths of regular files.
pub record IsUsable (is_file : List ℕ → Bool) (cfg : ProxyConfig) : Type 0 where
  pub some_upstream : cfg.upstreams ≢ []
  pub level_known : IsOneOf cfg.log.level log_levels
  pub format_known : IsOneOf cfg.log.format log_formats
  pub each_upstream : All IsUsableUpstream cfg.upstreams
  pub files :
      cfg.tls.enabled ≡ true
      → IsRegular is_file cfg.tls.cert_file × IsRegular is_file cfg.tls.key_file
  pub version_known : IsOneOf cfg.tls.min_version tls_versions

any-IsOneOf : (t : List ℕ) (ss : List (List ℕ)) → any (bytes_eq t) ss ≡ true → IsOneOf t ss
any-IsOneOf t [] h = cc
any-IsOneOf t (s ∷ ss) h = elim (Bool-cases (bytes_eq t s)) [
  | inl same ↦ inl (bytes_eq→eq t s same)
  | inr other ↦ inr (any-IsOneOf t ss (ap (λ b. b || any (bytes_eq t) ss) (sym other) ∙ h))
]

IsOneOf-any : (t : List ℕ) (ss : List (List ℕ)) → IsOneOf t ss → any (bytes_eq t) ss ≡ true
IsOneOf-any t [] h = elim h [ ]
IsOneOf-any t (s ∷ ss) (inl same) = rw same (rw (bytes_eq_refl s) refl)
IsOneOf-any t (s ∷ ss) (inr later) =
    rw (IsOneOf-any t ss later)
      (elim (Bool-cases (bytes_eq t s)) [ inl e ↦ rw e refl | inr e ↦ rw e refl ])

is_empty-cases : (s : List ℕ) → (is_empty s ≡ false) ↔ (s ≢ [])
is_empty-cases [] = (λ h. cc, λ h. absurd (h refl))
is_empty-cases (c ∷ s) = (λ h e. cc, λ h. refl)

is_bad-IsUsableUpstream : (u : UpstreamConfig) → (is_bad u ≡ false) ↔ IsUsableUpstream u
is_bad-IsUsableUpstream u = (
  λ h. record {
    some_addr = (is_empty-cases u.addr).0 (ground (arith, h));
    some_port = ground (arith, h);
    some_weight = ground (arith, h);
  },
  λ g. rw ((is_empty-cases u.addr).1 g.some_addr) (ground (arith, g.some_port, g.some_weight)),
)

any-is_bad : (us : List UpstreamConfig) → (any is_bad us ≡ false) ↔ All IsUsableUpstream us
any-is_bad [] = (λ h. tt, λ h. refl)
any-is_bad (u ∷ us) = (
  λ h. elim (Bool-cases (is_bad u)) [
    | inl bad ↦ absurd cc
    | inr good ↦ (
      (is_bad-IsUsableUpstream u).0 good,
      (any-is_bad us).0 (ap (λ b. b || any is_bad us) (sym good) ∙ h),
    )
  ],
  λ a. rw ((is_bad-IsUsableUpstream u).1 a.0) ((any-is_bad us).1 a.1),
)

file_exists-IsRegular :
    (is_file : List ℕ → Bool) (path : List ℕ)
    → (file_exists is_file path ≡ true) ↔ IsRegular is_file path
unfolding file_exists
file_exists-IsRegular is_file [] = (λ h. cc, λ h. absurd (h.0 refl))
file_exists-IsRegular is_file (c ∷ s) = ((λ h. ((λ e. cc), h)), λ h. h.1)

not-eq-false : (b : Bool) → not b ≡ false → b ≡ true
not-eq-false true h = refl
not-eq-false false h = cc

no_upstreams-cases : (us : List UpstreamConfig) → (no_upstreams us ≡ false) ↔ (us ≢ [])
no_upstreams-cases [] = (λ h. cc, λ h. absurd (h refl))
no_upstreams-cases (u ∷ us) = (λ h e. cc, λ h. refl)

-- The test of the two files.
files-IsRegular :
    (is_file : List ℕ → Bool) (enabled : Bool) (cert key : List ℕ)
    → ((enabled && (not (file_exists is_file cert) || not (file_exists is_file key))) ≡ false)
      ↔ (enabled ≡ true → IsRegular is_file cert × IsRegular is_file key)
files-IsRegular is_file false cert key = (λ h e. cc, λ h. refl)
files-IsRegular is_file true cert key =
    let of_cert = file_exists-IsRegular is_file cert in
    let of_key = file_exists-IsRegular is_file key in
    (
      λ h e. elim (Bool-cases (file_exists is_file cert)) [
        | inl c ↦ elim (Bool-cases (file_exists is_file key)) [
          | inl k ↦ (of_cert.0 c, of_key.0 k)
          | inr k ↦ absurd cc
        ]
        | inr c ↦ absurd cc
      ],
      λ h. rw (of_cert.1 (h refl).0) (rw (of_key.1 (h refl).1) refl),
    )

config_validate-IsUsable :
    (is_file : List ℕ → Bool) (cfg : ProxyConfig) {got : ProxyConfig}
    → config_validate is_file cfg ≡ ok got
    → (got ≡ cfg) × IsUsable is_file cfg
unfolding config_validate
config_validate-IsUsable is_file cfg h =
    let (some, h1) = fail_if-eq-ok _ _ _ h in
    let (level, h2) = fail_if-eq-ok _ _ _ h1 in
    let (format, h3) = fail_if-eq-ok _ _ _ h2 in
    let (good, h4) = fail_if-eq-ok _ _ _ h3 in
    let (files, h5) = fail_if-eq-ok _ _ _ h4 in
    let (version, h6) = fail_if-eq-ok _ _ _ h5 in
    (
      cc,
      record {
        some_upstream = (no_upstreams-cases cfg.upstreams).0 some;
        level_known = any-IsOneOf cfg.log.level log_levels (not-eq-false _ level);
        format_known = any-IsOneOf cfg.log.format log_formats (not-eq-false _ format);
        each_upstream = (any-is_bad cfg.upstreams).0 good;
        files =
            (files-IsRegular is_file cfg.tls.enabled cfg.tls.cert_file cfg.tls.key_file).0 files;
        version_known = any-IsOneOf cfg.tls.min_version tls_versions (not-eq-false _ version);
      },
    )

-- `config_validate` accepts a configuration exactly if it is usable: there is an upstream, each has
-- an address, a port and a positive weight, the log level, the log format and the TLS version are
-- known, and with TLS the certificate and the key are regular files.
pub config_validate_lem :
    (is_file : List ℕ → Bool) (cfg : ProxyConfig)
    → (config_validate is_file cfg ≡ ok cfg) ↔ IsUsable is_file cfg
unfolding config_validate
config_validate_lem is_file cfg = (
  λ h. (config_validate-IsUsable is_file cfg h).1,
  λ u. rw ((no_upstreams-cases cfg.upstreams).1 u.some_upstream) (
      rw (IsOneOf-any cfg.log.level log_levels u.level_known) (
        rw (IsOneOf-any cfg.log.format log_formats u.format_known) (
          rw ((any-is_bad cfg.upstreams).1 u.each_upstream) (
            rw
              ((files-IsRegular is_file cfg.tls.enabled cfg.tls.cert_file cfg.tls.key_file).1
                u.files)
              (rw (IsOneOf-any cfg.tls.min_version tls_versions u.version_known) refl))))),
)

-- Every configuration that `main` starts the server with, whatever the command line and the files
-- hold, is usable, its listening ports lie between 1 and 65535, the ports of its upstreams below
-- 65536 and its other numbers below 2 ^ 32.
pub main_config_lem :
    (open_file : List ℕ → Option (List ℕ)) (is_file : List ℕ → Bool) (args : List (List ℕ))
    {cfg : ProxyConfig}
    → main_config open_file is_file args ≡ ok cfg
    → IsUsable is_file cfg × IsBounded cfg
unfolding main_config
main_config_lem open_file is_file args h =
    let (merged, applied, accepted) =
      bind-eq-ok (config_apply_cli open_file args default_config) (config_validate is_file) h in
    let (same, usable) = config_validate-IsUsable is_file merged accepted in
    let bounded =
      (config_apply_cli-IsBounded open_file args default_config default_config-IsBounded).holds
        merged applied in
    (subst (IsUsable is_file) (sym same) usable, subst IsBounded (sym same) bounded)
