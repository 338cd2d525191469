-- ===== src/Config/Loaded.antt =====
-- src/config.cpp, src/main.cpp: the file reader and the command line keep every number of the
-- configuration in its range.
use uproxy.Base.{
  ℕ, ◌+◌, ◌-◌, ◌||◌, List, [], ◌∷◌, ◌++◌, Option, ◌==◌, Option-cases, Bool-cases, inl, inr, arith,
  length, take, drop, All, bytes_eq, codes,
}
use uproxy.Base.Holds.{Holds, Holds-ok, Holds-err, Holds-bind, Holds-if, Holds-fail_if}
use uproxy.Base.Text.{find, find_from, starts_with, is_empty}
use uproxy.Config.{UpstreamConfig, ProxyConfig, default_upstream, default_config}
use uproxy.Config.Values.{trim, parse_u32, parse_port}
use uproxy.Config.File.{
  Reader, assign, read_pair, without_comment, read_line, read_lines, getlines, read_text,
  config_from_file,
}
use uproxy.Config.Cli.{
  parse_upstream_cli, parse_weight_option, takes_value, apply_value, apply_flag, config_apply_cli,
  named_upstream,
}
use uproxy.Config.Bounds.{
  IsBoundedUpstream, IsBounded, parse_u32-IsU32, parse_port-IsPort, assign-IsBounded,
}

abbrev HasBounded : Reader → Type 0
HasBounded r = IsBounded r.cfg

pub default_config-IsBounded : IsBounded default_config
default_config-IsBounded = record {
  listen_in = (omega arith, omega arith);
  tls_in = (omega arith, omega arith);
  workers_in = omega arith;
  pool_in = (omega arith, omega arith, omega arith, omega arith);
  upstreams_in = tt;
}

All-append :
    (us : List UpstreamConfig) (v : UpstreamConfig)
    → All IsBoundedUpstream us
    → IsBoundedUpstream v
    → All IsBoundedUpstream (us ++ v ∷ [])
All-append [] v a p = (p, tt)
All-append (u ∷ us) v a p = (a.0, All-append us v a.1 p)

read_pair-IsBounded :
    (line_no : ℕ) (t : List ℕ) (r : Reader)
    → HasBounded r
    → Holds HasBounded (read_pair line_no t r)
unfolding read_pair
read_pair-IsBounded line_no t r b = elim (Option-cases (find (codes "=") t)) [
  | inl missing ↦ rw (read_pair, missing) Holds-err
  | inr (eq, found) ↦
      rw (read_pair, found)
        (Holds-bind (assign r.section (trim (take eq t)) (trim (drop (eq + 1) t)) r.cfg)
          (assign-IsBounded r.section (trim (take eq t)) (trim (drop (eq + 1) t)) r.cfg b)
          (λ cfg h. Holds-ok h))
]

with_upstream-IsBounded :
    (cfg : ProxyConfig) (u : UpstreamConfig)
    → IsBounded cfg
    → IsBoundedUpstream u
    → IsBounded (record cfg { upstreams = cfg.upstreams ++ u ∷ [] })
with_upstream-IsBounded cfg u b h = record {
  listen_in = b.listen_in;
  tls_in = b.tls_in;
  workers_in = b.workers_in;
  pool_in = b.pool_in;
  upstreams_in = All-append cfg.upstreams u b.upstreams_in h;
}

read_line-IsBounded :
    (line_no : ℕ) (line : List ℕ) (r : Reader)
    → HasBounded r
    → Holds HasBounded (read_line line_no line r)
unfolding read_line
read_line-IsBounded line_no line r b =
    let t = trim (without_comment line) in
    Holds-if (is_empty t) (Holds-ok b) (
      Holds-if (bytes_eq t (codes "[proxy]")) (Holds-ok b) (
        Holds-if (bytes_eq t (codes "[tls]")) (Holds-ok b) (
          Holds-if (bytes_eq t (codes "[pool]")) (Holds-ok b) (
            Holds-if (bytes_eq t (codes "[log]")) (Holds-ok b) (
              Holds-if (bytes_eq t (codes "[[upstream]]"))
                (Holds-ok
                  (with_upstream-IsBounded r.cfg default_upstream b (omega arith, omega arith)))
                (read_pair-IsBounded line_no t r b))))))

read_lines-IsBounded :
    (line_no : ℕ) (lines : List (List ℕ)) (r : Reader)
    → HasBounded r
    → Holds HasBounded (read_lines line_no lines r)
unfolding read_lines
read_lines-IsBounded line_no [] r b = Holds-ok b
read_lines-IsBounded line_no (line ∷ lines) r b =
    Holds-bind (read_line line_no line r) (read_line-IsBounded line_no line r b)
      (λ next h. read_lines-IsBounded (line_no + 1) lines next h)

read_text-IsBounded : (text : List ℕ) → Holds IsBounded (read_text text)
unfolding read_text
read_text-IsBounded text =
    Holds-bind (read_lines 1 (getlines text) _)
      (read_lines-IsBounded 1 (getlines text) _ default_config-IsBounded) (λ r h. Holds-ok h)

pub config_from_file-IsBounded :
    (open_file : List ℕ → Option (List ℕ)) (path : List ℕ)
    → Holds IsBounded (config_from_file open_file path)
unfolding config_from_file
config_from_file-IsBounded open_file path = elim (Option-cases (open_file path)) [
  | inl missing ↦
      rw (config_from_file, missing)
        (Holds-if (bytes_eq path (codes "./uproxy.toml") || bytes_eq path (codes "uproxy.toml"))
          (Holds-ok default_config-IsBounded) Holds-err)
  | inr (text, found) ↦ rw (config_from_file, found) (read_text-IsBounded text)
]

parse_weight_option-IsBounded :
    (suffix : List ℕ) (u : UpstreamConfig)
    → IsBoundedUpstream u
    → Holds IsBoundedUpstream (parse_weight_option suffix u)
unfolding parse_weight_option
parse_weight_option-IsBounded suffix u b =
    let weight = drop (length (codes "weight=")) suffix in
    let text = codes "invalid upstream weight" in
    Holds-if (starts_with (codes "weight=") suffix)
      (Holds-bind (parse_u32 weight text) (parse_u32-IsU32 weight text)
        (λ w h. Holds-fail_if (w == 0) _ (λ some_weight. Holds-ok (b.0, h))))
      Holds-err

parse_upstream_cli-IsBounded : (s : List ℕ) → Holds IsBoundedUpstream (parse_upstream_cli s)
unfolding parse_upstream_cli
parse_upstream_cli-IsBounded s = elim (Option-cases (find (codes ":") s)) [
  | inl missing ↦ rw (parse_upstream_cli, missing) Holds-err
  | inr (colon, found) ↦ elim (Option-cases (find_from (codes ":") (colon + 1) s)) [
    | inl last ↦
        rw (parse_upstream_cli, found)
          (rw last (
            Holds-bind (parse_port (drop (colon + 1) s) (codes "invalid upstream port"))
              (parse_port-IsPort (drop (colon + 1) s) (codes "invalid upstream port"))
              (λ port h. Holds-ok (h.1, omega arith))))
    | inr (next, again) ↦
        let port_text = take (next - colon - 1) (drop (colon + 1) s) in
        rw (parse_upstream_cli, found)
          (rw again (
            Holds-bind (parse_port port_text (codes "invalid upstream port"))
              (parse_port-IsPort port_text (codes "invalid upstream port"))
              (λ port h.
                parse_weight_option-IsBounded (drop (next + 1) s)
                  (named_upstream (take colon s) port) (h.1, omega arith))))
  ]
]

apply_flag-IsBounded :
    (arg : List ℕ) (base : ProxyConfig) → IsBounded base → IsBounded (apply_flag arg base)
apply_flag-IsBounded arg base b = elim (Bool-cases (bytes_eq arg (codes "--no-tls"))) [
  | inl off ↦ rw off (record {
    listen_in = b.listen_in;
    tls_in = b.tls_in;
    workers_in = b.workers_in;
    pool_in = b.pool_in;
    upstreams_in = b.upstreams_in;
  })
  | inr other ↦ rw other b
]

-- An option of the command line, and all of them.
module _ (open_file : List ℕ → Option (List ℕ)) where
  apply_value-IsBounded :
      (arg value : List ℕ) (base : ProxyConfig)
      → IsBounded base
      → Holds IsBounded (apply_value open_file arg value base)
  unfolding apply_value
  apply_value-IsBounded arg value base b =
      Holds-if (bytes_eq arg (codes "--config")) (config_from_file-IsBounded open_file value) (
        Holds-if (bytes_eq arg (codes "--listen-addr"))
          (Holds-ok (record {
            listen_in = b.listen_in;
            tls_in = b.tls_in;
            workers_in = b.workers_in;
            pool_in = b.pool_in;
            upstreams_in = b.upstreams_in;
          }))
          (Holds-if (bytes_eq arg (codes "--listen-port"))
            (Holds-bind (parse_port value (codes "listen port"))
              (parse_port-IsPort value (codes "listen port"))
              (λ p h. Holds-ok (record {
                listen_in = h;
                tls_in = b.tls_in;
                workers_in = b.workers_in;
                pool_in = b.pool_in;
                upstreams_in = b.upstreams_in;
              })))
            (Holds-if (bytes_eq arg (codes "--tls-port"))
              (Holds-bind (parse_port value (codes "tls port"))
                (parse_port-IsPort value (codes "tls port"))
                (λ p h. Holds-ok (record {
                  listen_in = b.listen_in;
                  tls_in = h;
                  workers_in = b.workers_in;
                  pool_in = b.pool_in;
                  upstreams_in = b.upstreams_in;
                })))
              (Holds-if (bytes_eq arg (codes "--upstream"))
                (Holds-bind (parse_upstream_cli value) (parse_upstream_cli-IsBounded value)
                  (λ u h. Holds-ok (with_upstream-IsBounded base u b h)))
                (Holds-if (bytes_eq arg (codes "--log-level"))
                  (Holds-ok (record {
                    listen_in = b.listen_in;
                    tls_in = b.tls_in;
                    workers_in = b.workers_in;
                    pool_in = b.pool_in;
                    upstreams_in = b.upstreams_in;
                  }))
                  (Holds-bind (parse_u32 value (codes "workers"))
                    (parse_u32-IsU32 value (codes "workers"))
                    (λ n h. Holds-ok (record {
                      listen_in = b.listen_in;
                      tls_in = b.tls_in;
                      workers_in = h;
                      pool_in = b.pool_in;
                      upstreams_in = b.upstreams_in;
                    }))))))))

  pub config_apply_cli-IsBounded :
      (args : List (List ℕ)) (base : ProxyConfig)
      → IsBounded base
      → Holds IsBounded (config_apply_cli open_file args base)
  unfolding config_apply_cli
  config_apply_cli-IsBounded [] base b = Holds-ok b
  config_apply_cli-IsBounded (arg ∷ []) base b =
      Holds-fail_if (takes_value arg) _ (λ plain. Holds-ok (apply_flag-IsBounded arg base b))
  config_apply_cli-IsBounded (arg ∷ value ∷ rest) base b =
      Holds-if (takes_value arg)
        (Holds-bind (apply_value open_file arg value base) (apply_value-IsBounded arg value base b)
          (λ cfg h. config_apply_cli-IsBounded rest cfg h))
        (config_apply_cli-IsBounded (value ∷ rest) (apply_flag arg base)
          (apply_flag-IsBounded arg base b))
