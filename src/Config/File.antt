-- ===== src/Config/File.antt =====
-- src/config.cpp: `config_from_file`. What `std::ifstream` finds under a path is an argument:
-- `none` where the stream is not good, else the bytes of the file.
use uproxy.Base.{
  ℕ, ◌+◌, ◌&&◌, ◌||◌, List, [], ◌∷◌, ◌++◌, Option, none, some, ◌==◌, if◌then◌else◌, take, drop,
  bytes_eq, codes, Result, ok, err, ◌>>=◌, from_code, from_code_text, config_syntax,
}
use uproxy.Base.Text.{find, has_text, is_empty, to_string}
use uproxy.Config.{
  h2c, UpstreamConfig, TlsConfig, PoolConfig, LogConfig, ProxyConfig, default_upstream,
  default_config,
}
use uproxy.Config.Values.{trim, parse_bool, parse_string, parse_u32, parse_port}

pub data Section : Type 0 where
  root proxy tls pool log upstream : Section

-- `while (std::getline(in, line))`: the lines, and the text behind the last line feed if there
-- is any.
abbrev pub getlines : List ℕ → List (List ℕ)
getlines [] = []
getlines (c ∷ s) =
    let rest = getlines s in
    if c == 10
    then [] ∷ rest
    else elim rest [ [] ↦ (c ∷ []) ∷ [] | line ∷ lines ↦ (c ∷ line) ∷ lines ]

-- `*current_upstream`, which is the last upstream whenever the pointer is not null.
abbrev pub change_last :
    (UpstreamConfig → UpstreamConfig) → List UpstreamConfig → List UpstreamConfig
change_last f [] = []
change_last f (u ∷ []) = f u ∷ []
change_last f (u ∷ v ∷ us) = u ∷ change_last f (v ∷ us)

-- The assignments of each section, from a key and a value.
unfoldable pub assign_proxy : List ℕ → List ℕ → ProxyConfig → Result ProxyConfig
unfolding parse_string parse_port parse_u32
assign_proxy key value cfg =
    let listen = parse_port value key >>= λ p. ok (record cfg { listen_port = p }) in
    let secure = parse_port value key >>= λ p. ok (record cfg { tls_port = p }) in
    let workers = parse_u32 value key >>= λ n. ok (record cfg { worker_threads = n }) in
    if bytes_eq key (codes "listen_addr")
    then ok (record cfg { listen_addr = parse_string value })
    else if bytes_eq key (codes "listen_port")
    then listen
    else if bytes_eq key (codes "tls_port")
    then secure
    else if bytes_eq key (codes "worker_threads")
    then workers
    else ok cfg

abbrev alpn_of : List ℕ → List (List ℕ)
alpn_of value =
    (if has_text (codes "h2") value then codes "h2" ∷ [] else [])
    ++ (if has_text (codes "http/1.1") value then codes "http/1.1" ∷ [] else [])

unfoldable pub assign_tls : List ℕ → List ℕ → TlsConfig → TlsConfig
unfolding parse_string
assign_tls key value t =
    if bytes_eq key (codes "cert_file")
    then record t { cert_file = parse_string value }
    else if bytes_eq key (codes "key_file")
    then record t { key_file = parse_string value }
    else if bytes_eq key (codes "min_version")
    then record t { min_version = parse_string value }
    else if bytes_eq key (codes "alpn")
    then record t { alpn = alpn_of value }
    else t

unfoldable pub assign_pool : List ℕ → List ℕ → PoolConfig → Result PoolConfig
unfolding parse_u32
assign_pool key value p =
    let conns = parse_u32 value key >>= λ n. ok (record p { max_conns_per_upstream = n }) in
    let connect = parse_u32 value key >>= λ n. ok (record p { connect_timeout_ms = n }) in
    let idle = parse_u32 value key >>= λ n. ok (record p { idle_timeout_ms = n }) in
    let keepalive = parse_u32 value key >>= λ n. ok (record p { max_keepalive = n }) in
    if bytes_eq key (codes "max_connections_per_upstream")
    then conns
    else if bytes_eq key (codes "connect_timeout_ms")
    then connect
    else if bytes_eq key (codes "idle_timeout_ms")
    then idle
    else if bytes_eq key (codes "max_keepalive")
    then keepalive
    else ok p

unfoldable pub assign_log : List ℕ → List ℕ → LogConfig → LogConfig
unfolding parse_string
assign_log key value l =
    if bytes_eq key (codes "level")
    then record l { level = parse_string value }
    else if bytes_eq key (codes "format")
    then record l { format = parse_string value }
    else if bytes_eq key (codes "file")
    then record l { file = parse_string value }
    else l

unfoldable pub assign_upstream :
    List ℕ → List ℕ → List UpstreamConfig → Result (List UpstreamConfig)
unfolding parse_string parse_port parse_u32 parse_bool
assign_upstream key value us =
    let port = parse_port value key >>= λ n. ok (change_last (λ u. record u { port = n }) us) in
    let weight = parse_u32 value key >>= λ n. ok (change_last (λ u. record u { weight = n }) us) in
    if bytes_eq key (codes "name")
    then ok (change_last (λ u. record u { name = parse_string value }) us)
    else if bytes_eq key (codes "addr")
    then ok (change_last (λ u. record u { addr = parse_string value }) us)
    else if bytes_eq key (codes "port")
    then port
    else if bytes_eq key (codes "weight")
    then weight
    else if bytes_eq key (codes "healthy")
    then ok (change_last (λ u. record u { healthy = parse_bool value }) us)
    else if bytes_eq key (codes "protocol") && bytes_eq (parse_string value) (codes "h2c")
    then ok (change_last (λ u. record u { proto = h2c }) us)
    else ok us

unfoldable pub assign : Section → List ℕ → List ℕ → ProxyConfig → Result ProxyConfig
unfolding assign_proxy assign_tls assign_pool assign_log assign_upstream
assign root key value cfg = ok cfg
assign proxy key value cfg = assign_proxy key value cfg
assign tls key value cfg = ok (record cfg { tls = assign_tls key value cfg.tls })
assign pool key value cfg = assign_pool key value cfg.pool >>= λ p. ok (record cfg { pool = p })
assign log key value cfg = ok (record cfg { log = assign_log key value cfg.log })
assign upstream key value cfg =
    assign_upstream key value cfg.upstreams >>= λ us. ok (record cfg { upstreams = us })

-- The variables that the loop carries from line to line.
pub record Reader : Type 0 where
  pub section : Section
  pub cfg : ProxyConfig

-- `key = value`
unfoldable pub read_pair : ℕ → List ℕ → Reader → Result Reader
unfolding assign trim
read_pair line_no t r = elim (find (codes "=") t) [
  | none ↦ err (from_code_text config_syntax (codes "syntax error on line " ++ to_string line_no))
  | some eq ↦ assign r.section (trim (take eq t)) (trim (drop (eq + 1) t)) r.cfg >>= λ cfg.
      ok (record r { cfg = cfg })
]

-- `line.resize(comment)`
abbrev pub without_comment : List ℕ → List ℕ
without_comment line = elim (find (codes "#") line) [ none ↦ line | some i ↦ take i line ]

-- The body of the loop.
unfoldable pub read_line : ℕ → List ℕ → Reader → Result Reader
unfolding read_pair trim
read_line line_no line r =
    let t = trim (without_comment line) in
    let pair = read_pair line_no t r in
    if is_empty t
    then ok r
    else if bytes_eq t (codes "[proxy]")
    then ok (record r { section = proxy })
    else if bytes_eq t (codes "[tls]")
    then ok (record r { section = tls })
    else if bytes_eq t (codes "[pool]")
    then ok (record r { section = pool })
    else if bytes_eq t (codes "[log]")
    then ok (record r { section = log })
    else if bytes_eq t (codes "[[upstream]]")
    then ok (record r {
      section = upstream;
      cfg = record r.cfg { upstreams = r.cfg.upstreams ++ default_upstream ∷ [] };
    })
    else pair

-- The loop, from line `line_no` on.
unfoldable pub read_lines : ℕ → List (List ℕ) → Reader → Result Reader
unfolding read_line
read_lines line_no [] r = ok r
read_lines line_no (line ∷ lines) r = read_line line_no line r >>= read_lines (line_no + 1) lines

unfoldable pub read_text : List ℕ → Result ProxyConfig
unfolding read_lines
read_text text = do
  r ← read_lines 1 (getlines text) (record { section = root; cfg = default_config })
  ok r.cfg

unfoldable pub config_from_file : (List ℕ → Option (List ℕ)) → List ℕ → Result ProxyConfig
unfolding read_text
config_from_file open_file path = elim (open_file path) [
  | none ↦
      if bytes_eq path (codes "./uproxy.toml") || bytes_eq path (codes "uproxy.toml")
      then ok default_config
      else err (from_code config_syntax "config not found")
  | some text ↦ read_text text
]
