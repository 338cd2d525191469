-- ===== src/Config.antt =====
-- include/uproxy/config.h, src/config.cpp: the configuration. The parent has its records; the
-- children model the values in it, the file reader, the command line and the validation, and
-- prove their laws.
pub mod Values
pub mod File
pub mod Cli
pub mod Validate
pub mod Numbers
pub mod Address
pub mod Bounds
pub mod Loaded
pub mod Usable
mod Tests
use uproxy.Base.{ℕ, Bool, true, List, [], ◌∷◌, codes}

pub data Proto : Type 0 where
  http1 h2c : Proto

pub record UpstreamConfig : Type 0 where
  pub name : List ℕ
  pub addr : List ℕ
  pub port : ℕ
  pub weight : ℕ
  pub healthy : Bool
  pub proto : Proto

pub record TlsConfig : Type 0 where
  pub cert_file : List ℕ
  pub key_file : List ℕ
  pub min_version : List ℕ
  pub alpn : List (List ℕ)
  pub enabled : Bool

pub record PoolConfig : Type 0 where
  pub max_conns_per_upstream : ℕ
  pub connect_timeout_ms : ℕ
  pub idle_timeout_ms : ℕ
  pub max_keepalive : ℕ

pub record LogConfig : Type 0 where
  pub level : List ℕ
  pub format : List ℕ
  pub file : List ℕ

pub record ProxyConfig : Type 0 where
  pub listen_addr : List ℕ
  pub listen_port : ℕ
  pub tls_port : ℕ
  pub worker_threads : ℕ
  pub tls : TlsConfig
  pub pool : PoolConfig
  pub log : LogConfig
  pub upstreams : List UpstreamConfig

-- The default member initializers.
abbrev pub default_upstream : UpstreamConfig
default_upstream = record {
  name = [];
  addr = [];
  port = 0;
  weight = 1;
  healthy = true;
  proto = http1;
}

abbrev pub default_config : ProxyConfig
default_config = record {
  listen_addr = codes "0.0.0.0";
  listen_port = 8080;
  tls_port = 8443;
  worker_threads = 0;
  tls = record {
    cert_file = [];
    key_file = [];
    min_version = codes "tls1.2";
    alpn = codes "h2" ∷ codes "http/1.1" ∷ [];
    enabled = true;
  };
  pool = record {
    max_conns_per_upstream = 64;
    connect_timeout_ms = 5000;
    idle_timeout_ms = 60000;
    max_keepalive = 1000;
  };
  log = record { level = codes "info"; format = codes "text"; file = [] };
  upstreams = [];
}
