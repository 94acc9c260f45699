-- ===== src/Config.antt =====
-- The configuration of internal/config/config.go: its fields and the errors of `Load`. Decoding of
-- TOML, and the parsing of URLs, networks and host:port, are parameters.
pub mod Load
pub mod Valid
pub mod Sound
pub mod Restart
use goddns.Base.{ℕ, Bool, List, [], ◌∷◌, Option}
use goddns.Base.Strings.{Bytes, bytes}
use goddns.Base.Dict.{Dict}
use goddns.Net.{IpNet, TextForms}
use goddns.Tsig.{HeldKey}

pub record ProxyRule : Type 0 where
  pub upstream : Bytes
  pub upstream_verify : Bool
  pub preserve_host : Bool
  pub bmc_compat : Bool
  pub allow : List Bytes
  pub basic_auth : List Bytes
  pub rate_limit : ℕ
  pub console_ports : List ℕ

-- `url.URL`, as far as it is read; `host` has the port, `hostname` has not.
pub record Url : Type 0 where
  pub scheme : Bytes
  pub host : Bytes
  pub hostname : Bytes
  pub path : Bytes
  pub raw_query : Bytes
  pub fragment : Bytes
  pub has_user : Bool

-- The library calls of the configuration and of the proxy. `split_port` is the port of
-- `net.SplitHostPort`, `bcrypt_cost` whether a text is a bcrypt hash.
pub record Libraries : Type 0 where
  pub forms : TextForms
  pub split_port : Bytes → Option Bytes
  pub parse_cidr : Bytes → Option IpNet
  pub parse_url : Bytes → Option Url
  pub bcrypt_matches : Bytes → Bytes → Bool
  pub bcrypt_cost : Bytes → Bool

pub record AdminConfig : Type 0 where
  pub enabled : Bool
  pub host : Bytes
  pub allow : List Bytes
  pub basic_auth : List Bytes
  pub users : List Bytes
  pub session_ttl : ℕ
  pub allow_nets : List IpNet

pub record Config : Type 0 where
  pub listen : Bytes
  pub db_path : Bytes
  pub reload_interval : ℕ
  pub log_file : Bytes
  pub access_log : Bytes
  pub public_host : Bytes
  pub named_conf : Bytes
  pub history_interval : ℕ
  pub history_keep : ℕ
  pub tls_mode : Bytes
  pub cert_file : Bytes
  pub key_file : Bytes
  pub acme_domain : Bytes
  pub acme_email : Bytes
  pub acme_ca : Bytes
  pub acme_storage : Bytes
  pub acme_tsig_name : Bytes
  pub acme_tsig_algo : Bytes
  pub acme_tsig_secret : Bytes
  pub dns_server : Bytes
  pub tsig_name : Bytes
  pub tsig_algo : Bytes
  pub tsig_secret : Bytes
  pub tsig_keys_file : Bytes
  pub trusted_proxies : List Bytes
  pub editable_zones : List Bytes
  pub zoned_socket : Bytes
  pub proxy_enabled : Bool
  pub proxy_listen : Bytes
  pub proxy_redirect_listen : Bytes
  pub proxy : Dict ProxyRule
  pub admin : AdminConfig
  pub trusted_nets : List IpNet
  pub tsig_keys : List HeldKey

-- The errors of `Load`, with the name at which it stops.
pub data ConfigError : Type 0 where
  unreadable : ConfigError
  unrecognised_keys : List Bytes → ConfigError
  no_keys_file : ConfigError
  no_key : Bytes → ConfigError
  no_secret : Bytes → ConfigError
  needs_cert_pair : ConfigError
  needs_domain : ConfigError
  bad_tls_mode : Bytes → ConfigError
  bad_trusted_proxy : ConfigError
  bad_fragment : Bytes → ConfigError
  foreign_section : Bytes → List Bytes → ConfigError
  defined_twice : Bytes → Bytes → ConfigError
  bad_hostname : Bytes → ConfigError
  duplicate_hostname : Bytes → ConfigError
  bad_upstream : Bytes → ConfigError
  bad_allow : Bytes → ConfigError
  bad_credential : Bytes → ConfigError
  port_out_of_range : Bytes → ℕ → ConfigError
  port_collides : Bytes → ℕ → ConfigError
  admin_needs_proxy : ConfigError
  bad_admin_host : ConfigError
  admin_host_taken : Bytes → ConfigError
  no_admin_users : ConfigError
  bad_admin_credential : ConfigError
  bad_admin_user : Bytes → ConfigError
  bad_admin_allow : ConfigError

-- `TLSFiles`, `TLSACME` and `TLSHybrid`.
abbrev pub tls_files : Bytes
tls_files = bytes "files"

abbrev pub tls_acme : Bytes
tls_acme = bytes "acme"

abbrev pub tls_hybrid : Bytes
tls_hybrid = bytes "hybrid"
