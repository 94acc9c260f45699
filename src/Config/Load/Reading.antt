-- ===== src/Config/Load/Reading.antt =====
-- What `Load` of internal/config/config.go reads: the main file over the defaults, the variables of
-- the environment, the key file, and the fragments of proxy.d.
use goddns.Base.{
  Bool, false, not, ◌&&◌, List, [], ◌∷◌, ◌++◌, Option, none, some, if◌then◌else◌, is_empty,
}
use goddns.Base.Strings.{Bytes, bytes, trim_space, has_suffix}
use goddns.Base.Dict
use goddns.Base.Dict.{Dict, insert}
use goddns.Base.Result.{Result, ok, err, ◌>>=◌}
use goddns.Tsig.{HeldKey, find_key}
use goddns.Config.{
  ProxyRule, AdminConfig, Config, ConfigError, unreadable, unrecognised_keys, no_keys_file, no_key,
  no_secret, bad_fragment, foreign_section, defined_twice, tls_files,
}

abbrev pub Loaded : Type 0 → Type 0
Loaded A = Result ConfigError A

-- `toml.DecodeFile`: no such file, another error, or a value with the keys that were not decoded.
pub data Decoded (A : Type 0) : Type 0 where
  missing : Decoded A
  broken : Decoded A
  decoded : A → List Bytes → Decoded A

-- What `Load` reads: the main file over given defaults, the two variables of the environment, the
-- key file, and the fragments of proxy.d by their base names.
pub record Sources : Type 0 where
  pub has_path : Bool
  pub main : Config → Decoded Config
  pub env_secret : Bytes
  pub env_acme_secret : Bytes
  pub keys_file : Bytes → Option (List HeldKey)
  pub fragments : List (Bytes × Decoded (Dict ProxyRule))

abbrev pub no_admin : AdminConfig
no_admin = record {
  enabled = false;
  host = [];
  allow = [];
  basic_auth = [];
  users = [];
  session_ttl = 0;
  allow_nets = [];
}

abbrev pub defaults : Config
defaults = record {
  listen = bytes ":8245";
  db_path = bytes "/var/lib/goddns/goddns.db";
  reload_interval = 20;
  log_file = [];
  access_log = [];
  public_host = [];
  named_conf = bytes "/etc/named.conf";
  history_interval = 300;
  history_keep = 50;
  tls_mode = tls_files;
  cert_file = [];
  key_file = [];
  acme_domain = [];
  acme_email = [];
  acme_ca = [];
  acme_storage = bytes "/var/lib/goddns/acme";
  acme_tsig_name = [];
  acme_tsig_algo = [];
  acme_tsig_secret = [];
  dns_server = bytes "127.0.0.1:53";
  tsig_name = bytes "ddns-update";
  tsig_algo = bytes "hmac-sha256";
  tsig_secret = [];
  tsig_keys_file = [];
  trusted_proxies = [];
  editable_zones = [];
  zoned_socket = [];
  proxy_enabled = false;
  proxy_listen = [];
  proxy_redirect_listen = [];
  proxy = [];
  admin = no_admin;
  trusted_nets = [];
  tsig_keys = [];
}

abbrev pub from_main : Decoded Config → Loaded Config
from_main missing = ok defaults
from_main broken = err unreadable
from_main (decoded c keys) = if is_empty keys then ok c else err (unrecognised_keys keys)

abbrev pub read_main : Sources → Loaded Config
read_main src = if src.has_path then from_main (src.main defaults) else ok defaults

abbrev pub or_else : Bytes → Bytes → Bytes
or_else s t = if is_empty s then t else s

abbrev pub with_env : Sources → Config → Config
with_env src c = record c {
  tsig_secret = or_else src.env_secret c.tsig_secret;
  acme_tsig_secret = or_else src.env_acme_secret c.acme_tsig_secret;
}

abbrev pub keyed : List HeldKey → Config → Option HeldKey → Loaded Config
keyed keys c none = err (no_key c.tsig_name)
keyed keys c (some k) =
    if is_empty k.secret
    then err (no_secret c.tsig_name)
    else ok (record c {
      tsig_keys = keys;
      tsig_secret = k.secret;
      tsig_algo = or_else k.algo c.tsig_algo;
    })

abbrev pub from_ring : Config → Option (List HeldKey) → Loaded Config
from_ring c none = err no_keys_file
from_ring c (some keys) = keyed keys c (find_key keys c.tsig_name)

unfoldable pub with_keys : Sources → Config → Loaded Config
unfolding find_key
with_keys src c =
    if is_empty c.tsig_keys_file then ok c else from_ring c (src.keys_file c.tsig_keys_file)

-- `canonKeyName`.
unfoldable pub canon_key_name : Bytes → Bytes
unfolding trim_space has_suffix
canon_key_name s =
    let t = trim_space s in
    if not (is_empty t) && not (has_suffix t (bytes ".")) then t ++ bytes "." else t

-- The key for ACME falls back to the main one.
abbrev pub with_names : Config → Config
with_names c = record c {
  tsig_name = canon_key_name c.tsig_name;
  acme_tsig_name = canon_key_name (or_else c.acme_tsig_name c.tsig_name);
  acme_tsig_algo = or_else c.acme_tsig_algo c.tsig_algo;
  acme_tsig_secret = or_else c.acme_tsig_secret c.tsig_secret;
}

abbrev pub undefined_then :
    Bytes → Bytes → Loaded (Dict ProxyRule) → Option ProxyRule → Loaded (Dict ProxyRule)
undefined_then file host rest none = rest
undefined_then file host rest (some r) = err (defined_twice file host)

-- One fragment's table onto the configuration's.
unfoldable pub merge_rules : Bytes → Dict ProxyRule → Dict ProxyRule → Loaded (Dict ProxyRule)
unfolding insert Dict.lookup
merge_rules file [] table = ok table
merge_rules file ((host, rule) ∷ rules) table =
    undefined_then file host (merge_rules file rules (insert host rule table))
      (Dict.lookup host table)

abbrev pub merge_one : Bytes → Decoded (Dict ProxyRule) → Dict ProxyRule → Loaded (Dict ProxyRule)
merge_one file missing table = err (bad_fragment file)
merge_one file broken table = err (bad_fragment file)
merge_one file (decoded rules keys) table =
    if is_empty keys then merge_rules file rules table else err (foreign_section file keys)

-- `mergeProxyFragments`, of the files in the order of their names.
unfoldable pub merge_fragments :
    List (Bytes × Decoded (Dict ProxyRule)) → Dict ProxyRule → Loaded (Dict ProxyRule)
unfolding merge_rules
merge_fragments [] table = ok table
merge_fragments ((file, d) ∷ files) table = merge_one file d table >>= merge_fragments files
