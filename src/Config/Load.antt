-- ===== src/Config/Load.antt =====
-- `Load` of internal/config/config.go,: its steps in their order. Reading has what it
-- reads, Checks what it refuses.
pub mod Reading
pub mod Checks
use goddns.Base.{
  ℕ, Bool, false, not, ◌&&◌, ◌||◌, List, [], ◌∷◌, ◌++◌, Option, none, some, ltb, ◌==◌,
  if◌then◌else◌, is_empty, any,
}
use goddns.Base.Strings.{
  Bytes, bytes, str_eq, to_lower, trim_space, trim_suffix, has_prefix, has_suffix, cut,
}
use goddns.Base.Dict
use goddns.Base.Dict.{Dict, insert}
use goddns.Base.Decimal.{show_nat}
use goddns.Base.Result.{Result, ok, err, ◌>>=◌, ◌>>◌, check}
use goddns.Net.{IpNet}
use goddns.Tsig.{HeldKey, find_key}
use goddns.Config.{
  ProxyRule, Url, Libraries, AdminConfig, Config, ConfigError, unreadable, unrecognised_keys,
  no_keys_file, no_key, no_secret, needs_cert_pair, needs_domain, bad_tls_mode, bad_trusted_proxy,
  bad_fragment, foreign_section, defined_twice, bad_hostname, duplicate_hostname, bad_upstream,
  bad_allow, bad_credential, port_out_of_range, port_collides, admin_needs_proxy, bad_admin_host,
  admin_host_taken, no_admin_users, bad_admin_credential, bad_admin_user, bad_admin_allow,
  tls_files, tls_acme, tls_hybrid,
}
unfoldable pub use Reading.*
unfoldable pub use Checks.*

module _ (lib : Libraries) where
  -- The steps after the reading and the keys.
  unfoldable pub validate : Sources → Config → Loaded Config
  validate src c = do
    let listen = or_else c.proxy_listen (bytes ":443")
    check_mode c
    nets ← parse_nets lib bad_trusted_proxy c.trusted_proxies
    merged ← (if src.has_path then merge_fragments src.fragments c.proxy else ok c.proxy)
    table ← norm_rules lib listen merged []
    let c' = record c { trusted_nets = nets; proxy_listen = listen; proxy = table }
    admin ← (if c.admin.enabled then check_admin lib c' else ok c.admin)
    ok (record c' { admin = admin })

  -- `Load`.
  unfoldable pub load : Sources → Loaded Config
  load src = do
    c ← read_main src
    held ← with_keys src (with_env src c)
    validate src (with_names held)
