-- ===== src/Config/Sound.antt =====
-- What `Load` of internal/config/config.go promises of the configuration that it returns.
use goddns.Base.{
  Bool, true, false, not, ◌&&◌, ◌||◌, List, ◌++◌, none, ◌==◌, ◌≡◌, ◌<◌, if◌then◌else◌, is_empty,
  all, All,
}
use goddns.Base.Strings.{Bytes, bytes, str_eq, cut}
use goddns.Base.Dict
use goddns.Base.Dict.{Dict, IsMap}
use goddns.Net.{IpNet}
use goddns.Config.{ProxyRule, Libraries, AdminConfig, Config, tls_files, tls_acme, tls_hybrid}
use goddns.Config.Load.{norm_host, is_host_key, is_credential, is_user_name, first_of, or_else}
use goddns.Config.Valid.{is_network, IsSoundEntry}

-- The mode is one of three, and has what it needs.
abbrev pub serves_tls : Config → Bool
serves_tls c =
    (str_eq c.tls_mode tls_files || str_eq c.tls_mode tls_hybrid)
      && not (is_empty c.cert_file)
      && not (is_empty c.key_file)
    || str_eq c.tls_mode tls_acme && not (is_empty c.acme_domain)

-- The admin page, where it is enabled: a vhost of its own on the proxy, with users.
pub record IsSoundAdmin (lib : Libraries) (c : Config) : Type 0 where
  pub on_proxy : c.proxy_enabled ≡ true
  pub host_key : is_host_key c.admin.host ≡ true
  pub own_host : Dict.lookup c.admin.host c.proxy ≡ none
  pub has_users : is_empty c.admin.users ≡ false
  pub credentials :
      all
        (λ u. is_credential u && is_user_name (first_of (cut b':' u)))
        (c.admin.users ++ c.admin.basic_auth)
      ≡ true
  pub networks : all (is_network lib) c.admin.allow ≡ true
  pub has_ttl : 0 < c.admin.session_ttl

pub record IsSound (lib : Libraries) (c : Config) : Type 0 where
  pub tls : serves_tls c ≡ true
  pub hosts : IsMap c.proxy
  pub rules : All (IsSoundEntry lib c.proxy_listen) c.proxy
  pub proxies : all (is_network lib) c.trusted_proxies ≡ true
  pub signing : (is_empty c.tsig_keys_file || not (is_empty c.tsig_secret)) ≡ true
  pub admin_page : c.admin.enabled ≡ true → IsSoundAdmin lib c

module _ (lib : Libraries) where
  abbrev checked_admin : Config → List IpNet → AdminConfig
  checked_admin c nets = record c.admin {
    host = norm_host c.admin.host;
    allow_nets = nets;
    session_ttl = if c.admin.session_ttl == 0 then 8 else c.admin.session_ttl;
  }

  abbrev listener : Config → Bytes
  listener c = or_else c.proxy_listen (bytes ":443")

  abbrev tabled : Config → List IpNet → Dict ProxyRule → Config
  tabled c nets table = record c { trusted_nets = nets; proxy_listen = listener c; proxy = table }

  is_signed : Config → Bool
  is_signed c = is_empty c.tsig_keys_file || not (is_empty c.tsig_secret)
