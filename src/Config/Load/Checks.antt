-- ===== src/Config/Load/Checks.antt =====
-- The checks of `Load` of internal/config/config.go: the mode of TLS, the networks, the rules of the
-- proxy with their hosts, and the admin section.
use goddns.Base.{
  ℕ, Bool, false, not, ◌&&◌, ◌||◌, List, [], ◌∷◌, ◌++◌, Option, none, some, ltb, ◌==◌,
  if◌then◌else◌, is_empty, any,
}
use goddns.Base.Strings.{Bytes, bytes, str_eq, to_lower, trim_space, trim_suffix, has_prefix, cut}
use goddns.Base.Dict
use goddns.Base.Dict.{Dict, insert}
use goddns.Base.Decimal.{show_nat}
use goddns.Base.Result.{ok, err, ◌>>=◌, ◌>>◌, check}
use goddns.Net.{IpNet}
use goddns.Config.{
  ProxyRule, Url, Libraries, AdminConfig, Config, ConfigError, needs_cert_pair, needs_domain,
  bad_tls_mode, bad_hostname, duplicate_hostname, bad_upstream, bad_allow, bad_credential,
  port_out_of_range, port_collides, admin_needs_proxy, bad_admin_host, admin_host_taken,
  no_admin_users, bad_admin_credential, bad_admin_user, bad_admin_allow, tls_files, tls_acme,
  tls_hybrid,
}
use goddns.Config.Load.Reading.{Loaded}

unfoldable pub check_mode : Config → Loaded (Unit {0})
unfolding str_eq
check_mode c =
    if str_eq c.tls_mode tls_files || str_eq c.tls_mode tls_hybrid
    then check (not (is_empty c.cert_file || is_empty c.key_file)) needs_cert_pair
    else if str_eq c.tls_mode tls_acme
    then check (not (is_empty c.acme_domain)) needs_domain
    else err (bad_tls_mode c.tls_mode)

-- A host key as it is normalised here, and by `normalize` of internal/vhostmut.
unfoldable pub norm_host : Bytes → Bytes
unfolding trim_space to_lower trim_suffix
norm_host h = trim_suffix (to_lower (trim_space h)) (bytes ".")

-- `strings.ContainsAny`.
abbrev pub has_any : Bytes → Bytes → Bool
has_any chars s = any (λ c. any (λ d. d == c) chars) s

-- What no host may hold: slash, colon, space and tab.
abbrev pub host_stops : Bytes
host_stops = b'/' ∷ b':' ∷ b' ' ∷ 9 ∷ []

abbrev pub is_host_key : Bytes → Bool
is_host_key h = not (is_empty h || has_any host_stops h)

abbrev pub is_bcrypt : Option (Bytes × Bytes) → Bool
is_bcrypt none = false
is_bcrypt (some (user, hash)) = not (is_empty user) && has_prefix hash (bytes "$2")

-- user:hash with a hash of bcrypt.
unfoldable pub is_credential : Bytes → Bool
unfolding cut has_prefix
is_credential cred = is_bcrypt (cut b':' cred)

abbrev pub first_of : Option (Bytes × Bytes) → Bytes
first_of none = []
first_of (some (user, hash)) = user

-- No separator of a session and no white space.
abbrev pub is_user_name : Bytes → Bool
is_user_name user = not (has_any (b'|' ∷ b' ' ∷ 9 ∷ []) user)

unfoldable pub check_admin_creds : List Bytes → Loaded (Unit {0})
unfolding is_credential cut
check_admin_creds [] = ok tt
check_admin_creds (cred ∷ creds) =
    let rest = check_admin_creds creds in
    let user = first_of (cut b':' cred) in
    if not (is_credential cred)
    then err bad_admin_credential
    else if not (is_user_name user)
    then err (bad_admin_user user)
    else rest

abbrev pub port_or_empty : Option Bytes → Bytes
port_or_empty none = []
port_or_empty (some p) = p

module _ (lib : Libraries) where
  abbrev pub net_then : ConfigError → Option IpNet → Loaded (List IpNet) → Loaded (List IpNet)
  net_then e none rest = err e
  net_then e (some n) rest = rest >>= λ ns. ok (n ∷ ns)

  -- The networks of a list, or the error at the first that does not parse.
  unfoldable pub parse_nets : ConfigError → List Bytes → Loaded (List IpNet)
  parse_nets e [] = ok []
  parse_nets e (s ∷ ss) = net_then e (lib.parse_cidr (trim_space s)) (parse_nets e ss)

  abbrev pub is_upstream : Option Url → Bool
  is_upstream none = false
  is_upstream (some u) =
      not (is_empty u.host)
      && not u.has_user
      && (str_eq u.scheme (bytes "http") || str_eq u.scheme (bytes "https"))

  unfoldable pub check_creds : Bytes → List Bytes → Loaded (Unit {0})
  check_creds h [] = ok tt
  check_creds h (cred ∷ creds) =
      let rest = check_creds h creds in if is_credential cred then rest else err (bad_credential h)

  unfoldable pub check_ports : Bytes → Bytes → List ℕ → Loaded (Unit {0})
  check_ports h listen_port [] = ok tt
  check_ports h listen_port (p ∷ ports) =
      let rest = check_ports h listen_port ports in
      if ltb p 1 || ltb 65535 p
      then err (port_out_of_range h p)
      else if str_eq (show_nat p) listen_port
      then err (port_collides h p)
      else rest

  -- The checks of one rule, under its normalised host.
  unfoldable pub check_rule : Bytes → Bytes → ProxyRule → Loaded (Unit {0})
  check_rule listen h rule = do
    check (is_upstream (lib.parse_url rule.upstream)) (bad_upstream h)
    nets ← parse_nets (bad_allow h) rule.allow
    check_creds h rule.basic_auth
    check_ports h (port_or_empty (lib.split_port listen)) rule.console_ports

  abbrev pub new_then : Bytes → Loaded (Dict ProxyRule) → Option ProxyRule → Loaded (Dict ProxyRule)
  new_then h rest none = rest
  new_then h rest (some r) = err (duplicate_hostname h)

  -- The loop that normalises the hosts, onto those before.
  unfoldable pub norm_rules : Bytes → Dict ProxyRule → Dict ProxyRule → Loaded (Dict ProxyRule)
  norm_rules listen [] norm = ok norm
  norm_rules listen ((host, rule) ∷ rules) norm =
      let h = norm_host host in
      let rest = norm_rules listen rules (insert h rule norm) in
      if not (is_host_key h)
      then err (bad_hostname host)
      else new_then h (check_rule listen h rule >> rest) (Dict.lookup h norm)

  abbrev pub free_host : Bytes → Option ProxyRule → Loaded (Unit {0})
  free_host host none = ok tt
  free_host host (some r) = err (admin_host_taken host)

  -- The checks of the admin section, where it is enabled.
  unfoldable pub check_admin : Config → Loaded AdminConfig
  check_admin c = do
    let host = norm_host c.admin.host
    check c.proxy_enabled admin_needs_proxy
    check (is_host_key host) bad_admin_host
    free_host host (Dict.lookup host c.proxy)
    check (not (is_empty c.admin.users)) no_admin_users
    check_admin_creds (c.admin.users ++ c.admin.basic_auth)
    nets ← parse_nets bad_admin_allow c.admin.allow
    ok (record c.admin {
      host = host;
      allow_nets = nets;
      session_ttl = if c.admin.session_ttl == 0 then 8 else c.admin.session_ttl;
    })
