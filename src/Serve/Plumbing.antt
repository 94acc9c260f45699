-- ===== src/Serve/Plumbing.antt =====
-- What a start reads of the configuration, against `NeedsRestart` of internal/config/config.go.
use Prim.Native.String.{String}
use goddns.Base.{
  Bool, true, false, not, ◌&&◌, ◌||◌, List, [], ◌++◌, ◌≡◌, refl, sym, arith, Bool-cases, inl, inr,
}
use goddns.Base.Strings.{Bytes, str_eq, str_eq_iff}
use goddns.Config.{Config, tls_files, tls_acme, tls_hybrid}
use goddns.Config.Restart.{same_flag, unless, same_acme, needs_restart}
use goddns.Serve.{TlsSource, acme_options, build_tls}

-- The listeners, the certificate source, the database and the place of the admin page.
pub record Plumbing : Type 0 where
  pub listen : Bytes
  pub tls : TlsSource
  pub db_path : Bytes
  pub proxy_enabled : Bool
  pub proxy_listen : Bytes
  pub proxy_redirect_listen : Bytes
  pub admin_enabled : Bool
  pub admin_host : Bytes

-- What `cmdServe` sets up at its start and does not change later.
unfoldable pub plumbing : Config → Plumbing
plumbing c = record {
  listen = c.listen;
  tls = build_tls c;
  db_path = c.db_path;
  proxy_enabled = c.proxy_enabled;
  proxy_listen = c.proxy_listen;
  proxy_redirect_listen = c.proxy_redirect_listen;
  admin_enabled = c.admin.enabled;
  admin_host = c.admin.host;
}

same_flag→eq : (a b : Bool) → same_flag a b ≡ true → a ≡ b
same_flag→eq true b h = sym h
same_flag→eq false b h = ground arith

eq-of : (a b : Bytes) → str_eq a b ≡ true → a ≡ b
eq-of a b h = (str_eq_iff a b).0 h

acme_options-eq :
    (on_demand : Bool) (c old : Config)
    → c.dns_server ≡ old.dns_server
    → same_acme c old ≡ true
    → acme_options on_demand c ≡ acme_options on_demand old
acme_options-eq on_demand c old d h = ground (
  arith,
  str_eq_iff c.acme_domain old.acme_domain,
  str_eq_iff c.acme_ca old.acme_ca,
  str_eq_iff c.acme_email old.acme_email,
  str_eq_iff c.acme_storage old.acme_storage,
  str_eq_iff c.acme_tsig_name old.acme_tsig_name,
  str_eq_iff c.acme_tsig_algo old.acme_tsig_algo,
  str_eq_iff c.acme_tsig_secret old.acme_tsig_secret,
)

build_tls-eq :
    (c old : Config)
    → str_eq c.tls_mode old.tls_mode ≡ true
    → (not (str_eq c.tls_mode tls_files || str_eq c.tls_mode tls_hybrid)
        || str_eq c.cert_file old.cert_file && str_eq c.key_file old.key_file)
      ≡ true
    → (not (str_eq c.tls_mode tls_acme || str_eq c.tls_mode tls_hybrid) || same_acme c old) ≡ true
    → (str_eq c.tls_mode tls_files || str_eq c.tls_mode tls_hybrid || str_eq c.tls_mode tls_acme)
      ≡ true
    → c.dns_server ≡ old.dns_server
    → build_tls c ≡ build_tls old
unfolding build_tls
build_tls-eq c old m f a v d =
    let e = eq-of c.tls_mode old.tls_mode m in
    elim (Bool-cases (str_eq c.tls_mode tls_acme)) [
      | inl acme ↦ rw (acme, ← e, acme) (ground (arith, acme_options-eq false c old d))
      | inr other ↦ ground (
        arith,
        acme_options-eq true c old d,
        str_eq_iff c.cert_file old.cert_file,
        str_eq_iff c.key_file old.key_file,
        str_eq_iff c.acme_tsig_secret old.acme_tsig_secret,
      )
    ]

unless-nil :
    (b : Bool) (f : String) (xs : List Bytes) → unless b f ++ xs ≡ [] → (b ≡ true) × (xs ≡ [])
unless-nil true f xs h = (refl, h)
unless-nil false f xs h = cc

unless_nil : (b : Bool) (f : String) → unless b f ≡ [] → b ≡ true
unless_nil true f h = refl
unless_nil false f h = cc

same_flag_refl : (b : Bool) → same_flag b b ≡ true
same_flag_refl true = refl
same_flag_refl false = refl

module _ (c old : Config) where
  abbrev pub is_known : Bool
  is_known =
      str_eq c.tls_mode tls_files || str_eq c.tls_mode tls_hybrid || str_eq c.tls_mode tls_acme

  -- The seven comparisons of `NeedsRestart`.
  record AreSame : Type 0 where
    same_listen : str_eq c.listen old.listen ≡ true
    same_mode : str_eq c.tls_mode old.tls_mode ≡ true
    same_pair :
        (not (str_eq c.tls_mode tls_files || str_eq c.tls_mode tls_hybrid)
          || str_eq c.cert_file old.cert_file && str_eq c.key_file old.key_file)
        ≡ true
    same_ca :
        (not (str_eq c.tls_mode tls_acme || str_eq c.tls_mode tls_hybrid) || same_acme c old) ≡ true
    same_db : str_eq c.db_path old.db_path ≡ true
    same_proxy :
        (same_flag c.proxy_enabled old.proxy_enabled
          && str_eq c.proxy_listen old.proxy_listen
          && str_eq c.proxy_redirect_listen old.proxy_redirect_listen)
        ≡ true
    same_admin :
        (same_flag c.admin.enabled old.admin.enabled && str_eq c.admin.host old.admin.host) ≡ true

  needs_restart-AreSame : needs_restart c old ≡ [] → AreSame
  unfolding needs_restart
  needs_restart-AreSame h =
      let r1 = unless-nil _ "listen" _ h in
      let r2 = unless-nil _ "tls_mode" _ r1.1 in
      let r3 = unless-nil _ "cert_file/key_file" _ r2.1 in
      let r4 = unless-nil _ "acme_*" _ r3.1 in
      let r5 = unless-nil _ "db_path" _ r4.1 in
      let r6 = unless-nil _ "proxy_enabled/proxy_listen" _ r5.1 in
      record {
        same_listen = r1.0;
        same_mode = r2.0;
        same_pair = r3.0;
        same_ca = r4.0;
        same_db = r5.0;
        same_proxy = r6.0;
        same_admin = unless_nil _ "admin.enabled/host" r6.1;
      }

  plumbing-AreSame :
      is_known ≡ true → c.dns_server ≡ old.dns_server → AreSame → plumbing c ≡ plumbing old
  unfolding plumbing
  plumbing-AreSame v d s =
      let source = build_tls-eq c old s.same_mode s.same_pair s.same_ca v d in
      ground (
        arith,
        source,
        str_eq_iff c.listen old.listen,
        str_eq_iff c.db_path old.db_path,
        same_flag→eq c.proxy_enabled old.proxy_enabled,
        str_eq_iff c.proxy_listen old.proxy_listen,
        str_eq_iff c.proxy_redirect_listen old.proxy_redirect_listen,
        same_flag→eq c.admin.enabled old.admin.enabled,
        str_eq_iff c.admin.host old.admin.host,
      )

  -- Where `NeedsRestart` names no field, between configurations of a known TLS mode and with one DNS
  -- server, all that the start has set up is as a start with the new configuration would set it up.
  pub plumbing-needs_restart :
      is_known ≡ true
      → c.dns_server ≡ old.dns_server
      → needs_restart c old ≡ []
      → plumbing c ≡ plumbing old
  plumbing-needs_restart v d h = plumbing-AreSame v d (needs_restart-AreSame h)
