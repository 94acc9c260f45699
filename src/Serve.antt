-- ===== src/Serve.antt =====
-- The serve command, cmd/goddns/serve.go: the certificate source that a configuration asks for, the
-- console listeners, the traffic flusher, and the reload loop.
pub mod Plumbing
pub mod Consoles
pub mod Traffic
pub mod Reload
use goddns.Base.{
  ℕ, Bool, true, false, not, ◌&&◌, ◌||◌, List, [], ◌∷◌, ◌++◌, Option, none, some, if◌then◌else◌,
  is_empty, any,
}
use goddns.Base.Strings.{Bytes, str_eq}
use goddns.Base.Sort.{str_lt, sort_by}
use goddns.Config.{Config, tls_acme, tls_hybrid}
use goddns.Config.Restart.{proxy_hosts}
use goddns.Tls.{norm_name}

-- `tlsmgr.ACMEOptions` as `buildTLS` fills it; the hosts of the proxy are managed at each reload.
pub record AcmeOptions : Type 0 where
  pub domain : Bytes
  pub email : Bytes
  pub ca : Bytes
  pub storage : Bytes
  pub dns_server : Bytes
  pub tsig_name : Bytes
  pub tsig_algo : Bytes
  pub tsig_secret : Bytes
  pub on_demand : Bool

pub data TlsSource : Type 0 where
  from_files : Bytes → Bytes → TlsSource
  from_acme : AcmeOptions → TlsSource
  hybrid : Bytes → Bytes → Option AcmeOptions → TlsSource

abbrev pub acme_options : Bool → Config → AcmeOptions
acme_options on_demand c = record {
  domain = c.acme_domain;
  email = c.acme_email;
  ca = c.acme_ca;
  storage = c.acme_storage;
  dns_server = c.dns_server;
  tsig_name = c.acme_tsig_name;
  tsig_algo = c.acme_tsig_algo;
  tsig_secret = c.acme_tsig_secret;
  on_demand = on_demand;
}

-- `buildTLS`: which source is built, from which fields.
unfoldable pub build_tls : Config → TlsSource
build_tls c =
    if str_eq c.tls_mode tls_acme
    then from_acme (acme_options false c)
    else if str_eq c.tls_mode tls_hybrid
    then hybrid c.cert_file c.key_file
        (if is_empty c.acme_tsig_secret then none else some (acme_options true c))
    else from_files c.cert_file c.key_file

abbrev pub add_name : Bytes → List Bytes → List Bytes
add_name s names =
    let n = norm_name s in if is_empty n || any (str_eq n) names then names else n ∷ names

unfoldable pub add_names : List Bytes → List Bytes → List Bytes
add_names [] names = names
add_names (s ∷ ss) names = add_names ss (add_name s names)

-- `hybridNames`: the names for which ACME may be asked.
unfoldable pub hybrid_names : Config → List Bytes
hybrid_names c =
    let proxied = if c.proxy_enabled then add_names (proxy_hosts c) [] else [] in
    let own = add_name c.public_host (add_name c.acme_domain proxied) in
    sort_by str_lt (if c.admin.enabled then add_name c.admin.host own else own)
