-- ===== src/Config/Restart.antt =====
-- `NeedsRestart`, `ProxyHosts` and `ConsolePorts` of internal/config/config.go.
use Prim.Native.String.{String}
use goddns.Base.{
  ℕ, Bool, true, false, not, ◌&&◌, ◌||◌, List, [], ◌∷◌, ◌++◌, ltb, ◌==◌, if◌then◌else◌, any,
}
use goddns.Base.Strings.{Bytes, bytes, str_eq}
use goddns.Base.Dict.{Dict}
use goddns.Base.Sort.{str_lt, sort_by}
use goddns.Config.{ProxyRule, Config, tls_files, tls_acme, tls_hybrid}

abbrev pub same_flag : Bool → Bool → Bool
same_flag true b = b
same_flag false b = not b

abbrev pub unless : Bool → String → List Bytes
unless same field = if same then [] else bytes field ∷ []

abbrev pub same_acme : Config → Config → Bool
same_acme c old =
    str_eq c.acme_domain old.acme_domain
    && str_eq c.acme_ca old.acme_ca
    && str_eq c.acme_email old.acme_email
    && str_eq c.acme_storage old.acme_storage
    && str_eq c.acme_tsig_name old.acme_tsig_name
    && str_eq c.acme_tsig_algo old.acme_tsig_algo
    && str_eq c.acme_tsig_secret old.acme_tsig_secret

-- `NeedsRestart`: the names of the fields whose change is not applied live.
unfoldable pub needs_restart : Config → Config → List Bytes
needs_restart c old =
    let hybrid = str_eq c.tls_mode tls_hybrid in
    let uses_files = str_eq c.tls_mode tls_files || hybrid in
    let uses_acme = str_eq c.tls_mode tls_acme || hybrid in
    unless (str_eq c.listen old.listen) "listen"
    ++ (unless (str_eq c.tls_mode old.tls_mode) "tls_mode"
        ++ (unless
              (not uses_files || str_eq c.cert_file old.cert_file && str_eq c.key_file old.key_file)
              "cert_file/key_file"
            ++ (unless (not uses_acme || same_acme c old) "acme_*"
                ++ (unless (str_eq c.db_path old.db_path) "db_path"
                    ++ (unless
                          (same_flag c.proxy_enabled old.proxy_enabled
                            && str_eq c.proxy_listen old.proxy_listen
                            && str_eq c.proxy_redirect_listen old.proxy_redirect_listen)
                          "proxy_enabled/proxy_listen"
                        ++ unless
                            (same_flag c.admin.enabled old.admin.enabled
                              && str_eq c.admin.host old.admin.host)
                            "admin.enabled/host")))))

hosts_of : Dict ProxyRule → List Bytes
hosts_of [] = []
hosts_of ((h, r) ∷ m) = h ∷ hosts_of m

-- `ProxyHosts`, sorted.
unfoldable pub proxy_hosts : Config → List Bytes
unfolding hosts_of
proxy_hosts c = sort_by str_lt (hosts_of c.proxy)

abbrev add_port : ℕ → List ℕ → List ℕ
add_port p seen = if any (λ q. q == p) seen then seen else p ∷ seen

add_ports : List ℕ → List ℕ → List ℕ
add_ports [] seen = seen
add_ports (p ∷ ports) seen = add_ports ports (add_port p seen)

ports_onto : Dict ProxyRule → List ℕ → List ℕ
unfolding add_ports
ports_onto [] seen = seen
ports_onto ((h, r) ∷ m) seen = ports_onto m (add_ports r.console_ports seen)

-- `ConsolePorts`, distinct and sorted.
unfoldable pub console_ports : Config → List ℕ
unfolding ports_onto
console_ports c = sort_by ltb (ports_onto c.proxy [])
