-- ===== src/Proxy/Router/Current.antt =====
-- The settings that a console connection meets after a reload.
use goddns.Base.{ℕ, ◌≢◌, ◌||◌, true, not, ◌&&◌, List, [], some, ◌≡◌, ◌==◌, any, is_empty}
use goddns.Base.Strings.{Bytes}
use goddns.Base.Dict
use goddns.Base.Dict.{Dict}
use goddns.Net.{IpNet, contains_ip}
use goddns.Config.{ProxyRule, Libraries, Url}
use goddns.Proxy.Router.{Rule, Proxy, host_key}
use goddns.Proxy.Router.Tables.{nets_of, users_of}
use goddns.Proxy.Router.Console.{Connection, Dial, Ending, spliced, console_peer}

module _ (lib : Libraries) where
  -- A rule that is compiled from its settings.
  pub record IsCompiled (pr : ProxyRule) (r : Rule) : Type 0 where
    pub src_is : r.src ≡ pr
    pub upstream_is :
        (u : Url) × (lib.parse_url pr.upstream ≡ some u) × (r.upstream_host ≡ u.hostname)
    pub nets_are : nets_of lib pr.allow ≡ some r.allow
    pub users_are : users_of pr.basic_auth [] ≡ some r.users

  -- Every rule of the table is compiled from the settings that it carries.
  unfoldable pub IsCurrent : Proxy → Type 0
  IsCurrent p = (h : Bytes) (r : Rule) → Dict.lookup h p.rules ≡ some r → IsCompiled r.src r

  -- What a spliced connection went through: the handshake's name is configured with the port, the
  -- peer is on the allowlist of that host, and the dial is to the configured upstream.
  pub record IsReached (cfg : Dict ProxyRule) (port : ℕ) (conn : Connection) (d : Dial)
      : Type 0 where
    pub name : Bytes
    pub handshaken : conn.server_name ≡ some name
    pub rule : ProxyRule
    pub configured : Dict.lookup (host_key lib name) cfg ≡ some rule
    pub opened : any (λ p. p == port) rule.console_ports ≡ true
    pub nets : List IpNet
    pub nets_are : nets_of lib rule.allow ≡ some nets
    pub admitted :
        is_empty nets
          || not (is_empty (console_peer lib conn))
            && any (λ n. contains_ip n (console_peer lib conn)) nets
        ≡ true
    pub upstream : Url
    pub upstream_is : lib.parse_url rule.upstream ≡ some upstream
    pub dial_is :
        d ≡ record { host = upstream.hostname; port = port; verify = rule.upstream_verify }

  -- A connection on a console port either reaches its upstream, or leaves the proxy as it was.
  pub IsServed : Dict ProxyRule → ℕ → Connection → Proxy → Ending × Proxy → Type 0
  IsServed cfg port conn p x =
      ((d : Dial) → x.0 ≡ spliced d → IsReached cfg port conn d)
      × (((d : Dial) → x.0 ≢ spliced d) → x.1 ≡ p)
      × (x.1.rules ≡ p.rules)
