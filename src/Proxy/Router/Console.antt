-- ===== src/Proxy/Router/Console.antt =====
-- `ServeConsole` of internal/proxy/console.go: a connection on a console port. The handshake, the
-- dialling and the bytes that pass are arguments.
use goddns.Base.{ℕ, ◌+◌, Bool, not, [], Option, none, some, ◌==◌, if◌then◌else◌, any}
use goddns.Base.Strings.{Bytes}
use goddns.Base.Dict
use goddns.Base.Dict.{Dict, insert}
use goddns.Config.{Libraries}
use goddns.Proxy.Router.{Rule, Counters, Proxy, allows, counted, host_key}

-- `hasConsolePort`.
unfoldable pub has_console_port : Rule → ℕ → Bool
has_console_port rl port = any (λ p. p == port) rl.src.console_ports

-- A connection: the server name of its handshake, if that is one and succeeds; whether the
-- upstream then takes the call; and the bytes that pass each way until one side closes.
pub record Connection : Type 0 where
  pub server_name : Option Bytes
  pub remote_addr : Bytes
  pub dials : Bool
  pub read : ℕ
  pub written : ℕ

-- What `consoleDial` is asked for.
pub record Dial : Type 0 where
  pub host : Bytes
  pub port : ℕ
  pub verify : Bool

pub data Ending : Type 0 where
  dropped : Ending
  dial_failed : Dial → Ending
  spliced : Dial → Ending

-- The counting of a session, its `active` raised and lowered again.
unfoldable pub count_console : ℕ → Connection → Counters → Counters
count_console seconds conn c = record c {
  requests = c.requests + 1;
  last_seen = seconds;
  bytes_in = c.bytes_in + conn.read;
  bytes_out = c.bytes_out + conn.written;
}

module _ (lib : Libraries) where
  abbrev or_none : Option Bytes → Bytes
  or_none none = []
  or_none (some host) = host

  -- The peer; an address that does not split has no host here.
  abbrev pub console_peer : Connection → Bytes
  console_peer conn = lib.forms.parse_ip (or_none (lib.forms.split_host conn.remote_addr))

  abbrev pub dial_of : Rule → ℕ → Dial
  dial_of rl port = record { host = rl.upstream_host; port = port; verify = rl.src.upstream_verify }

  abbrev pub on_rule : ℕ → ℕ → Connection → Bytes → Proxy → Option Rule → Ending × Proxy
  on_rule seconds port conn sni p none = (dropped, p)
  on_rule seconds port conn sni p (some rl) =
      if not (has_console_port rl port)
      then (dropped, p)
      else if not (allows rl (console_peer conn))
      then (dropped, p)
      else if not conn.dials
      then (dial_failed (dial_of rl port), p)
      else (
        spliced (dial_of rl port),
        record p { stats = insert sni (count_console seconds conn (counted sni p.stats)) p.stats },
      )

  abbrev pub on_handshake : ℕ → ℕ → Connection → Proxy → Option Bytes → Ending × Proxy
  on_handshake seconds port conn p none = (dropped, p)
  on_handshake seconds port conn p (some name) =
      let sni = host_key lib name in on_rule seconds port conn sni p (Dict.lookup sni p.rules)

  -- `ServeConsole`.
  unfoldable pub serve_console : ℕ → ℕ → Connection → Proxy → Ending × Proxy
  unfolding has_console_port allows count_console counted host_key insert Dict.lookup
  serve_console seconds port conn p = on_handshake seconds port conn p conn.server_name
