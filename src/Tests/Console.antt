-- ===== src/Tests/Console.antt =====
-- Runs of the console ports of internal/proxy/console.go.
use goddns.Base.{true, [], ◌∷◌, some, ◌≡◌, refl}
use goddns.Base.Strings.{Bytes, bytes, str_eq, to_lower, trim_suffix, has_prefix, has_suffix}
use goddns.Base.Dict
use goddns.Base.Dict.{Dict, insert}
use goddns.Net.{contains_ip, to4}
use goddns.Config.{ProxyRule, Libraries}
use goddns.Proxy.Router.{Proxy, allows, counted, host_key}
use goddns.Proxy.Router.Console.{
  Connection, dropped, spliced, has_console_port, count_console, serve_console,
}
use goddns.Tests.Router.{lib, settings}

-- Addresses without a port.
abbrev splitting : Libraries
splitting = record lib { forms = record lib.forms { split_host = λ s. some s } }

abbrev with_console : ProxyRule
with_console = record settings { upstream_verify = true; console_ports = 5_900 ∷ [] }

abbrev config : Dict ProxyRule
config = (bytes "h", with_console) ∷ []

abbrev empty : Proxy
empty = record { rules = []; stats = [] }

abbrev loaded : Proxy
loaded = record {
  rules =
      (
        bytes "h",
        record {
          host = bytes "h";
          src = with_console;
          upstream_host = bytes "up";
          allow = record { number = 10 ∷ 0 ∷ 0 ∷ 0 ∷ []; mask = 255 ∷ 0 ∷ 0 ∷ 0 ∷ [] } ∷ [];
          users = (bytes "u", bytes "s") ∷ [];
          limit = some (record { rate = 1; burst = 2_000_000_000; buckets = []; sweep = 5 });
        },
      )
      ∷ [];
  stats =
      (
        bytes "h",
        record {
          requests = 0;
          active = 0;
          bytes_in = 0;
          bytes_out = 0;
          s2xx = 0;
          s3xx = 0;
          s4xx = 0;
          s5xx = 0;
          last_seen = 0;
        },
      )
      ∷ [];
}

abbrev calls : Bytes → Bytes → Connection
calls name peer = record {
  server_name = some name;
  remote_addr = peer;
  dials = true;
  read = 3;
  written = 4;
}

endings :
    ((serve_console splitting 7 5_900 (calls (bytes "H.") (bytes "p")) loaded).0
      ≡ spliced (record { host = bytes "up"; port = 5_900; verify = true }))
    × ((serve_console splitting 7 5_901 (calls (bytes "h") (bytes "p")) loaded).0 ≡ dropped)
    × ((serve_console splitting 7 5_900 (calls (bytes "h") (bytes "q")) loaded).0 ≡ dropped)
    × ((serve_console splitting 7 5_900 (calls (bytes "g") (bytes "p")) loaded).0 ≡ dropped)
unfolding serve_console host_key has_console_port count_console counted allows contains_ip to4
    insert Dict.lookup str_eq to_lower trim_suffix has_suffix has_prefix
endings = (refl, refl, refl, refl)
