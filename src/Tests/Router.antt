-- ===== src/Tests/Router.antt =====
-- Runs of the routing of internal/proxy.
use Prim.Native.String.{String}
use goddns.Base.{true, false, [], ◌∷◌, none, some, ◌≡◌, refl, if◌then◌else◌}
use goddns.Base.Strings.{bytes, str_eq, to_lower, trim_suffix, has_prefix, has_suffix}
use goddns.Base.Dict
use goddns.Base.Dict.{Dict, insert, IsMap}
use goddns.Net.{contains_ip, to4}
use goddns.Proxy.Limiter.{allow, allow_key, bucket_key, refill, earned, sweep_idle, sweep_due}
use goddns.Config.{ProxyRule, Libraries}
use goddns.Proxy.Router.{
  Rule, Proxy, Request, Exchange, unknown_host, forbidden, unauthorized, passed_on, allows,
  host_key, check_auth, gates, serve,
}
use goddns.Proxy.Router.Gates.{Routed, serve-Routed}

-- One address, 10.0.0.1, one network, and a hash that is the password itself.
abbrev pub lib : Libraries
lib = record {
  forms = record {
    parse_ip = λ s. if str_eq s (bytes "p") then 10 ∷ 0 ∷ 0 ∷ 1 ∷ [] else 192 ∷ 0 ∷ 2 ∷ 1 ∷ [];
    ip_string = λ ip. ip;
    split_host = λ s. none;
  };
  split_port = λ s. none;
  parse_cidr = λ s. some (record { number = 10 ∷ 0 ∷ 0 ∷ 0 ∷ []; mask = 255 ∷ 0 ∷ 0 ∷ 0 ∷ [] });
  parse_url = λ u. some (record {
    scheme = bytes "http";
    host = u;
    hostname = u;
    path = [];
    raw_query = [];
    fragment = [];
    has_user = false;
  });
  bcrypt_cost = λ hash. true;
  bcrypt_matches = λ hash pass. str_eq hash pass;
}

abbrev pub settings : ProxyRule
settings = record {
  upstream = bytes "up";
  upstream_verify = false;
  preserve_host = false;
  bmc_compat = false;
  allow = bytes "10/8" ∷ [];
  basic_auth = bytes "u:s" ∷ [];
  rate_limit = 1;
  console_ports = [];
}

abbrev config : Dict ProxyRule
config = (bytes "h", settings) ∷ []

abbrev rule : Rule
rule = record {
  host = bytes "h";
  src = settings;
  upstream_host = bytes "up";
  allow = record { number = 10 ∷ 0 ∷ 0 ∷ 0 ∷ []; mask = 255 ∷ 0 ∷ 0 ∷ 0 ∷ [] } ∷ [];
  users = (bytes "u", bytes "s") ∷ [];
  limit = some (record { rate = 1; burst = 2_000_000_000; buckets = []; sweep = 5 });
}

abbrev loaded : Proxy
loaded = record { rules = (bytes "h", rule) ∷ []; stats = [] }

abbrev up : Exchange
up = record { status = 200; read = 3; written = 4 }

abbrev asks : String → String → String → Request
asks host peer pass = record {
  host = bytes host;
  remote_addr = bytes peer;
  basic_auth = some (bytes "u", bytes pass);
}

verdicts :
    ((serve lib 5 0 up (asks "H." "p" "s") loaded).0 ≡ passed_on true)
    × ((serve lib 5 0 up (asks "h" "p" "x") loaded).0 ≡ unauthorized)
    × ((serve lib 5 0 up (asks "h" "q" "s") loaded).0 ≡ forbidden)
    × ((serve lib 5 0 up (asks "g" "p" "s") loaded).0 ≡ unknown_host)
unfolding serve host_key gates allows contains_ip to4 check_auth allow allow_key bucket_key refill
    earned sweep_idle sweep_due insert Dict.lookup str_eq to_lower trim_suffix has_suffix has_prefix
verdicts = (refl, refl, refl, refl)

abbrev started : Proxy
started = record {
  rules = (bytes "h", rule) ∷ [];
  stats =
      (
        bytes "h",
        record {
          requests = 0;
          active = 0;
          bytes_in = 0;
          bytes_out = 0;
          s2xx = 0;
          s3xx = 0;
          s4xx = 0;
          s5xx = 0;
          last_seen = 0;
        },
      )
      ∷ [];
}

serve-Routed_example :
    (Dict.lookup (host_key lib (bytes "h")) loaded.rules ≡ none
      → serve lib 5 0 up (asks "h" "p" "s") loaded ≡ (unknown_host, loaded))
    × ((rl : Rule)
        → Dict.lookup (host_key lib (bytes "h")) loaded.rules ≡ some rl
        → Routed lib 5 0 up
            (asks "h" "p" "s")
            loaded
            rl
            (serve lib 5 0 up (asks "h" "p" "s") loaded))
serve-Routed_example = serve-Routed lib 5 0 up (asks "h" "p" "s") loaded
