-- ===== src/Proxy/Router.antt =====
-- The routing of internal/proxy/proxy.go, with the counters of internal/proxy/stats.go. Parsing of
-- addresses, networks and URLs, and bcrypt, are parameters; a response's status and size are
-- arguments.
pub mod Gates
pub mod Tables
pub mod Swap
pub mod Loads
pub mod Console
pub mod Same
pub mod Current
use goddns.Base.{
  ℕ, suc, ◌+◌, ◌*◌, ◌/◌, Bool, true, false, not, ◌&&◌, ◌||◌, List, [], ◌∷◌, ◌++◌, Option, none,
  some, ltb, leb, ◌==◌, if◌then◌else◌, is_empty, any,
}
use goddns.Base.Strings.{Bytes, bytes, str_eq, to_lower, trim_space, trim_suffix}
use goddns.Base.Dict
use goddns.Base.Dict.{Dict, insert, retain}
use goddns.Net.{IpNet, contains_ip}
use goddns.Config.{ProxyRule, Libraries}
use goddns.Proxy.Limiter.{Limiter, new_limiter, allow}

-- `rule`. Its transport and handler are known by the rule's source.
pub record Rule : Type 0 where
  pub host : Bytes
  pub src : ProxyRule
  pub upstream_host : Bytes
  pub allow : List IpNet
  pub users : Dict Bytes
  pub limit : Option Limiter

-- `counters`.
pub record Counters : Type 0 where
  pub requests : ℕ
  pub active : ℕ
  pub bytes_in : ℕ
  pub bytes_out : ℕ
  pub s2xx : ℕ
  pub s3xx : ℕ
  pub s4xx : ℕ
  pub s5xx : ℕ
  pub last_seen : ℕ

abbrev pub no_counts : Counters
no_counts = record {
  requests = 0;
  active = 0;
  bytes_in = 0;
  bytes_out = 0;
  s2xx = 0;
  s3xx = 0;
  s4xx = 0;
  s5xx = 0;
  last_seen = 0;
}

pub record Proxy : Type 0 where
  pub rules : Dict Rule
  pub stats : Dict Counters

-- `allows`.
unfoldable pub allows : Rule → Bytes → Bool
unfolding contains_ip
allows r peer = is_empty r.allow || not (is_empty peer) && any (λ n. contains_ip n peer) r.allow

-- `counters.note`.
unfoldable pub note : ℕ → Counters → Counters
note status c =
    if leb 500 status
    then record c { s5xx = c.s5xx + 1 }
    else if leb 400 status
    then record c { s4xx = c.s4xx + 1 }
    else if leb 300 status
    then record c { s3xx = c.s3xx + 1 }
    else if leb 200 status
    then record c { s2xx = c.s2xx + 1 }
    else c

abbrev pub or_new : Option Counters → Counters
or_new none = no_counts
or_new (some c) = c

-- `stats.host`, read, and the change of a host's counters.
unfoldable pub counted : Bytes → Dict Counters → Counters
unfolding Dict.lookup
counted h m = or_new (Dict.lookup h m)

-- A request, as far as the gates read it; `basic_auth` is the user and the password.
pub record Request : Type 0 where
  pub host : Bytes
  pub remote_addr : Bytes
  pub basic_auth : Option (Bytes × Bytes)

-- How the upstream answered, and the bytes of the body that it read.
pub record Exchange : Type 0 where
  pub status : ℕ
  pub read : ℕ
  pub written : ℕ

-- What becomes of a request; a request that is passed on loses its credentials if they were meant
-- for the proxy.
pub data Verdict : Type 0 where
  unknown_host forbidden rate_limited unauthorized : Verdict
  passed_on : Bool → Verdict

module _ (lib : Libraries) where
  abbrev or_whole : Bytes → Option Bytes → Bytes
  or_whole addr none = addr
  or_whole addr (some host) = host

  -- `hostKey`.
  unfoldable pub host_key : Bytes → Bytes
  unfolding to_lower trim_suffix
  host_key h =
      let low = to_lower h in trim_suffix (or_whole low (lib.forms.split_host low)) (bytes ".")

  abbrev pub peer_of : Request → Bytes
  peer_of r = lib.forms.parse_ip (or_whole r.remote_addr (lib.forms.split_host r.remote_addr))

  abbrev user_matches : Bytes → Option Bytes → Bool
  user_matches pass none = false
  user_matches pass (some hash) = lib.bcrypt_matches hash pass

  -- `checkAuth`.
  unfoldable pub check_auth : Rule → Option (Bytes × Bytes) → Bool
  unfolding Dict.lookup
  check_auth r none = false
  check_auth r (some (user, pass)) = user_matches pass (Dict.lookup user r.users)

  -- The limiter of a rule, asked: whether it lets the request through, and the rule with it.
  abbrev pub ask_limit : ℕ → Bytes → Rule → Option Limiter → Bool × Rule
  ask_limit now peer r none = (true, r)
  ask_limit now peer r (some l) =
      let (through, l') = allow now peer l in (through, record r { limit = some l' })

  -- The gates of `ServeHTTP`, in their order, for a known host.
  unfoldable pub gates : ℕ → Request → Rule → Verdict × Rule
  unfolding allows allow check_auth
  gates now r rl =
      let peer = peer_of r in
      let (through, rl') = ask_limit now peer rl rl.limit in
      let guarded = not (is_empty rl.users) in
      if not (allows rl peer)
      then (forbidden, rl)
      else if not through
      then (rate_limited, rl')
      else if guarded && not (check_auth rl r.basic_auth)
      then (unauthorized, rl')
      else (passed_on guarded, rl')

  -- The status and the sizes that are counted; `own` is the size of the proxy's own answer.
  abbrev pub result_of : Verdict → ℕ → Exchange → Exchange
  result_of unknown_host own up = record { status = 404; read = 0; written = own }
  result_of forbidden own up = record { status = 403; read = 0; written = own }
  result_of rate_limited own up = record { status = 429; read = 0; written = own }
  result_of unauthorized own up = record { status = 401; read = 0; written = own }
  result_of (passed_on stripped) own up = up

  -- The counting around one request, its `active` raised and lowered again.
  unfoldable pub count : ℕ → Exchange → Counters → Counters
  unfolding note
  count seconds x c = note x.status (record c {
    requests = c.requests + 1;
    last_seen = seconds;
    bytes_in = c.bytes_in + x.read;
    bytes_out = c.bytes_out + x.written;
  })

  abbrev second : ℕ
  second = 1_000_000_000

  abbrev routed : ℕ → ℕ → Exchange → Request → Proxy → Option Rule → Verdict × Proxy
  routed now own up r p none = (unknown_host, p)
  routed now own up r p (some rl) =
      let host = host_key r.host in
      let (v, rl') = gates now r rl in
      (
        v,
        record {
          rules = insert host rl' p.rules;
          stats =
              insert host (count (now / second) (result_of v own up) (counted host p.stats))
                p.stats;
        },
      )

  -- `ServeHTTP`.
  unfoldable pub serve : ℕ → ℕ → Exchange → Request → Proxy → Verdict × Proxy
  unfolding host_key gates count counted insert Dict.lookup
  serve now own up r p = routed now own up r p (Dict.lookup (host_key r.host) p.rules)
