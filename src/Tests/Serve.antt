-- ===== src/Tests/Serve.antt =====
-- Runs of the reload loop, the console listeners and the traffic flusher of cmd/goddns/serve.go.
use goddns.Base.{ℕ, true, false, [], ◌∷◌, none, some, ◌≡◌, refl, arith}
use goddns.Base.Strings.{bytes, str_eq}
use goddns.Base.Dict
use goddns.Base.Dict.{Dict, insert, retain}
use goddns.Proxy.Router.{Rule, Proxy}
use goddns.Config.{Config}
use goddns.Config.Load.{Sources, decoded, defaults}
use goddns.Config.Restart.{needs_restart}
use goddns.Serve.Plumbing.{plumbing, plumbing-needs_restart}
use goddns.Serve.Traffic.{Snap, Flusher, last_of, flush, stored, IsBalanced, flush-IsBalanced}
use goddns.Serve.Reload.{Daemon, Round}
use goddns.Tests.Config.{rule, source, accepted}

plumbing-needs_restart_example :
    plumbing accepted ≡ plumbing (record accepted { log_file = bytes "old"; history_keep = 3 })
unfolding needs_restart str_eq
plumbing-needs_restart_example =
    plumbing-needs_restart accepted (record accepted { log_file = bytes "old"; history_keep = 3 })
      refl refl refl

abbrev seen_snap : ℕ → Snap
seen_snap n = record { req = n; in_bytes = n; out_bytes = n }

abbrev flusher : Flusher
flusher = record {
  last = (bytes "h", seen_snap 2) ∷ [];
  rows = record { host = bytes "h"; day = bytes "d"; added = seen_snap 2 } ∷ [];
}

flusher-IsBalanced : IsBalanced flusher
unfolding stored last_of Dict.lookup
flusher-IsBalanced h = ground arith

flush-IsBalanced_example : IsBalanced (
    flush (bytes "e") (λ h. false) (record { host = bytes "h"; totals = seen_snap 5 } ∷ []) flusher)
unfolding last_of Dict.lookup str_eq
flush-IsBalanced_example =
    flush-IsBalanced (bytes "e") (λ h. false)
      (record { host = bytes "h"; totals = seen_snap 5 } ∷ []) flusher
      ((ground arith, ground arith, ground arith), tt) flusher-IsBalanced

abbrev compiled : Rule
compiled = record {
  host = bytes "h";
  src = rule;
  upstream_host = bytes "up";
  allow = record { number = 10 ∷ 0 ∷ 0 ∷ 0 ∷ []; mask = 255 ∷ 0 ∷ 0 ∷ 0 ∷ [] } ∷ [];
  users = (bytes "u", bytes "$2s") ∷ [];
  limit = some (record { rate = 1; burst = 2_000_000_000; buckets = []; sweep = 5 });
}

abbrev table : Proxy
table = record { rules = (bytes "h", compiled) ∷ []; stats = [] }

abbrev daemon : Daemon
daemon = record {
  cfg = accepted;
  proxy = some table;
  applied_hosts = bytes "h" ∷ [];
  dirty = false;
  last_sig = [];
  names = none;
  consoles = some [];
  interval = 20;
}

abbrev round : Sources → Round
round s = record {
  now = 9;
  source = s;
  backend_ok = λ c. true;
  manage_ok = true;
  open_at = λ p. some p;
}

abbrev off_source : Sources
off_source = record {
  has_path = true;
  main = λ c. decoded (record c { cert_file = bytes "c"; key_file = bytes "k" }) [];
  env_secret = [];
  env_acme_secret = [];
  keys_file = λ f. none;
  fragments = [];
}

abbrev off : Config
off = record defaults {
  cert_file = bytes "c";
  key_file = bytes "k";
  acme_tsig_name = bytes "ddns-update.";
  acme_tsig_algo = bytes "hmac-sha256";
  tsig_name = bytes "ddns-update.";
  proxy_listen = bytes ":443";
}

-- The first hosts were refused by ACME: the table routes them, and none counts as applied.
abbrev refused : Daemon
refused = record daemon { applied_hosts = []; dirty = true }
