-- ===== src/Server.antt =====
-- The update endpoints of internal/server/server.go, on the token store and the DNS backend.
pub mod Client
pub mod Writes
pub mod Repeat
use Prim.Native.String.{String}
use goddns.Base.{
  ℕ, Bool, true, false, not, ◌&&◌, ◌||◌, List, [], ◌∷◌, ◌++◌, Option, none, some, ◌==◌,
  if◌then◌else◌, any, is_empty, reverse,
}
use goddns.Base.Strings.{Bytes, bytes, str_eq, trim_prefix, trim_space, split}
use goddns.Base.Dict.{Dict, text_at}
use goddns.Base.Result.{Result, ok, err}
use goddns.Net.{
  IpNet, contains_ip, TextForms, is_loopback, is_unspecified, is_multicast, is_link_local_unicast,
  is_link_local_multicast,
}
use goddns.Store.{Record, Db, StoreError, fqdn_of, mark_updated, mark_seen, lookup}

-- `Config.IsTrusted` of internal/config/config.go, on the networks of the trusted proxies.
unfoldable pub is_trusted : List IpNet → Bytes → Bool
unfolding contains_ip
is_trusted nets ip = any (λ n. contains_ip n ip) nets

-- What the handlers read of an `http.Request`. The query and the header have a key's first value.
pub record Request : Type 0 where
  pub path : Bytes
  pub query : Dict Bytes
  pub basic_password : Option Bytes
  pub remote_addr : Bytes
  pub forwarded_for : Bytes

abbrev or_empty : Option Bytes → Bytes
or_empty none = []
or_empty (some v) = v

-- `r.URL.Query().Get`.
abbrev pub query_get : String → Request → Bytes
query_get k r = text_at (bytes k) r.query

pub data IpError : Type 0 where
  invalid : IpError
  non_routable : IpError
  undetermined : IpError

-- An update that the backend is asked for, `Backend.Update`.
pub record DnsUpdate : Type 0 where
  pub fqdn : Bytes
  pub zone : Bytes
  pub ip : Bytes
  pub ttl : ℕ

-- The store, and what the backend was asked for, in order.
pub record World : Type 0 where
  pub db : Db
  pub sent : List DnsUpdate

-- What goes wrong around one request: a lookup that the database fails, an update that the
-- backend fails, a stamp that the database fails.
pub record Faults : Type 0 where
  pub lookup_fails : Bool
  pub update_fails : Bool
  pub stamp_fails : Bool

-- What a handler answers.
pub data Verdict : Type 0 where
  missing_token bad_auth store_error no_host bad_ip dns_error : Verdict
  good no_change : Bytes → Verdict

pub record Response : Type 0 where
  pub status : ℕ
  pub body : Bytes

-- The classes of addresses that an override may not name.
unfoldable pub is_refused : Bytes → Bool
unfolding is_loopback is_unspecified is_multicast is_link_local_unicast is_link_local_multicast
is_refused ip =
    is_loopback ip
    || is_unspecified ip
    || is_multicast ip
    || is_link_local_unicast ip
    || is_link_local_multicast ip

-- Go's `segs[0]` and `segs[1]` of `strings.SplitN(s, "/", 2)`.
abbrev more_first : ℕ → Bytes × Option Bytes → Bytes × Option Bytes
more_first c (s, rest) = (c ∷ s, rest)

unfoldable pub cut_slash : Bytes → Bytes × Option Bytes
cut_slash [] = ([], none)
cut_slash (c ∷ s) = let cut = cut_slash s in if c == b'/' then ([], some s) else more_first c cut

-- `strings.Trim(s, "/")`.
unfoldable pub drop_slashes : Bytes → Bytes
drop_slashes [] = []
drop_slashes (c ∷ s) = let rest = drop_slashes s in if c == b'/' then rest else c ∷ s

unfoldable pub trim_slashes : Bytes → Bytes
unfolding drop_slashes
trim_slashes s = reverse (drop_slashes (reverse (drop_slashes s)))

abbrev pub first_of : Bytes → Bytes → Bytes
first_of a b = if is_empty a then b else a

module _ (forms : TextForms) where
  -- The walk over the hops, from the last one.
  unfoldable pub first_untrusted : List IpNet → List Bytes → Option Bytes
  unfolding is_trusted trim_space
  first_untrusted nets [] = none
  first_untrusted nets (hop ∷ hops) =
      let cand = forms.parse_ip (trim_space hop) in
      let rest = first_untrusted nets hops in
      if not (is_empty cand) && not (is_trusted nets cand) then some cand else rest

  unfoldable pub forwarded : List IpNet → Bytes → Option Bytes
  unfolding first_untrusted split
  forwarded nets xff =
      if is_empty xff then none else first_untrusted nets (reverse (split b',' xff))

  abbrev pub overridden : Bytes → Result IpError Bytes
  overridden ip =
      if is_empty ip then err invalid else if is_refused ip then err non_routable else ok ip

  abbrev host_or : Bytes → Option Bytes → Bytes
  host_or addr none = addr
  host_or addr (some host) = host

  -- `net.ParseIP` of the peer's host.
  abbrev pub peer_of : Request → Bytes
  peer_of r = forms.parse_ip (host_or r.remote_addr (forms.split_host r.remote_addr))

  abbrev pub or_peer : Bytes → Option Bytes → Result IpError Bytes
  or_peer peer none = if is_empty peer then err undetermined else ok peer
  or_peer peer (some cand) = ok cand

  -- `clientIP`.
  unfoldable pub client_ip : List IpNet → Request → Bytes → Result IpError Bytes
  unfolding is_refused trim_space forwarded is_trusted
  client_ip nets r override =
      let peer = peer_of r in
      if not (is_empty override)
      then overridden (forms.parse_ip (trim_space override))
      else or_peer peer (
          if not (is_empty peer) && is_trusted nets peer
          then forwarded nets r.forwarded_for
          else none)

  abbrev pub stamped : Faults → Db → Db → Db
  stamped faults db db' = if faults.stamp_fails then db else db'

  abbrev pub update_of : Record → Bytes → DnsUpdate
  update_of r ip = record { fqdn = r.fqdn; zone = r.zone; ip = ip; ttl = r.ttl }

  -- `doUpdate`.
  unfoldable pub do_update : Faults → ℕ → Record → Bytes → World → Verdict × World
  unfolding str_eq mark_updated mark_seen
  do_update faults now r ip w =
      if str_eq r.last_ip (forms.ip_string ip)
      then (no_change ip, record w { db = stamped faults w.db (mark_seen now r.id w.db) })
      else let asked = record w { sent = w.sent ++ (update_of r ip ∷ []) } in
        if faults.update_fails then (dns_error, asked) else (
          good ip,
          record asked {
            db = stamped faults w.db (mark_updated now r.id (forms.ip_string ip) w.db);
          },
        )

  -- From the address on, both handlers are the same.
  abbrev pub with_ip : Faults → ℕ → Record → World → Result IpError Bytes → Verdict × World
  with_ip faults now r w (err e) = (bad_ip, w)
  with_ip faults now r w (ok ip) = do_update faults now r ip w

  module _ (hash_token : Bytes → Bytes) where
    -- `Store.Lookup`, which the database may fail.
    abbrev pub looked_up : Faults → Bytes → World → Option (Result StoreError Record)
    looked_up faults tok w = if faults.lookup_fails then none else some (lookup hash_token tok w.db)

    abbrev pub simple_found :
        List IpNet
        → Faults
        → ℕ
        → Request
        → Bytes
        → World
        → Option (Result StoreError Record)
        → Verdict × World
    simple_found nets faults now r override w none = (store_error, w)
    simple_found nets faults now r override w (some (err e)) = (bad_auth, w)
    simple_found nets faults now r override w (some (ok rec)) =
        with_ip faults now rec w (client_ip nets r override)

    abbrev pub simple_override : Request → Option Bytes → Bytes
    simple_override r seg =
        first_of (first_of (query_get "ip" r) (query_get "myip" r)) (or_empty seg)

    abbrev pub simple_path : Request → Bytes
    simple_path r = trim_slashes (trim_prefix r.path (bytes "/update/"))

    -- `handleSimple`, up to the writing of its answer.
    unfoldable pub handle_simple : List IpNet → Faults → ℕ → Request → World → Verdict × World
    unfolding trim_prefix trim_slashes cut_slash lookup client_ip do_update
    handle_simple nets faults now r w =
        let rest = simple_path r in
        let (tok, seg) = cut_slash rest in
        if is_empty rest
        then (missing_token, w)
        else simple_found nets faults now r (simple_override r seg) w (looked_up faults tok w)

    abbrev pub dyn_token : Request → Bytes
    dyn_token r = first_of (query_get "token" r) (or_empty r.basic_password)

    abbrev pub host_matches : Request → Record → Bool
    host_matches r rec =
        is_empty (query_get "hostname" r) || str_eq (fqdn_of (query_get "hostname" r)) rec.fqdn

    abbrev pub dyn_found :
        List IpNet
        → Faults
        → ℕ
        → Request
        → World
        → Option (Result StoreError Record)
        → Verdict × World
    dyn_found nets faults now r w (some (ok rec)) =
        if host_matches r rec
        then with_ip faults now rec w (client_ip nets r (query_get "myip" r))
        else (no_host, w)
    dyn_found nets faults now r w _ = (bad_auth, w)

    -- `handleDynDNS2`, up to the writing of its answer.
    unfoldable pub handle_dyn_dns2 : List IpNet → Faults → ℕ → Request → World → Verdict × World
    unfolding lookup client_ip do_update fqdn_of str_eq
    handle_dyn_dns2 nets faults now r w =
        if is_empty (dyn_token r)
        then (bad_auth, w)
        else dyn_found nets faults now r w (looked_up faults (dyn_token r) w)

  -- What each handler writes.
  abbrev line : Bytes → Bytes
  line s = s ++ (b'\n' ∷ [])

  unfoldable pub simple_response : Verdict → Response
  simple_response missing_token = record { status = 400; body = line (bytes "missing token") }
  simple_response bad_auth = record { status = 403; body = line (bytes "badauth") }
  simple_response store_error = record { status = 500; body = line (bytes "911") }
  simple_response no_host = record { status = 200; body = [] }
  simple_response bad_ip = record { status = 400; body = line (bytes "badip") }
  simple_response dns_error = record { status = 502; body = line (bytes "dnserr") }
  simple_response (good ip) = record {
    status = 200;
    body = line (bytes "good " ++ forms.ip_string ip);
  }
  simple_response (no_change ip) = record {
    status = 200;
    body = line (bytes "nochg " ++ forms.ip_string ip);
  }

  unfoldable pub dyn_response : Verdict → Response
  dyn_response no_host = record { status = 200; body = line (bytes "nohost") }
  dyn_response bad_ip = record { status = 200; body = line (bytes "badip") }
  dyn_response dns_error = record { status = 200; body = line (bytes "dnserr 911") }
  dyn_response (good ip) = record {
    status = 200;
    body = line (bytes "good " ++ forms.ip_string ip);
  }
  dyn_response (no_change ip) = record {
    status = 200;
    body = line (bytes "nochg " ++ forms.ip_string ip);
  }
  dyn_response _ = record { status = 200; body = line (bytes "badauth") }
