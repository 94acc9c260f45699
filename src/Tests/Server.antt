-- ===== src/Tests/Server.antt =====
-- Runs of internal/server/server.go.
use Prim.Native.String.{String}
use goddns.Base.{false, List, [], ◌∷◌, none, some, ◌≡◌, refl, if◌then◌else◌}
use goddns.Base.Strings.{
  Bytes, bytes, str_eq, trim_prefix, trim_space, trim_left, split, has_prefix,
}
use goddns.Base.Dict
use goddns.Base.Dict.{text_at}
use goddns.Base.Result.{ok}
use goddns.Net.{
  IpNet, TextForms, to4, contains_ip, is_loopback, is_unspecified, is_multicast,
  is_link_local_unicast, is_link_local_multicast,
}
use goddns.Store
use goddns.Store.{Record, Db, fqdn_of, update_where, mark_updated, mark_seen}
use goddns.Server.{
  is_trusted, Request, World, Faults, good, bad_auth, is_refused, cut_slash, trim_slashes,
  first_untrusted, forwarded, peer_of, client_ip, do_update, handle_simple, simple_path,
  drop_slashes,
}
use goddns.Server.Writes.{Written, handle_simple-Written}

-- Addresses of one digit per octet: `a` is 192.0.2.1, `b` is 192.0.2.2, `l` is 127.0.0.1 and `p`
-- is 10.0.0.9, the trusted proxy.
abbrev parse : Bytes → Bytes
parse s =
    if str_eq s (bytes "a")
    then 192 ∷ 0 ∷ 2 ∷ 1 ∷ []
    else if str_eq s (bytes "b")
    then 192 ∷ 0 ∷ 2 ∷ 2 ∷ []
    else if str_eq s (bytes "l")
    then 127 ∷ 0 ∷ 0 ∷ 1 ∷ []
    else if str_eq s (bytes "p")
    then 10 ∷ 0 ∷ 0 ∷ 9 ∷ []
    else []

abbrev forms : TextForms
forms = record { parse_ip = parse; ip_string = λ ip. ip; split_host = λ s. some s }

abbrev proxies : List IpNet
proxies = record { number = 10 ∷ 0 ∷ 0 ∷ 0 ∷ []; mask = 255 ∷ 0 ∷ 0 ∷ 0 ∷ [] } ∷ []

abbrev hash : Bytes → Bytes
hash t = b'#' ∷ t

abbrev home : Record
home = record {
  id = 1;
  fqdn = bytes "h.z.";
  zone = bytes "z.";
  ttl = 60;
  token_hash = hash (bytes "t");
  last_ip = [];
  last_update = 0;
  last_seen = 0;
  disabled = false;
}

abbrev stamped_home : Record
stamped_home = record home { last_ip = 192 ∷ 0 ∷ 2 ∷ 1 ∷ []; last_update = 9; last_seen = 9 }

abbrev before : World
before = record { db = record { rows = home ∷ []; next_id = 2 }; sent = [] }

abbrev after : World
after = record {
  db = record { rows = stamped_home ∷ []; next_id = 2 };
  sent =
      record { fqdn = bytes "h.z."; zone = bytes "z."; ip = 192 ∷ 0 ∷ 2 ∷ 1 ∷ []; ttl = 60 } ∷ [];
}

abbrev all_well : Faults
all_well = record { lookup_fails = false; update_fails = false; stamp_fails = false }

abbrev from_peer : String → String → Request
from_peer path peer = record {
  path = bytes path;
  query = [];
  basic_password = none;
  remote_addr = bytes peer;
  forwarded_for = bytes "b, a, p, x";
}

-- Through the proxy the client is the last hop that can be read and is not the proxy.
through_proxy : client_ip forms proxies (from_peer "/update/t" "p") [] ≡ ok (192 ∷ 0 ∷ 2 ∷ 1 ∷ [])
unfolding client_ip forwarded first_untrusted is_trusted contains_ip to4 trim_space trim_left split
    str_eq
through_proxy = refl

direct : client_ip forms proxies (from_peer "/update/t" "b") [] ≡ ok (192 ∷ 0 ∷ 2 ∷ 2 ∷ [])
unfolding client_ip forwarded first_untrusted is_trusted contains_ip to4 trim_space trim_left split
    str_eq
direct = refl

overridden :
    client_ip forms proxies (from_peer "/update/t" "b") (bytes " a") ≡ ok (192 ∷ 0 ∷ 2 ∷ 1 ∷ [])
unfolding client_ip is_refused is_loopback is_unspecified is_multicast is_link_local_unicast
    is_link_local_multicast to4 trim_space trim_left str_eq
overridden = refl

run_simple :
    handle_simple forms hash proxies all_well 9 (from_peer "/update/t" "p") before
    ≡ (good (192 ∷ 0 ∷ 2 ∷ 1 ∷ []), after)
unfolding handle_simple trim_prefix has_prefix trim_slashes drop_slashes cut_slash Store.lookup
    client_ip do_update mark_updated update_where forwarded first_untrusted is_trusted contains_ip
    to4 trim_space trim_left split str_eq text_at Dict.lookup
run_simple = refl

run_bad_token :
    (handle_simple forms hash proxies all_well 9 (from_peer "/update/u/a" "p") before).0 ≡ bad_auth
unfolding handle_simple trim_prefix has_prefix trim_slashes drop_slashes cut_slash Store.lookup
    str_eq text_at Dict.lookup
run_bad_token = refl

b_untrusted : is_trusted proxies (peer_of forms (from_peer "/update/t" "b")) ≡ false
unfolding is_trusted contains_ip to4 str_eq
b_untrusted = refl

handle_simple-Written_example :
    Written forms hash all_well
      (cut_slash (simple_path forms hash (from_peer "/update/t" "p"))).0
      before
      (handle_simple forms hash proxies all_well 9 (from_peer "/update/t" "p") before)
handle_simple-Written_example =
    handle_simple-Written forms hash proxies all_well 9 (from_peer "/update/t" "p") before

abbrev router : Request
router = record (from_peer "/nic/update" "b") { basic_password = some (bytes "t") }
