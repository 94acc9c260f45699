-- ===== src/Tests/Handler.antt =====
-- Runs of the admin UI's handler of internal/admin/admin.go.
use Prim.Native.String.{String}
use goddns.Base.{true, false, [], ◌∷◌, none, some, ◌≡◌, refl}
use goddns.Base.Strings.{
  Bytes, bytes, str_eq, trim_space, trim_left, trim_suffix, to_lower, has_suffix, has_prefix, cut,
  split,
}
use goddns.Base.Decimal.{show_nat, parse_int64}
use goddns.Base.Sort.{sort_by, insert_sorted}
use goddns.Base.Dict
use goddns.Base.Dict.{Dict, text_at, insert, remove}
use goddns.Config.Load.{norm_host}
use goddns.Proxy.Validate.{valid_host}
use goddns.Vhost.{preview_remove, remove_host, ownership, owned_in, fragment_files, defines}
use goddns.Config.{AdminConfig, Config}
use goddns.Admin.Session.{
  new_session, session_message, parse_session, csrf_token, csrf_valid, mac_b64, nul_ended,
}
use goddns.Admin.Handler.{
  Request, Response, redirect, World, Meets, is_allowed, session, csrf_ok, admin_cred, handle_login,
}
use goddns.Admin.Handler.Actions.{handle_proxy_del}
use goddns.Admin.Handler.Serve.{route, handle, serve_admin}
use goddns.Admin.Handler.Serve.Kept.{IsKept}
use goddns.Admin.Handler.Serve.Guarded.{IsGuarded, serve_admin-IsGuarded}
use goddns.Admin.Handler.Serve.Confirmed.{serve_admin-IsKept}
use goddns.Tests.Config.{lib, accepted}
use goddns.Tests.Session.{codec, shift, unshift}
use goddns.Tests.Vhost.{toml, tree}

abbrev ad : AdminConfig
ad = record {
  enabled = true;
  host = bytes "a";
  allow = [];
  basic_auth = [];
  users = bytes "u:h" ∷ [];
  session_ttl = 1;
  allow_nets = [];
}

abbrev config : Config
config = record accepted { admin = ad }

abbrev world : World
world = record {
  db = record { rows = []; next_id = 1 };
  throttle = [];
  tree = tree;
  calls = [];
  reloads = 0;
}

abbrev meets : Meets
meets = record {
  now = 5;
  seconds = 100;
  fresh_token = bytes "t";
  fresh_hash = bytes "h";
  writes = true;
  is_static = λ zone. false;
  parses = λ s. true;
  previews = true;
  applies = true;
  scan_id = λ s. 1;
  snapshot_zone = λ id. none;
  has_plan = true;
}

abbrev asks : String → Dict Bytes → Request
asks path form = record {
  method = bytes "POST";
  path = bytes path;
  remote_addr = bytes "p";
  basic_auth = none;
  cookie = none;
  form = form;
}

abbrev login : Request
login = asks "/login" ((bytes "user", bytes "u") ∷ (bytes "pass", bytes "h") ∷ [])

abbrev sign : Bytes → Bytes
sign s = s

abbrev cookie : Bytes
cookie = new_session codec 100 (bytes "s") (bytes "h") (bytes "u") 3600

-- A deletion by the user u, with the session of that login.
abbrev deletes : Request
deletes =
    record (asks "/proxy/del" (
      (bytes "host", bytes "h")
      ∷ (bytes "confirm", bytes "1")
      ∷ (bytes "csrf", csrf_token codec (bytes "s") (bytes "h") (bytes "u"))
      ∷ [])) { cookie = some cookie }

abbrev run : Request → Response × World
run r = serve_admin lib codec (bytes "s") toml sign config meets r world

deletes_vhost :
    ((run deletes).0 ≡ redirect (bytes "/"))
    × ((run deletes).1.tree.fragments ≡ [])
    × ((run deletes).1.reloads ≡ 1)
unfolding serve_admin handle_login session csrf_ok is_allowed admin_cred route handle
    handle_proxy_del text_at Dict.lookup trim_space trim_left trim_suffix to_lower has_suffix
    has_prefix str_eq cut new_session session_message parse_session csrf_token csrf_valid mac_b64
    nul_ended shift unshift show_nat parse_int64 preview_remove remove_host ownership owned_in
    fragment_files defines valid_host norm_host sort_by insert_sorted split remove
deletes_vhost = (refl, refl, refl)

serve_admin-IsGuarded_example :
    IsGuarded lib codec (bytes "s") toml sign config meets deletes world (run deletes)
serve_admin-IsGuarded_example =
    serve_admin-IsGuarded lib codec (bytes "s") toml sign config meets deletes world

-- The same request, not confirmed.
abbrev asked : Request
asked =
    record (asks "/proxy/del" (
      (bytes "host", bytes "h")
      ∷ (bytes "csrf", csrf_token codec (bytes "s") (bytes "h") (bytes "u"))
      ∷ [])) { cookie = some cookie }

serve_admin-IsKept_example : IsKept world (run asked)
unfolding text_at Dict.lookup str_eq
serve_admin-IsKept_example =
    serve_admin-IsKept lib codec (bytes "s") toml sign config meets asked world refl refl
