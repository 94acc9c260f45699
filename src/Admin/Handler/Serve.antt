-- ===== src/Admin/Handler/Serve.antt =====
-- `ServeHTTP` of internal/admin/admin.go: the allowlist, the outer login, the session, the dispatch.
pub mod Kept
pub mod Guarded
pub mod Confirmed
pub mod Login
use Prim.Native.String.{String}
use goddns.Base.{
  ℕ, Bool, true, false, not, ◌&&◌, ◌||◌, List, [], ◌∷◌, Option, none, some, if◌then◌else◌, is_empty,
  any, leb, length, ◌==◌,
}
use goddns.Base.Strings.{Bytes, bytes, str_eq, trim_space}
use goddns.Base.Result.{Result, ok, err}
use goddns.Config.{Libraries, AdminConfig, Config}
use goddns.Store.{StoreError, Record, get}
use goddns.Admin.Session.{Codec}
use goddns.Vhost.{Toml}
use goddns.Admin.Handler.{
  Request, Response, forbidden, unauthorized, bad_request, not_found, redirect, page, error_page,
  logged_out, help_page, World, Meets, is_allowed, check_basic, session, csrf_ok, peer_of, field,
  is_post, handle_login,
}
use goddns.Admin.Handler.Actions.{
  handle_add, handle_rotate, handle_del, handle_proxy_set, handle_proxy_del, handle_record,
  handle_restore,
}

-- What a path of the UI leads to; `to_page` is a page that only shows something.
pub data Route : Type 0 where
  to_add to_del to_rotate to_help to_record to_restore to_passwd to_proxy_set to_proxy_del : Route
  to_page : Bytes → Route
  to_nothing : Route

-- The pages of the second switch of `ServeHTTP` that only show something.
abbrev pages : List Bytes
pages =
    bytes "/"
    ∷ bytes "/logs"
    ∷ bytes "/traffic"
    ∷ bytes "/zones"
    ∷ bytes "/zone"
    ∷ bytes "/proxy/edit"
    ∷ []

-- The second switch of `ServeHTTP`.
unfoldable pub route : Bytes → Route
route path =
    if str_eq path (bytes "/ddns/add")
    then to_add
    else if str_eq path (bytes "/ddns/del")
    then to_del
    else if str_eq path (bytes "/ddns/rotate")
    then to_rotate
    else if str_eq path (bytes "/ddns/help")
    then to_help
    else if str_eq path (bytes "/zone/record")
    then to_record
    else if str_eq path (bytes "/zone/restore")
    then to_restore
    else if str_eq path (bytes "/passwd")
    then to_passwd
    else if str_eq path (bytes "/proxy/set")
    then to_proxy_set
    else if str_eq path (bytes "/proxy/del")
    then to_proxy_del
    else if any (λ p. str_eq path p) pages
    then to_page path
    else to_nothing

module _ (lib : Libraries) (codec : Codec) (secret : Bytes) (toml : Toml)
    (hash_token : Bytes → Bytes) where
  abbrev helped : Result StoreError Record → Response
  helped (err e) = not_found
  helped (ok rec) = help_page rec.fqdn (bytes "<token>")

  -- `handlePasswd`: a hash to copy, which it shows and does not store.
  unfoldable handle_passwd : AdminConfig → Bytes → Meets → Request → Response
  handle_passwd ad user m r =
      let u = trim_space (field "u" r) in
      let pw = field "pw" r in
      if not (is_post r)
      then page (bytes "passwd")
      else if not (csrf_ok lib codec secret ad user r)
      then bad_request
      else if is_empty u || is_empty pw || any (λ c. c == b':') u || not (leb 8 (length pw))
      then error_page
      else page m.fresh_hash

  -- What a route's handler does, for a user with a session.
  unfoldable pub handle : Config → Bytes → Meets → Request → Route → World → Response × World
  unfolding handle_passwd
  handle c user m r to_add w = handle_add lib codec secret toml hash_token c.admin user m r w
  handle c user m r to_del w = handle_del lib codec secret toml hash_token c.admin user m r w
  handle c user m r to_rotate w = handle_rotate lib codec secret toml hash_token c.admin user m r w
  handle c user m r to_help w = (helped (get (trim_space (field "fqdn" r)) w.db), w)
  handle c user m r to_record w = handle_record lib codec secret toml hash_token c.admin user m r w
  handle c user m r to_restore w =
      handle_restore lib codec secret toml hash_token c.admin user m r w
  handle c user m r to_passwd w = (handle_passwd c.admin user m r, w)
  handle c user m r to_proxy_set w = handle_proxy_set lib codec secret toml hash_token c user m r w
  handle c user m r to_proxy_del w =
      handle_proxy_del lib codec secret toml hash_token c.admin user m r w
  handle c user m r (to_page p) w = (page p, w)
  handle c user m r to_nothing w = (not_found, w)

  abbrev pub with_session : Config → Meets → Request → World → Option Bytes → Response × World
  with_session c m r w none = (redirect (bytes "/login"), w)
  with_session c m r w (some user) = handle c user m r (route r.path) w

  -- The first switch of `ServeHTTP`, and what follows it.
  abbrev pub at_path : Config → Meets → Request → World → Response × World
  at_path c m r w =
      if str_eq r.path (bytes "/login")
      then handle_login lib codec secret c.admin m r w
      else if str_eq r.path (bytes "/logout")
      then (logged_out, w)
      else with_session c m r w (session lib codec secret c.admin m.seconds r)

  -- `ServeHTTP`.
  unfoldable pub serve_admin : Config → Meets → Request → World → Response × World
  unfolding is_allowed handle_login session route handle
  serve_admin c m r w =
      if not (is_allowed c.admin.allow_nets (peer_of lib codec secret r))
      then (forbidden, w)
      else if not (is_empty c.admin.basic_auth)
          && not (check_basic lib codec secret c.admin.basic_auth r.basic_auth)
      then (unauthorized, w)
      else at_path c m r w
