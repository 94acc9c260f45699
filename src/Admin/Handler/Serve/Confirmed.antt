-- ===== src/Admin/Handler/Serve/Confirmed.antt =====
-- What a request to the admin UI without a confirmation changes.
use goddns.Base.{
  false, not, ◌&&◌, ◌||◌, Option, none, some, ◌≡◌, ◌≢◌, refl, arith, inl, inr, is_empty, Bool-cases,
  ◌==◌,
}
use goddns.Base.Strings.{Bytes, bytes, str_eq, trim_space}
use goddns.Base.Result.{Result, ok, err}
use goddns.Config.{Libraries, Config, ProxyRule}
use goddns.Admin.Session.{Codec}
use goddns.Vhost.{Toml, VhostError, VhostReport}
use goddns.Admin.Handler.{
  Request, Response, World, Meets, is_allowed, check_basic, session, peer_of, is_confirmed, field,
}
use goddns.Admin.Handler.Actions.{
  is_genuine, is_zone, collides, previewed, set_rule, handle_rotate, handle_del, handle_proxy_set,
  handle_proxy_del, handle_record, handle_restore,
}
use goddns.Admin.Handler.Serve.{
  Route, to_add, to_del, to_rotate, to_help, to_record, to_restore, to_passwd, to_proxy_set,
  to_proxy_del, to_page, to_nothing, route, handle, with_session, at_path, serve_admin,
}
use goddns.Admin.Handler.Serve.Kept.{IsKept, kept, late, both, asked, handle_login-Kept}

module _ (lib : Libraries) (codec : Codec) (secret : Bytes) (toml : Toml)
    (hash_token : Bytes → Bytes) where
  previewed-Kept :
      (r : Request) (w : World) (done : Response × World) (x : Result VhostError VhostReport)
      → is_confirmed r ≡ false
      → IsKept w (previewed lib codec secret toml hash_token r done w x)
  previewed-Kept r w done (err x) e = kept w _
  previewed-Kept r w done (ok x) e = rw e (kept w _)

  set_rule-Kept :
      (c : Config) (m : Meets) (r : Request) (w : World) (o : Option ProxyRule)
      → is_confirmed r ≡ false
      → IsKept w (set_rule lib codec secret toml hash_token c m r w o)
  set_rule-Kept c m r w none e = kept w _
  set_rule-Kept c m r w (some rule) e =
      elim (Bool-cases (collides (lib.split_port c.proxy_listen) rule)) [
        | inl f ↦ rw f (kept w _)
        | inr f ↦ rw f (previewed-Kept r w _ _ e)
      ]

  handle-Kept :
      (c : Config) (user : Bytes) (m : Meets) (r : Request) (t : Route) (w : World)
      → is_confirmed r ≡ false
      → t ≢ to_add
      → IsKept w (handle lib codec secret toml hash_token c user m r t w)
  unfolding handle handle_rotate handle_del handle_proxy_set handle_proxy_del handle_record
      handle_restore
  handle-Kept c user m r to_add w e n = absurd (n refl)
  handle-Kept c user m r to_del w e n =
      late w (not (is_genuine lib codec secret toml hash_token c.admin user r)) _ _
        (asked w (is_confirmed r) _ _ e)
  handle-Kept c user m r to_rotate w e n =
      late w (not (is_genuine lib codec secret toml hash_token c.admin user r)) _ _
        (asked w (is_confirmed r) _ _ e)
  handle-Kept c user m r to_help w e n = kept w _
  handle-Kept c user m r to_record w e n =
      let action = field "action" r in
      let known = str_eq action (bytes "add") || str_eq action (bytes "del") in
      late w (not (is_genuine lib codec secret toml hash_token c.admin user r)) _ _ (
        late w
          (is_empty (trim_space (field "zone" r))
            || is_empty (trim_space (field "rr" r))
            || not known)
          _ _
          (both w (m.is_static (trim_space (field "zone" r))) _ _ (asked w (is_confirmed r) _ _ e) (
            late w (not (m.parses (trim_space (field "rr" r)))) _ _
              (asked w (is_confirmed r) _ _ e))))
  handle-Kept c user m r to_restore w e n =
      let zone = trim_space (field "zone" r) in
      let id = m.scan_id (trim_space (field "id" r)) in
      late w (not (is_genuine lib codec secret toml hash_token c.admin user r)) _ _ (
        late w (id == 0 || is_empty zone) _ _ (
          late w (not (is_zone lib codec secret toml hash_token zone (m.snapshot_zone id))) _ _
            (late w (not m.has_plan) _ _ (asked w (is_confirmed r) _ _ e))))
  handle-Kept c user m r to_passwd w e n = kept w _
  handle-Kept c user m r to_proxy_set w e n =
      late w (not (is_genuine lib codec secret toml hash_token c.admin user r)) _ _
        (set_rule-Kept c m r w _ e)
  handle-Kept c user m r to_proxy_del w e n =
      late w (not (is_genuine lib codec secret toml hash_token c.admin user r)) _ _
        (previewed-Kept r w _ _ e)
  handle-Kept c user m r (to_page p) w e n = kept w _
  handle-Kept c user m r to_nothing w e n = kept w _

  route-adds : (path : Bytes) → str_eq path (bytes "/ddns/add") ≡ false → route path ≢ to_add
  unfolding route
  route-adds path e = ground (arith, e)

  at_path-Kept :
      (c : Config) (m : Meets) (r : Request) (w : World)
      → is_confirmed r ≡ false
      → str_eq r.path (bytes "/ddns/add") ≡ false
      → IsKept w (at_path lib codec secret toml hash_token c m r w)
  at_path-Kept c m r w e n = elim (Bool-cases (str_eq r.path (bytes "/login"))) [
    | inl f ↦ rw f (handle_login-Kept lib codec secret c.admin m r w)
    | inr f ↦ rw f (
        late w (str_eq r.path (bytes "/logout")) _ _
          (by_session (session lib codec secret c.admin m.seconds r)))
  ]
    where
      by_session :
          (o : Option Bytes) → IsKept w (with_session lib codec secret toml hash_token c m r w o)
      by_session none = kept w _
      by_session (some user) = handle-Kept c user m r (route r.path) w e (route-adds r.path n)

  -- A request without confirm=1 changes nothing but the throttle, other than by adding a DDNS record.
  pub serve_admin-IsKept :
      (c : Config) (m : Meets) (r : Request) (w : World)
      → is_confirmed r ≡ false
      → str_eq r.path (bytes "/ddns/add") ≡ false
      → IsKept w (serve_admin lib codec secret toml hash_token c m r w)
  unfolding serve_admin
  serve_admin-IsKept c m r w e n =
      late w (not (is_allowed c.admin.allow_nets (peer_of lib codec secret r))) _ _ (
        late w
          (not (is_empty c.admin.basic_auth)
            && not (check_basic lib codec secret c.admin.basic_auth r.basic_auth))
          _ _ (at_path-Kept c m r w e n))
