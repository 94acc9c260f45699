-- ===== src/Admin/Handler/Serve/Guarded.antt =====
-- What a request to the admin UI needs before it changes anything.
use goddns.Base.{
  true, false, not, ◌&&◌, Option, none, some, ◌≡◌, refl, arith, ◌⊎◌, inl, inr, is_empty, Bool-cases,
}
use goddns.Base.Strings.{Bytes, bytes, str_eq}
use goddns.Config.{Libraries, AdminConfig, Config}
use goddns.Admin.Session.{Codec}
use goddns.Vhost.{Toml}
use goddns.Admin.Handler.{
  Request, Response, World, Meets, is_allowed, check_basic, session, csrf_ok, peer_of, is_post,
}
use goddns.Admin.Handler.Actions.{
  is_genuine, handle_add, handle_rotate, handle_del, handle_proxy_set, handle_proxy_del,
  handle_record, handle_restore,
}
use goddns.Admin.Handler.Serve.{
  Route, to_add, to_del, to_rotate, to_help, to_record, to_restore, to_passwd, to_proxy_set,
  to_proxy_del, to_page, to_nothing, route, handle, with_session, at_path, serve_admin,
}
use goddns.Admin.Handler.Serve.Kept.{IsKept, kept, tested, handle_login-Kept}

module _ (lib : Libraries) (codec : Codec) (secret : Bytes) (toml : Toml)
    (hash_token : Bytes → Bytes) where
  -- A request that may change something: its client's address is on the list, if there is one, it has the
  -- outer login, if there is one, a session, and it is a POST with the session's CSRF token.
  pub record IsAuthorized (ad : AdminConfig) (m : Meets) (r : Request) (user : Bytes) : Type 0 where
    pub allowed : is_allowed ad.allow_nets (peer_of lib codec secret r) ≡ true
    pub outer :
        is_empty ad.basic_auth ≡ false
        → check_basic lib codec secret ad.basic_auth r.basic_auth ≡ true
    pub in_session : session lib codec secret ad m.seconds r ≡ some user
    pub posted : is_post r ≡ true
    pub untampered : csrf_ok lib codec secret ad user r ≡ true

  handle-Genuine :
      (c : Config) (user : Bytes) (m : Meets) (r : Request) (t : Route) (w : World)
      → IsKept w (handle lib codec secret toml hash_token c user m r t w)
        ⊎ (is_genuine lib codec secret toml hash_token c.admin user r ≡ true)
  unfolding handle handle_add handle_rotate handle_del handle_proxy_set handle_proxy_del
      handle_record handle_restore
  handle-Genuine c user m r to_add w = tested w _ _ _
  handle-Genuine c user m r to_del w = tested w _ _ _
  handle-Genuine c user m r to_rotate w = tested w _ _ _
  handle-Genuine c user m r to_help w = inl (kept w _)
  handle-Genuine c user m r to_record w = tested w _ _ _
  handle-Genuine c user m r to_restore w = tested w _ _ _
  handle-Genuine c user m r to_passwd w = inl (kept w _)
  handle-Genuine c user m r to_proxy_set w = tested w _ _ _
  handle-Genuine c user m r to_proxy_del w = tested w _ _ _
  handle-Genuine c user m r (to_page p) w = inl (kept w _)
  handle-Genuine c user m r to_nothing w = inl (kept w _)

  -- The two ways that an answer is right: the data is kept, or the request had what it needs.
  pub IsGuarded : Config → Meets → Request → World → Response × World → Type 0
  IsGuarded c m r w x = IsKept w x ⊎ ((user : Bytes) × IsAuthorized c.admin m r user)

  at_path-Guarded :
      (c : Config) (m : Meets) (r : Request) (w : World)
      → is_allowed c.admin.allow_nets (peer_of lib codec secret r) ≡ true
      → (is_empty c.admin.basic_auth ≡ false
          → check_basic lib codec secret c.admin.basic_auth r.basic_auth ≡ true)
      → IsGuarded c m r w (at_path lib codec secret toml hash_token c m r w)
  unfolding IsGuarded
  at_path-Guarded c m r w a b = elim (Bool-cases (str_eq r.path (bytes "/login"))) [
    | inl e ↦ inl (rw e (handle_login-Kept lib codec secret c.admin m r w))
    | inr e ↦ rw e (elim (Bool-cases (str_eq r.path (bytes "/logout"))) [
      | inl f ↦ rw f (inl (kept w _))
      | inr f ↦ rw f (by_session _ refl)
    ])
  ]
    where
      by_session :
          (o : Option Bytes)
          → session lib codec secret c.admin m.seconds r ≡ o
          → IsGuarded c m r w (with_session lib codec secret toml hash_token c m r w o)
      by_session none e = inl (kept w _)
      by_session (some user) e = elim (handle-Genuine c user m r (route r.path) w) [
        | inl k ↦ inl k
        | inr g ↦ inr (
          user,
          record {
            allowed = a;
            outer = b;
            in_session = e;
            posted = ground (arith, g);
            untampered = ground (arith, g);
          },
        )
      ]

  -- Nothing but the throttle changes, unless the client's address is on the allowlist, the outer login and
  -- the session are good, and the request is a POST with the session's CSRF token.
  pub serve_admin-IsGuarded :
      (c : Config) (m : Meets) (r : Request) (w : World)
      → IsGuarded c m r w (serve_admin lib codec secret toml hash_token c m r w)
  unfolding serve_admin IsGuarded
  serve_admin-IsGuarded c m r w =
      let a = is_allowed c.admin.allow_nets (peer_of lib codec secret r) in
      let b = is_empty c.admin.basic_auth in
      let d = check_basic lib codec secret c.admin.basic_auth r.basic_auth in
      elim (Bool-cases a) [
        | inr e ↦ rw e (inl (kept w _))
        | inl e ↦ rw e (elim (Bool-cases (not b && not d)) [
          | inl f ↦ rw f (inl (kept w _))
          | inr f ↦ rw f (at_path-Guarded c m r w e (λ full. ground (arith, f, full)))
        ])
      ]
