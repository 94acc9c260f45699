-- ===== src/Admin/Handler/Serve/Login.antt =====
-- What a login through `ServeHTTP` of internal/admin/admin.go gives, up to the later requests.
use goddns.Base.{
  ℕ, ◌+◌, ◌*◌, Bool, true, false, not, ◌&&◌, [], ◌∷◌, none, some, ltb, ◌==◌, ◌≡◌, arith,
  if◌then◌else◌, is_empty,
}
use goddns.Base.Strings.{Bytes, bytes, str_eq, trim_space}
use goddns.Config.{Libraries, AdminConfig, Config}
use goddns.Admin.Throttle.{blocked_until, fail, succeed}
use goddns.Admin.Session.{Codec, new_session}
use goddns.Admin.Session.Tokens.{IsBase64, holds}
use goddns.Vhost.{Toml}
use goddns.Admin.Handler.{
  Request, Response, throttled, login_failed, logged_in, World, Meets, is_allowed, admin_cred,
  or_empty, verify_cred, check_basic, session, peer_of, ip_key, retry_after, field, handle_login,
}
use goddns.Admin.Handler.Serve.{serve_admin}

module _ (lib : Libraries) (codec : Codec) (secret : Bytes) (toml : Toml)
    (hash_token : Bytes → Bytes) where
  -- The user that the form of a login names.
  abbrev pub login_user : Request → Bytes
  login_user r = trim_space (field "user" r)

  -- A login that reaches the form's handler.
  pub record IsLogin (ad : AdminConfig) (r : Request) : Type 0 where
    pub at_login : str_eq r.path (bytes "/login") ≡ true
    pub not_get : str_eq r.method (bytes "GET") ≡ false
    pub allowed : is_allowed ad.allow_nets (peer_of lib codec secret r) ≡ true
    pub outer :
        (not (is_empty ad.basic_auth)
          && not (check_basic lib codec secret ad.basic_auth r.basic_auth))
        ≡ false

  -- An address that is locked out is told so, whatever it sends, and is not counted again; a wrong
  -- password or an unknown user is counted against the address; the right password clears it.
  pub serve_admin_login :
      (c : Config) (m : Meets) (r : Request) (w : World)
      → IsLogin c.admin r
      → let key = ip_key lib codec secret r in
        let until = blocked_until m.now (key ∷ []) w.throttle in
        let user = login_user r in
        let ttl = c.admin.session_ttl * 3600 in
        serve_admin lib codec secret toml hash_token c m r w ≡ (
          if not (until == 0)
          then (throttled (retry_after lib codec secret m.now until), w)
          else if verify_cred lib codec secret c.admin.users user (field "pass" r)
          then (
            logged_in
                (new_session codec m.seconds secret
                  (or_empty (admin_cred c.admin.users user))
                  user
                  ttl)
                ttl,
            record w { throttle = succeed (key ∷ []) w.throttle },
          )
          else (login_failed, record w { throttle = fail m.now (key ∷ []) w.throttle }))
  unfolding serve_admin handle_login
  serve_admin_login c m r w l = rw (l.allowed, l.outer, l.at_login, l.not_get) (ground arith)

  -- What a login that sets the cookie `tok` means: the address was not locked out, the password is that of
  -- the user's hash, and at a later request the cookie is that user's session until it ends, as long as
  -- the configuration of that time has the same hash for the user.
  pub record IsOpened (b64 : IsBase64 codec) (ad : AdminConfig) (m : Meets) (r : Request)
      (w : World) (tok : Bytes) : Type 0 where
    pub unlocked : blocked_until m.now (ip_key lib codec secret r ∷ []) w.throttle ≡ 0
    pub verified : verify_cred lib codec secret ad.users (login_user r) (field "pass" r) ≡ true
    pub opens :
        (ad2 : AdminConfig) (now : ℕ) (r2 : Request)
        → r2.cookie ≡ some tok
        → session lib codec secret ad2 now r2 ≡ (
            if not (ltb (m.seconds + ad.session_ttl * 3600) now)
              && holds codec b64
                  (admin_cred ad2.users (login_user r))
                  (or_empty (admin_cred ad.users (login_user r)))
            then some (login_user r)
            else none)

  token_of : Bytes → Response → Bytes
  token_of d (logged_in tok ttl) = tok
  token_of d _ = d

  is_logged_in : Response → Bool
  is_logged_in (logged_in tok ttl) = true
  is_logged_in _ = false
