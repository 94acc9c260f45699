-- ===== src/Admin/Handler.antt =====
-- The admin UI's handler, internal/admin/admin.go: the layers of `ServeHTTP`, the login, and the handlers
-- that change state, in the child Actions. A page that only shows something is known by its name.

pub mod Actions
pub mod Serve
use Prim.Native.String.{String}
use goddns.Base.{
  ℕ, ◌+◌, ◌-◌, ◌*◌, ◌/◌, Bool, true, false, not, ◌&&◌, ◌||◌, List, [], ◌∷◌, ◌++◌, Option, none,
  some, ltb, leb, ◌==◌, if◌then◌else◌, is_empty, any, find?, length,
}
use goddns.Base.Strings.{Bytes, bytes, str_eq, trim_space, cut}
use goddns.Base.Dict.{Dict, text_at}
use goddns.Net.{IpNet, contains_ip}
use goddns.Config.{Libraries, AdminConfig, Config}
use goddns.Store.{Db}
use goddns.Admin.Throttle.{Throttle, blocked_until, fail, succeed}
use goddns.Admin.Session.{Codec, parse_session, new_session, csrf_valid}
use goddns.Vhost.{Tree}

-- What the handler reads of a request. The form has a key's first value.
pub record Request : Type 0 where
  pub method : Bytes
  pub path : Bytes
  pub remote_addr : Bytes
  pub basic_auth : Option (Bytes × Bytes)
  pub cookie : Option Bytes
  pub form : Dict Bytes

pub data Response : Type 0 where
  forbidden unauthorized bad_request not_found : Response
  -- A redirect to a path, without its query.
  redirect : Bytes → Response
  page : Bytes → Response
  error_page : Response
  throttled : ℕ → Response
  login_failed : Response
  -- A redirect that sets the session's cookie, with its lifetime in seconds.
  logged_in : Bytes → ℕ → Response
  logged_out : Response
  -- The setup page of a record, with its token.
  help_page : Bytes → Bytes → Response

-- A call of an editor that applies a change: one record of a static zone, in its file or through the
-- helper, one record of another zone, or the restoring of a snapshot.
pub data EditCall : Type 0 where
  apply_static : Bytes → Bytes → Bytes → EditCall
  apply_record : Bytes → Bytes → Bytes → EditCall
  apply_restore : Bytes → ℕ → EditCall

-- What the handler changes: the token store, the throttle, the fragments, the calls of the editors, and
-- how often a reload was asked for.
pub record World : Type 0 where
  pub db : Db
  pub throttle : Throttle
  pub tree : Tree
  pub calls : List EditCall
  pub reloads : ℕ

-- What a request meets: the time in nanoseconds and in seconds, the token and the hash that are drawn, and
-- the answers of the file system and of the record editors; `is_static` says of which zones the file is
-- edited in place.
pub record Meets : Type 0 where
  pub now : ℕ
  pub seconds : ℕ
  pub fresh_token : Bytes
  pub fresh_hash : Bytes
  pub writes : Bool
  pub is_static : Bytes → Bool
  pub parses : Bytes → Bool
  pub previews : Bool
  pub applies : Bool
  pub scan_id : Bytes → ℕ
  pub snapshot_zone : ℕ → Option Bytes
  pub has_plan : Bool

-- `AdminConfig.IsAllowed`.
unfoldable pub is_allowed : List IpNet → Bytes → Bool
unfolding contains_ip
is_allowed nets ip = is_empty nets || not (is_empty ip) && any (λ n. contains_ip n ip) nets

abbrev names_user : Bytes → Option (Bytes × Bytes) → Bool
names_user user none = false
names_user user (some (u, hash)) = str_eq u user

abbrev hash_of : Option (Bytes × Bytes) → Bytes
hash_of none = []
hash_of (some (u, hash)) = hash

-- `adminCred`: the hash of the first entry that names the user.
unfoldable pub admin_cred : List Bytes → Bytes → Option Bytes
unfolding cut str_eq
admin_cred [] user = none
admin_cred (c ∷ creds) user =
    let rest = admin_cred creds user in
    if names_user user (cut b':' c) then some (hash_of (cut b':' c)) else rest

abbrev pub or_empty : Option Bytes → Bytes
or_empty none = []
or_empty (some s) = s

abbrev pub field : String → Request → Bytes
field name r = text_at (bytes name) r.form

abbrev pub is_post : Request → Bool
is_post r = str_eq r.method (bytes "POST")

abbrev pub is_confirmed : Request → Bool
is_confirmed r = str_eq (field "confirm" r) (bytes "1")

module _ (lib : Libraries) (codec : Codec) (secret : Bytes) where
  abbrev compares : Bytes → Option Bytes → Bool
  compares pass none = false
  compares pass (some hash) = lib.bcrypt_matches hash pass

  -- `verifyCred`; the comparison against a dummy for an unknown user is one of time only.
  unfoldable pub verify_cred : List Bytes → Bytes → Bytes → Bool
  unfolding admin_cred
  verify_cred creds user pass = compares pass (admin_cred creds user)

  -- `checkBasic`.
  abbrev pub check_basic : List Bytes → Option (Bytes × Bytes) → Bool
  check_basic creds none = false
  check_basic creds (some (user, pass)) = verify_cred creds user pass

  abbrev pub session_in : AdminConfig → ℕ → Option Bytes → Option Bytes
  session_in ad now none = none
  session_in ad now (some tok) = parse_session codec (admin_cred ad.users) now secret tok

  -- `session`: the user of the request's cookie.
  unfoldable pub session : AdminConfig → ℕ → Request → Option Bytes
  session ad now r = session_in ad now r.cookie

  -- `csrfOK`, at the request's form.
  unfoldable pub csrf_ok : AdminConfig → Bytes → Request → Bool
  csrf_ok ad user r =
      csrf_valid codec secret (or_empty (admin_cred ad.users user)) user (field "csrf" r)

  abbrev host_or : Bytes → Option Bytes → Bytes
  host_or addr none = addr
  host_or addr (some host) = host

  -- `clientIP`.
  abbrev pub peer_of : Request → Bytes
  peer_of r = lib.forms.parse_ip (host_or r.remote_addr (lib.forms.split_host r.remote_addr))

  abbrev pub ip_key : Request → Bytes
  ip_key r =
      bytes "ip:" ++ (if is_empty (peer_of r) then bytes "?" else lib.forms.ip_string (peer_of r))

  abbrev pub login_page : Option Bytes → Response
  login_page none = page (bytes "login")
  login_page (some user) = redirect (bytes "/")

  abbrev pub retry_after : ℕ → ℕ → ℕ
  retry_after now until = (until - now) / 1_000_000_000 + 1

  -- `handleLogin`.
  unfoldable pub handle_login : AdminConfig → Meets → Request → World → Response × World
  unfolding session
  handle_login ad m r w =
      let user = trim_space (field "user" r) in
      let key = ip_key r in
      let until = blocked_until m.now (key ∷ []) w.throttle in
      let cred = or_empty (admin_cred ad.users user) in
      let ttl = ad.session_ttl * 3600 in
      if str_eq r.method (bytes "GET")
      then (login_page (session ad m.seconds r), w)
      else if not (until == 0)
      then (throttled (retry_after m.now until), w)
      else if not (verify_cred ad.users user (field "pass" r))
      then (login_failed, record w { throttle = fail m.now (key ∷ []) w.throttle })
      else (
        logged_in (new_session codec m.seconds secret cred user ttl) ttl,
        record w { throttle = succeed (key ∷ []) w.throttle },
      )
