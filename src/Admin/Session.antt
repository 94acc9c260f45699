-- ===== src/Admin/Session.antt =====
-- The tokens of internal/admin/session.go. HMAC-SHA256 and base64url are parameters. Times are Unix
-- seconds.
pub mod Tokens
use Prim.Native.String.{String}
use goddns.Base.{
  ℕ, ◌+◌, Bool, true, false, List, [], ◌∷◌, ◌++◌, Option, none, some, ltb, if◌then◌else◌,
}
use goddns.Base.Strings.{Bytes, bytes, str_eq, cut}
use goddns.Base.Decimal.{show_nat, parse_int64}

pub record Codec : Type 0 where
  pub hmac : Bytes → Bytes → Bytes
  pub encode : Bytes → Bytes
  pub decode : Bytes → Option Bytes

-- Each part, and a NUL behind it.
unfoldable pub nul_ended : List Bytes → Bytes
nul_ended [] = []
nul_ended (p ∷ parts) = p ++ (0 ∷ nul_ended parts)

module _ (codec : Codec) where
  -- `macB64`.
  unfoldable pub mac_b64 : Bytes → List Bytes → Bytes
  unfolding nul_ended
  mac_b64 secret parts = codec.encode (codec.hmac secret (nul_ended parts))

  -- The signed part of a session: the user and the time at which it ends.
  unfoldable pub session_message : Bytes → ℕ → Bytes
  session_message user exp = codec.encode user ++ (b'|' ∷ show_nat exp)

  -- `newSession`, with a lifetime in seconds.
  unfoldable pub new_session : ℕ → Bytes → Bytes → Bytes → ℕ → Bytes
  unfolding session_message
  new_session now secret cred user ttl =
      let msg = session_message user (now + ttl) in msg ++ (b'.' ∷ mac_b64 secret (msg ∷ cred ∷ []))

  abbrev pub if_signed : Bytes → Bytes → Bytes → Bytes → Option Bytes → Option Bytes
  if_signed secret msg sig user none = none
  if_signed secret msg sig user (some cred) =
      if str_eq (mac_b64 secret (msg ∷ cred ∷ [])) sig then some user else none

  abbrev pub if_alive : ℕ → Option ℕ → Option Bytes → Option Bytes
  if_alive now none found = none
  if_alive now (some exp) found = if ltb exp now then none else found

  abbrev pub if_decoded :
      (Bytes → Option Bytes) → ℕ → Bytes → Bytes → Bytes → Bytes → Option Bytes → Option Bytes
  if_decoded look now secret msg sig exp none = none
  if_decoded look now secret msg sig exp (some user) =
      if_alive now (parse_int64 exp) (if_signed secret msg sig user (look user))

  abbrev pub of_message :
      (Bytes → Option Bytes) → ℕ → Bytes → Bytes → Bytes → Option (Bytes × Bytes) → Option Bytes
  of_message look now secret msg sig none = none
  of_message look now secret msg sig (some (user64, exp)) =
      if_decoded look now secret msg sig exp (codec.decode user64)

  abbrev pub of_token : (Bytes → Option Bytes) → ℕ → Bytes → Option (Bytes × Bytes) → Option Bytes
  of_token look now secret none = none
  of_token look now secret (some (msg, sig)) = of_message look now secret msg sig (cut b'|' msg)

  -- `parseSession`; `look` is the current credential of a user.
  unfoldable pub parse_session : (Bytes → Option Bytes) → ℕ → Bytes → Bytes → Option Bytes
  parse_session look now secret tok = of_token look now secret (cut b'.' tok)

  -- `csrfToken` and `csrfValid`.
  unfoldable pub csrf_token : Bytes → Bytes → Bytes → Bytes
  csrf_token secret cred user = mac_b64 secret (bytes "csrf" ∷ user ∷ cred ∷ [])

  unfoldable pub csrf_valid : Bytes → Bytes → Bytes → Bytes → Bool
  unfolding csrf_token
  csrf_valid secret cred user got = str_eq (csrf_token secret cred user) got
