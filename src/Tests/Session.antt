-- ===== src/Tests/Session.antt =====
-- Runs of the sessions of internal/admin/session.go.
use goddns.Base.{
  ℕ, ◌+◌, ◌-◌, ◌<◌, false, [], ◌∷◌, ◌++◌, Option, none, some, ◌==◌, ◌≡◌, refl, ap, sym, ◌∙◌, arith,
  if◌then◌else◌, any,
}
use goddns.Base.Strings.{Bytes, bytes, str_eq, cut}
use goddns.Base.Decimal.{show_nat, parse_int64}
use goddns.Admin.Session.{Codec, nul_ended, mac_b64, session_message, new_session, parse_session}
use goddns.Admin.Session.Tokens.{IsBase64, Binds, IsIssued, parse_session-IsIssued}

unfoldable pub shift : Bytes → Bytes
shift [] = []
shift (c ∷ s) = (c + 200) ∷ shift s

unfoldable pub unshift : Bytes → Bytes
unshift [] = []
unshift (c ∷ s) = (c - 200) ∷ unshift s

-- A code that moves every byte, and a digest that is the text itself.
abbrev pub codec : Codec
codec = record { hmac = λ secret s. s; encode = shift; decode = λ s. some (unshift s) }

unshift-shift : (s : Bytes) → unshift (shift s) ≡ s
unfolding shift unshift
unshift-shift [] = refl
unshift-shift (c ∷ s) = ground (arith, unshift-shift s)

no_small : (d : ℕ) (s : Bytes) → d < 200 → any (λ c. c == d) (shift s) ≡ false
unfolding shift
no_small d [] h = refl
no_small d (c ∷ s) h = ground (arith, no_small d s)

pub codec-IsBase64 : IsBase64 codec
codec-IsBase64 = record {
  decode-encode = λ s. ap (λ t. some t) (unshift-shift s);
  no_dot = λ s. no_small 46 s (ground arith);
  no_bar = λ s. no_small 124 s (ground arith);
}

ends : (c : Bytes) → c ++ (0 ∷ []) ≡ b'h' ∷ 0 ∷ [] → c ≡ b'h' ∷ []
ends [] e = cc
ends (x ∷ []) e = cc
ends (x ∷ y ∷ []) e = cc
ends (x ∷ y ∷ z ∷ c) e = cc

cut_ends : (m c d : Bytes) → m ++ (0 ∷ c) ≡ m ++ (0 ∷ d) → c ≡ d
cut_ends [] c d e = cc
cut_ends (x ∷ m) c d e = cut_ends m c d (cc e)

-- The digest tells the credential h apart.
pub codec-Binds : (secret msg : Bytes) → Binds codec codec-IsBase64 secret msg (b'h' ∷ [])
unfolding mac_b64 nul_ended
codec-Binds secret msg c e =
    ends c (cut_ends msg _ _ (sym (unshift-shift _) ∙ ap unshift e ∙ unshift-shift _))

abbrev users : Bytes → Option Bytes
users u = if str_eq u (bytes "u") then some (b'h' ∷ []) else none

abbrev token : Bytes
token = new_session codec 100 (bytes "s") (b'h' ∷ []) (bytes "u") 3600

expired : parse_session codec users 3701 (bytes "s") token ≡ none
unfolding parse_session new_session session_message mac_b64 nul_ended shift unshift cut str_eq
    show_nat parse_int64
expired = refl

is_issued : parse_session codec users 3700 (bytes "s") token ≡ some (bytes "u")
unfolding parse_session new_session session_message mac_b64 nul_ended shift unshift cut str_eq
    show_nat parse_int64
is_issued = refl

parse_session-IsIssued_example : IsIssued codec users 3700 (bytes "s") token (bytes "u")
parse_session-IsIssued_example =
    parse_session-IsIssued codec users 3700 (bytes "s") token (bytes "u") is_issued
