-- ===== src/Admin/Session/Tokens.antt =====
-- Which tokens `parseSession` of internal/admin/session.go accepts.
use goddns.Base.{
  ℕ, ◌≤◌, Bool, false, [], ◌∷◌, ◌++◌, Option, none, some, ◌==◌, ◌≡◌, inl, inr, refl, sym, ◌∙◌, ap,
  arith, any, Bool-cases, Option-cases,
}
use goddns.Base.Strings.{Bytes, str_eq, str_eq_iff, cut, cut-eq-some}
use goddns.Base.Decimal.{parse_int64}
use goddns.Admin.Session.{Codec, mac_b64, parse_session, if_signed, if_alive}

-- What base64url promises: it decodes what it encoded, and its alphabet has neither dot nor bar.
pub record IsBase64 (codec : Codec) : Type 0 where
  pub decode-encode : (s : Bytes) → codec.decode (codec.encode s) ≡ some s
  pub no_dot : (s : Bytes) → any (λ c. c == b'.') (codec.encode s) ≡ false
  pub no_bar : (s : Bytes) → any (λ c. c == b'|') (codec.encode s) ≡ false

module _ (codec : Codec) (b64 : IsBase64 codec) where
  abbrev pub holds : Option Bytes → Bytes → Bool
  holds none cred = false
  holds (some c) cred = str_eq c cred

  -- The code of a session tells the credentials apart.
  abbrev pub Binds : Bytes → Bytes → Bytes → Type 0
  Binds secret msg cred =
      (c : Bytes)
      → mac_b64 codec secret (msg ∷ c ∷ []) ≡ mac_b64 codec secret (msg ∷ cred ∷ [])
      → c ≡ cred

module _ (codec : Codec) where
  -- A token of the program's own form: signed with the secret over its message and the credential that
  -- the user has now, and not yet ended.
  abbrev pub IsIssued : (Bytes → Option Bytes) → ℕ → Bytes → Bytes → Bytes → Type 0
  IsIssued look now secret tok user =
      (msg : Bytes) × (cred : Bytes) × (user64 : Bytes) × (exp : Bytes) × (end : ℕ) × (tok
        ≡ msg ++ (b'.' ∷ mac_b64 codec secret (msg ∷ cred ∷ [])))
      × (msg ≡ user64 ++ (b'|' ∷ exp))
      × (codec.decode user64 ≡ some user)
      × (look user ≡ some cred)
      × (parse_int64 exp ≡ some end)
      × (now ≤ end)

  signed-inv :
      (secret msg sig u user : Bytes) (o : Option Bytes)
      → if_signed codec secret msg sig u o ≡ some user
      → (cred : Bytes) × (o ≡ some cred)
        × (mac_b64 codec secret (msg ∷ cred ∷ []) ≡ sig)
        × (u ≡ user)
  signed-inv secret msg sig u user none h = cc
  signed-inv secret msg sig u user (some cred) h =
      elim (Bool-cases (str_eq (mac_b64 codec secret (msg ∷ cred ∷ [])) sig)) [
        | inl e ↦ (cred, refl, (str_eq_iff _ sig).0 e, cc (rw e at h))
        | inr e ↦ cc (rw e at h)
      ]

  alive-inv :
      (now : ℕ) (user : Bytes) (o : Option ℕ) (found : Option Bytes)
      → if_alive codec now o found ≡ some user
      → (end : ℕ) × (o ≡ some end) × (now ≤ end) × (found ≡ some user)
  alive-inv now user none found h = cc
  alive-inv now user (some end) found h = (end, refl, ground arith, ground arith)

  -- Only a session of the program's own is accepted: signed with the secret over its message and the
  -- credential that its user has now, and not yet ended.
  pub parse_session-IsIssued :
      (look : Bytes → Option Bytes) (now : ℕ) (secret tok user : Bytes)
      → parse_session codec look now secret tok ≡ some user
      → IsIssued look now secret tok user
  unfolding parse_session
  parse_session-IsIssued look now secret tok user h = elim (Option-cases (cut b'.' tok)) [
    | inl n ↦ cc (rw n at h)
    | inr (p, e1) ↦ elim (Option-cases (cut b'|' p.0)) [
      | inl n ↦ cc (rw (e1, n) at h)
      | inr (q, e2) ↦ elim (Option-cases (codec.decode q.0)) [
        | inl n ↦ cc (rw (e1, e2, n) at h)
        | inr (u, e3) ↦
            let a =
              alive-inv now user (parse_int64 q.1) (if_signed codec secret p.0 p.1 u (look u))
                (rw (e1, e2, e3) at h) in
            let s = signed-inv secret p.0 p.1 u user (look u) a.3 in
            (
              p.0,
              s.0,
              q.0,
              q.1,
              a.0,
              cut-eq-some b'.' tok p.0 p.1 e1 ∙ ap (λ t. p.0 ++ (b'.' ∷ t)) (sym s.2),
              cut-eq-some b'|' p.0 q.0 q.1 e2,
              e3 ∙ ap (λ t. some t) s.3,
              ap look (sym s.3) ∙ s.1,
              a.1,
              a.2,
            )
      ]
    ]
  ]
