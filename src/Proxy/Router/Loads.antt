-- ===== src/Proxy/Router/Loads.antt =====
-- A configuration that `config.Load` accepts is one that `Update` of internal/proxy/proxy.go accepts.
use goddns.Base.{
  ℕ, true, false, List, [], ◌∷◌, Option, none, some, ◌≡◌, refl, ap, subst, arith, all, All,
  Option-cases, inl, inr,
}
use goddns.Base.Strings.{Bytes, cut}
use goddns.Base.Dict
use goddns.Base.Dict.{Dict, insert}
use goddns.Config.{ProxyRule, Libraries, Config}
use goddns.Config.Load.{is_credential}
use goddns.Config.Valid.{is_some, is_network, are_credentials, is_sound_rule, IsSoundEntry}
use goddns.Config.Sound.{IsSound}
use goddns.Proxy.Router.{Rule, Proxy}
use goddns.Proxy.Router.Swap.{and_then-inv}
use goddns.Proxy.Router.Tables.{nets_of, users_of, compile, rule_from, build, update}

users_of-credentials :
    (creds : List Bytes) (m : Dict Bytes)
    → are_credentials creds ≡ true
    → is_some (users_of creds m) ≡ true
unfolding users_of
users_of-credentials [] m h = refl
users_of-credentials (cred ∷ creds) m h = elim (Option-cases (cut b':' cred)) [
  | inl e ↦ unfold is_credential in absurd (ground arith)
  | inr (c, e) ↦ rw e (users_of-credentials creds (insert c.0 c.1 m) (ground arith))
]

abbrev pub rules_of : Option Proxy → Dict Rule
rules_of none = []
rules_of (some p) = p.rules

module _ (lib : Libraries) where
  nets_of-networks :
      (ss : List Bytes) → all (is_network lib) ss ≡ true → is_some (nets_of lib ss) ≡ true
  unfolding nets_of
  nets_of-networks [] h = refl
  nets_of-networks (s ∷ ss) h = ground (arith, nets_of-networks ss)

  compile_sound :
      (now : ℕ) (host listen : Bytes) (r : ProxyRule)
      → is_sound_rule lib listen r ≡ true
      → is_some (compile lib now host r) ≡ true
  unfolding compile
  compile_sound now host listen r h =
      ground (arith, nets_of-networks r.allow, users_of-credentials r.basic_auth [])

  rule_from_sound :
      (now : ℕ) (host listen : Bytes) (r : ProxyRule) (o : Option Rule)
      → is_sound_rule lib listen r ≡ true
      → is_some (rule_from lib now host r o) ≡ true
  rule_from_sound now host listen r none h = compile_sound now host listen r h
  rule_from_sound now host listen r (some old) h = ground (arith, compile_sound now host listen r)

  build_sound :
      (now : ℕ) (listen : Bytes) (prev : Dict Rule) (cfg : Dict ProxyRule)
      → All (IsSoundEntry lib listen) cfg
      → is_some (build lib now prev cfg) ≡ true
  unfolding build
  build_sound now listen prev [] h = refl
  build_sound now listen prev ((host, r) ∷ cfg) h = ground (
    arith,
    rule_from_sound now host listen r (Dict.lookup host prev) h.0.1,
    build_sound now listen prev cfg h.1,
  )

  pub update_sound :
      (now : ℕ) (c : Config) (p : Proxy) → IsSound lib c → is_some (update lib now c.proxy p) ≡ true
  unfolding update
  update_sound now c p sound =
      ground (arith, build_sound now c.proxy_listen p.rules c.proxy sound.rules)

  build-hosts :
      (now : ℕ) (prev : Dict Rule) (cfg : Dict ProxyRule) (table : Dict Rule) (h : Bytes)
      → build lib now prev cfg ≡ some table
      → is_some (Dict.lookup h table) ≡ is_some (Dict.lookup h cfg)
  unfolding build Dict.lookup
  build-hosts now prev [] table h e =
      let made : [] ≡ table = cc e in subst (λ t. is_some (Dict.lookup h t) ≡ false) made refl
  build-hosts now prev ((host, r) ∷ cfg) table h e =
      let (rule, got, e1) = and_then-inv (rule_from lib now host r (Dict.lookup host prev)) _ e in
      let (rest, built, e2) = and_then-inv (build lib now prev cfg) _ e1 in
      let made : (host, rule) ∷ rest ≡ table = cc e2 in
      subst (λ t. is_some (Dict.lookup h t) ≡ is_some (Dict.lookup h ((host, r) ∷ cfg))) made
        (ground (arith, build-hosts now prev cfg rest h built))

  -- The hosts of the table after an update are those of the configuration.
  pub update-hosts :
      (now : ℕ) (cfg : Dict ProxyRule) (p p' : Proxy) (h : Bytes)
      → update lib now cfg p ≡ some p'
      → is_some (Dict.lookup h p'.rules) ≡ is_some (Dict.lookup h cfg)
  unfolding update
  update-hosts now cfg p p' h e =
      let (table, built, last) = and_then-inv (build lib now p.rules cfg) _ e in
      let same : table ≡ p'.rules = cc (ap (λ (o : Option Proxy). rules_of o) last) in
      subst (λ t. is_some (Dict.lookup h t) ≡ is_some (Dict.lookup h cfg)) same
        (build-hosts now p.rules cfg table h built)
