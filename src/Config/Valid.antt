-- ===== src/Config/Valid.antt =====
-- What holds of a configuration that `Load` of internal/config/config.go accepts.
use goddns.Base.{
  ℕ, Bool, true, false, not, ◌&&◌, List, [], ◌∷◌, Option, none, some, leb, ◌≡◌, inl, inr, refl, sym,
  subst, ap, ◌∙◌, arith, if◌then◌else◌, all, All, Bool-cases,
}
use goddns.Base.Strings.{Bytes, str_eq, str_eq_iff, trim_space, cut}
use goddns.Base.Dict
use goddns.Base.Dict.{Dict, insert, IsMap, insert-IsMap, lookup-insert}
use goddns.Base.Decimal.{show_nat}
use goddns.Base.Result.{Result, ok, err, ◌>>=◌, ◌>>◌, check}
use goddns.Config.{bad_hostname, bad_upstream, bad_allow, ProxyRule, Libraries, ConfigError}
use goddns.Config.Load.{
  Loaded, norm_host, is_host_key, is_credential, is_user_name, first_of, port_or_empty, parse_nets,
  is_upstream, check_creds, check_ports, check_rule, new_then, norm_rules, check_admin_creds,
}

abbrev pub is_some {ℓ} : {A : Type ℓ} → Option A → Bool
is_some none = false
is_some (some a) = true

abbrev pub is_ok {ℓ} : {A : Type ℓ} → Result ConfigError A → Bool
is_ok (ok a) = true
is_ok (err e) = false

ok-of-is_ok : (r : Loaded (Unit {0})) → is_ok r ≡ true → r ≡ ok tt
ok-of-is_ok (ok tt) h = refl
ok-of-is_ok (err e) h = cc

-- A table in which a property holds of all entries.
insert-All :
    (P : Bytes × ProxyRule → Type 0) (h : Bytes) (r : ProxyRule) (m : Dict ProxyRule)
    → P (h, r)
    → All P m
    → All P (insert h r m)
unfolding insert
insert-All P h r [] p a = (p, tt)
insert-All P h r ((k, v) ∷ m) p a = elim (Bool-cases (str_eq k h)) [
  | inl e ↦ rw e (p, a.1)
  | inr e ↦ rw e (a.0, insert-All P h r m p a.1)
]

-- Each credential names a user, and the hash is one of bcrypt.
abbrev pub are_credentials : List Bytes → Bool
are_credentials = all is_credential

abbrev pub is_port : Bytes → ℕ → Bool
is_port listen_port p = leb 1 p && leb p 65535 && not (str_eq (show_nat p) listen_port)

pub is_ok-check_admin_creds :
    (creds : List Bytes)
    → is_ok (check_admin_creds creds)
      ≡ all (λ c. is_credential c && is_user_name (first_of (cut b':' c))) creds
unfolding check_admin_creds
is_ok-check_admin_creds [] = refl
is_ok-check_admin_creds (c ∷ creds) = ground (arith, is_ok-check_admin_creds creds)

is_ok-check :
    {A : Type 0} (b : Bool) (e : ConfigError) (k : Loaded A)
    → is_ok (check b e >> k) ≡ (b && is_ok k)
is_ok-check true e k = refl
is_ok-check false e k = refl

is_ok-bind :
    {A B : Type 0} (m : Loaded A) (k : Loaded B) → is_ok (m >>= λ _. k) ≡ (is_ok m && is_ok k)
is_ok-bind (ok a) k = refl
is_ok-bind (err e) k = refl

cong_and : {a b c d : Bool} → a ≡ b → c ≡ d → (a && c) ≡ (b && d)
cong_and p q = rw (p, q)

ok_inj : (s t : Dict ProxyRule) → ◌≡◌ {A = Loaded (Dict ProxyRule)} (ok s) (ok t) → s ≡ t
ok_inj s t p = cc

module _ (lib : Libraries) where
  abbrev pub is_network : Bytes → Bool
  is_network s = is_some (lib.parse_cidr (trim_space s))

  pub is_ok-parse_nets :
      (e : ConfigError) (ss : List Bytes) → is_ok (parse_nets lib e ss) ≡ all is_network ss
  unfolding parse_nets
  is_ok-parse_nets e [] = refl
  is_ok-parse_nets e (s ∷ ss) = ground (arith, is_ok-parse_nets e ss)

  is_ok-check_creds :
      (h : Bytes) (creds : List Bytes) → is_ok (check_creds lib h creds) ≡ are_credentials creds
  unfolding check_creds
  is_ok-check_creds h [] = refl
  is_ok-check_creds h (c ∷ creds) = ground (arith, is_ok-check_creds h creds)

  is_ok-check_ports :
      (h port : Bytes) (ports : List ℕ)
      → is_ok (check_ports lib h port ports) ≡ all (is_port port) ports
  unfolding check_ports
  is_ok-check_ports h port [] = refl
  is_ok-check_ports h port (p ∷ ports) = ground (arith, is_ok-check_ports h port ports)

  -- A rule as the proxy can serve it on the listener.
  abbrev pub is_sound_rule : Bytes → ProxyRule → Bool
  is_sound_rule listen r =
      is_upstream lib (lib.parse_url r.upstream)
      && (all is_network r.allow
          && (are_credentials r.basic_auth
              && all (is_port (port_or_empty (lib.split_port listen))) r.console_ports))

  is_ok-check_rule :
      (listen h : Bytes) (r : ProxyRule)
      → is_ok (check_rule lib listen h r) ≡ is_sound_rule listen r
  unfolding check_rule
  is_ok-check_rule listen h r =
      let port = port_or_empty (lib.split_port listen) in
      is_ok-check (is_upstream lib (lib.parse_url r.upstream)) (bad_upstream h) _
      ∙ ap (λ b. is_upstream lib (lib.parse_url r.upstream) && b)
          (is_ok-bind (parse_nets lib (bad_allow h) r.allow) _
            ∙ cong_and (is_ok-parse_nets (bad_allow h) r.allow) (
                is_ok-bind (check_creds lib h r.basic_auth) _
                ∙ cong_and (is_ok-check_creds h r.basic_auth)
                    (is_ok-check_ports h port r.console_ports)))

  -- An entry of the table that the checks left.
  abbrev pub IsSoundEntry : Bytes → Bytes × ProxyRule → Type 0
  IsSoundEntry listen (h, r) = (is_host_key h ≡ true) × (is_sound_rule listen r ≡ true)

  passed_step :
      (b : Bool) (host h : Bytes) (o : Option ProxyRule) (r : Loaded (Unit {0}))
      (rest : Loaded (Dict ProxyRule)) (table : Dict ProxyRule)
      → (if not b then err (bad_hostname host) else new_then lib h (r >> rest) o) ≡ ok table
      → (b ≡ true) × (is_ok r ≡ true) × (rest ≡ ok table) × (o ≡ none)
  passed_step false host h o r rest table p = cc
  passed_step true host h (some x) r rest table p = cc
  passed_step true host h none (err e) rest table p = cc
  passed_step true host h none (ok tt) rest table p = (refl, refl, p, refl)

  pub norm_rules-Sound :
      (listen : Bytes) (rules norm table : Dict ProxyRule)
      → norm_rules lib listen rules norm ≡ ok table
      → IsMap norm
      → All (IsSoundEntry listen) norm
      → IsMap table × All (IsSoundEntry listen) table
  unfolding norm_rules
  norm_rules-Sound listen [] norm table p m a =
      subst (λ t. IsMap t × All (IsSoundEntry listen) t) (ok_inj norm table p) (m, a)
  norm_rules-Sound listen ((host, rule) ∷ rules) norm table p m a =
      let h = norm_host host in
      let s =
        passed_step (is_host_key h) host h (Dict.lookup h norm) (check_rule lib listen h rule)
          (norm_rules lib listen rules (insert h rule norm)) table p in
      norm_rules-Sound listen rules (insert h rule norm) table s.2 (insert-IsMap h rule norm m) (
        insert-All (IsSoundEntry listen) h rule norm
          (s.0, sym (is_ok-check_rule listen h rule) ∙ s.1) a)

  keeps_found :
      (h k : Bytes) (rule r : ProxyRule) (norm : Dict ProxyRule)
      → Dict.lookup h norm ≡ none
      → Dict.lookup k norm ≡ some r
      → Dict.lookup k (insert h rule norm) ≡ some r
  keeps_found h k rule r norm new old = ground (arith, lookup-insert h k rule norm, str_eq_iff h k)

  -- Every rule of the file is found under its normalised host.
  pub norm_rules-Finds :
      (listen : Bytes) (rules norm table : Dict ProxyRule)
      → norm_rules lib listen rules norm ≡ ok table
      → ((k : Bytes) (r : ProxyRule) → Dict.lookup k norm ≡ some r → Dict.lookup k table ≡ some r)
        × All (λ e. Dict.lookup (norm_host e.0) table ≡ some e.1) rules
  unfolding norm_rules
  norm_rules-Finds listen [] norm table p =
      (λ k r f. subst (λ t. Dict.lookup k t ≡ some r) (ok_inj norm table p) f, tt)
  norm_rules-Finds listen ((host, rule) ∷ rules) norm table p =
      let h = norm_host host in
      let s =
        passed_step (is_host_key h) host h (Dict.lookup h norm) (check_rule lib listen h rule)
          (norm_rules lib listen rules (insert h rule norm)) table p in
      let ih = norm_rules-Finds listen rules (insert h rule norm) table s.2 in
      (
        λ k r f. ih.0 k r (keeps_found h k rule r norm s.3 f),
        (ih.0 h rule (ground (arith, lookup-insert h h rule norm, str_eq_iff h h)), ih.1),
      )
