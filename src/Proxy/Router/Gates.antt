-- ===== src/Proxy/Router/Gates.antt =====
-- What passes the gates of the proxy.
use goddns.Base.{
  ℕ, ◌/◌, Bool, true, false, not, ◌&&◌, Option, none, some, ◌≡◌, ◌≢◌, refl, sym, ap, subst, ◌∙◌,
  ◌⊎◌, inl, inr, if◌then◌else◌, is_empty, Bool-cases,
}
use goddns.Base.Strings.{Bytes, str_eq, str_eq_iff, str_eq_refl}
use goddns.Base.Dict
use goddns.Base.Dict.{Dict, insert, lookup-insert}
use goddns.Proxy.Limiter.{Limiter, allow}
use goddns.Config.{Libraries}
use goddns.Proxy.Router.{
  Rule, Proxy, allows, counted, Request, Exchange, Verdict, unknown_host, forbidden, rate_limited,
  unauthorized, passed_on, host_key, peer_of, check_auth, ask_limit, gates, result_of, count,
  routed, serve,
}

module _ (lib : Libraries) where
  -- A request that passed: its peer is on the rule's list, if there is one, the limiter gave it a
  -- token, if there is one, and its credentials are right, if there are users; and then they are
  -- taken off.
  pub record Admitted (now : ℕ) (r : Request) (rl : Rule) (stripped : Bool) : Type 0 where
    pub listed : allows rl (peer_of lib r) ≡ true
    pub token : (l : Limiter) → rl.limit ≡ some l → (allow now (peer_of lib r) l).0 ≡ true
    pub authentic : is_empty rl.users ≡ false → check_auth lib rl r.basic_auth ≡ true
    pub stripped_is : stripped ≡ not (is_empty rl.users)

  abbrev pick : Bool → Bool → Bool → Bool → Rule → Rule → Verdict × Rule
  pick a t g c rl rl' =
      if not a
      then (forbidden, rl)
      else if not t
      then (rate_limited, rl')
      else if g && not c
      then (unauthorized, rl')
      else (passed_on g, rl')

  chain :
      (a t g c : Bool) (rl rl' : Rule) (stripped : Bool)
      → (pick a t g c rl rl').0 ≡ passed_on stripped
      → (a ≡ true) × (t ≡ true) × (not g ≡ false → c ≡ true) × (stripped ≡ g)
  chain true true true true rl rl' stripped e = (refl, refl, λ h. refl, cc)
  chain true true false c rl rl' stripped e = (refl, refl, λ h. cc, cc)
  chain true true true false rl rl' stripped e = cc
  chain true false g c rl rl' stripped e = cc
  chain false t g c rl rl' stripped e = cc

  gates-Admitted :
      (now : ℕ) (r : Request) (rl : Rule) (stripped : Bool)
      → (gates lib now r rl).0 ≡ passed_on stripped
      → Admitted now r rl stripped
  unfolding gates
  gates-Admitted now r rl stripped e =
      let peer = peer_of lib r in
      let asked = ask_limit lib now peer rl rl.limit in
      let (a, t, c, s) =
        chain (allows rl peer) asked.0 (not (is_empty rl.users)) (check_auth lib rl r.basic_auth) rl
          asked.1 stripped e in
      record {
        listed = a;
        token = λ l is. sym (ap (λ (o : Option Limiter). (ask_limit lib now peer rl o).0) is) ∙ t;
        authentic = λ h. c (double (is_empty rl.users) ∙ h);
        stripped_is = s;
      }
    where
      double : (b : Bool) → not (not b) ≡ b
      double true = refl
      double false = refl

  pick_forbidden :
      (a t g c : Bool) (rl rl' : Rule)
      → (pick a t g c rl rl').0 ≡ forbidden
      → (pick a t g c rl rl').1 ≡ rl
  pick_forbidden true true true true rl rl' e = cc
  pick_forbidden true true false c rl rl' e = cc
  pick_forbidden true true true false rl rl' e = cc
  pick_forbidden true false g c rl rl' e = cc
  pick_forbidden false t g c rl rl' e = refl

  gates-forbidden :
      (now : ℕ) (r : Request) (rl : Rule)
      → (gates lib now r rl).0 ≡ forbidden
      → (gates lib now r rl).1 ≡ rl
  unfolding gates
  gates-forbidden now r rl e =
      let peer = peer_of lib r in
      let asked = ask_limit lib now peer rl rl.limit in
      pick_forbidden (allows rl peer) asked.0 (not (is_empty rl.users))
        (check_auth lib rl r.basic_auth) rl asked.1 e

  -- What a request to a known host does: it passes on only if it was admitted; it is counted on
  -- its host, with the status and sizes of its answer; a forbidden request costs the limiter
  -- nothing; and no other host's rule or counters change.
  pub record Routed (now own : ℕ) (up : Exchange) (r : Request) (p : Proxy) (rl : Rule)
      (x : Verdict × Proxy) : Type 0 where
    pub admitted : (stripped : Bool) → x.0 ≡ passed_on stripped → Admitted now r rl stripped
    pub counts :
        Dict.lookup (host_key lib r.host) x.1.stats
        ≡ some (
            count lib
              (now / 1_000_000_000)
              (result_of lib x.0 own up)
              (counted (host_key lib r.host) p.stats))
    pub free : x.0 ≡ forbidden → Dict.lookup (host_key lib r.host) x.1.rules ≡ some rl
    pub others :
        (h : Bytes)
        → host_key lib r.host ≢ h
        → (Dict.lookup h x.1.rules ≡ Dict.lookup h p.rules)
          × (Dict.lookup h x.1.stats ≡ Dict.lookup h p.stats)

  lookup-insert_self :
      {V : Type 0} (k : Bytes) (v : V) (m : Dict V) → Dict.lookup k (insert k v m) ≡ some v
  lookup-insert_self k v m = lookup-insert k k v m ∙ rw (str_eq_refl k) refl

  lookup-insert_other :
      {V : Type 0} (k j : Bytes) (v : V) (m : Dict V)
      → k ≢ j
      → Dict.lookup j (insert k v m) ≡ Dict.lookup j m
  lookup-insert_other k j v m ne = lookup-insert k j v m ∙ miss (Bool-cases (str_eq k j))
    where
      miss :
          (str_eq k j ≡ true) ⊎ (str_eq k j ≡ false)
          → (if str_eq k j then some v else Dict.lookup j m) ≡ Dict.lookup j m
      miss (inl same) = absurd (ne ((str_eq_iff k j).0 same))
      miss (inr other) = rw other refl

  -- A request to a host that is not in the table is answered so and changes nothing; a request to
  -- a host in the table passes on only through the allowlist, the limiter and the credentials, is
  -- counted on its host, costs the limiter nothing if it is forbidden, and changes no other host's
  -- rule or counters.
  pub serve-Routed :
      (now own : ℕ) (up : Exchange) (r : Request) (p : Proxy)
      → (Dict.lookup (host_key lib r.host) p.rules ≡ none
          → serve lib now own up r p ≡ (unknown_host, p))
        × ((rl : Rule)
            → Dict.lookup (host_key lib r.host) p.rules ≡ some rl
            → Routed now own up r p rl (serve lib now own up r p))
  unfolding serve
  serve-Routed now own up r p = (
    λ e. ap (routed lib now own up r p) e,
    λ rl e.
        subst (λ (x : Verdict × Proxy). Routed now own up r p rl x)
          (sym (ap (routed lib now own up r p) e)) (known rl),
  )
    where
      known : (rl : Rule) → Routed now own up r p rl (routed lib now own up r p (some rl))
      known rl =
          let host = host_key lib r.host in
          let g = gates lib now r rl in
          record {
            admitted = λ stripped h. gates-Admitted now r rl stripped h;
            counts = lookup-insert_self host _ p.stats;
            free = λ h. lookup-insert_self host g.1 p.rules ∙ ap some (gates-forbidden now r rl h);
            others = λ j ne. (
              lookup-insert_other host j g.1 p.rules ne,
              lookup-insert_other host j _ p.stats ne,
            );
          }
