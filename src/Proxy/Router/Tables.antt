-- ===== src/Proxy/Router/Tables.antt =====
-- `Update` of internal/proxy/proxy.go: the swap of the routing table.
use goddns.Base.{
  ℕ, Bool, true, false, not, ◌&&◌, List, [], ◌∷◌, Option, none, some, ltb, ◌==◌, if◌then◌else◌,
}
use goddns.Base.Strings.{Bytes, str_eq, trim_space, cut}
use goddns.Base.Dict
use goddns.Base.Dict.{Dict, insert, retain}
use goddns.Net.{IpNet}
use goddns.Proxy.Limiter.{new_limiter}
use goddns.Config.{ProxyRule, Libraries}
use goddns.Proxy.Router.{Rule, Counters, no_counts, Proxy}

unfoldable pub all_eq {ℓ} : {A : Type ℓ} → (A → A → Bool) → List A → List A → Bool
all_eq eq [] [] = true
all_eq eq (x ∷ xs) (y ∷ ys) = eq x y && all_eq eq xs ys
all_eq eq _ _ = false

unfoldable pub same_flag : Bool → Bool → Bool
same_flag true b = b
same_flag false b = not b

-- `reflect.DeepEqual` of two rules.
unfoldable pub same_src : ProxyRule → ProxyRule → Bool
unfolding all_eq same_flag str_eq
same_src a b =
    str_eq a.upstream b.upstream
    && same_flag a.upstream_verify b.upstream_verify
    && same_flag a.preserve_host b.preserve_host
    && same_flag a.bmc_compat b.bmc_compat
    && all_eq str_eq a.allow b.allow
    && all_eq str_eq a.basic_auth b.basic_auth
    && a.rate_limit == b.rate_limit
    && all_eq (λ x y. x == y) a.console_ports b.console_ports

abbrev pub and_then {ℓ κ} : {A : Type ℓ} {B : Type κ} → Option A → (A → Option B) → Option B
and_then none f = none
and_then (some a) f = f a

unfoldable pub users_of : List Bytes → Dict Bytes → Option (Dict Bytes)
unfolding cut insert
users_of [] m = some m
users_of (cred ∷ creds) m =
    and_then (cut b':' cred) (λ (user, hash). users_of creds (insert user hash m))

module _ (lib : Libraries) where
  unfoldable pub nets_of : List Bytes → Option (List IpNet)
  unfolding trim_space
  nets_of [] = some []
  nets_of (s ∷ ss) =
      and_then (lib.parse_cidr (trim_space s)) (λ n. and_then (nets_of ss) (λ ns. some (n ∷ ns)))

  -- `compile`.
  unfoldable pub compile : ℕ → Bytes → ProxyRule → Option Rule
  unfolding nets_of users_of new_limiter
  compile now host pr = and_then (lib.parse_url pr.upstream) (λ up.
      and_then (nets_of pr.allow) (λ nets. and_then (users_of pr.basic_auth []) (λ users.
        some (record {
          host = host;
          src = pr;
          upstream_host = up.hostname;
          allow = nets;
          users = users;
          limit = if ltb 0 pr.rate_limit then some (new_limiter now pr.rate_limit) else none;
        }))))

  abbrev pub rule_from : ℕ → Bytes → ProxyRule → Option Rule → Option Rule
  rule_from now host pr none = compile now host pr
  rule_from now host pr (some old) = if same_src old.src pr then some old else compile now host pr

  -- The table: an unchanged rule is carried over.
  unfoldable pub build : ℕ → Dict Rule → Dict ProxyRule → Option (Dict Rule)
  unfolding compile same_src Dict.lookup
  build now prev [] = some []
  build now prev ((host, pr) ∷ cfg) =
      and_then (rule_from now host pr (Dict.lookup host prev))
        (λ r. and_then (build now prev cfg) (λ table. some ((host, r) ∷ table)))

  abbrev pub is_some {ℓ} : {A : Type ℓ} → Option A → Bool
  is_some none = false
  is_some (some a) = true

  -- `stats.prune` and the seeding of zero entries.
  abbrev pub seed_one : Bytes → Dict Counters → Dict Counters
  seed_one h m = if is_some (Dict.lookup h m) then m else insert h no_counts m

  unfoldable pub seed : Dict Rule → Dict Counters → Dict Counters
  unfolding insert Dict.lookup
  seed [] m = m
  seed ((h, r) ∷ table) m = seed table (seed_one h m)

  unfoldable pub prune : Dict Rule → Dict Counters → Dict Counters
  unfolding retain Dict.lookup
  prune table m = retain (λ h c. is_some (Dict.lookup h table)) m

  -- `Update`; `none` is its error, and then the table stays.
  unfoldable pub update : ℕ → Dict ProxyRule → Proxy → Option Proxy
  unfolding build seed prune
  update now cfg p =
      and_then (build now p.rules cfg)
        (λ table. some (record { rules = table; stats = seed table (prune table p.stats) }))
