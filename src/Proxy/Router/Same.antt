-- ===== src/Proxy/Router/Same.antt =====
-- `reflect.DeepEqual` of the rules of internal/proxy/proxy.go is equality.
use goddns.Base.{ℕ, Bool, true, false, List, [], ◌∷◌, ◌≡◌, refl, arith, ◌==◌}
use goddns.Base.Strings.{Bytes, str_eq, str_eq_iff}
use goddns.Config.{ProxyRule}
use goddns.Proxy.Router.Tables.{all_eq, same_flag, same_src}

all_eq_sound {ℓ} :
    {A : Type ℓ} (eq : A → A → Bool)
    → ((x y : A) → eq x y ≡ true → x ≡ y)
    → (xs ys : List A) → all_eq eq xs ys ≡ true
    → xs ≡ ys
unfolding all_eq
all_eq_sound eq h [] [] e = refl
all_eq_sound eq h [] (y ∷ ys) e = cc
all_eq_sound eq h (x ∷ xs) [] e = cc
all_eq_sound eq h (x ∷ xs) (y ∷ ys) e =
    let a : eq x y ≡ true = ground (arith, e) in
    let b : all_eq eq xs ys ≡ true = ground (arith, e) in
    let p = h x y a in let q = all_eq_sound eq h xs ys b in cc

same_flag_sound : (a b : Bool) → same_flag a b ≡ true → a ≡ b
unfolding same_flag
same_flag_sound true true e = refl
same_flag_sound true false e = cc
same_flag_sound false true e = cc
same_flag_sound false false e = refl

texts_sound : (x y : Bytes) → str_eq x y ≡ true → x ≡ y
texts_sound x y = (str_eq_iff x y).0

nums_sound : (x y : ℕ) → (x == y) ≡ true → x ≡ y
nums_sound x y e = ground (arith, e)

-- Rules that `reflect.DeepEqual` takes for one are one.
pub same_src_sound : (a b : ProxyRule) → same_src a b ≡ true → a ≡ b
unfolding same_src
same_src_sound a b e =
    let upstream : a.upstream ≡ b.upstream = texts_sound _ _ (ground (arith, e)) in
    let verify : a.upstream_verify ≡ b.upstream_verify =
      same_flag_sound a.upstream_verify b.upstream_verify (ground (arith, e)) in
    let preserve : a.preserve_host ≡ b.preserve_host =
      same_flag_sound a.preserve_host b.preserve_host (ground (arith, e)) in
    let bmc : a.bmc_compat ≡ b.bmc_compat =
      same_flag_sound a.bmc_compat b.bmc_compat (ground (arith, e)) in
    let allow : a.allow ≡ b.allow =
      all_eq_sound str_eq texts_sound a.allow b.allow (ground (arith, e)) in
    let auth : a.basic_auth ≡ b.basic_auth =
      all_eq_sound str_eq texts_sound a.basic_auth b.basic_auth (ground (arith, e)) in
    let rate : a.rate_limit ≡ b.rate_limit = ground (arith, e) in
    let ports : a.console_ports ≡ b.console_ports =
      all_eq_sound (λ x y. x == y) nums_sound a.console_ports b.console_ports (ground (arith, e)) in
    cc
