-- ===== src/Proxy/Router/Swap.antt =====
-- What the swap of the routing table keeps.
use goddns.Base.{
  ℕ, true, false, [], ◌∷◌, Option, none, some, ◌≡◌, refl, sym, ap, subst, ◌∙◌, ◌⊎◌, arith,
  Bool-cases, inl, inr,
}
use goddns.Base.Strings.{Bytes, str_eq, str_eq_iff}
use goddns.Base.Dict
use goddns.Base.Dict.{Dict, retain}
use goddns.Config.{ProxyRule, Libraries}
use goddns.Proxy.Router.{Rule, Proxy}
use goddns.Proxy.Router.Tables.{and_then, rule_from, build}

pub and_then-inv {ℓ κ} :
    {A : Type ℓ} {B : Type κ} (o : Option A) (f : A → Option B) {b : B}
    → and_then o f ≡ some b
    → (a : A) × (o ≡ some a) × (f a ≡ some b)
and_then-inv none f e = cc
and_then-inv (some a) f e = (a, refl, e)

module _ (lib : Libraries) where
  pub lookup-build :
      (now : ℕ) (prev : Dict Rule) (cfg : Dict ProxyRule) (table : Dict Rule) (h : Bytes)
      → build lib now prev cfg ≡ some table
      → Dict.lookup h table
        ≡ and_then (Dict.lookup h cfg) (λ pr. rule_from lib now h pr (Dict.lookup h prev))
  unfolding build Dict.lookup
  lookup-build now prev [] table h e = ground arith
  lookup-build now prev ((j, pr) ∷ cfg) table h e =
      let (r, re, rest) = and_then-inv (rule_from lib now j pr (Dict.lookup j prev)) _ e in
      let (t, te, last) = and_then-inv (build lib now prev cfg) _ rest in
      let ih = lookup-build now prev cfg t h te in
      let is : (j, r) ∷ t ≡ table = cc in
      sym (ap (Dict.lookup h) is) ∙ at_entry r re (Bool-cases (str_eq j h)) t ih
    where
      at_entry :
          (r : Rule)
          → rule_from lib now j pr (Dict.lookup j prev) ≡ some r
          → (str_eq j h ≡ true) ⊎ (str_eq j h ≡ false)
          → (t : Dict Rule)
          → Dict.lookup h t
            ≡ and_then (Dict.lookup h cfg) (λ pr. rule_from lib now h pr (Dict.lookup h prev))
          → Dict.lookup h ((j, r) ∷ t)
            ≡ and_then
                (Dict.lookup h ((j, pr) ∷ cfg))
                (λ pr. rule_from lib now h pr (Dict.lookup h prev))
      at_entry r re (inl same) t ih = rw same (
          sym (
            subst (λ (k : Bytes). rule_from lib now k pr (Dict.lookup k prev) ≡ some r)
              ((str_eq_iff j h).0 same) re))
      at_entry r re (inr other) t ih = rw other ih
