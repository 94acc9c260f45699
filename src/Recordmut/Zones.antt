-- ===== src/Recordmut/Zones.antt =====
-- `mostSpecificZone` of internal/recordmut/recordmut.go.
use goddns.Base.{
  ℕ, Bool, true, false, ◌&&◌, List, [], ◌∷◌, ◌≡◌, refl, ap, ◌∙◌, ◌⊎◌, inl, inr, arith, ltb, ◌≤◌,
  if◌then◌else◌, All, length,
}
use goddns.Base.Strings.{Bytes}
use goddns.Dns.{DnsLib}
use goddns.Named.{Zone, Inventory, user_zones}
use goddns.Recordmut.{encloses, longest_zone, most_specific_zone}

module _ (dns : DnsLib) (cn : Bytes) where
  -- The zone encloses the name under its canonical name `zn`.
  abbrev pub Encloses : Bytes → Zone → Type 0
  Encloses zn z = (zn ≡ dns.canonical_name z.name) × (encloses dns zn cn ≡ true)

  abbrev pub AtMost : ℕ → Zone → Type 0
  AtMost n z =
      encloses dns (dns.canonical_name z.name) cn ≡ true → length (dns.canonical_name z.name) ≤ n

  -- Some zone of the list.
  abbrev pub Some : (Zone → Type 0) → List Zone → Type 0
  Some P [] = ⊥
  Some P (z ∷ zs) = P z ⊎ Some P zs

  weaken : (m n : ℕ) (zs : List Zone) → m ≤ n → All (AtMost m) zs → All (AtMost n) zs
  weaken m n [] le a = tt
  weaken m n (z ∷ zs) le a = (λ h. omega (arith, a.0 h), weaken m n zs le a.1)

  -- The outcome `r` of the loop from `best` on.
  abbrev Most : Bytes → Bytes → List Zone → Type 0
  Most r best zs =
      ((r ≡ best) ⊎ Some (Encloses r) zs) × (length best ≤ length r) × All (AtMost (length r)) zs

  one_more :
      (r best zn : Bytes) (z : Zone) (zs : List Zone) (inside longer : Bool)
      → zn ≡ dns.canonical_name z.name
      → encloses dns zn cn ≡ inside
      → ltb (length best) (length zn) ≡ longer
      → Most r (if inside && longer then zn else best) zs
      → Most r best (z ∷ zs)
  one_more r best zn z zs true true is enc lng (inl same, le, most) = (
    inr (inl (same ∙ is, ap (λ (x : Bytes). encloses dns x cn) same ∙ enc)),
    ground (arith, lng, le),
    ((λ h. ground (arith, is, le)), most),
  )
  one_more r best zn z zs true true is enc lng (inr found, le, most) =
      (inr (inr found), ground (arith, lng, le), ((λ h. ground (arith, is, le)), most))
  one_more r best zn z zs true false is enc lng (inl same, le, most) =
      (inl same, le, ((λ h. ground (arith, is, lng, le)), most))
  one_more r best zn z zs true false is enc lng (inr found, le, most) =
      (inr (inr found), le, ((λ h. ground (arith, is, lng, le)), most))
  one_more r best zn z zs false longer is enc lng (inl same, le, most) =
      (inl same, le, ((λ h. ground (arith, is, enc)), most))
  one_more r best zn z zs false longer is enc lng (inr found, le, most) =
      (inr (inr found), le, ((λ h. ground (arith, is, enc)), most))

  longest_zone-Most : (zs : List Zone) (best : Bytes) → Most (longest_zone dns cn best zs) best zs
  unfolding longest_zone
  longest_zone-Most [] best = (inl refl, omega arith, tt)
  longest_zone-Most (z ∷ zs) best =
      let zn = dns.canonical_name z.name in
      one_more _ best zn z zs (encloses dns zn cn) (ltb (length best) (length zn)) refl refl refl
        (longest_zone-Most zs _)

-- `mostSpecificZone` gives the empty text, or the name of a user zone that encloses the record's
-- name; and no user zone that encloses it has a longer name.
pub most_specific_zone-Most :
    (dns : DnsLib) (inv : Inventory) (name : Bytes)
    → let best = most_specific_zone dns inv name in
      let cn = dns.canonical_name name in
      ((best ≡ []) ⊎ Some dns cn (Encloses dns cn best) (user_zones inv))
      × All (AtMost dns cn (length best)) (user_zones inv)
unfolding most_specific_zone
most_specific_zone-Most dns inv name =
    let (found, le, most) = longest_zone-Most dns (dns.canonical_name name) (user_zones inv) [] in
    (found, most)
