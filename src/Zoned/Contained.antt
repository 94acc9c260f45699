-- ===== src/Zoned/Contained.antt =====
-- What a client of the helper can bring about.
use goddns.Base.{
  Bool, true, false, List, [], ◌∷◌, Option, none, some, ◌≡◌, refl, ◌⊎◌, inl, inr, Bool-cases,
}
use goddns.Base.Strings.{Bytes}
use goddns.Dns.{DnsLib, Rr, Op}
use goddns.Zonefile.Edit.{Date}
use goddns.Named.{Inventory}
use goddns.Config.{Config}
use goddns.Filezone.Commit.{World, System, apply}
use goddns.Filezone.Commit.Safe.{Untouched, Replaced}
use goddns.Filezone.Commit.Allowed.{IsAllowed, apply-IsAllowed}
use goddns.Filezone.Preview.{parse_rr}
use goddns.Zoned.{HelperRequest, op_of, is_action, ran, with_record, with_config, process}

module _ (dns : DnsLib) (sys : System) (inv : Inventory) (today : Date) where
  -- What an edit with one operation may do, by the allowlist of a configuration.
  abbrev pub IsEdit : List Bytes → Bytes → Op → World → World → Type 0
  IsEdit allowed zone op w w' =
      Untouched dns sys zone w.file [] w w'
      ⊎ ((new : Bytes) × IsAllowed dns sys allowed inv today zone (op ∷ []) w.file new
          × Replaced dns sys zone w.file new w (apply dns sys allowed inv today zone (op ∷ []) w)
          × (w' ≡ (apply dns sys allowed inv today zone (op ∷ []) w).1))

  -- The helper's own configuration was read, and the request is one record to add or delete, to apply.
  pub record IsHelped (cfg : Option Config) (r : HelperRequest) (w w' : World) : Type 0 where
    pub config : Config
    pub is_read : cfg ≡ some config
    pub rr : Rr
    pub one_record : parse_rr dns r.rr r.zone ≡ some rr
    pub known_action : is_action r.action ≡ true
    pub applies : r.apply ≡ true
    pub edit : IsEdit config.editable_zones r.zone (op_of r.action rr) w w'

  -- Whatever a client sends, the helper leaves the world alone, or the request is to apply one parsed
  -- record by add or del, and what then happens is an edit that its own configuration allows.
  pub process-IsHelped :
      (cfg : Option Config) (r : HelperRequest) (w : World)
      → ((process dns sys inv today cfg r w).1 ≡ w)
        ⊎ IsHelped cfg r w (process dns sys inv today cfg r w).1
  unfolding process
  process-IsHelped cfg r w = elim (Bool-cases (is_action r.action)) [
    | inr e ↦ rw e (inl refl)
    | inl e ↦ rw e (by_config cfg refl e)
  ]
    where
      by_apply :
          (c : Config) (rr : Rr) (b : Bool)
          → cfg ≡ some c
          → parse_rr dns r.rr r.zone ≡ some rr
          → is_action r.action ≡ true
          → r.apply ≡ b
          → ((ran dns sys inv today c.editable_zones r (op_of r.action rr) w).1 ≡ w)
            ⊎ IsHelped cfg r w (ran dns sys inv today c.editable_zones r (op_of r.action rr) w).1
      by_apply c rr false e1 e2 e3 e4 = rw e4 (inl refl)
      by_apply c rr true e1 e2 e3 e4 = rw e4 (
          inr (record {
            config = c;
            is_read = e1;
            rr = rr;
            one_record = e2;
            known_action = e3;
            applies = refl;
            edit =
                elim (apply-IsAllowed dns sys c.editable_zones inv today r.zone
                  (op_of r.action rr ∷ []) w) [
                    | inl u ↦ inl u.0
                    | inr (new, a, p) ↦ inr (new, a, p, refl)
                  ];
          }))

      by_record :
          (c : Config) (o : Option Rr)
          → cfg ≡ some c
          → parse_rr dns r.rr r.zone ≡ o
          → is_action r.action ≡ true
          → ((with_record dns sys inv today c.editable_zones r w o).1 ≡ w)
            ⊎ IsHelped cfg r w (with_record dns sys inv today c.editable_zones r w o).1
      by_record c none e1 e2 e3 = inl refl
      by_record c (some rr) e1 e2 e3 = by_apply c rr r.apply e1 e2 e3 refl

      by_config :
          (o : Option Config)
          → cfg ≡ o
          → is_action r.action ≡ true
          → ((with_config dns sys inv today r w o).1 ≡ w)
            ⊎ IsHelped cfg r w (with_config dns sys inv today r w o).1
      by_config none e1 e3 = inl refl
      by_config (some c) e1 e3 = by_record c (parse_rr dns r.rr r.zone) e1 refl e3
