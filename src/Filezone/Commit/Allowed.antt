-- ===== src/Filezone/Commit/Allowed.antt =====
-- Which edits `Apply` of internal/filezone/filezone.go lets through, and what they write.
use goddns.Base.{
  Bool, true, false, not, List, [], ◌∷◌, Option, none, some, ◌≡◌, ◌≢◌, refl, subst, ◌⊎◌, inl, inr,
  is_empty, All,
}
use goddns.Base.Strings.{Bytes}
use goddns.Base.Result.{Result, ok, err, ◌>>=◌, ◌>>◌, check, bind-eq-ok, check-eq-ok}
use goddns.Dns.{Rr, DnsLib, Op}
use goddns.Zonefile.Parse.{File, parse}
use goddns.Zonefile.Edit.{Date, EditError, edit}
use goddns.Zonefile.Edit.Outcome.{Outcome, edit-Outcome}
use goddns.Named.{Zone, Inventory, zone_by_name, signed}
use goddns.Filezone.{
  FileError, not_editable, not_master, is_dynamic, not_enabled, no_path, panel_path, no_lock,
  unreadable, panel_managed, is_signed, not_parsed, is_master, is_editable, on_panel_path,
  panel_marked, lstat_ok, resolved, resolve, is_some, screen, in_zone, all_in_zone, edited, compute,
  Diff,
}
use goddns.Filezone.Commit.{World, System, prepare, apply, committed}
use goddns.Filezone.Commit.Safe.{Replaced, Untouched, commit-Safe}

module _ (dns : DnsLib) (sys : System) (allowed : List Bytes) (inv : Inventory) (today : Date)
    (zone : Bytes) where
  -- The zone is in the configuration, a static master zone on the allowlist, and its file is no
  -- symlink and not in a panel's tree.
  pub record IsOurs (z : Zone) : Type 0 where
    pub known : zone_by_name zone inv ≡ some z
    pub master : is_master z ≡ true
    pub static : not z.dynamic ≡ true
    pub enabled : is_editable allowed zone ≡ true
    pub has_path : not (is_empty z.path) ≡ true
    pub no_link : sys.lstat z.path ≡ some false
    pub no_panel : not (on_panel_path z.path) ≡ true

  lstat_ok-inv : (o : Option Bool) → lstat_ok o ≡ ok tt → o ≡ some false
  lstat_ok-inv none h = cc
  lstat_ok-inv (some true) h = cc
  lstat_ok-inv (some false) h = refl

  resolved-IsOurs :
      (o : Option Zone) (z : Zone)
      → zone_by_name zone inv ≡ o
      → resolved allowed sys.lstat zone o ≡ ok z
      → IsOurs z
  resolved-IsOurs none z k r = cc
  resolved-IsOurs (some y) z k r =
      let (is, master, static, enabled, path, link, panel) =
        chain (is_master y) (not y.dynamic) (is_editable allowed zone) (not (is_empty y.path))
          (lstat_ok (sys.lstat y.path)) (not (on_panel_path y.path)) y r in
      subst (λ (x : Zone). IsOurs x) is
        (record {
          known = k;
          master = master;
          static = static;
          enabled = enabled;
          has_path = path;
          no_link = lstat_ok-inv (sys.lstat y.path) link;
          no_panel = panel;
        })
    where
      chain :
          (a b c d : Bool) (m : Result FileError (Unit {0})) (e : Bool) (y : Zone)
          → (check a not_master
              >> check b is_dynamic
              >> check c not_enabled
              >> check d no_path
              >> m
              >> check e panel_path
              >> ok y)
            ≡ ok z
          → (y ≡ z) × (a ≡ true) × (b ≡ true) × (c ≡ true) × (d ≡ true) × (m ≡ ok tt) × (e ≡ true)
      chain true true true true (ok tt) true y h = (cc, refl, refl, refl, refl, refl, refl)
      chain true true true true (ok tt) false y h = cc
      chain true true true true (err x) e y h = cc
      chain true true true false m e y h = cc
      chain true true false d m e y h = cc
      chain true false c d m e y h = cc
      chain false b c d m e y h = cc

  -- Every operation's record lies in the zone.
  abbrev pub InZone : Op → Type 0
  InZone op = (rr : Rr) × (op.rr ≡ some rr) × (dns.is_sub_domain (dns.fqdn zone) rr.name ≡ true)

  in_zone-InZone :
      (op : Op) (o : Option Rr) → op.rr ≡ o → in_zone dns (dns.fqdn zone) o ≡ ok tt → InZone op
  in_zone-InZone op none is h = cc
  in_zone-InZone op (some rr) is h =
      (rr, is, check-eq-ok (dns.is_sub_domain (dns.fqdn zone) rr.name) _ h)

  all_in_zone-InZone :
      (ops : List Op) → all_in_zone dns (dns.fqdn zone) ops ≡ ok tt → All InZone ops
  unfolding all_in_zone
  all_in_zone-InZone [] h = tt
  all_in_zone-InZone (op ∷ ops) h =
      let (u, first, rest) =
        bind-eq-ok (in_zone dns (dns.fqdn zone) op.rr) (λ _. all_in_zone dns (dns.fqdn zone) ops)
          h in
      (in_zone-InZone op op.rr refl first, all_in_zone-InZone ops rest)

  edited-inv :
      (ops : List Op) (r : Result Bytes File) (new : Bytes)
      → edited dns today ops r ≡ ok new
      → (f : File) × (r ≡ ok f) × (edit dns today f ops ≡ ok new)
  edited-inv ops (err e) new h = cc
  edited-inv ops (ok f) new h = (f, refl, unwrap (edit dns today f ops) h)
    where
      unwrap :
          (m : Result EditError Bytes)
          → elim m as (λ _. Result FileError Bytes) [
            | err e ↦ err (not_editable e)
            | ok out ↦ ok out
          ]
            ≡ ok new
          → m ≡ ok new
      unwrap (err e) h = cc
      unwrap (ok out) h = cc

  -- An edit that `Apply` lets through, with the file that it parsed and what the edit keeps of it.
  pub record IsAllowed (ops : List Op) (orig new : Bytes) : Type 0 where
    pub z : Zone
    pub ours : IsOurs z
    pub no_marker : not (panel_marked orig) ≡ true
    pub unsigned : not (signed (dns.parse_zone orig (dns.fqdn zone)).0).0 ≡ true
    pub readable : not (is_some dns (dns.parse_zone orig (dns.fqdn zone)).1) ≡ true
    pub in_bailiwick : All InZone ops
    pub f : File
    pub parsed : parse dns orig zone ≡ ok f
    pub outcome : Outcome dns today f ops new

  prepare-IsAllowed :
      (ops : List Op) (orig new : Bytes)
      → prepare dns sys allowed inv today zone ops orig ≡ ok new
      → IsAllowed ops orig new
  unfolding prepare resolve screen compute
  prepare-IsAllowed ops orig new p =
      let got = dns.parse_zone orig (dns.fqdn zone) in
      let (z, zone_ok, marker, sig, whole, inside, run) =
        chain (resolve allowed sys.lstat inv zone) sys.lock_works sys.read_works
          (not (panel_marked orig)) (not (signed got.0).0) (not (is_some dns got.1))
          (all_in_zone dns (dns.fqdn zone) ops) (edited dns today ops (parse dns orig zone)) p in
      let (f, parsed, done) = edited-inv ops (parse dns orig zone) new run in
      record {
        z = z;
        ours = resolved-IsOurs (zone_by_name zone inv) z refl zone_ok;
        no_marker = marker;
        unsigned = sig;
        readable = whole;
        in_bailiwick = all_in_zone-InZone ops inside;
        f = f;
        parsed = parsed;
        outcome = edit-Outcome dns today orig zone f ops new parsed done;
      }
    where
      chain :
          (r : Result FileError Zone) (a b c d e : Bool) (m : Result FileError (Unit {0}))
          (k : Result FileError Bytes)
          → ((r >>= λ z. check a no_lock)
              >> check b unreadable
              >> (check c panel_managed >> check d is_signed >> check e not_parsed)
              >> (m >> k))
            ≡ ok new
          → (z : Zone) × (r ≡ ok z)
            × (c ≡ true)
            × (d ≡ true)
            × (e ≡ true)
            × (m ≡ ok tt)
            × (k ≡ ok new)
      chain (ok z) true true true true true (ok tt) k h = (z, refl, refl, refl, refl, refl, h)
      chain (ok z) true true true true true (err x) k h = cc
      chain (ok z) true true true true false m k h = cc
      chain (ok z) true true true false e m k h = cc
      chain (ok z) true true false d e m k h = cc
      chain (ok z) true false c d e m k h = cc
      chain (ok z) false b c d e m k h = cc
      chain (err x) a b c d e m k h = cc

  -- `Apply` changes the file of a zone only if the configuration has it as a static master zone on
  -- the allowlist, with a file that is no symlink, in no panel's tree, without a panel's mark, free
  -- of signatures and wholly readable, and if every operation lies in the zone. What it writes is
  -- then the outcome of the edit, in which every line that is not blank and that no operation
  -- deletes is kept, with the next serial in the serial's place, and it writes as safely as a
  -- commit does. Otherwise the file is untouched and the call fails.
  pub apply-IsAllowed :
      (ops : List Op) (w : World)
      → let p = apply dns sys allowed inv today zone ops w in
        (Untouched dns sys zone w.file [] w p.1 × ((d : Diff dns) → p.0 ≢ ok d))
        ⊎ ((new : Bytes) × IsAllowed ops w.file new × Replaced dns sys zone w.file new w p)
  unfolding apply
  apply-IsAllowed ops w = from (prepare dns sys allowed inv today zone ops w.file) refl
    where
      from :
          (r : Result FileError Bytes)
          → prepare dns sys allowed inv today zone ops w.file ≡ r
          → (Untouched dns sys zone w.file [] w (committed dns sys zone w.file r w).1
              × ((d : Diff dns) → (committed dns sys zone w.file r w).0 ≢ ok d))
            ⊎ ((new : Bytes) × IsAllowed ops w.file new
                × Replaced dns sys zone w.file new w (committed dns sys zone w.file r w))
      from (err e) is = inl (inl refl, λ d h. cc h)
      from (ok new) is = elim (commit-Safe dns sys zone w.file new w) [
        | inl untouched ↦ inl untouched
        | inr replaced ↦ inr (new, prepare-IsAllowed ops w.file new is, replaced)
      ]
