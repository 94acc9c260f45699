-- ===== src/Filezone/Preview.antt =====
-- What internal/filezone/filezone.go shows without writing: `Preview`, `PreviewRaw`, `ReadRaw`,
-- `PreflightEnable` and `ParseRR`, and the pruning of backups.
use goddns.Base.{
  ℕ, ◌-◌, Bool, true, false, List, [], ◌∷◌, Option, none, some, ◌≡◌, refl, ap, inl, inr, length,
  drop, Bool-cases,
}
use goddns.Base.Strings.{Bytes, str_eq}
use goddns.Base.Sort.{str_lt, sort_by}
use goddns.Base.Result.{Result, ok, err, ◌>>=◌, ◌>>◌, check}
use goddns.Dns.{DnsLib, Op, Rr}
use goddns.Zonefile.Edit.{Date}
use goddns.Zonefile.Parse.{File, parse}
use goddns.Named.{Zone, Inventory}
use goddns.Filezone.{
  FileError, no_lock, unreadable, changed_meanwhile, not_parsed, rejected, resolve, screen, compute,
  normalize_raw_serial, Diff, diff,
}
use goddns.Filezone.Commit.{
  World, System, at_reread, reloaded, commit, committed, prepare_raw, replace_raw, same_base,
}

abbrev first_rr : List Rr × Option Bytes → Option Rr
first_rr ([], stopped) = none
first_rr (rr ∷ rrs, stopped) = some rr

-- `ParseRR`: the first record of the line, if the parser reads one.
unfoldable pub parse_rr : DnsLib → Bytes → Bytes → Option Rr
parse_rr dns line zone = first_rr (dns.parse_zone line (dns.fqdn zone))

-- `pruneBackups`: of the names, sorted, all but the last `keep` are removed.
unfoldable pub prune_backups : ℕ → List Bytes → List Bytes
prune_backups keep names = let sorted = sort_by str_lt names in drop (length sorted - keep) sorted

module _ (dns : DnsLib) (sys : System) (allowed : List Bytes) (inv : Inventory) (today : Date) where
  unfoldable pub computed : Bytes → List Op → Bytes → Result FileError Bytes
  computed zone ops orig =
      resolve allowed sys.lstat inv zone
      >>= (λ z. check sys.read_works unreadable)
      >> screen dns orig zone
      >> compute dns today zone orig ops

  -- `Preview`, on the content of the file.
  unfoldable pub preview_file : Bytes → List Op → Bytes → Result FileError (Diff dns)
  unfolding computed
  preview_file zone ops orig = computed zone ops orig >>= λ new. ok (diff dns zone orig new)

  unfoldable pub normalized : Bytes → Bytes → Bytes → Result FileError Bytes
  normalized zone new cur =
      resolve allowed sys.lstat inv zone
      >>= (λ z. check sys.read_works unreadable)
      >> screen dns cur zone
      >> normalize_raw_serial dns today zone cur new

  -- `PreviewRaw`, with the content that a `ReplaceRaw` takes as its base.
  unfoldable pub preview_raw : Bytes → Bytes → Bytes → Result FileError (Diff dns × Bytes)
  unfolding normalized
  preview_raw zone new cur = normalized zone new cur >>= λ out.
      check (sys.check_zone zone out) rejected >> ok (diff dns zone cur out, cur)

  -- `ReadRaw`.
  unfoldable pub read_raw : Bytes → Bytes → Result FileError Bytes
  read_raw zone cur =
      resolve allowed sys.lstat inv zone >>= (λ z. check sys.read_works unreadable) >> ok cur

  abbrev is_parsed : Result Bytes File → Bool
  is_parsed (err e) = false
  is_parsed (ok f) = true

  -- `PreflightEnable`: the zone counts as if it were on the allowlist.
  unfoldable pub preflight_enable : Bytes → Bytes → Result FileError Bytes
  preflight_enable zone orig = do
    z ← resolve (zone ∷ []) sys.lstat inv zone
    check sys.read_works unreadable
    screen dns orig zone
    check (is_parsed (parse dns orig zone)) not_parsed
    ok z.path

  reloaded-ok :
      (expected new : Bytes) (w : World) (d res : Diff dns)
      → (reloaded dns sys expected new w d).0 ≡ ok res
      → d ≡ res
  reloaded-ok expected new w d res e = elim (Bool-cases sys.reload_works) [
    | inr f ↦ elim (Bool-cases sys.restore_works) [
      | inl g ↦ cc (rw (f, g) at e)
      | inr g ↦ cc (rw (f, g) at e)
    ]
    | inl f ↦ elim (Bool-cases (sys.verify d.serial)) [
      | inl g ↦ cc (rw (f, g) at e)
      | inr g ↦ cc (rw (f, g) at e)
    ]
  ]

  commit-ok :
      (zone expected new : Bytes) (w : World) (res : Diff dns)
      → (commit dns sys zone expected new w).0 ≡ ok res
      → (sys.check_zone zone new ≡ true) × (diff dns zone expected new ≡ res)
  unfolding commit
  commit-ok zone expected new w res e = elim (Bool-cases (sys.check_zone zone new)) [
    | inr c ↦ cc (rw c at e)
    | inl c ↦ elim (Bool-cases sys.reread_works) [
      | inr r ↦ cc (rw (c, r) at e)
      | inl r ↦ elim (Bool-cases (str_eq (at_reread sys w).file expected)) [
        | inr s ↦ cc (rw (c, r, s) at e)
        | inl s ↦ elim (Bool-cases sys.backup_works) [
          | inr b ↦ cc (rw (c, r, s, b) at e)
          | inl b ↦ elim (Bool-cases sys.write_works) [
            | inr t ↦ cc (rw (c, r, s, b, t) at e)
            | inl t ↦ (c, reloaded-ok expected new _ _ res (rw (c, r, s, b, t) at e))
          ]
        ]
      ]
    ]
  ]

  skip_base :
      (r : Result FileError Zone) (b c : Bool) (s : Result FileError (Unit {0})) (d : Bool)
      (k : Result FileError Bytes) (v : Bytes)
      → (r >>= (λ z. check b no_lock) >> check c unreadable >> s >> check d changed_meanwhile >> k)
        ≡ ok v
      → (r >>= (λ z. check c unreadable) >> s >> k) ≡ ok v
  skip_base (err x) b c s d k v h = cc
  skip_base (ok z) false c s d k v h = cc
  skip_base (ok z) true false s d k v h = cc
  skip_base (ok z) true true (err x) d k v h = cc
  skip_base (ok z) true true (ok u) false k v h = cc
  skip_base (ok z) true true (ok u) true k v h = h

  -- What `ReplaceRaw` reports when it succeeds, with whatever base, is what `PreviewRaw` shows of the same
  -- file, and `PreviewRaw` gives that file's content as the base.
  pub preview_raw-replace_raw :
      (zone new : Bytes) (base : Option Bytes) (w : World) (res : Diff dns)
      → (replace_raw dns sys allowed inv today zone new base w).0 ≡ ok res
      → preview_raw zone new w.file ≡ ok (res, w.file)
  unfolding replace_raw preview_raw normalized prepare_raw
  preview_raw-replace_raw zone new base w res =
      from (prepare_raw dns sys allowed inv today zone new base w.file) refl
    where
      from :
          (r : Result FileError Bytes)
          → prepare_raw dns sys allowed inv today zone new base w.file ≡ r
          → (committed dns sys zone w.file r w).0 ≡ ok res
          → preview_raw zone new w.file ≡ ok (res, w.file)
      from (err x) p e = cc
      from (ok out) p e =
          let c = commit-ok zone w.file out w res e in
          rw
            (
              skip_base (resolve allowed sys.lstat inv zone) sys.lock_works sys.read_works
                  (screen dns w.file zone) (same_base dns sys allowed inv today base w.file)
                  (normalize_raw_serial dns today zone w.file new) out p,
              c.0,
            )
            (ap (λ d. ok (d, w.file)) c.1)
