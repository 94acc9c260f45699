-- ===== src/Filezone/Commit/Safe.antt =====
-- What an edit of a zone's file may do to the file.
use goddns.Base.{
  Bool, true, false, not, List, [], ◌∷◌, ◌++◌, Option, none, some, ◌≡◌, ◌≢◌, refl, sym, ap, ◌⊎◌,
  inl, inr, if◌then◌else◌,
}
use goddns.Base.Strings.{Bytes, str_eq, str_eq_iff}
use goddns.Base.Result.{Result, ok, err}
use goddns.Dns.{DnsLib}
use goddns.Filezone.{
  FileError, rejected, unreadable, changed_meanwhile, no_backup, not_written,
  reload_failed_restored, reload_failed_unrestored, not_verified, Diff, diff,
}
use goddns.Filezone.Commit.{
  World, System, left_by, at_reread, reloaded, written, backed_up, guarded, commit,
}

module _ (dns : DnsLib) (sys : System) (zone expected new : Bytes) (w : World) where
  -- The file was replaced: by content that named-checkzone passed, over the content that the edit
  -- was based on, which was backed up; and named loaded it, or the call reports that it could
  -- neither reload nor restore.
  pub record Replaced (p : Result FileError (Diff dns) × World) : Type 0 where
    pub checked : sys.check_zone zone new ≡ true
    pub unmoved : (at_reread sys w).file ≡ expected
    pub backup : p.1.backups ≡ w.backups ++ (expected ∷ [])
    pub file_is : p.1.file ≡ new
    pub loaded : (p.1.loaded ≡ new) ⊎ (p.0 ≡ err reload_failed_unrestored)

  -- The file is as it was, or as another editor left it.
  abbrev pub Untouched : World → Type 0
  Untouched w' = (w'.file ≡ w.file) ⊎ (w'.file ≡ (at_reread sys w).file)

  -- Or the file is untouched, and the call fails.
  abbrev pub Safe : Result FileError (Diff dns) × World → Type 0
  Safe p = (Untouched p.1 × ((d : Diff dns) → p.0 ≢ ok d)) ⊎ Replaced p

  pick :
      (b : Bool) (x y : Result FileError (Diff dns) × World)
      → (b ≡ true → Safe x)
      → (b ≡ false → Safe y)
      → Safe (if b then x else y)
  pick true x y p q = p refl
  pick false x y p q = q refl

  failed : (e : FileError) (w' : World) → Untouched w' → Safe (err e, w')
  failed e w' same = inl (same, λ d h. cc h)

  negated : (b : Bool) → not b ≡ false → b ≡ true
  negated true h = refl
  negated false h = cc

  reloaded-Safe :
      (w' : World) (res : Diff dns)
      → sys.check_zone zone new ≡ true
      → (at_reread sys w).file ≡ expected
      → w'.backups ≡ w.backups ++ (expected ∷ [])
      → w'.file ≡ new
      → Safe (reloaded dns sys expected new w' res)
  reloaded-Safe w' res c u b f =
      let loaded : World = record w' { loaded = new } in
      let restored : World = record w' { file = expected } in
      pick (not sys.reload_works)
        (if sys.restore_works
          then (err reload_failed_restored, restored)
          else (err reload_failed_unrestored, w'))
        (if not (sys.verify res.serial) then (err not_verified, loaded) else (ok res, loaded))
        (λ h.
          pick sys.restore_works (err reload_failed_restored, restored)
            (err reload_failed_unrestored, w')
            (λ h. failed reload_failed_restored restored (inr (sym u)))
            (λ h.
              inr
                (record { checked = c; unmoved = u; backup = b; file_is = f; loaded = inr refl })))
        (λ h.
          pick (not (sys.verify res.serial)) (err not_verified, loaded) (ok res, loaded)
            (λ h.
              inr (record { checked = c; unmoved = u; backup = b; file_is = f; loaded = inl refl }))
            (λ h.
              inr
                (record { checked = c; unmoved = u; backup = b; file_is = f; loaded = inl refl })))

  backups_kept : (at_reread sys w).backups ≡ w.backups
  backups_kept = kept sys.meanwhile
    where
      kept : (o : Option Bytes) → (left_by o w).backups ≡ w.backups
      kept none = refl
      kept (some other) = refl

  -- A commit replaces the file only by content that passed named-checkzone, only if the file still
  -- has the content that the edit was based on, and only with that content in a backup; then named
  -- has loaded the new content, or the call reports that it could neither reload nor restore. In
  -- every other case the call fails and the file is as it was or as another editor left it.
  pub commit-Safe : Safe (commit dns sys zone expected new w)
  unfolding commit
  commit-Safe =
      let now : World = at_reread sys w in
      let saved : World = record now { backups = now.backups ++ (expected ∷ []) } in
      let put : World = record saved { file = new } in
      pick (not (sys.check_zone zone new)) (err rejected, w) (guarded dns sys zone expected new now)
        (λ h. failed rejected w (inl refl))
        (λ c.
          pick (not sys.reread_works) (err unreadable, now)
            (if not (str_eq now.file expected)
              then (err changed_meanwhile, now)
              else backed_up dns sys zone expected new now)
            (λ h. failed unreadable now (inr refl))
            (λ h.
              pick (not (str_eq now.file expected)) (err changed_meanwhile, now)
                (backed_up dns sys zone expected new now)
                (λ h. failed changed_meanwhile now (inr refl))
                (λ u.
                  pick (not sys.backup_works) (err no_backup, now)
                    (written dns sys zone expected new saved) (λ h. failed no_backup now (inr refl))
                    (λ h.
                      pick (not sys.write_works) (err not_written, saved)
                        (reloaded dns sys expected new put (diff dns zone expected new))
                        (λ h. failed not_written saved (inr refl))
                        (λ h.
                          reloaded-Safe put (diff dns zone expected new)
                            (negated (sys.check_zone zone new) c)
                            ((str_eq_iff now.file expected).0
                              (negated (str_eq now.file expected) u))
                            (ap (λ (b : List Bytes). b ++ (expected ∷ [])) backups_kept) refl)))))
