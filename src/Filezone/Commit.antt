-- ===== src/Filezone/Commit.antt =====
-- `commit`, `Apply` and `ReplaceRaw` of internal/filezone/filezone.go, with the state that they
-- change: the zone's file, its backups, and what named has loaded.
pub mod Safe
pub mod Allowed
use goddns.Base.{
  ℕ, Bool, true, false, not, ◌&&◌, ◌||◌, List, [], ◌∷◌, ◌++◌, Option, none, some, ltb, ◌==◌,
  if◌then◌else◌, is_empty,
}
use goddns.Base.Strings.{Bytes, str_eq}
use goddns.Base.Result.{Result, ok, err, ◌>>=◌, ◌>>◌, check}
use goddns.Dns.{DnsLib, Op}
use goddns.Zonefile.Edit.{Date}
use goddns.Named.{Zone, Inventory}
use goddns.Filezone.{
  FileError, no_lock, unreadable, rejected, changed_meanwhile, no_backup, not_written,
  reload_failed_restored, reload_failed_unrestored, not_verified, resolve, screen, compute,
  normalize_raw_serial, Diff, diff,
}

-- The content of the zone's file, the backups, oldest first, and what named serves.
pub record World : Type 0 where
  pub file : Bytes
  pub backups : List Bytes
  pub loaded : Bytes

-- What the system does around one call. `check_zone` is named-checkzone; `meanwhile` is what
-- another editor leaves in the file between the two reads, if it writes; `verify` is the check of
-- the served serial.
pub record System : Type 0 where
  pub lstat : Bytes → Option Bool
  pub lock_works : Bool
  pub read_works : Bool
  pub check_zone : Bytes → Bytes → Bool
  pub meanwhile : Option Bytes
  pub reread_works : Bool
  pub backup_works : Bool
  pub write_works : Bool
  pub reload_works : Bool
  pub restore_works : Bool
  pub verify : ℕ → Bool

abbrev pub left_by : Option Bytes → World → World
left_by none w = w
left_by (some other) w = record w { file = other }

-- The world at the second read.
abbrev pub at_reread : System → World → World
at_reread sys w = left_by sys.meanwhile w

module _ (dns : DnsLib) (sys : System) where
  abbrev pub reloaded : Bytes → Bytes → World → Diff dns → Result FileError (Diff dns) × World
  reloaded expected new w res =
      if not sys.reload_works
      then (if sys.restore_works
          then (err reload_failed_restored, record w { file = expected })
          else (err reload_failed_unrestored, w))
      else if not (sys.verify res.serial)
      then (err not_verified, record w { loaded = new })
      else (ok res, record w { loaded = new })

  abbrev pub written : Bytes → Bytes → Bytes → World → Result FileError (Diff dns) × World
  written zone expected new w =
      if not sys.write_works
      then (err not_written, w)
      else reloaded expected new (record w { file = new }) (diff dns zone expected new)

  abbrev pub backed_up : Bytes → Bytes → Bytes → World → Result FileError (Diff dns) × World
  backed_up zone expected new w =
      if not sys.backup_works
      then (err no_backup, w)
      else written zone expected new (record w { backups = w.backups ++ (expected ∷ []) })

  abbrev pub guarded : Bytes → Bytes → Bytes → World → Result FileError (Diff dns) × World
  guarded zone expected new w =
      if not sys.reread_works
      then (err unreadable, w)
      else if not (str_eq w.file expected)
      then (err changed_meanwhile, w)
      else backed_up zone expected new w

  -- `commit`.
  unfoldable pub commit : Bytes → Bytes → Bytes → World → Result FileError (Diff dns) × World
  unfolding str_eq diff
  commit zone expected new w =
      if not (sys.check_zone zone new)
      then (err rejected, w)
      else guarded zone expected new (at_reread sys w)

  abbrev pub committed :
      Bytes → Bytes → Result FileError Bytes → World → Result FileError (Diff dns) × World
  committed zone orig (err e) w = (err e, w)
  committed zone orig (ok new) w = commit zone orig new w

  module _ (allowed : List Bytes) (inv : Inventory) (today : Date) where
    -- What `Apply` does before it commits.
    unfoldable pub prepare : Bytes → List Op → Bytes → Result FileError Bytes
    unfolding resolve screen compute
    prepare zone ops orig =
        resolve allowed sys.lstat inv zone
        >>= (λ z. check sys.lock_works no_lock)
        >> check sys.read_works unreadable
        >> screen dns orig zone
        >> compute dns today zone orig ops

    -- `Apply`.
    unfoldable pub apply : Bytes → List Op → World → Result FileError (Diff dns) × World
    unfolding prepare commit
    apply zone ops w = committed zone w.file (prepare zone ops w.file) w

    abbrev pub same_base : Option Bytes → Bytes → Bool
    same_base none cur = true
    same_base (some base) cur = str_eq cur base

    unfoldable pub prepare_raw : Bytes → Bytes → Option Bytes → Bytes → Result FileError Bytes
    unfolding resolve screen normalize_raw_serial str_eq
    prepare_raw zone new base cur =
        resolve allowed sys.lstat inv zone
        >>= (λ z. check sys.lock_works no_lock)
        >> check sys.read_works unreadable
        >> screen dns cur zone
        >> check (same_base base cur) changed_meanwhile
        >> normalize_raw_serial dns today zone cur new

    -- `ReplaceRaw`; a nil base is `none`.
    unfoldable pub replace_raw :
        Bytes → Bytes → Option Bytes → World → Result FileError (Diff dns) × World
    unfolding prepare_raw commit
    replace_raw zone new base w = committed zone w.file (prepare_raw zone new base w.file) w
