-- ===== src/History.antt =====
-- Zone transfers, internal/named/axfr.go, and the capture of snapshots, internal/history/history.go. What
-- a transfer brings and what the database answers are arguments.
pub mod Diff
pub mod Steady
use Prim.Native.String.{String}
use goddns.Base.{
  ℕ, Bool, true, false, not, ◌&&◌, ◌||◌, List, [], ◌∷◌, ◌++◌, Option, none, some, ltb, leb, ◌==◌,
  if◌then◌else◌, is_empty, length,
}
use goddns.Base.Strings.{Bytes, bytes, str_eq, contains}
use goddns.Base.Result.{Result, ok, err}
use goddns.Base.Decimal.{show_nat}
use goddns.Dns.{Rr, Body, soa}
use goddns.Named.{
  Zone, Inventory, TsigKey, kind, user_zones, axfr_keys, serial_of, soa_of, canonical,
}
use goddns.Store.Snapshots.{Snapshot, SnapDb, snapshot_latest, snapshot_put}

-- What `dns.Transfer` brings: the records, or an error with its text.
abbrev pub Raw : Type 0
Raw = Result Bytes (List Rr)

abbrev pub max_records : ℕ
max_records = 1_000_000

abbrev pub is_soa : Rr → Bool
is_soa rr = elim (serial_of rr.body) [ none ↦ false | some n ↦ true ]

abbrev starts_soa : List Rr → Bool
starts_soa [] = false
starts_soa (rr ∷ rrs) = is_soa rr

-- The records without a last one that is a SOA.
unfoldable pub drop_last_soa : List Rr → List Rr
drop_last_soa [] = []
drop_last_soa (rr ∷ []) = if is_soa rr then [] else rr ∷ []
drop_last_soa (rr ∷ s ∷ rrs) = rr ∷ drop_last_soa (s ∷ rrs)

-- The text of an error of `Transfer`.
unfoldable pub axfr_error : Bytes → Bytes → Bytes → Bytes
axfr_error zone server text =
    bytes "axfr " ++ (zone ++ (bytes " from " ++ (server ++ (bytes ": " ++ text))))

abbrev pub framed : Bytes → Bytes → List Rr → Raw
framed zone server rrs =
    if ltb max_records (length rrs)
    then err (
        axfr_error zone server (
          bytes "zone exceeds 1000000 records " ++ (226 ∷ 128 ∷ 148 ∷ bytes " refusing to buffer")))
    else if is_empty rrs
    then err (axfr_error zone server (bytes "empty transfer"))
    else if leb 2 (length rrs) && starts_soa rrs
    then ok (drop_last_soa rrs)
    else ok rrs

abbrev pub with_frame : Bytes → Bytes → Raw → Raw
with_frame zone server (err text) = err (axfr_error zone server text)
with_frame zone server (ok rrs) = framed zone server rrs

-- `Transfer`, of a zone by its full name.
unfoldable pub transfer : Bytes → Bytes → Raw → Raw
unfolding drop_last_soa axfr_error show_nat
transfer zone server raw =
    if ltb 255 (length zone)
    then err
        (bytes "axfr: zone name too long (" ++ (show_nat (length zone) ++ bytes " > 255 octets)"))
    else with_frame zone server raw

-- `serverRefused`.
unfoldable pub server_refused : Bytes → Bool
unfolding contains
server_refused text = contains text (bytes "rcode")

-- The fallback to the keys: `answer` is the transfer with a key, `in_time` whether the deadline is still
-- ahead when a key's turn comes.
unfoldable pub try_keys :
    Bytes → Bytes → (Option TsigKey → Raw) → (TsigKey → Bool) → List TsigKey → Option (List Rr)
try_keys zone server answer in_time [] = none
try_keys zone server answer in_time (k ∷ ks) =
    let rest = try_keys zone server answer in_time ks in
    if not (in_time k)
    then none
    else elim (transfer zone server (answer (some k))) [ ok rrs ↦ some rrs | err text ↦ rest ]

abbrev pub or_keys :
    Bytes
    → Bytes
    → (Option TsigKey → Raw)
    → (TsigKey → Bool)
    → List TsigKey
    → Raw
    → Option (List Rr)
or_keys zone server answer in_time keys (ok rrs) = some rrs
or_keys zone server answer in_time keys (err text) =
    if server_refused text then try_keys zone server answer in_time keys else none

-- `TransferAuto`, for its records.
unfoldable pub transfer_auto :
    Bytes → Bytes → (Option TsigKey → Raw) → (TsigKey → Bool) → List TsigKey → Option (List Rr)
unfolding server_refused try_keys transfer
transfer_auto zone server answer in_time keys =
    or_keys zone server answer in_time keys (transfer zone server (answer none))

-- What the capture of one zone meets: the live serial, whether the store can be read and written, the
-- server, and the transfers.
pub record Answers : Type 0 where
  pub serial : Option ℕ
  pub reads : Bool
  pub writes : Bool
  pub server : Bytes
  pub answer : Option TsigKey → Raw
  pub in_time : TsigKey → Bool

abbrev serial_in : ℕ → Option Rr → ℕ
serial_in n none = n
serial_in n (some rr) = elim (serial_of rr.body) [ none ↦ n | some m ↦ m ]

abbrev pub has_serial : ℕ → Option Snapshot → Bool
has_serial n none = false
has_serial n (some s) = s.serial == n

abbrev pub put_records : Answers → ℕ → Bytes → ℕ → ℕ → SnapDb → Option (List Rr) → SnapDb
put_records a now zone keep n db none = db
put_records a now zone keep n db (some rrs) =
    if a.writes
    then (snapshot_put now zone (serial_in n (soa_of rrs)) (canonical rrs) keep db).1
    else db

-- `fqdn` is `dns.Fqdn`.
module _ (fqdn : Bytes → Bytes) where
  abbrev pub captured : Answers → ℕ → Zone → Inventory → Bytes → ℕ → SnapDb → Option ℕ → SnapDb
  captured a now z inv own keep db none = db
  captured a now z inv own keep db (some n) =
      if not a.reads
      then db
      else if has_serial n (snapshot_latest z.name db)
      then db
      else put_records a now z.name keep n db
          (transfer_auto (fqdn z.name) a.server a.answer a.in_time (axfr_keys inv (some z) own))

  -- `capture`, for a zone of an inventory and goddns's own key.
  unfoldable pub capture : Answers → ℕ → Zone → Inventory → Bytes → ℕ → SnapDb → SnapDb
  unfolding transfer_auto
  capture a now z inv own keep db = captured a now z inv own keep db a.serial

  abbrev pub is_master : Zone → Bool
  is_master z = str_eq (kind z) (bytes "static file") || str_eq (kind z) (bytes "dynamic")

  unfoldable pub capture_all :
      (Zone → Answers) → ℕ → Inventory → Bytes → ℕ → List Zone → SnapDb → SnapDb
  unfolding capture
  capture_all ask now inv own keep [] db = db
  capture_all ask now inv own keep (z ∷ zs) db =
      capture_all ask now inv own keep zs
        (if is_master z then capture (ask z) now z inv own keep db else db)

  -- `sweep`, on the inventory of the configuration; `keep` is 50 where it is not set.
  unfoldable pub sweep_zones : (Zone → Answers) → ℕ → Inventory → Bytes → ℕ → SnapDb → SnapDb
  unfolding capture_all
  sweep_zones ask now inv own keep db =
      capture_all ask now inv own (if keep == 0 then 50 else keep) (user_zones inv) db
