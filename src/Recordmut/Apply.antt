-- ===== src/Recordmut/Apply.antt =====
-- `Preview` and `Apply` of internal/recordmut/recordmut.go, with the state that they change: the
-- snapshot table, and the signed updates that were sent.
pub mod Guards
use goddns.Base.{
  ℕ, Bool, true, false, not, ◌&&◌, ◌||◌, List, [], ◌∷◌, ◌++◌, Option, none, some, ltb, ◌==◌,
  if◌then◌else◌,
}
use goddns.Base.Strings.{Bytes}
use goddns.Base.Result.{Result, ok, err, ◌>>=◌, ◌>>◌}
use goddns.Dns.{Rr, DnsLib, Op}
use goddns.Store.Snapshots.{SnapDb, snapshot_put}
use goddns.Named.{Zone, Inventory, serial_of, soa_of, canonical}
use goddns.Tsig.{HeldKey}
use goddns.Recordmut.{
  EditorError, no_transfer, no_snapshot, not_applied, Report, validate_zone, validate_ops,
  build_result,
}

-- An update: the zone, the key that signs it, and its operations.
pub record Sent : Type 0 where
  pub zone : Bytes
  pub key : HeldKey
  pub ops : List Op

pub record World : Type 0 where
  pub snaps : SnapDb
  pub sent : List Sent

-- What goes wrong around one call: the snapshot's write, the set-up of the backend, the update.
pub record Faults : Type 0 where
  pub snapshot_fails : Bool
  pub backend_fails : Bool
  pub update_fails : Bool

-- The fields of `Editor` that do not come from `named.conf`; without `has_store`, `Snap` is nil.
pub record Editor : Type 0 where
  pub keys : List HeldKey
  pub has_store : Bool
  pub keep : ℕ

abbrev pub serial_or_zero : Option Rr → ℕ
serial_or_zero none = 0
serial_or_zero (some rr) = elim (serial_of rr.body) [ none ↦ 0 | some n ↦ n ]

module _ (dns : DnsLib) (e : Editor) (inv : Inventory) where
  abbrev pub transferred :
      Bytes → List Op → Option (List Rr) → HeldKey → Result EditorError (HeldKey × List Rr)
  transferred zone ops none key = err no_transfer
  transferred zone ops (some live) key = validate_ops dns inv zone ops >> ok (key, live)

  -- `prepare`, with `transfer`: `live` is the outcome of the zone transfer.
  unfoldable pub prepare :
      Bytes → List Op → Option (List Rr) → Result EditorError (HeldKey × List Rr)
  unfolding validate_zone validate_ops
  prepare zone ops live =
      validate_zone e.keys inv zone >>= λ (z, key). transferred zone ops live key

  -- `Preview`.
  unfoldable pub preview : Bytes → List Op → Option (List Rr) → Result EditorError Report
  unfolding prepare build_result
  preview zone ops live =
      prepare zone ops live >>= λ (key, rrs). ok (build_result dns zone key.name ops rrs)

  abbrev pub send :
      Faults → Bytes → List Op → HeldKey → Report → World → Result EditorError Report × World
  send faults zone ops key res w =
      if faults.backend_fails
      then (err not_applied, w)
      else let asked = record w {
        sent = w.sent ++ (record { zone = zone; key = key; ops = ops } ∷ []);
      } in
        (if faults.update_fails then err not_applied else ok res, asked)

  abbrev pub with_snapshot : ℕ → Bytes → List Rr → World → ℕ × World
  with_snapshot now zone live w =
      let (id, snaps) =
        snapshot_put now zone (serial_or_zero (soa_of live)) (canonical live) e.keep w.snaps in
      (id, record w { snaps = snaps })

  abbrev pub snapshot_and_send :
      Faults → ℕ → Bytes → List Op → HeldKey → List Rr → World → Result EditorError Report × World
  snapshot_and_send faults now zone ops key live w =
      let res = build_result dns zone key.name ops live in
      let (id, w') = with_snapshot now zone live w in
      if not e.has_store
      then send faults zone ops key res w
      else if faults.snapshot_fails
      then (err no_snapshot, w)
      else send faults zone ops key (record res { snapshot = id }) w'

  abbrev pub prepared :
      Faults
      → ℕ
      → Bytes
      → List Op
      → Result EditorError (HeldKey × List Rr)
      → World
      → Result EditorError Report × World
  prepared faults now zone ops (err x) w = (err x, w)
  prepared faults now zone ops (ok (key, live)) w = snapshot_and_send faults now zone ops key live w

  -- `Apply`.
  unfoldable pub apply :
      Faults → ℕ → Bytes → List Op → Option (List Rr) → World → Result EditorError Report × World
  unfolding prepare build_result snapshot_put soa_of canonical
  apply faults now zone ops live w = prepared faults now zone ops (prepare zone ops live) w
