-- ===== src/Store/Snapshots.antt =====
-- The zone history of internal/store/snapshots.go. The rows of the table stand newest first, the
-- order of `ORDER BY id DESC`.
pub mod History
use goddns.Base.{
  ℕ, zero, suc, ◌+◌, Bool, true, false, not, ◌&&◌, List, [], ◌∷◌, Option, none, some, ltb, leb,
  ◌==◌, if◌then◌else◌, filter, find?, take, map,
}
use goddns.Base.Strings.{Bytes, bytes, str_eq, to_lower, trim_space, trim_suffix}

pub record Snapshot : Type 0 where
  pub id : ℕ
  pub zone : Bytes
  pub serial : ℕ
  pub taken_at : ℕ
  pub content : Bytes

pub record SnapDb : Type 0 where
  pub rows : List Snapshot
  pub next_id : ℕ

-- `snapZone`.
unfoldable pub snap_zone : Bytes → Bytes
unfolding to_lower trim_space trim_suffix
snap_zone zone = trim_suffix (to_lower (trim_space zone)) (bytes ".")

abbrev pub of_zone : Bytes → Snapshot → Bool
of_zone z s = str_eq s.zone z

-- `DELETE … WHERE zone=? AND id NOT IN (SELECT id … ORDER BY id DESC LIMIT ?)`: of the zone's
-- rows the first `keep` stay.
unfoldable pub prune : Bytes → ℕ → List Snapshot → List Snapshot
prune z keep [] = []
prune z zero (s ∷ rows) = let rest = prune z zero rows in if of_zone z s then rest else s ∷ rest
prune z (suc keep) (s ∷ rows) = s ∷ prune z (if of_zone z s then keep else suc keep) rows

abbrev pub pruned : Bytes → ℕ → List Snapshot → List Snapshot
pruned z keep rows = if ltb 0 keep then prune z keep rows else rows

-- What a put adds.
abbrev pub put_row : ℕ → Bytes → ℕ → Bytes → SnapDb → Snapshot
put_row now zone serial content db = record {
  id = db.next_id;
  zone = snap_zone zone;
  serial = serial;
  taken_at = now;
  content = content;
}

-- `SnapshotPut`: the insert and the prune, in one transaction. It returns the new id.
unfoldable pub snapshot_put : ℕ → Bytes → ℕ → Bytes → ℕ → SnapDb → ℕ × SnapDb
unfolding prune
snapshot_put now zone serial content keep db =
    let row = put_row now zone serial content db in
    (
      db.next_id,
      record { rows = pruned (snap_zone zone) keep (row ∷ db.rows); next_id = db.next_id + 1 },
    )

-- `SnapshotLatest`.
unfoldable pub snapshot_latest : Bytes → SnapDb → Option Snapshot
snapshot_latest zone db = find? (of_zone (snap_zone zone)) db.rows

-- `SnapshotByID`.
unfoldable pub snapshot_by_id : ℕ → SnapDb → Option Snapshot
snapshot_by_id id db = find? (λ s. s.id == id) db.rows

-- `SnapshotList`, which leaves the content out.
abbrev pub without_content : Snapshot → Snapshot
without_content s = record s { content = [] }

unfoldable pub snapshot_list : Bytes → ℕ → SnapDb → List Snapshot
snapshot_list zone limit db =
    let rows = filter (of_zone (snap_zone zone)) db.rows in
    map without_content (if ltb 0 limit then take limit rows else rows)
