-- ===== src/Store/Snapshots/History.antt =====
-- The table of snapshots is a bounded history for each zone.
use goddns.Base.{
  ℕ, zero, suc, ◌+◌, ◌<◌, List, [], ◌∷◌, some, ◌≡◌, ◌≢◌, refl, arith, ltb, ◌==◌, if◌then◌else◌,
  filter, find?, take, All,
}
use goddns.Base.Strings.{Bytes, str_eq_iff, str_eq_refl}
use goddns.Store.Snapshots.{
  Snapshot, SnapDb, snap_zone, of_zone, prune, pruned, snapshot_put, snapshot_latest,
  snapshot_by_id, put_row,
}

-- The snapshots of a zone, newest first.
unfoldable pub history : Bytes → SnapDb → List Snapshot
history zone db = filter (of_zone (snap_zone zone)) db.rows

filter-prune_self :
    (z : Bytes) (keep : ℕ) (rows : List Snapshot)
    → filter (of_zone z) (prune z keep rows) ≡ take keep (filter (of_zone z) rows)
unfolding prune
filter-prune_self z zero [] = refl
filter-prune_self z (suc keep) [] = refl
filter-prune_self z zero (s ∷ rows) = ground (arith, filter-prune_self z zero rows)
filter-prune_self z (suc keep) (s ∷ rows) =
    ground (arith, filter-prune_self z keep rows, filter-prune_self z (suc keep) rows)

filter-prune_other :
    (z y : Bytes) (keep : ℕ) (rows : List Snapshot)
    → y ≢ z
    → filter (of_zone y) (prune z keep rows) ≡ filter (of_zone y) rows
unfolding prune
filter-prune_other z y zero [] ne = refl
filter-prune_other z y (suc keep) [] ne = refl
filter-prune_other z y zero (s ∷ rows) ne =
    ground (arith, filter-prune_other z y zero rows ne, str_eq_iff s.zone z, str_eq_iff s.zone y)
filter-prune_other z y (suc keep) (s ∷ rows) ne =
    ground (arith, filter-prune_other z y keep rows ne, filter-prune_other z y (suc keep) rows ne)

-- A put adds its snapshot to its zone's history, which is then cut to the newest `keep` (0 keeps
-- all), and leaves every other zone's history as it was.
pub history-snapshot_put :
    (now : ℕ) (zone : Bytes) (serial : ℕ) (content : Bytes) (keep : ℕ) (db : SnapDb)
    → let grown = put_row now zone serial content db ∷ history zone db in
      let db' = (snapshot_put now zone serial content keep db).1 in
      (history zone db' ≡ (if ltb 0 keep then take keep grown else grown))
      × ((other : Bytes) → snap_zone other ≢ snap_zone zone → history other db' ≡ history other db)
unfolding history snapshot_put
history-snapshot_put now zone serial content keep db =
    let row = put_row now zone serial content db in
    let z = snap_zone zone in
    (
      ground (arith, filter-prune_self z keep (row ∷ db.rows), str_eq_refl z),
      λ other ne. ground (
        arith,
        filter-prune_other z (snap_zone other) keep (row ∷ db.rows) ne,
        str_eq_iff z (snap_zone other),
      ),
    )

find?-prune :
    (z : Bytes) (keep : ℕ) (s : Snapshot) (rows : List Snapshot)
    → s.zone ≡ z
    → find? (of_zone z) (pruned z keep (s ∷ rows)) ≡ some s
unfolding prune
find?-prune z zero s rows e = ground (arith, str_eq_iff s.zone z)
find?-prune z (suc keep) s rows e = ground (arith, str_eq_iff s.zone z)

-- The latest snapshot of a zone is the one that was just put, whatever `keep`.
pub snapshot_latest-snapshot_put :
    (now : ℕ) (zone : Bytes) (serial : ℕ) (content : Bytes) (keep : ℕ) (db : SnapDb)
    → snapshot_latest zone (snapshot_put now zone serial content keep db).1
      ≡ some (put_row now zone serial content db)
unfolding snapshot_latest snapshot_put
snapshot_latest-snapshot_put now zone serial content keep db =
    find?-prune (snap_zone zone) keep (put_row now zone serial content db) db.rows refl

abbrev pub IdsBelow : ℕ → List Snapshot → Type 0
IdsBelow n = All (λ s. s.id < n)

below_suc : (n : ℕ) (rows : List Snapshot) → IdsBelow n rows → IdsBelow (n + 1) rows
below_suc n [] b = tt
below_suc n (s ∷ rows) b = (omega (arith, b.0), below_suc n rows b.1)

IdsBelow-prune :
    (z : Bytes) (keep n : ℕ) (rows : List Snapshot)
    → IdsBelow n rows
    → IdsBelow n (prune z keep rows)
unfolding prune
IdsBelow-prune z zero n [] b = tt
IdsBelow-prune z (suc keep) n [] b = tt
IdsBelow-prune z zero n (s ∷ rows) b = ground (arith, b.0, IdsBelow-prune z zero n rows b.1)
IdsBelow-prune z (suc keep) n (s ∷ rows) b =
    ground (arith, b.0, IdsBelow-prune z keep n rows b.1, IdsBelow-prune z (suc keep) n rows b.1)

-- A put keeps all ids below the next one, and its own id then finds its snapshot.
pub snapshot_put-IdsBelow :
    (now : ℕ) (zone : Bytes) (serial : ℕ) (content : Bytes) (keep : ℕ) (db : SnapDb)
    → IdsBelow db.next_id db.rows
    → let db' = (snapshot_put now zone serial content keep db).1 in
      IdsBelow db'.next_id db'.rows
      × (snapshot_by_id db.next_id db' ≡ some (put_row now zone serial content db))
unfolding snapshot_put snapshot_by_id
snapshot_put-IdsBelow now zone serial content keep db b =
    let row = put_row now zone serial content db in
    let z = snap_zone zone in
    (
      ground (
        arith,
        below_suc db.next_id db.rows b,
        IdsBelow-prune z keep (db.next_id + 1) (row ∷ db.rows),
      ),
      by_id keep,
    )
  where
    by_id :
        (keep : ℕ)
        → find?
            (λ s. s.id == db.next_id)
            (pruned (snap_zone zone) keep (put_row now zone serial content db ∷ db.rows))
          ≡ some (put_row now zone serial content db)
    by_id zero = ground arith
    by_id (suc keep) = unfold prune in ground arith
