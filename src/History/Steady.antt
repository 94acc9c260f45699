-- ===== src/History/Steady.antt =====
-- What the capture of snapshots does to the histories of the zones, and when a transfer asks for keys.
use goddns.Base.{
  ℕ, zero, suc, ◌≤◌, true, List, [], ◌∷◌, Option, none, some, ltb, ◌==◌, ==_refl, ◌≡◌, refl, sym,
  ap, ◌∙◌, subst, arith, inl, inr, if◌then◌else◌, length, take, filter, Bool-cases,
}
use goddns.Base.Strings.{Bytes, str_eq, str_eq_iff}
use goddns.Dns.{Rr}
use goddns.Named.{Zone, Inventory, user_zones, axfr_keys, soa_of, canonical}
use goddns.Store.Snapshots.{
  Snapshot, SnapDb, of_zone, snap_zone, snapshot_latest, snapshot_put, put_row,
}
use goddns.Store.Snapshots.History.{history, history-snapshot_put, snapshot_latest-snapshot_put}
use goddns.History.{
  Answers, transfer_auto, serial_in, has_serial, put_records, captured, capture, is_master,
  capture_all, sweep_zones,
}

-- A history within a bound.
abbrev pub IsBounded : ℕ → SnapDb → Type 0
IsBounded k db = (zone : Bytes) → length (history zone db) ≤ k

length-take : (k : ℕ) (xs : List Snapshot) → length (take k xs) ≤ k
length-take zero xs = ground arith
length-take (suc k) [] = ground arith
length-take (suc k) (x ∷ xs) = ground (arith, length-take k xs)

history_same : (a b : Bytes) (db : SnapDb) → snap_zone a ≡ snap_zone b → history a db ≡ history b db
unfolding history
history_same a b db e = ap (λ z. filter (of_zone z) db.rows) e

snapshot_put-IsBounded :
    (now : ℕ) (zone : Bytes) (serial : ℕ) (content : Bytes) (keep : ℕ) (db : SnapDb)
    → ltb 0 keep ≡ true
    → IsBounded keep db
    → IsBounded keep (snapshot_put now zone serial content keep db).1
snapshot_put-IsBounded now zone serial content keep db h b other =
    let (self, others) = history-snapshot_put now zone serial content keep db in
    let grown = put_row now zone serial content db ∷ history zone db in
    elim (Bool-cases (str_eq (snap_zone other) (snap_zone zone))) [
      | inl e ↦
          let same =
            history_same other zone (snapshot_put now zone serial content keep db).1
              ((str_eq_iff (snap_zone other) (snap_zone zone)).0 e) in
          subst (λ rows. length rows ≤ keep) (sym (same ∙ rw h at self)) (length-take keep grown)
      | inr e ↦
          subst (λ rows. length rows ≤ keep)
            (sym (
              others other
                (λ same. ground (arith, e, str_eq_iff (snap_zone other) (snap_zone zone)))))
            (b other)
    ]

put_records-IsBounded :
    (a : Answers) (now : ℕ) (zone : Bytes) (keep n : ℕ) (db : SnapDb) (o : Option (List Rr))
    → ltb 0 keep ≡ true
    → IsBounded keep db
    → IsBounded keep (put_records a now zone keep n db o)
put_records-IsBounded a now zone keep n db none h b = b
put_records-IsBounded a now zone keep n db (some rrs) h b = elim (Bool-cases a.writes) [
  | inl e ↦ rw e (snapshot_put-IsBounded now zone _ _ keep db h b)
  | inr e ↦ rw e b
]

module _ (fqdn : Bytes → Bytes) where
  capture-IsBounded :
      (a : Answers) (now : ℕ) (z : Zone) (inv : Inventory) (own : Bytes) (keep : ℕ) (db : SnapDb)
      → ltb 0 keep ≡ true
      → IsBounded keep db
      → IsBounded keep (capture fqdn a now z inv own keep db)
  unfolding capture
  capture-IsBounded a now z inv own keep db h b = by_serial a.serial
    where
      by_serial : (o : Option ℕ) → IsBounded keep (captured fqdn a now z inv own keep db o)
      by_serial none = b
      by_serial (some n) = elim (Bool-cases a.reads) [
        | inr e ↦ rw e b
        | inl e ↦ elim (Bool-cases (has_serial n (snapshot_latest z.name db))) [
          | inl f ↦ rw (e, f) b
          | inr f ↦ rw (e, f) (put_records-IsBounded a now z.name keep n db _ h b)
        ]
      ]

  capture_all-IsBounded :
      (ask : Zone → Answers) (now : ℕ) (inv : Inventory) (own : Bytes) (keep : ℕ) (zs : List Zone)
      (db : SnapDb)
      → ltb 0 keep ≡ true
      → IsBounded keep db
      → IsBounded keep (capture_all fqdn ask now inv own keep zs db)
  unfolding capture_all
  capture_all-IsBounded ask now inv own keep [] db h b = b
  capture_all-IsBounded ask now inv own keep (z ∷ zs) db h b =
      elim (Bool-cases (is_master fqdn z)) [
        | inl e ↦ rw e (
            capture_all-IsBounded ask now inv own keep zs _ h
              (capture-IsBounded (ask z) now z inv own keep db h b))
        | inr e ↦ rw e (capture_all-IsBounded ask now inv own keep zs db h b)
      ]

  -- A round of the poller keeps every zone's history within the number of snapshots to keep, which is 50
  -- where it is not set, whatever fails in the round.
  pub sweep_zones-IsBounded :
      (ask : Zone → Answers) (now : ℕ) (inv : Inventory) (own : Bytes) (keep : ℕ) (db : SnapDb)
      → IsBounded (if keep == 0 then 50 else keep) db
      → IsBounded (if keep == 0 then 50 else keep) (sweep_zones fqdn ask now inv own keep db)
  unfolding sweep_zones
  sweep_zones-IsBounded ask now inv own keep db b =
      capture_all-IsBounded ask now inv own (if keep == 0 then 50 else keep) (user_zones inv) db
        (ground arith) b

  serial_of_latest :
      (n : ℕ) (o : Option Snapshot) (s : Snapshot)
      → o ≡ some s
      → s.serial ≡ n
      → has_serial n o ≡ true
  serial_of_latest n none s e f = cc
  serial_of_latest n (some t) s e f = ground (arith, ==_refl n, f, e)

  unchanged :
      (b : Answers) (later : ℕ) (z : Zone) (inv : Inventory) (own : Bytes) (keep : ℕ) (db : SnapDb)
      (n : ℕ)
      → b.serial ≡ some n
      → has_serial n (snapshot_latest z.name db) ≡ true
      → capture fqdn b later z inv own keep db ≡ db
  unfolding capture
  unchanged b later z inv own keep db n s h = elim (Bool-cases b.reads) [
    | inl e ↦ rw (s, e, h) refl
    | inr e ↦ rw (s, e) refl
  ]

  -- After a capture that could read, transfer and write, where the transferred SOA has the serial that was
  -- asked for, a capture at the same serial changes nothing.
  pub capture_again :
      (a b : Answers) (now later : ℕ) (z : Zone) (inv : Inventory) (own : Bytes) (keep n : ℕ)
      (db : SnapDb) (rrs : List Rr)
      → a.serial ≡ some n
      → a.reads ≡ true
      → a.writes ≡ true
      → transfer_auto (fqdn z.name) a.server a.answer a.in_time (axfr_keys inv (some z) own)
        ≡ some rrs
      → serial_in n (soa_of rrs) ≡ n
      → b.serial ≡ some n
      → capture fqdn b later z inv own keep (capture fqdn a now z inv own keep db)
        ≡ capture fqdn a now z inv own keep db
  unfolding capture
  capture_again a b now later z inv own keep n db rrs s r w t same s' =
      elim (Bool-cases (has_serial n (snapshot_latest z.name db))) [
        | inl h ↦
            let still : capture fqdn a now z inv own keep db ≡ db =
              unchanged a now z inv own keep db n s h in
            ap (λ d. capture fqdn b later z inv own keep d) still
            ∙ unchanged b later z inv own keep db n s' h
            ∙ sym still
        | inr h ↦
            let serial = serial_in n (soa_of rrs) in
            let db2 = (snapshot_put now z.name serial (canonical rrs) keep db).1 in
            let made : capture fqdn a now z inv own keep db ≡ db2 = rw (s, r, h, t, w) refl in
            let latest = snapshot_latest-snapshot_put now z.name serial (canonical rrs) keep db in
            ap (λ d. capture fqdn b later z inv own keep d) made
            ∙ unchanged b later z inv own keep db2 n s'
                (serial_of_latest n _ (put_row now z.name serial (canonical rrs) db) latest same)
            ∙ sym made
      ]
