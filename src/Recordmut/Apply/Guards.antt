-- ===== src/Recordmut/Apply/Guards.antt =====
-- What stands between a request and an update that is sent.
use goddns.Base.{
  ℕ, Bool, true, false, not, List, [], ◌∷◌, ◌++◌, Option, none, some, ◌≡◌, refl, sym, ap, ◌∙◌, ◌⊎◌,
  inl, inr, arith, if◌then◌else◌, is_empty, All,
}
use goddns.Base.Strings.{Bytes, str_eq, str_eq_iff}
use goddns.Base.Result.{Result, ok, err, bind-eq-ok}
use goddns.Dns.{Rr, DnsLib, Op}
use goddns.Named.{Zone, Inventory, soa_of, canonical, zone_by_name}
use goddns.Store.Snapshots.{put_row, snapshot_latest}
use goddns.Store.Snapshots.History.{snapshot_latest-snapshot_put}
use goddns.Tsig.{HeldKey}
use goddns.Recordmut.{
  EditorError, not_dynamic, not_applied, no_snapshot, build_result, Report, of_zone, of_key,
  key_for, validate_zone, validate_ops, check_op, check_ops, most_specific_zone,
}
use goddns.Recordmut.Apply.{
  World, Faults, Editor, Sent, serial_or_zero, transferred, prepare, send, with_snapshot,
  snapshot_and_send, prepared, apply,
}

module _ (dns : DnsLib) (e : Editor) (inv : Inventory) (zone : Bytes) where
  -- The operation's record belongs to the zone and to no zone below it.
  abbrev pub Belongs : Op → Type 0
  Belongs op =
      (rr : Rr) × (op.rr ≡ some rr) × (most_specific_zone dns inv rr.name ≡ dns.canonical_name zone)

  -- A request that may be carried out.
  pub record Allowed (ops : List Op) (key : HeldKey) : Type 0 where
    pub z : Zone
    pub known : zone_by_name zone inv ≡ some z
    pub dynamic : z.dynamic ≡ true
    pub held : key_for e.keys z ≡ some key
    pub some_ops : is_empty ops ≡ false
    pub belong : All Belongs ops

  check_op-Belongs :
      (op : Op) (o : Option Rr)
      → op.rr ≡ o
      → check_op dns inv (dns.canonical_name zone) o ≡ ok tt
      → Belongs op
  check_op-Belongs op none is c = cc
  check_op-Belongs op (some rr) is c = (
    rr,
    is,
    (str_eq_iff (most_specific_zone dns inv rr.name) (dns.canonical_name zone)).0 (same c),
  )
    where
      same :
          check_op dns inv (dns.canonical_name zone) (some rr) ≡ ok tt
          → str_eq (most_specific_zone dns inv rr.name) (dns.canonical_name zone) ≡ true
      same c = ground arith

  check_ops-Belongs :
      (ops : List Op) → check_ops dns inv (dns.canonical_name zone) ops ≡ ok tt → All Belongs ops
  unfolding check_ops
  check_ops-Belongs [] c = tt
  check_ops-Belongs (op ∷ ops) c =
      let (u, first, rest) =
        bind-eq-ok (check_op dns inv (dns.canonical_name zone) op.rr)
          (λ _. check_ops dns inv (dns.canonical_name zone) ops) c in
      (check_op-Belongs op op.rr refl first, check_ops-Belongs ops rest)

  validate_ops-inv :
      (ops : List Op)
      → validate_ops dns inv zone ops ≡ ok tt
      → (is_empty ops ≡ false) × All Belongs ops
  unfolding validate_ops
  validate_ops-inv [] v = cc
  validate_ops-inv (op ∷ ops) v = (refl, check_ops-Belongs (op ∷ ops) v)

  transferred-inv :
      (ops : List Op) (live : Option (List Rr)) (k key : HeldKey) (rrs : List Rr)
      → transferred dns e inv zone ops live k ≡ ok (key, rrs)
      → (k ≡ key) × (live ≡ some rrs) × (validate_ops dns inv zone ops ≡ ok tt)
  transferred-inv ops none k key rrs t = cc
  transferred-inv ops (some l) k key rrs t =
      let (u, valid, same) = bind-eq-ok (validate_ops dns inv zone ops) (λ _. ok (k, l)) t in
      (cc, cc, valid)

  of_key-inv :
      (y : Zone) (o : Option HeldKey) (z : Zone) (key : HeldKey)
      → of_key y o ≡ ok (z, key)
      → (y ≡ z) × (o ≡ some key)
  of_key-inv y none z key v = cc
  of_key-inv y (some k) z key v = (cc, cc)

  of_zone-inv :
      (o : Option Zone) (z : Zone) (key : HeldKey)
      → of_zone e.keys o ≡ ok (z, key)
      → (o ≡ some z) × (z.dynamic ≡ true) × (key_for e.keys z ≡ some key)
  of_zone-inv none z key v = cc
  of_zone-inv (some y) z key v =
      let (dyn, run) = gate-inv y.dynamic (of_key y (key_for e.keys y)) not_dynamic v in
      let (same, held) = of_key-inv y (key_for e.keys y) z key run in
      (
        ap some same,
        sym (ap (λ (x : Zone). x.dynamic) same) ∙ dyn,
        sym (ap (key_for e.keys) same) ∙ held,
      )
    where
      gate-inv :
          (b : Bool) (m : Result EditorError (Zone × HeldKey)) (x : EditorError)
          {a : Zone × HeldKey}
          → (if b then m else err x) ≡ ok a
          → (b ≡ true) × (m ≡ ok a)
      gate-inv true m x h = (refl, h)
      gate-inv false m x h = cc

  prepare-Allowed :
      (ops : List Op) (live : Option (List Rr)) (key : HeldKey) (rrs : List Rr)
      → prepare dns e inv zone ops live ≡ ok (key, rrs)
      → Allowed ops key × (live ≡ some rrs)
  unfolding prepare validate_zone
  prepare-Allowed ops live key rrs p =
      let ((z, k), zone_ok, rest) =
        bind-eq-ok (validate_zone e.keys inv zone) (λ (z, k). transferred dns e inv zone ops live k)
          p in
      let (known, dyn, held) = of_zone-inv (zone_by_name zone inv) z k zone_ok in
      let (same, got, valid) = transferred-inv ops live k key rrs rest in
      let (some_ops, belong) = validate_ops-inv ops valid in
      (
        record {
          z = z;
          known = known;
          dynamic = dyn;
          held = held ∙ ap some same;
          some_ops = some_ops;
          belong = belong;
        },
        got,
      )

  -- An update that was sent: it was allowed, it is the one that was asked for, under the granted
  -- key, and before it, if there is a store, the zone as transferred became its latest snapshot.
  pub record Carried (now : ℕ) (ops : List Op) (live : Option (List Rr)) (w w' : World)
      : Type 0 where
    pub key : HeldKey
    pub rrs : List Rr
    pub allowed : Allowed ops key
    pub transfer : live ≡ some rrs
    pub sent_is : w'.sent ≡ w.sent ++ (record { zone = zone; key = key; ops = ops } ∷ [])
    pub restore_point :
        e.has_store ≡ true
        → snapshot_latest zone w'.snaps
          ≡ some (put_row now zone (serial_or_zero (soa_of rrs)) (canonical rrs) w.snaps)

  unfoldable pub SentOrNot : ℕ → List Op → Option (List Rr) → World → World → Type 0
  SentOrNot now ops live w w' = (w'.sent ≡ w.sent) ⊎ Carried now ops live w w'

  pick :
      (now : ℕ) (ops : List Op) (live : Option (List Rr)) (w : World) (b : Bool)
      (x y : Result EditorError Report × World)
      → (b ≡ true → SentOrNot now ops live w x.1)
      → (b ≡ false → SentOrNot now ops live w y.1)
      → SentOrNot now ops live w (if b then x else y).1
  pick now ops live w true x y p q = p refl
  pick now ops live w false x y p q = q refl

  unchanged :
      (now : ℕ) (ops : List Op) (live : Option (List Rr)) (w : World) → SentOrNot now ops live w w
  unfolding SentOrNot
  unchanged now ops live w = inl refl

  send-Carried :
      (faults : Faults) (now : ℕ) (ops : List Op) (live : Option (List Rr)) (key : HeldKey)
      (rrs : List Rr) (res : Report) (w w' : World)
      → Allowed ops key
      → live ≡ some rrs
      → w'.sent ≡ w.sent
      → (e.has_store ≡ true
          → snapshot_latest zone w'.snaps
            ≡ some (put_row now zone (serial_or_zero (soa_of rrs)) (canonical rrs) w.snaps))
      → SentOrNot now ops live w (send dns e inv faults zone ops key res w').1
  unfolding SentOrNot
  send-Carried faults now ops live key rrs res w w' a l s p =
      let request : Sent = record { zone = zone; key = key; ops = ops } in
      let asked : World = record w' { sent = w'.sent ++ (request ∷ []) } in
      pick now ops live w faults.backend_fails (err not_applied, w')
        (if faults.update_fails then err not_applied else ok res, asked) (λ h. inl s)
        (λ h. inr (record {
          key = key;
          rrs = rrs;
          allowed = a;
          transfer = l;
          sent_is = ap (λ (x : List Sent). x ++ (request ∷ [])) s;
          restore_point = p;
        }))

  snapshot_and_send-Carried :
      (faults : Faults) (now : ℕ) (ops : List Op) (live : Option (List Rr)) (key : HeldKey)
      (rrs : List Rr) (w : World)
      → Allowed ops key
      → live ≡ some rrs
      → SentOrNot now ops live w (snapshot_and_send dns e inv faults now zone ops key rrs w).1
  snapshot_and_send-Carried faults now ops live key rrs w a l =
      let res = build_result dns zone key.name ops rrs in
      let put = with_snapshot dns e inv now zone rrs w in
      let serial = serial_or_zero (soa_of rrs) in
      let noted : Report = record res { snapshot = put.0 } in
      pick now ops live w (not e.has_store) (send dns e inv faults zone ops key res w)
        (if faults.snapshot_fails
          then (err no_snapshot, w)
          else send dns e inv faults zone ops key noted put.1)
        (λ without.
          send-Carried faults now ops live key rrs res w w a l refl
            (λ h. absurd (clash e.has_store without h)))
        (λ store.
          pick now ops live w faults.snapshot_fails (err no_snapshot, w)
            (send dns e inv faults zone ops key noted put.1) (λ h. unchanged now ops live w)
            (λ h.
              send-Carried faults now ops live key rrs noted w put.1 a l refl
                (λ h. snapshot_latest-snapshot_put now zone serial (canonical rrs) e.keep w.snaps)))
    where
      clash : (b : Bool) → not b ≡ true → b ≡ true → ⊥
      clash true h g = cc
      clash false h g = cc

  -- `Apply` sends an update only for a known, dynamic zone that grants a key which goddns holds, if
  -- there are operations and each of their records belongs to that zone as its most specific one,
  -- and, where there is a store, only after the zone, as it was transferred, became its latest
  -- snapshot; the update is then the request, and otherwise none is sent.
  pub apply-Carried :
      (faults : Faults) (now : ℕ) (ops : List Op) (live : Option (List Rr)) (w : World)
      → SentOrNot now ops live w (apply dns e inv faults now zone ops live w).1
  unfolding apply
  apply-Carried faults now ops live w = from (prepare dns e inv zone ops live) refl
    where
      from :
          (p : Result EditorError (HeldKey × List Rr))
          → prepare dns e inv zone ops live ≡ p
          → SentOrNot now ops live w (prepared dns e inv faults now zone ops p w).1
      from (err x) is = unchanged now ops live w
      from (ok (key, rrs)) is =
          let (a, l) = prepare-Allowed ops live key rrs is in
          snapshot_and_send-Carried faults now ops live key rrs w a l
