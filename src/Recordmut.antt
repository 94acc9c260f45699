-- ===== src/Recordmut.antt =====
-- The record editor of internal/recordmut/recordmut.go, on an inventory and a live zone that its
-- caller read. What the DNS library gives is in `DnsLib`; the zone transfer, the snapshot store
-- and the signed update are arguments.
pub mod Restore
pub mod Zones
pub mod Apply
use goddns.Base.{
  ℕ, Bool, true, false, not, ◌&&◌, ◌||◌, List, [], ◌∷◌, ◌++◌, Option, none, some, ltb, ◌==◌,
  if◌then◌else◌, is_empty, any, filter, find?, length, map,
}
use goddns.Base.Strings.{
  Bytes, bytes, str_eq, to_lower, equal_fold, trim_suffix, trim_prefix, has_suffix,
}
use goddns.Base.Dict.{Dict, insert}
use goddns.Base.Dict
use goddns.Base.Sort.{str_lt, sort_by}
use goddns.Base.Result.{Result, ok, err, ◌>>=◌, ◌>>◌, check}
use goddns.Dns.{
  Rr, DnsLib, Action, add_rr, del_rr, del_rrset, del_name, Op, type_soa, is_dnssec_type,
}
use goddns.Tsig.{HeldKey}
use goddns.Named.{
  Zone, Inventory, TsigKey, user_zones, zone_by_name, axfr_keys, soa_of, serial_of, canonical,
}

pub data EditorError : Type 0 where
  no_such_zone : EditorError
  not_dynamic : EditorError
  no_key : EditorError
  no_operations : EditorError
  no_record : EditorError
  outside : EditorError
  more_specific : Bytes → EditorError
  no_transfer : EditorError
  no_snapshot : EditorError
  not_applied : EditorError
  bad_snapshot : EditorError

-- `Result` of the package; no snapshot is 0.
pub record Report : Type 0 where
  pub zone : Bytes
  pub key : Bytes
  pub snapshot : ℕ
  pub added : List Bytes
  pub removed : List Bytes

unfoldable pub grants : List Bytes → HeldKey → Bool
unfolding equal_fold trim_suffix
grants granted k =
    any (λ g. equal_fold (trim_suffix k.name (bytes ".")) (trim_suffix g (bytes "."))) granted

-- `keyFor`.
unfoldable pub key_for : List HeldKey → Zone → Option HeldKey
unfolding grants
key_for keys z = find? (λ k. not (is_empty k.secret) && grants z.update_keys k) keys

abbrev is_some {ℓ} : {A : Type ℓ} → Option A → Bool
is_some none = false
is_some (some a) = true

-- `CanEdit`.
unfoldable pub can_edit : List HeldKey → Zone → Bool
unfolding key_for
can_edit keys z = z.dynamic && is_some (key_for keys z)

abbrev pub of_key : Zone → Option HeldKey → Result EditorError (Zone × HeldKey)
of_key z none = err no_key
of_key z (some k) = ok (z, k)

abbrev pub of_zone : List HeldKey → Option Zone → Result EditorError (Zone × HeldKey)
of_zone keys none = err no_such_zone
of_zone keys (some z) = if z.dynamic then of_key z (key_for keys z) else err not_dynamic

-- `validateZone`.
unfoldable pub validate_zone :
    List HeldKey → Inventory → Bytes → Result EditorError (Zone × HeldKey)
unfolding zone_by_name key_for
validate_zone keys inv zone = of_zone keys (zone_by_name zone inv)

-- `managed`.
unfoldable pub managed : Rr → Bool
managed rr = rr.rrtype == type_soa || is_dnssec_type rr.rrtype

module _ (dns : DnsLib) where
  abbrev pub encloses : Bytes → Bytes → Bool
  encloses zn cn = str_eq cn zn || has_suffix cn (b'.' ∷ zn)

  -- The loop of `mostSpecificZone`.
  unfoldable pub longest_zone : Bytes → Bytes → List Zone → Bytes
  unfolding str_eq has_suffix
  longest_zone cn best [] = best
  longest_zone cn best (z ∷ zs) =
      let zn = dns.canonical_name z.name in
      longest_zone cn (if encloses zn cn && ltb (length best) (length zn) then zn else best) zs

  -- `mostSpecificZone`.
  unfoldable pub most_specific_zone : Inventory → Bytes → Bytes
  unfolding longest_zone user_zones
  most_specific_zone inv name = longest_zone (dns.canonical_name name) [] (user_zones inv)

  abbrev pub check_op : Inventory → Bytes → Option Rr → Result EditorError (Unit {0})
  check_op inv target none = err no_record
  check_op inv target (some rr) =
      let owner = most_specific_zone inv rr.name in
      if is_empty owner
      then err outside
      else if str_eq owner target
      then ok tt
      else err (more_specific owner)

  unfoldable pub check_ops : Inventory → Bytes → List Op → Result EditorError (Unit {0})
  unfolding most_specific_zone str_eq
  check_ops inv target [] = ok tt
  check_ops inv target (op ∷ ops) = check_op inv target op.rr >> check_ops inv target ops

  -- `validateOps`.
  unfoldable pub validate_ops : Inventory → Bytes → List Op → Result EditorError (Unit {0})
  unfolding check_ops
  validate_ops inv zone ops =
      if is_empty ops then err no_operations else check_ops inv (dns.canonical_name zone) ops

  -- `rrKey`.
  unfoldable pub rr_key : Rr → Bytes
  unfolding to_lower trim_suffix trim_prefix
  rr_key rr =
      to_lower (trim_suffix rr.name (bytes "."))
      ++ (b' ' ∷ (dns.type_to_string rr.rrtype ++ (b' ' ∷ trim_prefix rr.text rr.header_text)))

  abbrev first_only : Option Rr → List Rr
  first_only none = []
  first_only (some rr) = rr ∷ []

  -- The live records that an operation removes.
  unfoldable pub removes : Action → Rr → List Rr → List Rr
  unfolding rr_key str_eq equal_fold
  removes add_rr rr live = []
  removes del_rr rr live = first_only (find? (λ r. str_eq (rr_key r) (rr_key rr)) live)
  removes del_rrset rr live = filter (λ r. equal_fold r.name rr.name && r.rrtype == rr.rrtype) live
  removes del_name rr live = filter (λ r. equal_fold r.name rr.name) live

  abbrev pub texts : List Rr → List Bytes
  texts = map (λ (r : Rr). r.text)

  abbrev report_op : Action → Option Rr → List Rr → Report → Report
  report_op act none live res = res
  report_op add_rr (some rr) live res = record res { added = res.added ++ (rr.text ∷ []) }
  report_op act (some rr) live res = record res {
    removed = res.removed ++ texts (removes act rr live);
  }

  -- The loop of `buildResult`.
  unfoldable pub report_ops : List Op → List Rr → Report → Report
  unfolding removes
  report_ops [] live res = res
  report_ops (op ∷ ops) live res = report_ops ops live (report_op op.action op.rr live res)

  unfoldable pub build_result : Bytes → Bytes → List Op → List Rr → Report
  unfolding report_ops
  build_result zone key ops live =
      report_ops ops live
        (record { zone = zone; key = key; snapshot = 0; added = []; removed = [] })

  -- `ownedBy` and `hasRestorable`.
  unfoldable pub owned_by : Inventory → Bytes → List Rr → List Rr
  unfolding most_specific_zone str_eq
  owned_by inv target rrs = filter (λ r. str_eq (most_specific_zone inv r.name) target) rrs

  unfoldable pub has_restorable : List Rr → Bool
  unfolding managed
  has_restorable rrs = any (λ r. not (managed r)) rrs

  -- The map of `restoreOps`: the records that are not managed, by their keys.
  unfoldable pub keyed : List Rr → Dict Rr → Dict Rr
  unfolding managed rr_key insert
  keyed [] m = m
  keyed (r ∷ rs) m = keyed rs (if managed r then m else insert (rr_key r) r m)

  abbrev pub op_of : Action → Rr → Op
  op_of act rr = record { action = act; rr = some rr }

  -- The entries of `m` whose keys `other` does not have, as operations.
  unfoldable pub only_in : Action → Dict Rr → Dict Rr → List Op
  unfolding Dict.lookup
  only_in act [] other = []
  only_in act ((k, rr) ∷ m) other =
      let rest = only_in act m other in
      if is_some (Dict.lookup k other) then rest else op_of act rr ∷ rest

  abbrev pub op_text : Op → Bytes
  op_text op = elim op.rr [ none ↦ [] | some rr ↦ rr.text ]

  -- `sortOps`.
  unfoldable pub sort_ops : List Op → List Op
  unfolding sort_by str_lt
  sort_ops = sort_by (λ a b. str_lt (op_text a) (op_text b))

  -- `restoreOps`.
  unfoldable pub restore_ops : List Rr → List Rr → List Op
  unfolding sort_ops only_in keyed
  restore_ops want live =
      let want_set = keyed want [] in
      let live_set = keyed live [] in
      sort_ops (only_in del_rr live_set want_set) ++ sort_ops (only_in add_rr want_set live_set)

  -- `RestorePlan`, on the records that the snapshot parses to, if it does, and the live zone.
  abbrev pub plan_of :
      Inventory
      → Bytes
      → HeldKey
      → List Rr
      → List Rr
      → List Op
      → Result EditorError (List Op × Report)
  plan_of inv zone key want live [] =
      ok ([], record { zone = zone; key = key.name; snapshot = 0; added = []; removed = [] })
  plan_of inv zone key want live (op ∷ ops) =
      validate_ops inv zone (op ∷ ops) >> ok (op ∷ ops, build_result zone key.name (op ∷ ops) live)

  abbrev pub plan_owned :
      Inventory → Bytes → HeldKey → List Rr → List Rr → Result EditorError (List Op × Report)
  plan_owned inv zone key want live =
      if not (has_restorable want)
      then err bad_snapshot
      else plan_of inv zone key want live (restore_ops want live)

  abbrev pub plan_on :
      Inventory
      → Bytes
      → HeldKey
      → Option (List Rr)
      → Option (List Rr)
      → Result EditorError (List Op × Report)
  plan_on inv zone key want none = err no_transfer
  plan_on inv zone key none (some live) = err bad_snapshot
  plan_on inv zone key (some want) (some live) =
      let target = dns.canonical_name zone in
      plan_owned inv zone key (owned_by inv target want) (owned_by inv target live)

  unfoldable pub restore_plan :
      List HeldKey
      → Inventory
      → Bytes
      → Option (List Rr)
      → Option (List Rr)
      → Result EditorError (List Op × Report)
  unfolding validate_zone owned_by has_restorable restore_ops validate_ops build_result
  restore_plan keys inv zone want live =
      validate_zone keys inv zone >>= λ (z, key). plan_on inv zone key want live
