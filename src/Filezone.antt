-- ===== src/Filezone.antt =====
-- The file editor of internal/filezone/filezone.go: the guards on a zone and on its file's
-- content, the diff, and the serial of a raw replacement. Locks, files and named are in children.
use Prim.Native.String.{String}
pub mod Serials
pub mod Commit
pub mod Preview
use goddns.Base.{
  ℕ, Bool, true, false, not, ◌&&◌, ◌||◌, List, [], ◌∷◌, ◌++◌, Option, none, some, ltb, ◌==◌,
  if◌then◌else◌, is_empty, any, filter, find?, map,
}
use goddns.Base.Strings.{Bytes, bytes, str_eq, to_lower, trim_space, trim_suffix, contains}
use goddns.Base.Sort.{str_lt, sort_by}
use goddns.Base.Result.{Result, ok, err, ◌>>=◌, ◌>>◌, check}
use goddns.Dns.{Rr, DnsLib, Op, type_soa}
use goddns.Zonefile.Parse.{File, parse, soa_serial}
use goddns.Zonefile.Edit.{EditError, Date, edit, serial_floor}
use goddns.Named.{Zone, Inventory, is_text, zone_by_name, serial_of, signed}

pub data FileError : Type 0 where
  no_such_zone not_master is_dynamic not_enabled no_path : FileError
  no_stat is_symlink panel_path : FileError
  no_lock unreadable panel_managed is_signed not_parsed : FileError
  no_record outside_zone : FileError
  not_editable : EditError → FileError
  serial_too_low : ℕ → FileError
  rejected changed_meanwhile no_backup not_written : FileError
  reload_failed_restored reload_failed_unrestored not_verified : FileError

-- `norm`, and the allowlist test `editable`.
unfoldable pub norm : Bytes → Bytes
unfolding to_lower trim_space trim_suffix
norm z = trim_suffix (to_lower (trim_space z)) (bytes ".")

unfoldable pub is_editable : List Bytes → Bytes → Bool
unfolding norm str_eq
is_editable allowed zone = any (λ x. str_eq (norm x) (norm zone)) allowed

-- `panelPath` and `panelMarker`, as tests.
unfoldable pub on_panel_path : Bytes → Bool
unfolding to_lower contains
on_panel_path path =
    let low = to_lower path in
    contains low (bytes "/var/cpanel/")
    || contains low (bytes "/usr/local/directadmin/")
    || contains low (bytes "/usr/local/psa/")
    || contains low (bytes "/etc/virtualmin")
    || contains low (bytes "/var/lib/virtualmin")

unfoldable pub panel_marked : Bytes → Bool
unfolding to_lower contains
panel_marked content =
    let low = to_lower content in
    contains low (bytes "cpanel")
    || contains low (bytes "directadmin")
    || contains low (bytes "virtualmin")
    || contains low (bytes "plesk")
    || contains low (bytes "ispconfig")

abbrev pub is_master : Zone → Bool
is_master z = is_text "master" z.type || is_text "primary" z.type

-- `CanEdit`.
unfoldable pub can_edit : List Bytes → Zone → Bool
unfolding is_editable str_eq
can_edit allowed z = is_master z && not z.dynamic && is_editable allowed z.name

-- What `os.Lstat` says of the zone's file: an error, or whether it is a symlink.
abbrev pub lstat_ok : Option Bool → Result FileError (Unit {0})
lstat_ok none = err no_stat
lstat_ok (some link) = check (not link) is_symlink

abbrev pub resolved :
    List Bytes → (Bytes → Option Bool) → Bytes → Option Zone → Result FileError Zone
resolved allowed lstat zone none = err no_such_zone
resolved allowed lstat zone (some z) =
    check (is_master z) not_master
    >> check (not z.dynamic) is_dynamic
    >> check (is_editable allowed zone) not_enabled
    >> check (not (is_empty z.path)) no_path
    >> lstat_ok (lstat z.path)
    >> check (not (on_panel_path z.path)) panel_path
    >> ok z

-- `resolve`, on the inventory that was read.
unfoldable pub resolve :
    List Bytes → (Bytes → Option Bool) → Inventory → Bytes → Result FileError Zone
unfolding zone_by_name is_editable on_panel_path
resolve allowed lstat inv zone = resolved allowed lstat zone (zone_by_name zone inv)

module _ (dns : DnsLib) where
  abbrev pub is_some {ℓ} : {A : Type ℓ} → Option A → Bool
  is_some none = false
  is_some (some a) = true

  -- `screen`, with `unsignedConcern`: signatures are looked for before the parser's error.
  unfoldable pub screen : Bytes → Bytes → Result FileError (Unit {0})
  unfolding panel_marked signed
  screen content zone =
      let (rrs, stopped) = dns.parse_zone content (dns.fqdn zone) in
      check (not (panel_marked content)) panel_managed
      >> check (not (signed rrs).0) is_signed
      >> check (not (is_some stopped)) not_parsed

  abbrev pub in_zone : Bytes → Option Rr → Result FileError (Unit {0})
  in_zone origin none = err no_record
  in_zone origin (some rr) = check (dns.is_sub_domain origin rr.name) outside_zone

  unfoldable pub all_in_zone : Bytes → List Op → Result FileError (Unit {0})
  all_in_zone origin [] = ok tt
  all_in_zone origin (op ∷ ops) = in_zone origin op.rr >> all_in_zone origin ops

  abbrev pub edited : Date → List Op → Result Bytes File → Result FileError Bytes
  edited today ops (err e) = err not_parsed
  edited today ops (ok f) = elim (edit dns today f ops) [
    | err e ↦ err (not_editable e)
    | ok out ↦ ok out
  ]

  -- `compute`.
  unfoldable pub compute : Date → Bytes → Bytes → List Op → Result FileError Bytes
  unfolding all_in_zone parse edit
  compute today zone orig ops =
      all_in_zone (dns.fqdn zone) ops >> edited today ops (parse dns orig zone)

  unfoldable pub first_serial : List Rr → Option ℕ
  first_serial [] = none
  first_serial (rr ∷ rrs) =
      let rest = first_serial rrs in elim (serial_of rr.body) [ none ↦ rest | some n ↦ some n ]

  -- `currentSerial`: the first SOA, even if the parser stops behind it.
  unfoldable pub current_serial : Bytes → Bytes → Option ℕ
  unfolding first_serial
  current_serial content zone = first_serial (dns.parse_zone content (dns.fqdn zone)).0

  abbrev pub or_zero : Option ℕ → ℕ
  or_zero none = 0
  or_zero (some n) = n

  abbrev pub bumped : Date → ℕ → Result Bytes File → Option Bytes
  bumped today floor (err e) = none
  bumped today floor (ok f) = serial_floor today f floor

  abbrev pub own_serial : ℕ → Bytes → Option ℕ → Result FileError Bytes
  own_serial floor new none = err (serial_too_low 0)
  own_serial floor new (some n) = if ltb floor n then ok new else err (serial_too_low n)

  abbrev pub or_own : ℕ → Bytes → Option ℕ → Option Bytes → Result FileError Bytes
  or_own floor new own (some out) = ok out
  or_own floor new own none = own_serial floor new own

  -- `normalizeRawSerial`. A file that is not surgical has no `SerialFloor`.
  unfoldable pub normalize_raw_serial : Date → Bytes → Bytes → Bytes → Result FileError Bytes
  unfolding current_serial parse serial_floor
  normalize_raw_serial today zone cur new =
      let floor = or_zero (current_serial cur zone) in
      or_own floor new (current_serial new zone) (bumped today floor (parse dns new zone))

  -- `canonSet` and `diff`. A set is a list without repetitions.
  canon_set : List Rr → List Bytes
  unfolding str_eq
  canon_set [] = []
  canon_set (rr ∷ rrs) =
      let rest = canon_set rrs in
      if rr.rrtype == type_soa || any (str_eq rr.text) rest then rest else rr.text ∷ rest

  abbrev not_in : List Bytes → List Bytes → List Bytes
  not_in old new = filter (λ t. not (any (str_eq t) old)) new

  pub record Diff : Type 0 where
    pub serial : ℕ
    pub added : List Bytes
    pub removed : List Bytes

  abbrev parsed_serial : Result Bytes File → ℕ
  parsed_serial (err e) = 0
  parsed_serial (ok f) = soa_serial f

  unfoldable pub diff : Bytes → Bytes → Bytes → Diff
  unfolding canon_set str_lt sort_by parse soa_serial
  diff zone orig new =
      let old_set = canon_set (dns.parse_zone orig (dns.fqdn zone)).0 in
      let new_set = canon_set (dns.parse_zone new (dns.fqdn zone)).0 in
      record {
        serial = parsed_serial (parse dns new zone);
        added = sort_by str_lt (not_in old_set new_set);
        removed = sort_by str_lt (not_in new_set old_set);
      }
