-- ===== src/Zonefile/Parse.antt =====
-- `Parse` of internal/zonefile/zonefile.go: the file with its records and their lines, and the
-- reason, if there is one, why it is edited in raw mode only.
pub mod Attach
pub mod Surgical
use goddns.Base.{
  ℕ, zero, suc, ◌+◌, Bool, true, false, not, ◌&&◌, ◌||◌, List, [], ◌∷◌, ◌++◌, Option, none, some,
  ltb, leb, ◌==◌, if◌then◌else◌, filter, length,
}
use goddns.Base.Strings.{Bytes, bytes, str_eq, split}
use goddns.Base.Decimal.{parse_uint32}
use goddns.Base.Result.{Result, ok, err}
use goddns.Dns.{Body, soa, Rr, type_soa, DnsLib}
use goddns.Zonefile.Scan.{TokPos}
use goddns.Zonefile.Entries.{
  Kind, blank, directive, resource, Entry, tokenize_entries, has_explicit_ttl, locate_serial,
}

-- Why a file is raw-only.
pub data Reason : Type 0 where
  uses_directive : Bytes → Reason
  rescopes_origin : Reason
  count_mismatch : ℕ → ℕ → Reason
  no_serial : Reason
  serial_mismatch : Reason

-- `rec`; `pos` is its place in the list of records, by which the code's pointers are compared.
pub record Rec : Type 0 where
  pub pos : ℕ
  pub rr : Rr
  pub start : ℕ
  pub end : ℕ
  pub explicit : Bool
  pub explicit_ttl : Bool

pub record File : Type 0 where
  pub lines : List Bytes
  pub origin : Bytes
  pub records : List Rec
  pub soa_rec : Option Rec
  pub serial_tok : Option TokPos
  pub has_ttl_direc : Bool
  pub no_surgery : Option Reason

-- The first loop of `Parse`: what it has seen, and what it has found.
pub record Pass : Type 0 where
  pub seen_record : Bool
  pub ttl : Bool
  pub reason : Option Reason

abbrev on_directive : Bytes → Pass → Pass
on_directive name p =
    if str_eq name (bytes "$INCLUDE") || str_eq name (bytes "$GENERATE")
    then record p { reason = some (uses_directive name) }
    else if str_eq name (bytes "$TTL")
    then record p { ttl = true }
    else if str_eq name (bytes "$ORIGIN") && p.seen_record
    then record p { reason = some rescopes_origin }
    else p

abbrev on_entry : Kind → Pass → Pass
on_entry blank p = p
on_entry (directive name) p = on_directive name p
on_entry resource p = record p { seen_record = true }

unfoldable pub run_pass : Pass → List Entry → Pass
unfolding str_eq
run_pass p [] = p
run_pass p (e ∷ es) = run_pass (on_entry e.kind p) es

abbrev pub first_pass : List Entry → Pass
first_pass = run_pass (record { seen_record = false; ttl = false; reason = none })

abbrev pub is_resource : Kind → Bool
is_resource resource = true
is_resource _ = false

abbrev pub serial_in : Body → ℕ
serial_in (soa mname n) = n
serial_in _ = 0

-- `SOASerial`.
unfoldable pub soa_serial : File → ℕ
soa_serial f = elim f.soa_rec [ none ↦ 0 | some r ↦ serial_in r.rr.body ]

module _ (dns : DnsLib) where
  abbrev pub to_rec : ℕ → Entry → Rr → Rec
  to_rec pos e rr = record {
    pos = pos;
    rr = rr;
    start = e.start;
    end = e.end;
    explicit = e.explicit;
    explicit_ttl = has_explicit_ttl e.tokens e.explicit (dns.type_to_string rr.rrtype);
  }

  -- The zip of the record entries with the resolved records; the last SOA counts.
  unfoldable pub attach : ℕ → List Entry → List Rr → File → File
  attach pos (e ∷ es) (rr ∷ rrs) f =
      let r = to_rec pos e rr in
      let rest = attach (pos + 1) es rrs in
      if rr.rrtype == type_soa
      then rest (record f {
        records = f.records ++ (r ∷ []);
        soa_rec = some r;
        serial_tok = locate_serial e.tokens;
      })
      else rest (record f { records = f.records ++ (r ∷ []) })
  attach pos _ _ f = f

  abbrev pub serial_matches : Option TokPos → ℕ → Bool
  serial_matches none serial = false
  serial_matches (some t) serial = elim (parse_uint32 t.text) [
    | none ↦ false
    | some v ↦ v == serial
  ]

  abbrev pub has_both : File → Bool
  has_both f = elim f.soa_rec [
    | none ↦ false
    | some r ↦ elim f.serial_tok [ none ↦ false | some t ↦ true ]
  ]

  -- The last checks of `Parse`, on the located serial.
  unfoldable pub check_serial : File → File
  unfolding soa_serial parse_uint32
  check_serial f =
      if not (has_both f)
      then record f { no_surgery = some no_serial }
      else if serial_matches f.serial_tok (soa_serial f)
      then f
      else record f { no_surgery = some serial_mismatch }

  unfoldable pub zip_records : File → List Entry → List Rr → File
  unfolding check_serial attach
  zip_records f recs rrs =
      if length recs == length rrs
      then check_serial (attach 0 recs rrs f)
      else record f { no_surgery = some (count_mismatch (length recs) (length rrs)) }

  abbrev pub resolved : File → List Entry → List Rr × Option Bytes → Result Bytes File
  resolved f recs (rrs, some e) = err e
  resolved f recs (rrs, none) = ok (zip_records f recs rrs)

  abbrev pub unless_raw : Option Reason → File → Result Bytes File → Result Bytes File
  unless_raw (some why) f rest = ok f
  unless_raw none f rest = rest

  -- The file before its records are attached.
  abbrev pub start_file : List Bytes → Bytes → Pass → File
  start_file lines origin pass = record {
    lines = lines;
    origin = dns.fqdn origin;
    records = [];
    soa_rec = none;
    serial_tok = none;
    has_ttl_direc = pass.ttl;
    no_surgery = pass.reason;
  }

  -- `Parse`.
  unfoldable pub parse : Bytes → Bytes → Result Bytes File
  unfolding split tokenize_entries run_pass zip_records
  parse content origin =
      let lines = split b'\n' content in
      let entries = tokenize_entries lines in
      let pass = first_pass entries in
      let f = start_file lines origin pass in
      unless_raw pass.reason f (
        resolved f (filter (λ e. is_resource e.kind) entries)
          (dns.parse_zone content (dns.fqdn origin)))
