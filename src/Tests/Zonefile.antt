-- ===== src/Tests/Zonefile.antt =====
-- Runs of internal/zonefile/zonefile.go.
use Prim.Native.String.{String}
use goddns.Base.{
  ℕ, ◌-◌, ◌^◌, ◌≤◌, ◌<◌, true, false, List, [], ◌∷◌, none, some, ◌≡◌, ◌≢◌, refl, arith,
  if◌then◌else◌, ◌==◌,
}
use goddns.Base.Strings.{
  Bytes, bytes, str_eq, to_lower, to_upper, equal_fold, has_prefix, has_suffix, trim_prefix,
  trim_suffix, split, join,
}
use goddns.Base.Decimal.{show_nat, parse_uint32}
use goddns.Base.Result.{ok, err}
use goddns.Dns.{Body, soa, ns, a, Rr, DnsLib, add_rr, del_rr, Op}
use goddns.Zonefile.Scan.{TokPos, scan_line, scan, leading_ws}
use goddns.Zonefile.Entries.{
  tokenize_entries, tokenize, line_step, directive_name, is_class, looks_like_ttl, has_explicit_ttl,
  locate_serial,
}
use goddns.Zonefile.Parse.{
  File, Rec, parse, run_pass, zip_records, attach, check_serial, soa_serial,
}
use goddns.Zonefile.Parse.Surgical.{IsSurgical, parse-IsSurgical}
use goddns.Zonefile.Edit.{
  Date, date_base, next_serial, set_serial, change_line, next_record, can_delete, delete_all,
  rr_key, targets, apply_ops, edit, serial_floor, deletes_soa,
}
use goddns.Zonefile.Edit.Serial.{next_serial_bounds}
use goddns.Zonefile.Edit.Outcome.{Outcome}

-- Today, a zone of four lines, and what the DNS library makes of it.
abbrev today : Date
today = record { year = 2024; month = 5; day = 6 }

abbrev zone_lines : List Bytes
zone_lines =
    bytes "@ SOA n m (7 1"
    ∷ bytes "  1 1 1)"
    ∷ bytes "@ NS n ; one"
    ∷ bytes "w 60 A 192.0.2.1"
    ∷ []
    ∷ []

abbrev zone_text : Bytes
zone_text = bytes "@ SOA n m (7 1\n  1 1 1)\n@ NS n ; one\nw 60 A 192.0.2.1\n"

abbrev rr_of : String → ℕ → String → Body → Rr
rr_of name t text body = record {
  name = bytes name;
  rrtype = t;
  text = bytes text;
  header_text = bytes name;
  body = body;
}

abbrev w_rr : Rr
w_rr = rr_of "w.z." 1 "w.z. 60 IN A 192.0.2.1" (a (bytes "192.0.2.1"))

abbrev zone_rrs : List Rr
zone_rrs =
    rr_of "z." 6 "z. 60 IN SOA" (soa (bytes "n.z.") 7)
    ∷ rr_of "z." 2 "z. 60 IN NS n.z." (ns (bytes "n.z."))
    ∷ w_rr
    ∷ []

abbrev type_name : ℕ → Bytes
type_name t =
    if t == 1
    then bytes "A"
    else if t == 2
    then bytes "NS"
    else if t == 6
    then bytes "SOA"
    else bytes "TYPE0"

abbrev dns : DnsLib
dns = record {
  fqdn = λ s. s;
  canonical_name = λ s. s;
  is_sub_domain = λ parent child. str_eq parent child;
  type_to_string = type_name;
  parse_zone = λ content origin. (zone_rrs, none);
}

abbrev del_w : Op
del_w = record { action = del_rr; rr = some w_rr }

abbrev add_v : Op
add_v = record {
  action = add_rr;
  rr = some (rr_of "v.z." 1 "v.z. 60 IN A 192.0.2.2" (a (bytes "192.0.2.2")));
}

abbrev soa_record : Rec
soa_record = record {
  pos = 0;
  rr = rr_of "z." 6 "z. 60 IN SOA" (soa (bytes "n.z.") 7);
  start = 0;
  end = 1;
  explicit = true;
  explicit_ttl = false;
}

abbrev zone_records : List Rec
zone_records =
    soa_record
    ∷ record {
      pos = 1;
      rr = rr_of "z." 2 "z. 60 IN NS n.z." (ns (bytes "n.z."));
      start = 2;
      end = 2;
      explicit = true;
      explicit_ttl = false;
    }
    ∷ record { pos = 2; rr = w_rr; start = 3; end = 3; explicit = true; explicit_ttl = true }
    ∷ []

abbrev serial : TokPos
serial = record { line = 0; start = 11; end = 12; text = bytes "7" }

abbrev zone_file : File
zone_file = record {
  lines = zone_lines;
  origin = bytes "z.";
  records = zone_records;
  soa_rec = some soa_record;
  serial_tok = some serial;
  has_ttl_direc = false;
  no_surgery = none;
}

parse-zone_text : parse dns zone_text (bytes "z.") ≡ ok zone_file
unfolding parse split tokenize_entries tokenize line_step directive_name scan_line scan leading_ws
    run_pass zip_records attach check_serial soa_serial parse_uint32 is_class looks_like_ttl
    has_explicit_ttl locate_serial equal_fold str_eq to_lower to_upper
parse-zone_text = refl

abbrev edited_text : Bytes
edited_text = bytes "@ SOA n m (2024050600 1\n  1 1 1)\n@ NS n ; one\nv.z. 60 IN A 192.0.2.2\n"

-- The SOA is not deleted.
edit_soa :
    edit dns today zone_file (record { action = del_rr; rr = some soa_record.rr } ∷ [])
    ≡ err deletes_soa
unfolding edit apply_ops delete_all can_delete next_record targets rr_key str_eq to_lower equal_fold
    trim_suffix trim_prefix has_suffix has_prefix
edit_soa = refl

parse-IsSurgical_example : IsSurgical zone_file
parse-IsSurgical_example =
    parse-IsSurgical dns zone_text (bytes "z.") zone_file parse-zone_text refl

next_serial_bounds_example :
    (next_serial today 7 < 2 ^ 32)
    × (date_base today ≤ next_serial today 7)
    × (7 ≢ 2 ^ 32 - 1 → 7 < next_serial today 7)
    × (7 ≡ 2 ^ 32 - 1 → next_serial today 7 ≡ date_base today)
next_serial_bounds_example = next_serial_bounds today 7 (omega arith)

abbrev floored_text : Bytes
floored_text = bytes "@ SOA n m (3000000001 1\n  1 1 1)\n@ NS n ; one\nw 60 A 192.0.2.1\n"

floor_zone : serial_floor today zone_file 3_000_000_000 ≡ some floored_text
unfolding serial_floor set_serial change_line next_serial date_base soa_serial join show_nat
floor_zone = refl

small_serial : soa_serial zone_file < 2 ^ 32 - 1
unfolding soa_serial
small_serial = omega arith
