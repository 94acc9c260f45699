-- ===== src/Tests/Filezone.antt =====
-- Runs of internal/filezone/filezone.go, on the zone of the runs of internal/zonefile.
use Prim.Native.String.{String}
use goddns.Base.{
  ℕ, ◌<◌, ◌^◌, ◌-◌, true, false, [], ◌∷◌, ◌++◌, none, some, ◌≡◌, ◌≢◌, ◌⊎◌, refl, arith,
  if◌then◌else◌,
}
use goddns.Base.Strings.{
  Bytes, bytes, str_eq, to_lower, to_upper, equal_fold, trim_space, trim_left, trim_suffix,
  has_prefix, has_suffix, contains, split, join,
}
use goddns.Base.Decimal.{show_nat, parse_uint32}
use goddns.Base.Result.{ok, err}
use goddns.Dns.{soa, a, DnsLib, add_rr, Op}
use goddns.Zonefile.Scan.{scan, scan_line, leading_ws}
use goddns.Zonefile.Entries.{
  tokenize_entries, tokenize, line_step, directive_name, is_class, looks_like_ttl, has_explicit_ttl,
  locate_serial,
}
use goddns.Zonefile.Parse.{parse, run_pass, zip_records, attach, check_serial, soa_serial}
use goddns.Zonefile.Edit.{Date, date_base, next_serial, set_serial, change_line, serial_floor}
use goddns.Named.{Inventory, zone_by_name}
use goddns.Filezone.{
  is_symlink, changed_meanwhile, Diff, resolve, is_editable, norm, on_panel_path, current_serial,
  first_serial, normalize_raw_serial,
}
use goddns.Filezone.Serials.{floor, Fits, Rewritten, normalize_raw_serial_lem}
use goddns.Filezone.Commit.{World, System, commit, apply}
use goddns.Filezone.Commit.Safe.{Safe, Untouched, Replaced, commit-Safe}
use goddns.Filezone.Commit.Allowed.{IsAllowed, apply-IsAllowed}

abbrev pub today : Date
today = record { year = 2024; month = 5; day = 6 }

-- A zone of one record, its serial in one digit.
abbrev pub text : String → Bytes
text serial = bytes "@ SOA n m " ++ (bytes serial ++ bytes " 1 1 1 1\n")

abbrev pub dns : DnsLib
dns = record {
  fqdn = λ s. s;
  canonical_name = λ s. s;
  is_sub_domain = λ parent child. has_suffix child parent;
  type_to_string = λ t. bytes "SOA";
  parse_zone = λ content origin. (
    record {
      name = bytes "z.";
      rrtype = 6;
      text = bytes "z. SOA";
      header_text = [];
      body = soa (bytes "n.") (if str_eq content (bytes "@ SOA n m 7 1 1 1 1\n") then 7 else 4);
    }
        ∷ [],
    none,
  );
}

serial_of_4 : current_serial dns (text "4") (bytes "z.") ≡ some 4
unfolding current_serial first_serial str_eq
serial_of_4 = refl

abbrev raised : Bytes
raised = bytes "@ SOA n m 2024050600 1 1 1 1\n"

raise : normalize_raw_serial dns today (bytes "z.") (text "7") (text "4") ≡ ok raised
unfolding normalize_raw_serial current_serial first_serial parse split tokenize_entries tokenize
    line_step directive_name scan_line scan leading_ws run_pass zip_records attach check_serial
    soa_serial parse_uint32 is_class looks_like_ttl has_explicit_ttl locate_serial equal_fold str_eq
    to_lower to_upper serial_floor set_serial change_line next_serial date_base join show_nat
raise = refl

small_floor : floor dns today (bytes "z.") (text "7") (text "4") < 2 ^ 32 - 1
unfolding current_serial first_serial str_eq
small_floor = omega arith

fits : Fits dns today (bytes "z.") (text "7") (text "4")
unfolding parse split tokenize_entries tokenize line_step directive_name scan_line scan leading_ws
    run_pass zip_records attach check_serial soa_serial parse_uint32 is_class looks_like_ttl
    has_explicit_ttl locate_serial equal_fold str_eq to_lower to_upper
fits f e = ground arith

normalize_raw_serial_lem_example :
    Rewritten dns today (bytes "z.") (text "7") (text "4") raised
    ⊎ ((raised ≡ text "4")
        × ((n : ℕ) × (current_serial dns (text "4") (bytes "z.") ≡ some n)
            × (floor dns today (bytes "z.") (text "7") (text "4") < n)))
normalize_raw_serial_lem_example =
    normalize_raw_serial_lem dns today (bytes "z.") (text "7") (text "4") raised small_floor fits
      raise

abbrev pub sys : System
sys = record {
  lstat = λ path. some false;
  lock_works = true;
  read_works = true;
  check_zone = λ zone content. true;
  meanwhile = none;
  reread_works = true;
  backup_works = true;
  write_works = true;
  reload_works = true;
  restore_works = true;
  verify = λ serial. true;
}

abbrev pub before : World
before = record { file = text "4"; backups = []; loaded = text "4" }

-- Another editor's write is never lost.
concurrent :
    commit dns (record sys { meanwhile = some (text "7") }) (bytes "z.") (text "4") raised before
    ≡ (err changed_meanwhile, record before { file = text "7" })
unfolding commit str_eq
concurrent = refl

commit_run :
    (commit dns sys (bytes "z.") (text "4") raised before).1
    ≡ record { file = raised; backups = text "4" ∷ []; loaded = raised }
unfolding commit str_eq
commit_run = refl

commit-Safe_example :
    Safe dns sys
      (bytes "z.")
      (text "4")
      raised
      before
      (commit dns sys (bytes "z.") (text "4") raised before)
commit-Safe_example = commit-Safe dns sys (bytes "z.") (text "4") raised before

abbrev pub inv : Inventory
inv = record {
  directory = [];
  zones =
      record {
        name = bytes "z";
        view = [];
        type = bytes "master";
        file = bytes "z";
        path = bytes "/z";
        dynamic = false;
        update_keys = [];
        allow_update = [];
      }
      ∷ [];
  keys = [];
}

link_refused : resolve (bytes "Z." ∷ []) (λ path. some true) inv (bytes "z.") ≡ err is_symlink
unfolding resolve zone_by_name is_editable norm on_panel_path contains str_eq to_lower trim_space
    trim_left trim_suffix has_suffix has_prefix
link_refused = refl

abbrev add_w : Op
add_w = record {
  action = add_rr;
  rr = some (record {
    name = bytes "w.z.";
    rrtype = 1;
    text = bytes "w.z. A";
    header_text = [];
    body = a (bytes "1");
  });
}

apply-IsAllowed_example :
    (Untouched dns sys
        (bytes "z.")
        before.file
        []
        before
        (apply dns sys (bytes "z" ∷ []) inv today (bytes "z.") (add_w ∷ []) before).1
      × ((d : Diff dns)
          → (apply dns sys (bytes "z" ∷ []) inv today (bytes "z.") (add_w ∷ []) before).0 ≢ ok d))
    ⊎ ((new : Bytes) × IsAllowed dns sys
          (bytes "z" ∷ [])
          inv
          today
          (bytes "z.")
          (add_w ∷ [])
          before.file
          new
        × Replaced dns sys
            (bytes "z.")
            before.file
            new
            before
            (apply dns sys (bytes "z" ∷ []) inv today (bytes "z.") (add_w ∷ []) before))
apply-IsAllowed_example =
    apply-IsAllowed dns sys (bytes "z" ∷ []) inv today (bytes "z.") (add_w ∷ []) before

abbrev seven : World
seven = record { file = text "7"; backups = []; loaded = text "7" }

abbrev with_w : Bytes
with_w = raised ++ bytes "w.z. A\n"
