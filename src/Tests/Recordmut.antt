-- ===== src/Tests/Recordmut.antt =====
-- Runs of internal/recordmut/recordmut.go.
use Prim.Native.String.{String}
use goddns.Base.{
  ℕ, Bool, true, false, not, ◌&&◌, List, [], ◌∷◌, ◌++◌, none, some, ◌≡◌, refl, any, if◌then◌else◌,
  ◌==◌,
}
use goddns.Base.Strings.{
  bytes, str_eq, to_lower, equal_fold, trim_space, trim_left, trim_suffix, trim_prefix, has_suffix,
  has_prefix,
}
use goddns.Base.Dict
use goddns.Base.Dict.{insert}
use goddns.Base.Sort.{str_lt, sort_by, insert_sorted}
use goddns.Base.Result.{err}
use goddns.Dns.{other, Rr, DnsLib, add_rr, del_rr, Op}
use goddns.Named.{Zone, Inventory, user_zones, builtin_empty, zone_by_name}
use goddns.Recordmut.{
  not_dynamic, more_specific, managed, rr_key, keyed, only_in, sort_ops, restore_ops,
  most_specific_zone, longest_zone, validate_zone, validate_ops, check_ops, key_for, grants,
}
use goddns.Recordmut.Restore.{has_key, has_key_after, acts_on, has_key-restore_ops}
use goddns.Recordmut.Apply.{World, Faults, Editor, apply, prepare}
use goddns.Recordmut.Apply.Guards.{SentOrNot, apply-Carried}

abbrev rr_of : String → ℕ → String → Rr
rr_of name t text = record {
  name = bytes name;
  rrtype = t;
  text = bytes text;
  header_text = [];
  body = other;
}

abbrev dns : DnsLib
dns = record {
  fqdn = λ s. s;
  canonical_name = λ s. s;
  is_sub_domain = λ parent child. str_eq parent child;
  type_to_string = λ t. if t == 1 then bytes "A" else bytes "SOA";
  parse_zone = λ content origin. ([], none);
}

abbrev zone_of : String → Bool → Zone
zone_of name dyn = record {
  name = bytes name;
  view = [];
  type = bytes "master";
  file = bytes "f";
  path = bytes "/f";
  dynamic = dyn;
  update_keys = bytes "k" ∷ [];
  allow_update = bytes "policy";
}

abbrev inv : Inventory
inv = record {
  directory = [];
  zones = zone_of "z" true ∷ zone_of "s.z" true ∷ zone_of "static" false ∷ [];
  keys = [];
}

abbrev want : List Rr
want = rr_of "z" 6 "z SOA 1" ∷ rr_of "a.z" 1 "a.z A 1" ∷ rr_of "b.z" 1 "b.z A 1" ∷ []

abbrev live : List Rr
live = rr_of "z" 6 "z SOA 2" ∷ rr_of "a.z" 1 "a.z A 1" ∷ rr_of "c.z" 1 "c.z A 1" ∷ []

-- The SOA is left alone, what is new is deleted and what is lost is added.
restore_run :
    restore_ops dns want live
    ≡ record { action = del_rr; rr = some (rr_of "c.z" 1 "c.z A 1") }
      ∷ record { action = add_rr; rr = some (rr_of "b.z" 1 "b.z A 1") }
      ∷ []
unfolding restore_ops sort_ops only_in keyed managed rr_key insert Dict.lookup sort_by insert_sorted
    str_lt str_eq to_lower trim_suffix trim_prefix has_suffix has_prefix
restore_run = refl

most_specific : most_specific_zone dns inv (bytes "x.s.z") ≡ bytes "s.z"
unfolding most_specific_zone longest_zone user_zones builtin_empty str_eq has_suffix has_prefix
most_specific = refl

abbrev editor : Editor
editor = record {
  keys = record { name = bytes "K."; algo = []; secret = bytes "s" } ∷ [];
  has_store = true;
  keep = 5;
}

abbrev all_well : Faults
all_well = record { snapshot_fails = false; backend_fails = false; update_fails = false }

abbrev before : World
before = record { snaps = record { rows = []; next_id = 1 }; sent = [] }

abbrev add_x : String → Op
add_x name = record { action = add_rr; rr = some (rr_of name 1 "x") }

static_refused :
    prepare dns editor inv (bytes "static") (add_x "x.static" ∷ []) (some live) ≡ err not_dynamic
unfolding prepare validate_zone zone_by_name str_eq to_lower trim_space trim_left trim_suffix
    has_suffix has_prefix
static_refused = refl

child_refused :
    prepare dns editor inv (bytes "Z.") (add_x "x.s.z" ∷ []) (some live)
    ≡ err (more_specific (bytes "s.z"))
unfolding prepare validate_zone validate_ops check_ops key_for grants zone_by_name
    most_specific_zone longest_zone user_zones builtin_empty equal_fold str_eq to_lower trim_space
    trim_left trim_suffix has_suffix has_prefix
child_refused = refl

has_key-restore_ops_example :
    let ops = restore_ops dns want live in
    let k = bytes "c.z A " ++ bytes "c.z A 1" in
    (any (acts_on dns del_rr k) ops ≡ (has_key dns k live && not (has_key dns k want)))
    × (any (acts_on dns add_rr k) ops ≡ (has_key dns k want && not (has_key dns k live)))
    × (has_key_after dns k ops live ≡ has_key dns k want)
has_key-restore_ops_example = has_key-restore_ops dns (bytes "c.z A " ++ bytes "c.z A 1") want live

apply-Carried_example :
    SentOrNot dns editor inv
      (bytes "z")
      7
      (add_x "x.z" ∷ [])
      (some live)
      before
      (apply dns editor inv all_well 7 (bytes "z") (add_x "x.z" ∷ []) (some live) before).1
apply-Carried_example =
    apply-Carried dns editor inv (bytes "z") all_well 7 (add_x "x.z" ∷ []) (some live) before
