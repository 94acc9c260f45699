-- ===== src/Named.antt =====
-- The inventory of a BIND configuration, internal/named: zones and keys (named.go), how they are
-- looked up (axfr.go), and records in the order of a zone file. The consistency checks are in
-- children.

pub mod Delegation
pub mod Serials
pub mod Check
pub mod Blocks
use Prim.Native.String.{String}
use goddns.Base.{
  ℕ, Bool, true, false, not, ◌&&◌, ◌||◌, List, [], ◌∷◌, ◌++◌, Option, none, some, ltb, ◌==◌,
  if◌then◌else◌, is_empty, any, filter, find?, length, reverse,
}
use goddns.Base.Strings.{
  Bytes, bytes, str_eq, to_lower, equal_fold, trim_space, trim_suffix, has_suffix, split,
}
use goddns.Base.Sort.{str_lt, sort_by}
use goddns.Dns.{Body, soa, Rr, type_soa, type_ns, type_mx, is_dnssec_type}

pub record Zone : Type 0 where
  pub name : Bytes
  pub view : Bytes
  pub type : Bytes
  pub file : Bytes
  pub path : Bytes
  pub dynamic : Bool
  pub update_keys : List Bytes
  pub allow_update : Bytes

pub record Key : Type 0 where
  pub name : Bytes
  pub algorithm : Bytes
  pub secret : Bytes

pub record Inventory : Type 0 where
  pub directory : Bytes
  pub zones : List Zone
  pub keys : List Key

abbrev pub is_text : String → Bytes → Bool
is_text s b = str_eq b (bytes s)

-- `Zone.Kind`.
unfoldable pub kind : Zone → Bytes
unfolding str_eq
kind z =
    if is_text "master" z.type || is_text "primary" z.type
    then if z.dynamic then bytes "dynamic" else bytes "static file"
    else if is_text "slave" z.type || is_text "secondary" z.type
    then bytes "slave"
    else z.type

-- `Zone.builtinEmpty` and `Inventory.UserZones`.
unfoldable pub builtin_empty : Zone → Bool
unfolding str_eq has_suffix
builtin_empty z =
    is_text "master" z.type
    && (is_text "named.empty" z.file || has_suffix z.file (bytes "/named.empty"))

unfoldable pub user_zones : Inventory → List Zone
unfolding builtin_empty
user_zones inv = filter (λ z. not (builtin_empty z)) inv.zones

-- `Inventory.ZoneByName`.
unfoldable pub zone_by_name : Bytes → Inventory → Option Zone
unfolding to_lower trim_space trim_suffix str_eq
zone_by_name name inv =
    let wanted = trim_suffix (to_lower (trim_space name)) (bytes ".") in
    find? (λ z. str_eq (to_lower z.name) wanted) inv.zones

-- `TSIGKey`, of package named.
pub record TsigKey : Type 0 where
  pub name : Bytes
  pub algo : Bytes
  pub secret : Bytes

abbrev pub tsig_key : Key → TsigKey
tsig_key k = record { name = k.name; algo = k.algorithm; secret = k.secret }

-- `add` in `AXFRKeys`. The names that have been seen are those of the keys gathered.
abbrev add_found : List TsigKey → Option Key → List TsigKey
add_found out none = out
add_found out (some k) = out ++ (tsig_key k ∷ [])

unfoldable pub add_key : Inventory → Bytes → List TsigKey → List TsigKey
unfolding trim_suffix str_eq
add_key inv name out =
    let n = trim_suffix name (bytes ".") in
    if is_empty n || any (λ (k : TsigKey). str_eq k.name n) out
    then out
    else add_found out (find? (λ k. str_eq k.name n) inv.keys)

unfoldable pub add_keys : Inventory → List Bytes → List TsigKey → List TsigKey
unfolding add_key
add_keys inv [] out = out
add_keys inv (n ∷ ns) out = add_keys inv ns (add_key inv n out)

abbrev granted_to : Option Zone → List Bytes
granted_to none = []
granted_to (some z) = z.update_keys

abbrev pub key_names : List Key → List Bytes
key_names [] = []
key_names (k ∷ ks) = k.name ∷ key_names ks

-- `Inventory.AXFRKeys`.
unfoldable pub axfr_keys : Inventory → Option Zone → Bytes → List TsigKey
unfolding add_keys
axfr_keys inv z own = add_keys inv (own ∷ (granted_to z ++ key_names inv.keys)) []

-- `SOAOf`, with the serial that its callers read.
abbrev pub serial_of : Body → Option ℕ
serial_of (soa mname n) = some n
serial_of _ = none

unfoldable pub soa_of : List Rr → Option Rr
soa_of [] = none
soa_of (rr ∷ rrs) = elim (serial_of rr.body) [ none ↦ soa_of rrs | some n ↦ some rr ]

-- `Signed`.
unfoldable pub signed : List Rr → Bool × ℕ
signed rrs = let n = length (filter (λ rr. is_dnssec_type rr.rrtype) rrs) in (ltb 0 n, n)

-- `reverseLabels`, `lessName` and `sameName`.
unfoldable pub reverse_labels : Bytes → List Bytes
unfolding split to_lower trim_suffix
reverse_labels name = reverse (split b'.' (to_lower (trim_suffix name (bytes "."))))

unfoldable pub less_labels : List Bytes → List Bytes → Bool
unfolding str_lt str_eq
less_labels [] [] = false
less_labels [] (y ∷ b) = true
less_labels (x ∷ a) [] = false
less_labels (x ∷ a) (y ∷ b) = let rest = less_labels a b in if str_eq x y then rest else str_lt x y

unfoldable pub same_name : Bytes → Bytes → Bool
unfolding equal_fold trim_suffix
same_name a b = equal_fold (trim_suffix a (bytes ".")) (trim_suffix b (bytes "."))

abbrev pub rank : ℕ → ℕ
rank t = if t == type_soa then 0 else if t == type_ns then 1 else if t == type_mx then 2 else 3

unfoldable pub less_rr : Rr → Rr → Bool
unfolding same_name less_labels reverse_labels str_lt
less_rr a b =
    if not (same_name a.name b.name)
    then less_labels (reverse_labels a.name) (reverse_labels b.name)
    else if not (rank a.rrtype == rank b.rrtype)
    then ltb (rank a.rrtype) (rank b.rrtype)
    else str_lt a.text b.text

-- `SortZone` and `Canonical`.
unfoldable pub sort_zone : List Rr → List Rr
unfolding less_rr sort_by
sort_zone rrs = sort_by less_rr rrs

text_lines : List Rr → Bytes
text_lines [] = []
text_lines (rr ∷ rrs) = rr.text ++ (b'\n' ∷ text_lines rrs)

unfoldable pub canonical : List Rr → Bytes
unfolding text_lines sort_zone
canonical rrs = text_lines (sort_zone rrs)
