-- ===== src/Named/Delegation.antt =====
-- The offline delegation checks of internal/named/health.go.
pub mod Quiet
use Prim.Native.String.{String}
use goddns.Base.{
  ℕ, Bool, true, false, not, ◌&&◌, ◌||◌, List, [], ◌∷◌, ◌++◌, Option, none, some, ◌==◌,
  if◌then◌else◌, is_empty, any, filter,
}
use goddns.Base.Strings.{Bytes, bytes, str_eq, to_lower, equal_fold, trim_suffix, has_suffix}
use goddns.Base.Dict
use goddns.Base.Dict.{Dict, insert}
use goddns.Dns.{Body, soa, ns, a, aaaa, other, Rr, DnsLib}

-- `Severity` and `Finding` of internal/named/named.go.
pub data Severity : Type 0 where
  fine info warn error : Severity

pub record Finding : Type 0 where
  pub severity : Severity
  pub zone : Bytes
  pub message : Bytes

abbrev pub bare : Bytes → Bytes
bare name = trim_suffix (to_lower name) (bytes ".")

-- The target of a record that is an NS record at the apex.
abbrev pub target_in : Bytes → Bytes → Body → Option Bytes
target_in apex name (ns t) = if equal_fold name apex then some (bare t) else none
target_in apex name _ = none

abbrev pub add_new : Option Bytes → List Bytes → List Bytes
add_new none out = out
add_new (some t) out = if any (str_eq t) out then out else out ++ (t ∷ [])

-- The loop of `apexNS`.
unfoldable pub apex_onto : Bytes → List Rr → List Bytes → List Bytes
unfolding equal_fold str_eq to_lower trim_suffix
apex_onto apex [] out = out
apex_onto apex (rr ∷ rrs) out = apex_onto apex rrs (add_new (target_in apex rr.name rr.body) out)

-- The printed address of an A or AAAA record.
abbrev pub address_of : Body → Option Bytes
address_of (a ip) = some ip
address_of (aaaa ip) = some ip
address_of _ = none

abbrev or_none : Option (List Bytes) → List Bytes
or_none none = []
or_none (some ips) = ips

-- `addrs[n]`, of a map of lists.
unfoldable pub addresses : Bytes → Dict (List Bytes) → List Bytes
unfolding Dict.lookup
addresses n m = or_none (Dict.lookup n m)

abbrev pub add_address : Bytes → Option Bytes → Dict (List Bytes) → Dict (List Bytes)
add_address n none m = m
add_address n (some ip) m = insert n (addresses n m ++ (ip ∷ [])) m

-- The loop of `addressIndex`.
unfoldable pub index_onto : List Rr → Dict (List Bytes) → Dict (List Bytes)
unfolding addresses insert to_lower trim_suffix
index_onto [] m = m
index_onto (rr ∷ rrs) m = index_onto rrs (add_address (bare rr.name) (address_of rr.body) m)

unfoldable pub address_index : List Rr → Dict (List Bytes)
unfolding index_onto
address_index rrs = index_onto rrs []

-- `SOAOf`, for its primary.
unfoldable pub primary_of : List Rr → Option Bytes
primary_of [] = none
primary_of (rr ∷ rrs) =
    let rest = primary_of rrs in elim rr.body [ soa mname n ↦ some mname | _ ↦ rest ]

abbrev finding : Severity → Bytes → Bytes → Finding
finding s zone message = record { severity = s; zone = zone; message = message }

abbrev pub primary_finding : Bytes → List Bytes → Option Bytes → List Finding
primary_finding apex names none = []
primary_finding apex names (some p) =
    let m = bare p in
    (if any (λ n. str_eq n m) names
      then finding fine apex (bytes "SOA primary " ++ (m ++ bytes " is listed in the NS set"))
      else finding info apex (
          bytes "SOA primary (MNAME) "
          ++ (m
              ++ (bytes " is not in the NS set "
                  ++ (226
                      ∷ 128
                      ∷ 148
                      ∷ bytes " normal for a hidden primary, otherwise check for a typo")))))
    ∷ []

abbrev pub in_zone : Bytes → Bytes → Bool
in_zone apex n = str_eq n apex || has_suffix n (b'.' ∷ apex)

abbrev pub lacks_glue : Bytes → Dict (List Bytes) → Bytes → Bool
lacks_glue apex addrs n = in_zone apex n && is_empty (addresses n addrs)

unfoldable pub glue_findings : Bytes → Dict (List Bytes) → List Bytes → List Finding
unfolding str_eq has_suffix addresses
glue_findings apex addrs [] = []
glue_findings apex addrs (n ∷ names) =
    let rest = glue_findings apex addrs names in
    if lacks_glue apex addrs n
    then finding warn apex
        (bytes "nameserver " ++ (n ++ bytes " has no A/AAAA in the zone (in-zone NS needs glue)"))
      ∷ rest
    else rest

module _ (dns : DnsLib) where
  -- `apexNS`.
  unfoldable pub apex_ns : Bytes → List Rr → List Bytes
  unfolding apex_onto
  apex_ns zone rrs = apex_onto (dns.fqdn zone) rrs []

  abbrev pub checked : Bytes → List Rr → List Bytes → List Finding
  checked apex rrs [] = finding error apex (bytes "no NS records at the zone apex") ∷ []
  checked apex rrs (n ∷ names) =
      primary_finding apex (n ∷ names) (primary_of rrs)
      ++ glue_findings apex (address_index rrs) (n ∷ names)

  -- `CheckDelegation`.
  unfoldable pub check_delegation : Bytes → List Rr → List Finding
  unfolding primary_of glue_findings address_index apex_ns trim_suffix to_lower str_eq
  check_delegation zone rrs =
      checked (trim_suffix (dns.fqdn zone) (bytes ".")) rrs (apex_ns zone rrs)
