-- ===== src/Dns.antt =====
-- What the program reads of a `dns.RR` of github.com/miekg/dns, the functions of that library that
-- it calls, and the operations of internal/ddns/mutate.go on records.
use goddns.Base.{ℕ, Bool, Option, List, ◌==◌, ◌||◌}
use goddns.Base.Strings.{Bytes}

-- The concrete type of a record, as far as a type switch looks at it: `*dns.SOA` with its MNAME
-- and serial, `*dns.NS` with its target, `*dns.A` and `*dns.AAAA` with the printed address.
pub data Body : Type 0 where
  soa : Bytes → ℕ → Body
  ns : Bytes → Body
  a : Bytes → Body
  aaaa : Bytes → Body
  other : Body

-- `name` and `rrtype` are the header's, `text` is `String()`, `header_text` is `Header().String()`.
pub record Rr : Type 0 where
  pub name : Bytes
  pub rrtype : ℕ
  pub text : Bytes
  pub header_text : Bytes
  pub body : Body

-- The numbers of the types that the program names.
abbrev pub type_ns : ℕ
type_ns = 2

abbrev pub type_soa : ℕ
type_soa = 6

abbrev pub type_mx : ℕ
type_mx = 15

-- RRSIG, NSEC, DNSKEY, NSEC3, NSEC3PARAM, CDS and CDNSKEY.
abbrev pub is_dnssec_type : ℕ → Bool
is_dnssec_type t = t == 46 || t == 47 || t == 48 || t == 50 || t == 51 || t == 59 || t == 60

pub record DnsLib : Type 0 where
  pub fqdn : Bytes → Bytes
  pub canonical_name : Bytes → Bytes
  pub is_sub_domain : Bytes → Bytes → Bool
  pub type_to_string : ℕ → Bytes
  -- `NewZoneParser` run to its end: the records read, and the error that stopped it.
  pub parse_zone : Bytes → Bytes → List Rr × Option Bytes

-- `Action` and `Op`.
pub data Action : Type 0 where
  add_rr del_rr del_rrset del_name : Action

pub record Op : Type 0 where
  pub action : Action
  pub rr : Option Rr
