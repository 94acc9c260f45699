-- ===== src/Named/Delegation/Quiet.antt =====
-- When the delegation checks have nothing to complain of.
use goddns.Base.{Bool, true, false, not, ◌&&◌, ◌||◌, List, Option, none, some, any, all}
use goddns.Base.Strings.{Bytes, str_eq, trim_suffix, to_lower, has_suffix, equal_fold}
use goddns.Base.Dict.{Dict}
use goddns.Dns.{Rr}
use goddns.Named.Delegation.{fine, info, warn, error, Finding, bare, target_in, address_of, in_zone}

-- Neither a warning nor an error.
abbrev pub is_quiet : Finding → Bool
is_quiet f = elim f.severity [ fine ↦ true | info ↦ true | warn ↦ false | error ↦ false ]

abbrev passes : (Bytes → Bool) → Option Bytes → Bool
passes p none = true
passes p (some t) = p t

has_text : Option Bytes → Bool
has_text none = false
has_text (some t) = true

-- The record gives an address to the name.
unfoldable pub serves : Bytes → Rr → Bool
unfolding str_eq to_lower trim_suffix has_text
serves n rr = str_eq (bare rr.name) n && has_text (address_of rr.body)

has_address : List Rr → Bytes → Bool
unfolding serves
has_address rrs n = any (serves n) rrs

-- A nameserver that needs no address in the zone, or has one.
unfoldable pub is_supplied : Bytes → List Rr → Bytes → Bool
unfolding str_eq has_suffix has_address
is_supplied apex rrs n = not (in_zone apex n) || has_address rrs n

-- The zone has a nameserver, and each is supplied.
unfoldable pub is_delegated : Bytes → Bytes → List Rr → Bool
unfolding equal_fold to_lower trim_suffix is_supplied has_text
is_delegated fqdn apex rrs =
    any (λ rr. has_text (target_in fqdn rr.name rr.body)) rrs
    && all (λ rr. passes (is_supplied apex rrs) (target_in fqdn rr.name rr.body)) rrs
