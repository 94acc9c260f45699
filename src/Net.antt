-- ===== src/Net.antt =====
-- What the program uses of Go's package net: addresses, networks, and the classes of addresses
-- that no public record may hold. An address is its octets, 4 or 16 of them; nil is the empty list.
use Prim.Native.Nat.{bit_and}
use goddns.Base.{
  ℕ, Bool, true, false, ◌&&◌, [], ◌∷◌, Option, none, some, ◌==◌, if◌then◌else◌, length, take, drop,
  all,
}
use goddns.Base.Strings.{Bytes, str_eq}

abbrev v4_prefix : Bytes
v4_prefix = 0 ∷ 0 ∷ 0 ∷ 0 ∷ 0 ∷ 0 ∷ 0 ∷ 0 ∷ 0 ∷ 0 ∷ 255 ∷ 255 ∷ []

-- `net.IP.To4`.
unfoldable pub to4 : Bytes → Option Bytes
unfolding str_eq
to4 ip =
    if length ip == 4
    then some ip
    else if length ip == 16 && str_eq (take 12 ip) v4_prefix
    then some (drop 12 ip)
    else none

-- `net.IPNet`: a network number and a mask of the same length.
pub record IpNet : Type 0 where
  pub number : Bytes
  pub mask : Bytes

same_masked : Bytes → Bytes → Bytes → Bool
same_masked [] [] [] = true
same_masked (n ∷ ns) (m ∷ ms) (x ∷ xs) = bit_and n m == bit_and x m && same_masked ns ms xs
same_masked _ _ _ = false

abbrev short_form : Bytes → Option Bytes → Bytes
short_form ip none = ip
short_form ip (some v4) = v4

-- `net.IPNet.Contains`.
unfoldable pub contains_ip : IpNet → Bytes → Bool
unfolding same_masked to4
contains_ip n ip = same_masked n.number n.mask (short_form ip (to4 ip))

abbrev octet : ℕ → Bytes → ℕ
octet i ip = elim (drop i ip) [ [] ↦ 256 | x ∷ _ ↦ x ]

abbrev by_family : (Bytes → Bool) → (Bytes → Bool) → Bytes → Option Bytes → Bool
by_family v4 v6 ip (some x) = v4 x
by_family v4 v6 ip none = length ip == 16 && v6 ip

abbrev zeros : Bytes → Bool
zeros = all (λ x. x == 0)

-- `IsLoopback`, `IsUnspecified`, `IsMulticast`, `IsLinkLocalUnicast`, `IsLinkLocalMulticast`.
unfoldable pub is_loopback : Bytes → Bool
unfolding to4
is_loopback ip =
    by_family (λ x. octet 0 x == 127) (λ x. zeros (take 15 x) && octet 15 x == 1) ip (to4 ip)

unfoldable pub is_unspecified : Bytes → Bool
unfolding to4
is_unspecified ip = by_family zeros zeros ip (to4 ip)

unfoldable pub is_multicast : Bytes → Bool
unfolding to4
is_multicast ip =
    by_family (λ x. bit_and (octet 0 x) 0xf0 == 0xe0) (λ x. octet 0 x == 0xff) ip (to4 ip)

unfoldable pub is_link_local_unicast : Bytes → Bool
unfolding to4
is_link_local_unicast ip =
    by_family (λ x. octet 0 x == 169 && octet 1 x == 254)
      (λ x. octet 0 x == 0xfe && bit_and (octet 1 x) 0xc0 == 0x80) ip (to4 ip)

unfoldable pub is_link_local_multicast : Bytes → Bool
unfolding to4
is_link_local_multicast ip =
    by_family (λ x. octet 0 x == 224 && octet 1 x == 0 && octet 2 x == 0)
      (λ x. octet 0 x == 0xff && bit_and (octet 1 x) 0x0f == 0x02) ip (to4 ip)

-- What the program takes of the package and of the client's text as it finds it: parsing and
-- printing of addresses, and the host part of host:port.
pub record TextForms : Type 0 where
  pub parse_ip : Bytes → Bytes
  pub ip_string : Bytes → Bytes
  pub split_host : Bytes → Option Bytes
