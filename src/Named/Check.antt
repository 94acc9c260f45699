-- ===== src/Named/Check.antt =====
-- `Check` of internal/named/check.go: the keys of an inventory against its zones and goddns's own key.
use goddns.Base.{
  Bool, true, false, not, ◌&&◌, ◌||◌, List, [], ◌∷◌, ◌++◌, Option, none, some, ◌≡◌, refl, arith,
  if◌then◌else◌, ◌==◌, is_empty, any, find?, reverse, Option-cases, inl, inr,
}
use goddns.Base.Strings.{Bytes, bytes, str_eq, trim_suffix}
use goddns.Named.{Zone, Key, Inventory, is_text, user_zones}
use goddns.Named.Delegation.{Severity, Finding, fine, info, warn, error}

abbrev dash : Bytes
dash = 226 ∷ 128 ∷ 148 ∷ []

abbrev finding : Severity → Bytes → Bytes → Finding
finding s zone message = record { severity = s; zone = zone; message = message }

-- `keySet`, as its test.
abbrev pub is_key : List Key → Bytes → Bool
is_key keys k = any (λ key. str_eq key.name k) keys

-- Drops the bytes up to the last slash, of a reversed path; `dirOf` is empty without one.
from_slash : Bytes → Bytes
from_slash [] = []
from_slash (c ∷ s) = let rest = from_slash s in if c == b'/' then s else rest

-- `dirOf`.
unfoldable pub dir_of : Bytes → Bytes
unfolding from_slash
dir_of p = reverse (from_slash (reverse p))

-- The slashes at the front of a reversed path.
drop_slashes : Bytes → Bytes
drop_slashes [] = []
drop_slashes (c ∷ s) = let rest = drop_slashes s in if c == b'/' then rest else c ∷ s

-- `strings.TrimRight` at slashes.
unfoldable pub trim_slashes_right : Bytes → Bytes
unfolding drop_slashes
trim_slashes_right p = reverse (drop_slashes (reverse p))

-- A zone's keys that are not defined.
unfoldable pub undefined_keys : List Key → Bytes → List Bytes → List Finding
undefined_keys keys zone [] = []
undefined_keys keys zone (k ∷ ks) =
    let rest = undefined_keys keys zone ks in
    if is_key keys k
    then rest
    else finding error zone (
        bytes "grants update key '"
        ++ (k ++ bytes "' which is not defined in named.conf (updates will fail)"))
      ∷ rest

abbrev ip_only : Zone → List Finding
ip_only z =
    if z.dynamic && is_empty z.update_keys && str_eq z.allow_update (bytes "addresses/keys")
    then finding warn z.name (
        bytes "is dynamic via IP allow-update only (no TSIG key) "
        ++ (dash ++ bytes " anyone from those IPs can update it"))
      ∷ []
    else []

-- A journal that can often not be created.
abbrev no_journal : Bytes → Zone → List Finding
no_journal dir z =
    if z.dynamic
      && (is_text "master" z.type || is_text "primary" z.type)
      && not (is_empty z.path)
      && not (is_empty dir)
      && str_eq (dir_of z.path) (trim_slashes_right dir)
    then finding warn z.name (
        bytes "dynamic zone file is directly in "
        ++ (dir
            ++ (bytes " "
                ++ (dash
                    ++ (bytes
                          " on EL the journal often can't be created there; conventionally dynamic zone files live under "
                        ++ (trim_slashes_right dir ++ bytes "/dynamic/"))))))
      ∷ []
    else []

-- The loop over the zones.
unfoldable pub zone_findings : List Key → Bytes → List Zone → List Finding
unfolding undefined_keys
zone_findings keys dir [] = []
zone_findings keys dir (z ∷ zs) =
    undefined_keys keys z.name z.update_keys
    ++ (ip_only z ++ (no_journal dir z ++ zone_findings keys dir zs))

-- `granted`: the keys of all the zones.
unfoldable pub granted_keys : List Zone → List Bytes
granted_keys [] = []
granted_keys (z ∷ zs) = z.update_keys ++ granted_keys zs

abbrev pub is_granted : List Zone → Bytes → Bool
is_granted zones k = any (λ g. str_eq g k) (granted_keys zones)

unfoldable pub idle_keys : List Zone → List Key → List Finding
unfolding granted_keys
idle_keys zones [] = []
idle_keys zones (k ∷ ks) =
    let rest = idle_keys zones ks in
    if str_eq k.name (bytes "rndc-key")
      || str_eq k.name (bytes "session-key")
      || is_granted zones k.name
    then rest
    else finding info [] (
        bytes "key '" ++ (k.name ++ bytes "' is defined but not granted update rights on any zone"))
      ∷ rest

-- The verdict on goddns's own key.
abbrev pub own_verdict : List Zone → Bytes → Bytes → Option Key → Finding
own_verdict zones name secret none = finding error [] (
    bytes "goddns tsig_name '"
    ++ (name ++ bytes "' is not a key in named.conf (updates will be REFUSED)"))
own_verdict zones name secret (some k) =
    if not (is_empty secret) && not (str_eq k.secret secret)
    then finding error [] (
        bytes "goddns tsig_secret does NOT match the '"
        ++ (name ++ bytes "' key in named.conf (updates will fail with NOTAUTH)"))
    else if not (is_granted zones name)
    then finding warn [] (
        bytes "goddns key '"
        ++ (name
            ++ bytes
                "' matches named.conf but is not granted on any zone (updates will be REFUSED)"))
    else finding fine [] (
        bytes "goddns TSIG key '"
        ++ (name ++ bytes "' matches named.conf and is granted update rights"))

abbrev pub own_name : Bytes → Bytes
own_name name = trim_suffix name (bytes ".")

abbrev own_findings : Inventory → Bytes → Bytes → List Finding
own_findings inv name secret =
    if is_empty name
    then []
    else own_verdict (user_zones inv) (own_name name) secret
        (find? (λ k. str_eq k.name (own_name name)) inv.keys)
      ∷ []

-- `Check`.
unfoldable pub check_inventory : Inventory → Bytes → Bytes → List Finding
unfolding zone_findings idle_keys trim_suffix
check_inventory inv name secret =
    zone_findings inv.keys inv.directory (user_zones inv)
    ++ (idle_keys (user_zones inv) inv.keys ++ own_findings inv name secret)

abbrev pub is_error : Finding → Bool
is_error f = elim f.severity [ error ↦ true | _ ↦ false ]

-- goddns's own key is missing, or has another secret.
abbrev pub is_faulty : Bytes → Option Key → Bool
is_faulty secret none = true
is_faulty secret (some k) = not (is_empty secret) && not (str_eq k.secret secret)

any-append : (p : Finding → Bool) (a b : List Finding) → any p (a ++ b) ≡ (any p a || any p b)
any-append p [] b = refl
any-append p (x ∷ a) b = ground (arith, any-append p a b)

is_error-undefined_keys :
    (keys : List Key) (zone : Bytes) (ks : List Bytes)
    → any is_error (undefined_keys keys zone ks) ≡ any (λ k. not (is_key keys k)) ks
unfolding undefined_keys
is_error-undefined_keys keys zone [] = refl
is_error-undefined_keys keys zone (k ∷ ks) = ground (arith, is_error-undefined_keys keys zone ks)

is_error-ip_only : (z : Zone) → any is_error (ip_only z) ≡ false
is_error-ip_only z = ground arith

is_error-no_journal : (dir : Bytes) (z : Zone) → any is_error (no_journal dir z) ≡ false
is_error-no_journal dir z = ground arith

is_error-zone_findings :
    (keys : List Key) (dir : Bytes) (zs : List Zone)
    → any is_error (zone_findings keys dir zs)
      ≡ any (λ z. any (λ k. not (is_key keys k)) z.update_keys) zs
unfolding zone_findings
is_error-zone_findings keys dir [] = refl
is_error-zone_findings keys dir (z ∷ zs) =
    let rest = zone_findings keys dir zs in
    ground (
      arith,
      any-append is_error (undefined_keys keys z.name z.update_keys)
          (ip_only z ++ (no_journal dir z ++ rest)),
      any-append is_error (ip_only z) (no_journal dir z ++ rest),
      any-append is_error (no_journal dir z) rest,
      is_error-undefined_keys keys z.name z.update_keys,
      is_error-ip_only z,
      is_error-no_journal dir z,
      is_error-zone_findings keys dir zs,
    )

is_error-idle_keys : (zones : List Zone) (ks : List Key) → any is_error (idle_keys zones ks) ≡ false
unfolding idle_keys
is_error-idle_keys zones [] = refl
is_error-idle_keys zones (k ∷ ks) = ground (arith, is_error-idle_keys zones ks)

is_error-own_findings :
    (inv : Inventory) (name secret : Bytes)
    → any is_error (own_findings inv name secret) ≡ (
        not (is_empty name)
        && is_faulty secret (find? (λ k. str_eq k.name (own_name name)) inv.keys))
is_error-own_findings inv name secret =
    elim (Option-cases (find? (λ k. str_eq k.name (own_name name)) inv.keys)) [
      | inl e ↦ rw e (ground arith)
      | inr (k, e) ↦ rw e (ground arith)
    ]

-- `Check` reports an error exactly when a zone of the user grants a key that is not defined, or when it is
-- given a name and goddns's key of that name is not defined or has another secret than the one given.
pub is_error-check_inventory :
    (inv : Inventory) (name secret : Bytes)
    → any is_error (check_inventory inv name secret) ≡ (
        any (λ z. any (λ k. not (is_key inv.keys k)) z.update_keys) (user_zones inv)
        || not (is_empty name)
          && is_faulty secret (find? (λ k. str_eq k.name (own_name name)) inv.keys))
unfolding check_inventory
is_error-check_inventory inv name secret =
    let zones = user_zones inv in
    let tail = idle_keys zones inv.keys ++ own_findings inv name secret in
    ground (
      arith,
      any-append is_error (zone_findings inv.keys inv.directory zones) tail,
      any-append is_error (idle_keys zones inv.keys) (own_findings inv name secret),
      is_error-zone_findings inv.keys inv.directory zones,
      is_error-idle_keys zones inv.keys,
      is_error-own_findings inv name secret,
    )
