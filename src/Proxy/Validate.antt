-- ===== src/Proxy/Validate.antt =====
-- `ValidHost` and `ValidateRule` of internal/proxy/proxy.go: the checks before a vhost is written.
use goddns.Base.{
  ℕ, Bool, true, false, not, ◌&&◌, ◌||◌, List, [], ◌∷◌, Option, none, some, leb, ◌==◌,
  if◌then◌else◌, is_empty, all, length, reverse,
}
use goddns.Base.Strings.{Bytes, bytes, str_eq, trim_space, split, cut}
use goddns.Base.Result.{Result, ok, err, ◌>>◌, check}
use goddns.Config.{ProxyRule, Url, Libraries}

pub data RuleError : Type 0 where
  bad_host bad_url bad_scheme missing_host not_a_root bad_network bad_user bad_hash bad_port :
      RuleError

abbrev starts_with : ℕ → Bytes → Bool
starts_with c [] = false
starts_with c (d ∷ s) = d == c

abbrev pub is_label_byte : ℕ → Bool
is_label_byte c = leb b'a' c && leb c b'z' || leb b'0' c && leb c b'9' || c == b'-'

abbrev pub is_label : Bytes → Bool
is_label l =
    not (is_empty l)
    && leb (length l) 63
    && not (starts_with b'-' l)
    && not (starts_with b'-' (reverse l))
    && all is_label_byte l

-- `ValidHost`.
unfoldable pub valid_host : Bytes → Bool
unfolding split
valid_host h = not (is_empty h) && leb (length h) 253 && all is_label (split b'.' h)

abbrev is_root : Url → Bool
is_root u =
    (is_empty u.path || str_eq u.path (bytes "/"))
    && is_empty u.raw_query
    && is_empty u.fragment
    && not u.has_user

abbrev pub check_upstream : Option Url → Result RuleError (Unit {0})
check_upstream none = err bad_url
check_upstream (some u) = do
  check (str_eq u.scheme (bytes "http") || str_eq u.scheme (bytes "https")) bad_scheme
  check (not (is_empty u.host)) missing_host
  check (is_root u) not_a_root

abbrev is_network : Libraries → Bytes → Bool
is_network lib s = elim (lib.parse_cidr (trim_space s)) [ none ↦ false | some n ↦ true ]

abbrev pub user_hash : Libraries → Option (Bytes × Bytes) → Result RuleError (Unit {0})
user_hash lib none = err bad_user
user_hash lib (some (user, hash)) =
    if is_empty user then err bad_user else check (lib.bcrypt_cost hash) bad_hash

unfoldable pub check_users : Libraries → List Bytes → Result RuleError (Unit {0})
unfolding cut
check_users lib [] = ok tt
check_users lib (cred ∷ creds) = user_hash lib (cut b':' cred) >> check_users lib creds

-- `ValidateRule`.
unfoldable pub validate_rule : Libraries → Bytes → ProxyRule → Result RuleError (Unit {0})
unfolding valid_host check_users trim_space
validate_rule lib host r = do
  check (valid_host host) bad_host
  check_upstream (lib.parse_url (trim_space r.upstream))
  check (all (is_network lib) r.allow) bad_network
  check_users lib r.basic_auth
  check (all (λ p. leb 1 p && leb p 65535) r.console_ports) bad_port
