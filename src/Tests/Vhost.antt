-- ===== src/Tests/Vhost.antt =====
-- Runs of the vhost editor of internal/vhostmut.
use goddns.Base.{true, Option, [], ◌∷◌, none, some, ◌≡◌, refl, if◌then◌else◌}
use goddns.Base.Strings.{
  Bytes, bytes, str_eq, to_lower, trim_space, trim_left, trim_suffix, has_prefix, has_suffix, cut,
  split,
}
use goddns.Base.Dict
use goddns.Base.Dict.{Dict, insert}
use goddns.Base.Decimal.{show_nat}
use goddns.Base.Sort.{sort_by, insert_sorted, str_lt}
use goddns.Base.Result.{Result, ok, err}
use goddns.Config.{admin_host_taken}
use goddns.Config.Load.{
  Sources, decoded, with_keys, canon_key_name, check_mode, norm_host, merge_rules, merge_fragments,
  is_credential, check_admin_creds, parse_nets, check_creds, check_ports, check_rule, norm_rules,
  check_admin, validate, load,
}
use goddns.Proxy.Validate.{valid_host, check_users, validate_rule}
use goddns.Vhost.{
  Toml, Tree, VhostReport, VhostAction, add_vhost, update_vhost, remove_vhost, preview_set,
  preview_remove, set, remove_host, ownership, owned_in, fragment_files, defines,
}
use goddns.Vhost.Owned.{AllOrNothing, IsPlaced, set-OnlyFile}
use goddns.Tests.Config.{lib, rule, source}

abbrev pub toml : Toml
toml = record {
  decode = λ s. some (if str_eq s (bytes "x") then (bytes "h", rule) ∷ [] else []);
  quote = λ s. s;
}

-- No main file, and a fragment of the host h.
abbrev pub tree : Tree
tree = record { base = none; fragments = (bytes "h.conf", bytes "x") ∷ [] }

set-OnlyFile_example :
    AllOrNothing toml tree
      (IsPlaced toml (bytes "H.") rule tree)
      (set toml lib true true (bytes "H.") rule tree)
set-OnlyFile_example = set-OnlyFile toml lib true true (bytes "H.") rule tree

abbrev reported : {E : Type 0} → Result E VhostReport → Option (VhostAction × Bytes)
reported (ok r) = some (r.action, r.file)
reported (err e) = none

outcomes :
    (reported (set toml lib true true (bytes "H.") rule tree).0
      ≡ some (update_vhost, bytes "h.conf"))
    × (reported (set toml lib true true (bytes "g") rule tree).0 ≡ some (add_vhost, bytes "g.conf"))
    × (reported (remove_host toml true true (bytes "h") tree).0
        ≡ some (remove_vhost, bytes "h.conf"))
    × (reported (remove_host toml true true (bytes "g") tree).0 ≡ none)
unfolding set remove_host preview_set preview_remove ownership owned_in fragment_files defines
    validate_rule valid_host check_users norm_host sort_by insert_sorted Dict.lookup insert str_eq
    str_lt to_lower trim_space trim_left trim_suffix has_suffix has_prefix cut split
outcomes = (refl, refl, refl, refl)

-- The editor takes the host of the admin page, a, and `Load` then refuses the configuration with it.
abbrev with_admin_host : Sources
with_admin_host = record source {
  fragments = (bytes "a.conf", decoded ((bytes "a", rule) ∷ []) []) ∷ [];
}

admin_host :
    (reported (set toml lib true true (bytes "a") rule tree).0 ≡ some (add_vhost, bytes "a.conf"))
    × (load lib with_admin_host ≡ err (admin_host_taken (bytes "a")))
unfolding set preview_set ownership owned_in fragment_files defines validate_rule valid_host
    check_users norm_host sort_by insert_sorted Dict.lookup insert str_eq str_lt to_lower trim_space
    trim_left trim_suffix has_suffix has_prefix cut split load validate with_keys canon_key_name
    check_mode merge_rules merge_fragments is_credential check_admin_creds parse_nets check_creds
    check_ports check_rule norm_rules check_admin show_nat
admin_host = (refl, refl)
