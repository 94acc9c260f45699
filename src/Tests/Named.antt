-- ===== src/Tests/Named.antt =====
-- Runs of the parser and the checks of internal/named.
use goddns.Base.{true, false, not, ◌||◌, [], ◌∷◌, none, some, ◌≡◌, refl, if◌then◌else◌, any}
use goddns.Base.Strings.{bytes, str_eq, trim_suffix, has_suffix, has_prefix}
use goddns.Named.{Inventory, user_zones, builtin_empty}
use goddns.Named.Check.{
  is_key, is_error, check_inventory, zone_findings, undefined_keys, trim_slashes_right,
  is_error-check_inventory,
}
use goddns.Named.Blocks.{
  Captures, scan_block, next_state, read_balanced, parse_dump, extract_blocks, blocks_from,
  named_block, zone_of, append_all, is_none_body, view_of, resolve_path,
}

-- A body with a brace in a string, and what is behind the block.
nested : read_balanced (bytes "a { b; }; c \"}\"; } d }") ≡ some (bytes "a { b; }; c \"}\"; ")
unfolding read_balanced scan_block next_state
nested = refl

unclosed : read_balanced (bytes "a { b; }; c \"}\";") ≡ none
unfolding read_balanced scan_block next_state
unclosed = refl

-- One zone block, whose captures are given.
abbrev captures : Captures
captures = record {
  heads = λ src keyword. if str_eq keyword (bytes "zone") then (bytes "z.", (0, 8)) ∷ [] else [];
  sub_head = λ body name. if str_eq name (bytes "update-policy") then some 16 else none;
  directory_in = λ s. bytes "/d/";
  type_in = λ s. bytes "master";
  file_in = λ s. bytes "z.db";
  algorithm_in = λ s. [];
  secret_in = λ s. [];
  grants_in = λ s. bytes "k." ∷ bytes "k" ∷ [];
  keys_in = λ s. [];
  policy_local = λ s. false;
}

abbrev parsed : Inventory
parsed = record {
  directory = bytes "/d/";
  zones =
      record {
        name = bytes "z";
        view = [];
        type = bytes "master";
        file = bytes "z.db";
        path = bytes "/d/z.db";
        dynamic = true;
        update_keys = bytes "k" ∷ [];
        allow_update = bytes "policy";
      }
      ∷ [];
  keys = [];
}

parses : parse_dump captures (bytes "zone \"z\" { update-policy { grant k; }; };") ≡ parsed
unfolding parse_dump extract_blocks blocks_from named_block zone_of append_all is_none_body view_of
    resolve_path trim_slashes_right read_balanced scan_block next_state str_eq trim_suffix
    has_suffix has_prefix
parses = refl

undefined_key : any is_error (check_inventory parsed [] []) ≡ true
unfolding check_inventory zone_findings undefined_keys user_zones builtin_empty str_eq has_suffix
    has_prefix
undefined_key = refl

is_error-check_inventory_example :
    any is_error (check_inventory parsed (bytes "k.") (bytes "s"))
    ≡ (any (λ z. any (λ k. not (is_key parsed.keys k)) z.update_keys) (user_zones parsed) || true)
unfolding str_eq trim_suffix has_suffix has_prefix
is_error-check_inventory_example = is_error-check_inventory parsed (bytes "k.") (bytes "s")
