-- ===== src/Named/Blocks.antt =====
-- The parser of the output of named-checkconf, internal/named/parse.go: the blocks between braces, and
-- what is made of their captures. The regular expressions are parameters.
pub mod Balanced
use Prim.Native.String.{String}
use goddns.Base.{
  ℕ, ◌+◌, ◌-◌, Bool, true, false, not, ◌&&◌, ◌||◌, List, [], ◌∷◌, ◌++◌, Option, none, some, ltb,
  ◌==◌, if◌then◌else◌, is_empty, any, drop, length, reverse,
}
use goddns.Base.Strings.{Bytes, bytes, str_eq, trim_suffix, trim_space, to_lower, has_prefix}
use goddns.Named.{Zone, Key, Inventory}
use goddns.Named.Check.{trim_slashes_right}

-- What the expressions capture: the named blocks of a keyword, each with its name and the offsets at which
-- its match starts and ends; the end of the match of a sub-block's head; single captures; and the names in
-- a policy and in a list of addresses and keys.
pub record Captures : Type 0 where
  pub heads : Bytes → Bytes → List (Bytes × (ℕ × ℕ))
  pub sub_head : Bytes → Bytes → Option ℕ
  pub directory_in : Bytes → Bytes
  pub type_in : Bytes → Bytes
  pub file_in : Bytes → Bytes
  pub algorithm_in : Bytes → Bytes
  pub secret_in : Bytes → Bytes
  pub grants_in : Bytes → List Bytes
  pub keys_in : Bytes → List Bytes
  pub policy_local : Bytes → Bool

-- Where the scanner stands: outside of strings, in a string, or behind a backslash in one.
pub data Mode : Type 0 where
  outside quoted escaped : Mode

abbrev pub after_byte : ℕ → Option Bytes → Option Bytes
after_byte c none = none
after_byte c (some s) = some (c ∷ s)

-- What a byte does to the place of the scanner and to its depth, which is counted from the block's own
-- braces; `none` is the brace that closes the block.
unfoldable pub next_state : Mode → ℕ → ℕ → Option (Mode × ℕ)
next_state outside d c =
    if c == b'"'
    then some (quoted, d)
    else if c == b'{'
    then some (outside, d + 1)
    else if c == b'}'
    then if d == 0 then none else some (outside, d - 1)
    else some (outside, d)
next_state quoted d c = some (if c == b'"' then outside else if c == 92 then escaped else quoted, d)
next_state escaped d c = some (quoted, d)

-- The loop of `readBalanced`.
unfoldable pub scan_block : Mode → ℕ → Bytes → Option Bytes
unfolding next_state
scan_block m d [] = none
scan_block m d (c ∷ s) = elim (next_state m d c) [
  | none ↦ some []
  | some (m', d') ↦ after_byte c (scan_block m' d' s)
]

-- `readBalanced`, behind the opening brace.
unfoldable pub read_balanced : Bytes → Option Bytes
unfolding scan_block
read_balanced s = scan_block outside 0 s

-- A block with its body and its range.
pub record Block : Type 0 where
  pub name : Bytes
  pub body : Bytes
  pub start : ℕ
  pub end : ℕ

-- `strings.IndexByte` for an opening brace.
index_brace : Bytes → Option ℕ
index_brace [] = none
index_brace (c ∷ s) =
    let rest = index_brace s in
    if c == b'{' then some 0 else elim rest [ none ↦ none | some n ↦ some (n + 1) ]

abbrev block_from : Bytes → ℕ → ℕ → Option Bytes → List Block → List Block
block_from name start first none rest = rest
block_from name start first (some body) rest =
    record { name = name; body = body; start = start; end = first + length body } ∷ rest

abbrev block_at : Bytes → Bytes → ℕ → ℕ → Option ℕ → List Block → List Block
block_at src name start stop none rest = rest
block_at src name start stop (some br) rest =
    block_from name start (stop + br + 1) (read_balanced (drop (stop + br + 1) src)) rest

-- The loop of `extractBlocks`.
unfoldable pub blocks_from : Bytes → List (Bytes × (ℕ × ℕ)) → List Block
unfolding read_balanced index_brace
blocks_from src [] = []
blocks_from src ((name, (start, stop)) ∷ heads) =
    block_at src name start stop (index_brace (drop stop src)) (blocks_from src heads)

-- `viewOf`.
unfoldable pub view_of : ℕ → List Block → Bytes
view_of offset [] = []
view_of offset (v ∷ views) =
    let rest = view_of offset views in
    if ltb v.start offset && ltb offset v.end
    then if str_eq v.name (bytes "_default") then [] else v.name
    else rest

-- `resolvePath`.
unfoldable pub resolve_path : Bytes → Bytes → Bytes
unfolding has_prefix trim_slashes_right
resolve_path dir file =
    if is_empty file || has_prefix file (bytes "/") || is_empty dir
    then file
    else trim_slashes_right dir ++ (b'/' ∷ file)

-- `appendUniq`, and its loop over names without their last dots.
abbrev pub append_uniq : List Bytes → Bytes → List Bytes
append_uniq xs x = if any (λ e. str_eq e x) xs then xs else xs ++ (x ∷ [])

unfoldable pub append_all : List Bytes → List Bytes → List Bytes
unfolding trim_suffix
append_all xs [] = xs
append_all xs (n ∷ ns) = append_all (append_uniq xs (trim_suffix n (bytes "."))) ns

-- `strings.Trim` at a class of bytes.
drop_class : (ℕ → Bool) → Bytes → Bytes
drop_class p [] = []
drop_class p (c ∷ s) = let rest = drop_class p s in if p c then rest else c ∷ s

abbrev trim_class : (ℕ → Bool) → Bytes → Bytes
trim_class p s = reverse (drop_class p (reverse (drop_class p s)))

-- `isNone`; what is left after the second trimming has no quotes at its ends.
unfoldable pub is_none_body : Bytes → Bool
unfolding drop_class trim_space to_lower
is_none_body body =
    let b = to_lower (trim_class (λ c. c == b'"' || c == b';') (trim_space body)) in
    let t = trim_space (trim_class (λ c. c == b'"') b) in
    str_eq t (bytes "none") || str_eq t (bytes "\"none\"")

module _ (re : Captures) where
  -- `extractBlocks`.
  unfoldable pub extract_blocks : Bytes → Bytes → List Block
  unfolding blocks_from
  extract_blocks src keyword = blocks_from src (re.heads src keyword)

  abbrev sub_from : Bytes → Option ℕ → Option Bytes
  sub_from body none = none
  sub_from body (some n) = read_balanced (drop n body)

  -- `namedBlock`.
  unfoldable pub named_block : Bytes → Bytes → Option Bytes
  unfolding read_balanced
  named_block body name = sub_from body (re.sub_head body name)

  abbrev pub with_policy : Bytes → Zone → Option Bytes → Zone
  with_policy body z (some up) = record z {
    update_keys = append_all z.update_keys (re.grants_in up);
    dynamic = true;
    allow_update = bytes "policy";
  }
  with_policy body z none =
      if re.policy_local body
      then record z { dynamic = true; allow_update = bytes "policy (local)" }
      else z

  abbrev or_text : Bytes → Bytes → Bytes
  or_text s t = if is_empty s then t else s

  abbrev pub with_allowed : Zone → Option Bytes → Zone
  with_allowed z none = z
  with_allowed z (some au) =
      if is_none_body au
      then record z { allow_update = or_text z.allow_update (bytes "none") }
      else record z {
        dynamic = true;
        update_keys = append_all z.update_keys (re.keys_in au);
        allow_update = or_text z.allow_update (bytes "addresses/keys");
      }

  abbrev bare_zone : Bytes → List Block → Block → Zone
  bare_zone dir views b =
      let name = trim_suffix b.name (bytes ".") in
      record {
        name = if is_empty name then bytes "." else name;
        view = view_of b.start views;
        type = re.type_in b.body;
        file = re.file_in b.body;
        path = resolve_path dir (re.file_in b.body);
        dynamic = false;
        update_keys = [];
        allow_update = [];
      }

  -- The body of the loop over the zone blocks.
  unfoldable pub zone_of : Bytes → List Block → Block → Zone
  unfolding named_block append_all is_none_body view_of resolve_path trim_suffix
  zone_of dir views b =
      with_allowed
        (with_policy b.body (bare_zone dir views b) (named_block b.body (bytes "update-policy")))
        (named_block b.body (bytes "allow-update"))

  zones_of : Bytes → List Block → List Block → List Zone
  unfolding zone_of
  zones_of dir views [] = []
  zones_of dir views (b ∷ bs) = zone_of dir views b ∷ zones_of dir views bs

  keys_of : List Block → List Key
  keys_of [] = []
  keys_of (b ∷ bs) =
      record { name = b.name; algorithm = re.algorithm_in b.body; secret = re.secret_in b.body }
      ∷ keys_of bs

  -- `Parse`.
  unfoldable pub parse_dump : Bytes → Inventory
  unfolding extract_blocks zones_of keys_of
  parse_dump src =
      let dir = re.directory_in src in
      let views = extract_blocks src (bytes "view") in
      record {
        directory = dir;
        zones = zones_of dir views (extract_blocks src (bytes "zone"));
        keys = keys_of (extract_blocks src (bytes "key"));
      }
