-- ===== src/Zonefile/Entries.antt =====
-- `tokenizeEntries` of internal/zonefile/zonefile.go, with the classification of tokens.
pub mod Cover
pub mod Tokens
use goddns.Base.{
  ℕ, ◌+◌, ◌-◌, Bool, true, false, not, ◌&&◌, ◌||◌, List, [], ◌∷◌, ◌++◌, Option, none, some, map,
  ltb, leb, ◌==◌, if◌then◌else◌, any, all, is_empty, drop,
}
use goddns.Base.Strings.{Bytes, bytes, str_eq, to_upper, equal_fold}
use goddns.Zonefile.Scan.{TokPos, Scanned, scan_line, leading_ws}

-- `entryKind`; a directive carries its name, in upper case.
pub data Kind : Type 0 where
  blank : Kind
  directive : Bytes → Kind
  resource : Kind

pub record Entry : Type 0 where
  pub kind : Kind
  pub start : ℕ
  pub end : ℕ
  pub tokens : List TokPos
  pub explicit : Bool

abbrev is_directive : Bytes → Bool
is_directive up =
    str_eq up (bytes "$ORIGIN")
    || str_eq up (bytes "$TTL")
    || str_eq up (bytes "$INCLUDE")
    || str_eq up (bytes "$GENERATE")

-- `directiveName`.
unfoldable pub directive_name : Bytes → Option Bytes
unfolding str_eq to_upper
directive_name tok = let up = to_upper tok in if is_directive up then some up else none

-- A record whose parentheses are still open.
pub record Open : Type 0 where
  pub from : ℕ
  pub toks : List TokPos
  pub opened : ℕ
  pub closed : ℕ
  pub owner : Bool

abbrev pub on_line : ℕ → List TokPos → List TokPos
on_line i = map {A = TokPos} (λ t. record t { line = i })

abbrev pub shut : Open → ℕ → Entry
shut o end = record {
  kind = resource;
  start = o.from;
  end = end;
  tokens = o.toks;
  explicit = o.owner;
}

-- A record goes on while its depth is positive.
abbrev pub close_or_go_on : ℕ → Open → List Entry × Option Open
close_or_go_on i o = if ltb o.closed o.opened then ([], some o) else (shut o i ∷ [], none)

abbrev pub single : Kind → ℕ → List TokPos → Entry
single k i toks = record { kind = k; start = i; end = i; tokens = toks; explicit = false }

abbrev pub begin_record : ℕ → Bytes → Scanned → Open
begin_record i l s = record {
  from = i;
  toks = on_line i s.toks;
  opened = s.opened;
  closed = s.closed;
  owner = not (leading_ws l);
}

abbrev pub classify : ℕ → Bytes → Scanned → Option Bytes → List Entry × Option Open
classify i l s (some name) = (single (directive name) i (on_line i s.toks) ∷ [], none)
classify i l s none = close_or_go_on i (begin_record i l s)

abbrev pub first_directive : List TokPos → Option Bytes
first_directive [] = none
first_directive (t ∷ _) = directive_name t.text

-- One line: the entry that it ends, and the record that it leaves open.
unfoldable pub line_step : ℕ → Bytes → Option Open → List Entry × Option Open
unfolding directive_name scan_line leading_ws
line_step i l none =
    let s = scan_line l in
    if is_empty s.toks
    then (single blank i [] ∷ [], none)
    else classify i l s (first_directive s.toks)
line_step i l (some o) =
    let s = scan_line l in
    close_or_go_on i (record o {
      toks = o.toks ++ on_line i s.toks;
      opened = o.opened + s.opened;
      closed = o.closed + s.closed;
    })

-- `i` is the next line.
unfoldable pub tokenize : ℕ → Option Open → List Bytes → List Entry
unfolding line_step
tokenize i none [] = []
tokenize i (some o) [] = shut o (i - 1) ∷ []
tokenize i pending (l ∷ ls) =
    let (done, pending') = line_step i l pending in done ++ tokenize (i + 1) pending' ls

unfoldable pub tokenize_entries : List Bytes → List Entry
unfolding tokenize
tokenize_entries = tokenize 0 none

-- `isClass`.
unfoldable pub is_class : Bytes → Bool
unfolding str_eq to_upper
is_class s =
    let up = to_upper s in
    str_eq up (bytes "IN")
    || str_eq up (bytes "CH")
    || str_eq up (bytes "HS")
    || str_eq up (bytes "CS")
    || str_eq up (bytes "ANY")
    || str_eq up (bytes "NONE")

abbrev is_digit : ℕ → Bool
is_digit c = leb b'0' c && leb c b'9'

abbrev is_unit : ℕ → Bool
is_unit c = any (λ u. u == c) (bytes "smhdwSMHDW")

-- `looksLikeTTL`.
unfoldable pub looks_like_ttl : Bytes → Bool
looks_like_ttl s = any is_digit s && all (λ c. is_digit c || is_unit c) s

ttl_before_type : Bytes → List TokPos → Bool
ttl_before_type type_str [] = false
ttl_before_type type_str (t ∷ toks) =
    let rest = ttl_before_type type_str toks in
    if equal_fold t.text type_str
    then false
    else if is_class t.text
    then rest
    else if looks_like_ttl t.text
    then true
    else rest

-- `hasExplicitTTL`, of a type's name.
unfoldable pub has_explicit_ttl : List TokPos → Bool → Bytes → Bool
unfolding ttl_before_type equal_fold is_class looks_like_ttl
has_explicit_ttl toks explicit_owner type_str =
    ttl_before_type type_str (if explicit_owner then drop 1 toks else toks)

abbrev pub fourth : List TokPos → Option TokPos
fourth (_ ∷ _ ∷ _ ∷ s ∷ _) = some s
fourth _ = none

-- `locateSerial`: the third token behind the first SOA.
unfoldable pub locate_serial : List TokPos → Option TokPos
unfolding equal_fold
locate_serial [] = none
locate_serial (t ∷ toks) =
    let rest = locate_serial toks in
    if equal_fold t.text (bytes "SOA") then fourth (t ∷ toks) else rest
