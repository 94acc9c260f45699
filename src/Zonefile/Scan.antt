-- ===== src/Zonefile/Scan.antt =====
-- `scanLine` of internal/zonefile/zonefile.go.
pub mod Slices
use goddns.Base.{
  ℕ, ◌+◌, ◌-◌, Bool, true, false, not, ◌&&◌, ◌||◌, List, [], ◌∷◌, Option, none, some, ◌==◌, ltb,
  if◌then◌else◌, take, drop,
}
use goddns.Base.Strings.{Bytes}

pub record TokPos : Type 0 where
  pub line : ℕ
  pub start : ℕ
  pub end : ℕ
  pub text : Bytes

-- What a scan returns. The net change of the depth is `opened` less `closed`.
pub record Scanned : Type 0 where
  pub toks : List TokPos
  pub opened : ℕ
  pub closed : ℕ

abbrev pub is_delim : ℕ → Bool
is_delim c = c == b';' || c == b' ' || c == b'\t' || c == b'\r' || c == b'(' || c == b')'

-- `line[start:end]`.
abbrev pub slice : ℕ → ℕ → Bytes → Bytes
slice i j s = take (j - i) (drop i s)

abbrev pub nothing : Scanned
nothing = record { toks = []; opened = 0; closed = 0 }

abbrev pub emit : Bytes → Option ℕ → ℕ → Scanned → Scanned
emit line none i r = r
emit line (some s) i r = record r {
  toks = record { line = 0; start = s; end = i; text = slice s i line } ∷ r.toks;
}

-- A byte between tokens: a comment ends the line, and a parenthesis is counted.
abbrev pub between : ℕ → Scanned → Scanned
between c rest =
    if c == b';'
    then nothing
    else if c == b'('
    then record rest { opened = rest.opened + 1 }
    else if c == b')'
    then record rest { closed = rest.closed + 1 }
    else rest

abbrev pub or_here : Option ℕ → ℕ → ℕ
or_here none i = i
or_here (some s) i = s

-- Both loops of `scanLine`: `start` is the token being read, if there is one, and `quoted` is
-- `inQuote`. A byte that ends a token is then read between tokens.
unfoldable pub scan : Bytes → Option ℕ → Bool → ℕ → Bytes → Scanned
scan line start quoted i [] = emit line start i nothing
scan line start quoted i (c ∷ cs) =
    let ends = not quoted && is_delim c in
    let start' = if ends then none else some (or_here start i) in
    let rest = scan line start' (if c == b'"' then not quoted else quoted) (i + 1) cs in
    if ends then emit line start i (between c rest) else rest

unfoldable pub scan_line : Bytes → Scanned
unfolding scan
scan_line line = scan line none false 0 line

-- `leadingWS`.
unfoldable pub leading_ws : Bytes → Bool
leading_ws [] = false
leading_ws (c ∷ _) = c == b' ' || c == b'\t'
