-- ===== src/Zonefile/Scan/Slices.antt =====
-- The tokens of a line are disjoint, non-empty slices of it, in order.
use goddns.Base.{
  ℕ, ◌+◌, ◌≤◌, ◌<◌, Bool, true, false, not, ◌&&◌, List, [], ◌∷◌, Option, none, some, ◌≡◌, refl,
  arith, ◌==◌, if◌then◌else◌, length,
}
use goddns.Base.Strings.{Bytes}
use goddns.Zonefile.Scan.{TokPos, Scanned, is_delim, slice, emit, between, or_here, scan, scan_line}

-- From column `i` on, up to column `n`, the tokens follow one another, each with its own text.
unfoldable pub InOrder : Bytes → ℕ → ℕ → List TokPos → Type 0
InOrder line i n [] = i ≤ n
InOrder line i n (t ∷ ts) =
    (i ≤ t.start)
    × (t.start < t.end)
    × (t.text ≡ slice t.start t.end line)
    × InOrder line t.end n ts

InOrder-le :
    (line : Bytes) (i j n : ℕ) (ts : List TokPos)
    → i ≤ j
    → InOrder line j n ts
    → InOrder line i n ts
unfolding InOrder
InOrder-le line i j n [] h o = omega arith
InOrder-le line i j n (t ∷ ts) h o = (omega (arith, o.0), o.1, o.2, o.3)

InOrder-nil :
    (line : Bytes) (i j n : ℕ) (ts : List TokPos)
    → InOrder line j n ts
    → i ≤ n
    → InOrder line i n []
unfolding InOrder
InOrder-nil line i j n ts o h = h

between-InOrder :
    (line : Bytes) (c i n : ℕ) (r : Scanned)
    → i + 1 ≤ n
    → InOrder line (i + 1) n r.toks
    → InOrder line i n (between c r).toks
between-InOrder line c i n r h o =
    ground (arith, InOrder-le line i (i + 1) n r.toks, InOrder-nil line i (i + 1) n r.toks o)

abbrev StartsBefore : Option ℕ → ℕ → Type 0
StartsBefore none i = Unit
StartsBefore (some s) i = s < i

scan-InOrder :
    (line : Bytes) (start : Option ℕ) (quoted : Bool) (i n : ℕ) (rest : Bytes)
    → StartsBefore start i
    → i + length rest ≡ n
    → InOrder line (or_here start i) n (scan line start quoted i rest).toks
unfolding scan
scan-InOrder line none quoted i n [] b e = unfold InOrder in omega arith
scan-InOrder line (some s) quoted i n [] b e = unfold InOrder in (omega arith, b, refl, omega arith)
scan-InOrder line start quoted i n (c ∷ cs) b e =
    step (not quoted && is_delim c) (scan-InOrder line none quoted' (i + 1) n cs tt (omega arith))
      (scan-InOrder line (some (or_here start i)) quoted' (i + 1) n cs (here start b) (omega arith))
  where
    quoted' : Bool
    quoted' = if c == b'"' then not quoted else quoted

    here : (start : Option ℕ) → StartsBefore start i → or_here start i < i + 1
    here none b = omega arith
    here (some s) b = omega arith

    shut :
        (start : Option ℕ)
        → StartsBefore start i
        → (r : Scanned) → InOrder line i n r.toks
        → InOrder line (or_here start i) n (emit line start i r).toks
    shut none b r o = o
    shut (some s) b r o = unfold InOrder in (omega arith, b, refl, o)

    step :
        (ends : Bool)
        → InOrder line (i + 1) n (scan line none quoted' (i + 1) cs).toks
        → InOrder line
            (or_here start i)
            n
            (scan line (some (or_here start i)) quoted' (i + 1) cs).toks
        → InOrder line
            (or_here start i)
            n
            (if ends
              then emit line start i (
                  between c
                    (scan line (if ends then none else some (or_here start i)) quoted' (i + 1) cs))
              else scan line
                  (if ends then none else some (or_here start i))
                  quoted'
                  (i + 1)
                  cs).toks
    step true gap token = shut start b _ (between-InOrder line c i n _ (omega arith) gap)
    step false gap token = token

-- The tokens that `scanLine` returns are non-empty, disjoint slices of the line from left to
-- right, each with exactly the bytes between its columns as its text.
pub scan_line-InOrder : (line : Bytes) → InOrder line 0 (length line) (scan_line line).toks
unfolding scan_line
scan_line-InOrder line = scan-InOrder line none false 0 (length line) line tt (omega arith)

pub InOrder-bound : (line : Bytes) (i n : ℕ) (ts : List TokPos) → InOrder line i n ts → i ≤ n
unfolding InOrder
InOrder-bound line i n [] o = o
InOrder-bound line i n (t ∷ ts) o = omega (arith, o.0, o.1, InOrder-bound line t.end n ts o.3)
