-- ===== src/Zonefile/Entries/Cover.antt =====
-- The entries of a file cover its lines, each line in exactly one entry.
use goddns.Base.{
  ℕ, ◌+◌, ◌≤◌, ◌<◌, Bool, true, false, List, [], ◌∷◌, ◌++◌, Option, none, some, ◌≡◌, refl, sym,
  subst, arith, ltb, if◌then◌else◌, length, is_empty,
}
use goddns.Base.Strings.{Bytes}
use goddns.Zonefile.Scan.{Scanned, scan_line}
use goddns.Zonefile.Entries.{
  Kind, blank, resource, Entry, Open, on_line, shut, close_or_go_on, single, begin_record, classify,
  first_directive, line_step, tokenize, tokenize_entries,
}

abbrev pub OneLine : Kind → ℕ → ℕ → Type 0
OneLine resource i j = i ≤ j
OneLine _ i j = i ≡ j

-- From line `i` on, up to line `n`, each entry begins where the one before it ended; only records
-- span several lines.
abbrev pub Covers : ℕ → List Entry → ℕ → Type 0
Covers i [] n = i ≡ n
Covers i (e ∷ es) n = (e.start ≡ i) × OneLine e.kind e.start e.end × Covers (e.end + 1) es n

-- The first line that no entry has covered before line `i`.
abbrev pub first_line : ℕ → Option Open → ℕ
first_line i none = i
first_line i (some o) = o.from

abbrev pub IsPending : ℕ → Option Open → Type 0
IsPending i none = Unit
IsPending i (some o) = o.from < i

-- A line ends one entry, which it completes, or leaves a record open.
abbrev pub Shape : ℕ → ℕ → List Entry × Option Open → Type 0
Shape p i ([], some o) = o.from ≡ p
Shape p i (e ∷ [], none) = (e.start ≡ p) × (e.end ≡ i) × OneLine e.kind e.start e.end
Shape p i _ = ⊥

close_or_go_on-Shape : (p i : ℕ) (o : Open) → o.from ≡ p → p ≤ i → Shape p i (close_or_go_on i o)
close_or_go_on-Shape p i o e h = step (ltb o.closed o.opened)
  where
    step : (b : Bool) → Shape p i (if b then ([], some o) else (shut o i ∷ [], none))
    step true = e
    step false = (e, refl, omega arith)

pub line_step-Shape :
    (i : ℕ) (l : Bytes) (pending : Option Open)
    → IsPending i pending
    → Shape (first_line i pending) i (line_step i l pending)
unfolding line_step
line_step-Shape i l none h = step (is_empty (scan_line l).toks) (first_directive (scan_line l).toks)
  where
    s : Scanned
    s = scan_line l

    step :
        (b : Bool) (d : Option Bytes)
        → Shape i i (if b then (single blank i [] ∷ [], none) else classify i l s d)
    step true d = (refl, refl, refl)
    step false (some name) = (refl, refl, refl)
    step false none = close_or_go_on-Shape i i (begin_record i l s) refl (omega arith)
line_step-Shape i l (some o) h =
    close_or_go_on-Shape o.from i (more (scan_line l)) refl (omega arith)
  where
    more : Scanned → Open
    more s = record o {
      toks = o.toks ++ on_line i s.toks;
      opened = o.opened + s.opened;
      closed = o.closed + s.closed;
    }

-- One line's entries in front of those of the lines behind it.
append-Covers :
    (p i n : ℕ) (done : List Entry) (pending : Option Open) (rest : List Entry)
    → Shape p i (done, pending)
    → p ≤ i
    → (IsPending (i + 1) pending → Covers (first_line (i + 1) pending) rest n)
    → Covers p (done ++ rest) n
append-Covers p i n [] (some o) rest e h c = subst (λ q. Covers q rest n) e (c (omega arith))
append-Covers p i n (en ∷ []) none rest e h c =
    (e.0, e.2, subst (λ q. Covers (q + 1) rest n) (sym e.1) (c tt))
append-Covers p i n [] none rest e h c = elim e [ ]
append-Covers p i n (en ∷ []) (some o) rest e h c = elim e [ ]
append-Covers p i n (en ∷ en' ∷ more) none rest e h c = elim e [ ]
append-Covers p i n (en ∷ en' ∷ more) (some o) rest e h c = elim e [ ]

tokenize-Covers :
    (i n : ℕ) (pending : Option Open) (ls : List Bytes)
    → IsPending i pending
    → i + length ls ≡ n
    → Covers (first_line i pending) (tokenize i pending ls) n
unfolding tokenize
tokenize-Covers i n none [] h e = omega arith
tokenize-Covers i n (some o) [] h e = (refl, omega arith, omega arith)
tokenize-Covers i n none (l ∷ ls) h e =
    append-Covers i i n _ (line_step i l none).1 _ (line_step-Shape i l none h) (omega arith)
      λ w. tokenize-Covers (i + 1) n (line_step i l none).1 ls w (omega arith)
tokenize-Covers i n (some o) (l ∷ ls) h e =
    append-Covers o.from i n _ (line_step i l (some o)).1 _ (line_step-Shape i l (some o) h)
      (omega arith) λ w. tokenize-Covers (i + 1) n (line_step i l (some o)).1 ls w (omega arith)

-- Whatever the file holds, the entries that `tokenizeEntries` returns stand in file order, and
-- every line belongs to exactly one of them; a blank line and a directive are entries of one line.
pub tokenize_entries-Covers : (ls : List Bytes) → Covers 0 (tokenize_entries ls) (length ls)
unfolding tokenize_entries
tokenize_entries-Covers ls = tokenize-Covers 0 (length ls) none ls tt (omega arith)
