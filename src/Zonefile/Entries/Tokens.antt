-- ===== src/Zonefile/Entries/Tokens.antt =====
-- Every token of an entry stands where it says, on one of the entry's lines.
use goddns.Base.{
  ℕ, ◌+◌, ◌-◌, ◌≤◌, ◌<◌, Bool, true, false, List, [], ◌∷◌, ◌++◌, Option, none, some, ◌≡◌, refl, sym,
  arith, ltb, if◌then◌else◌, length, is_empty, get_elem?, All, length-append, append_assoc, ◌∙◌,
}
use goddns.Base.Strings.{Bytes}
use goddns.Zonefile.Scan.{TokPos, Scanned, slice, scan_line}
use goddns.Zonefile.Scan.Slices.{InOrder, InOrder-bound, scan_line-InOrder}
use goddns.Zonefile.Entries.Cover.{Shape, IsPending, first_line, line_step-Shape}
use goddns.Zonefile.Entries.{
  blank, Entry, Open, on_line, shut, close_or_go_on, single, begin_record, classify,
  first_directive, line_step, tokenize, tokenize_entries,
}

-- The token is a non-empty slice of its line of the file, with that slice as its text.
pub record IsLocated (lines : List Bytes) (t : TokPos) : Type 0 where
  pub text_line : Bytes
  pub at_line : get_elem? lines t.line ≡ some text_line
  pub non_empty : t.start < t.end
  pub inside : t.end ≤ length text_line
  pub text_is : t.text ≡ slice t.start t.end text_line

abbrev pub OnLines : List Bytes → ℕ → ℕ → TokPos → Type 0
OnLines lines i j t = (i ≤ t.line) × (t.line ≤ j) × IsLocated lines t

abbrev pub EntryTokens : List Bytes → Entry → Type 0
EntryTokens lines e = All (OnLines lines e.start e.end) e.tokens

InOrder-on_line :
    (lines : List Bytes) (l : Bytes) (i k : ℕ) (ts : List TokPos)
    → get_elem? lines i ≡ some l
    → InOrder l k (length l) ts
    → All (OnLines lines i i) (on_line i ts)
unfolding InOrder
InOrder-on_line lines l i k [] e o = tt
InOrder-on_line lines l i k (t ∷ ts) e o = (
  (
    omega arith,
    omega arith,
    record {
      text_line = l;
      at_line = e;
      non_empty = o.1;
      inside = InOrder-bound l t.end (length l) ts o.3;
      text_is = o.2;
    },
  ),
  InOrder-on_line lines l i t.end ts e o.3,
)

widen :
    (lines : List Bytes) (i j p q : ℕ) (ts : List TokPos)
    → p ≤ i
    → j ≤ q
    → All (OnLines lines i j) ts
    → All (OnLines lines p q) ts
widen lines i j p q [] h k a = tt
widen lines i j p q (t ∷ ts) h k a =
    ((omega (arith, a.0.0), omega (arith, a.0.1), a.0.2), widen lines i j p q ts h k a.1)

All-append :
    (lines : List Bytes) (i j : ℕ) (ts us : List TokPos)
    → All (OnLines lines i j) ts
    → All (OnLines lines i j) us
    → All (OnLines lines i j) (ts ++ us)
All-append lines i j [] us a b = b
All-append lines i j (t ∷ ts) us a b = (a.0, All-append lines i j ts us a.1 b)

abbrev PendingTokens : List Bytes → ℕ → Option Open → Type 0
PendingTokens lines i none = Unit
PendingTokens lines i (some o) = All (OnLines lines o.from (i - 1)) o.toks

abbrev StepTokens : List Bytes → ℕ → List Entry × Option Open → Type 0
StepTokens lines i (es, pending) = All (EntryTokens lines) es × PendingTokens lines (i + 1) pending

close_or_go_on-Tokens :
    (lines : List Bytes) (i : ℕ) (o : Open)
    → All (OnLines lines o.from i) o.toks
    → StepTokens lines i (close_or_go_on i o)
close_or_go_on-Tokens lines i o a = step (ltb o.closed o.opened)
  where
    step : (b : Bool) → StepTokens lines i (if b then ([], some o) else (shut o i ∷ [], none))
    step true = (tt, widen lines o.from i o.from (i + 1 - 1) o.toks (omega arith) (omega arith) a)
    step false = ((a, tt), tt)

module _ (lines : List Bytes) (i : ℕ) (l : Bytes) (e : get_elem? lines i ≡ some l) where
  line_tokens : All (OnLines lines i i) (on_line i (scan_line l).toks)
  line_tokens = InOrder-on_line lines l i 0 (scan_line l).toks e (scan_line-InOrder l)

  line_step-Tokens :
      (pending : Option Open)
      → PendingTokens lines i pending
      → ((o : Open) → pending ≡ some o → o.from ≤ i)
      → StepTokens lines i (line_step i l pending)
  unfolding line_step
  line_step-Tokens none a h =
      step (is_empty (scan_line l).toks) (first_directive (scan_line l).toks)
    where
      step :
          (b : Bool) (d : Option Bytes)
          → StepTokens lines i
              (if b then (single blank i [] ∷ [], none) else classify i l (scan_line l) d)
      step true d = ((tt, tt), tt)
      step false (some name) = ((line_tokens, tt), tt)
      step false none = close_or_go_on-Tokens lines i (begin_record i l (scan_line l)) line_tokens
  line_step-Tokens (some o) a h = close_or_go_on-Tokens lines i (more (scan_line l)) (
      All-append lines o.from i o.toks (on_line i (scan_line l).toks)
        (widen lines o.from (i - 1) o.from i o.toks (omega arith) (omega arith) a)
        (widen lines i i o.from i (on_line i (scan_line l).toks) (h o refl) (omega arith)
          line_tokens))
    where
      more : Scanned → Open
      more s = record o {
        toks = o.toks ++ on_line i s.toks;
        opened = o.opened + s.opened;
        closed = o.closed + s.closed;
      }

get_elem?-append :
    (pre ls : List Bytes) (l : Bytes) → get_elem? (pre ++ (l ∷ ls)) (length pre) ≡ some l
get_elem?-append [] ls l = refl
get_elem?-append (p ∷ pre) ls l = get_elem?-append pre ls l

All-entries :
    (lines : List Bytes) (es fs : List Entry)
    → All (EntryTokens lines) es
    → All (EntryTokens lines) fs
    → All (EntryTokens lines) (es ++ fs)
All-entries lines [] fs a b = b
All-entries lines (e ∷ es) fs a b = (a.0, All-entries lines es fs a.1 b)

here :
    (lines : List Bytes) (i : ℕ) (pre ls : List Bytes) (l : Bytes)
    → lines ≡ pre ++ (l ∷ ls)
    → length pre ≡ i
    → get_elem? lines i ≡ some l
here lines i pre ls l e n = rw (e, ← n) (get_elem?-append pre ls l)

-- What a line's shape says of the record that it leaves open.
IsPending-from :
    (i p : ℕ) (es : List Entry) (pending : Option Open)
    → Shape p i (es, pending)
    → p ≤ i
    → IsPending (i + 1) pending
IsPending-from i p es none s h = tt
IsPending-from i p [] (some o) s h = omega arith
IsPending-from i p (e ∷ []) (some o) s h = elim s [ ]
IsPending-from i p (e ∷ f ∷ es) (some o) s h = elim s [ ]

first_line-le : (i : ℕ) (pending : Option Open) → IsPending i pending → first_line i pending ≤ i
first_line-le i none h = omega arith
first_line-le i (some o) h = omega arith

from-le :
    (i : ℕ) (pending : Option Open)
    → IsPending i pending
    → (o : Open) → pending ≡ some o
    → o.from ≤ i
from-le i none h o e = cc
from-le i (some q) h o e = ground arith

step-Tokens :
    (lines : List Bytes) (i : ℕ) (pending : Option Open) (l : Bytes)
    (rest : Option Open → List Entry)
    → get_elem? lines i ≡ some l
    → IsPending i pending
    → PendingTokens lines i pending
    → ((q : Option Open)
        → IsPending (i + 1) q
        → PendingTokens lines (i + 1) q
        → All (EntryTokens lines) (rest q))
    → All (EntryTokens lines) ((line_step i l pending).0 ++ rest (line_step i l pending).1)
step-Tokens lines i pending l rest e h a c =
    let s = line_step-Tokens lines i l e pending a (from-le i pending h) in
    let (es, q) = line_step i l pending in
    let shape = line_step-Shape i l pending h in
    All-entries lines es (rest q) s.0
      (c q (IsPending-from i (first_line i pending) es q shape (first_line-le i pending h)) s.1)

tokenize-Tokens :
    (lines : List Bytes) (i : ℕ) (pending : Option Open) (pre ls : List Bytes)
    → lines ≡ pre ++ ls
    → length pre ≡ i
    → IsPending i pending
    → PendingTokens lines i pending
    → All (EntryTokens lines) (tokenize i pending ls)
unfolding tokenize
tokenize-Tokens lines i none pre [] e n h a = tt
tokenize-Tokens lines i (some o) pre [] e n h a = (a, tt)
tokenize-Tokens lines i none pre (l ∷ ls) e n h a =
    step-Tokens lines i none l (λ q. tokenize (i + 1) q ls) (here lines i pre ls l e n) h a
      λ q w b.
        tokenize-Tokens lines (i + 1) q (pre ++ (l ∷ [])) ls
          (e ∙ sym (append_assoc pre (l ∷ []) ls)) (omega (arith, length-append pre (l ∷ []))) w b
tokenize-Tokens lines i (some o) pre (l ∷ ls) e n h a =
    step-Tokens lines i (some o) l (λ q. tokenize (i + 1) q ls) (here lines i pre ls l e n) h a
      λ q w b.
        tokenize-Tokens lines (i + 1) q (pre ++ (l ∷ [])) ls
          (e ∙ sym (append_assoc pre (l ∷ []) ls)) (omega (arith, length-append pre (l ∷ []))) w b

-- Every token of every entry is where it says: on a line of its entry, at its columns, with its
-- text.
pub tokenize_entries-Tokens : (ls : List Bytes) → All (EntryTokens ls) (tokenize_entries ls)
unfolding tokenize_entries
tokenize_entries-Tokens ls = tokenize-Tokens ls 0 none [] ls refl refl tt tt
