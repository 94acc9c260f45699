-- ===== src/Zonefile/Parse/Attach.antt =====
-- The records of a parsed file have lines of their own, and its located serial is on the SOA record.
use goddns.Base.{
  ℕ, ◌+◌, ◌≤◌, ◌<◌, Bool, true, false, List, [], ◌∷◌, ◌++◌, Option, none, some, ◌≡◌, ◌⊎◌, inl, inr,
  refl, subst, arith, ◌==◌, if◌then◌else◌, filter, All, Bool-cases,
}
use goddns.Base.Strings.{Bytes, bytes, equal_fold}
use goddns.Dns.{Rr, DnsLib, type_soa}
use goddns.Zonefile.Scan.{TokPos}
use goddns.Zonefile.Entries.{Kind, blank, directive, resource, Entry, locate_serial, fourth}
use goddns.Zonefile.Entries.Cover.{Covers, OneLine}
use goddns.Zonefile.Entries.Tokens.{OnLines, EntryTokens}
use goddns.Zonefile.Parse.{Rec, File, is_resource, to_rec, attach}

-- Two records share no line.
abbrev pub Disjoint : Rec → Rec → Type 0
Disjoint r s = (r.end < s.start) ⊎ (s.end < r.start)

-- Every record but `s` itself shares no line with it.
abbrev pub ApartFrom : Rec → List Rec → Type 0
ApartFrom s = All (λ r. (r.pos ≡ s.pos) ⊎ Disjoint r s)

-- Entries in order, from line `i` on.
abbrev pub Spaced : ℕ → List Entry → Type 0
Spaced i [] = Unit
Spaced i (e ∷ es) = (i ≤ e.start) × (e.start ≤ e.end) × Spaced (e.end + 1) es

Spaced-le : (i j : ℕ) (es : List Entry) → i ≤ j → Spaced j es → Spaced i es
Spaced-le i j [] h s = tt
Spaced-le i j (e ∷ es) h s = (omega (arith, s.0), s.1, s.2)

span_le : (k : Kind) (i j : ℕ) → OneLine k i j → i ≤ j
span_le blank i j h = omega arith
span_le (directive d) i j h = omega arith
span_le resource i j h = h

pub Covers-Spaced :
    (i n : ℕ) (es : List Entry) → Covers i es n → Spaced i (filter (λ e. is_resource e.kind) es)
Covers-Spaced i n [] c = tt
Covers-Spaced i n (e ∷ es) c = step (is_resource e.kind) (Covers-Spaced (e.end + 1) n es c.2)
  where
    fits : e.start ≤ e.end
    fits = span_le e.kind e.start e.end c.1

    rest : List Entry
    rest = filter (λ e. is_resource e.kind) es

    step : (b : Bool) → Spaced (e.end + 1) rest → Spaced i (if b then e ∷ rest else rest)
    step true s = (omega (arith, c.0), fits, s)
    step false s = Spaced-le i (e.end + 1) rest (omega (arith, c.0, fits)) s

pub All-filter :
    (P : Entry → Type 0) (p : Entry → Bool) (es : List Entry) → All P es → All P (filter p es)
All-filter P p [] a = tt
All-filter P p (e ∷ es) a = step (p e) (All-filter P p es a.1)
  where
    step : (b : Bool) → All P (filter p es) → All P (if b then e ∷ filter p es else filter p es)
    step true rest = (a.0, rest)
    step false rest = rest

-- The located serial is one of the entry's tokens.
locate_serial-All :
    (P : TokPos → Type 0) (ts : List TokPos) (st : TokPos)
    → All P ts
    → locate_serial ts ≡ some st
    → P st
unfolding locate_serial
locate_serial-All P [] st a e = cc
locate_serial-All P (t ∷ ts) st a e = elim (Bool-cases (equal_fold t.text (bytes "SOA"))) [
  | inl here ↦ fourth-All (t ∷ ts) a (rw here at e)
  | inr later ↦ locate_serial-All P ts st a.1 (rw later at e)
]
  where
    fourth-All : (ts : List TokPos) → All P ts → fourth ts ≡ some st → P st
    fourth-All (x ∷ y ∷ z ∷ s ∷ ts) a e = subst P (ground arith) a.1.1.1.0
    fourth-All _ a e = cc

-- Every record ends before line `i`.
abbrev pub Ends : ℕ → List Rec → Type 0
Ends i = All (λ r. r.end < i)

Ends-le : (i j : ℕ) (rs : List Rec) → i ≤ j → Ends i rs → Ends j rs
Ends-le i j [] h a = tt
Ends-le i j (r ∷ rs) h a = (omega (arith, a.0), Ends-le i j rs h a.1)

All-snoc : (P : Rec → Type 0) (rs : List Rec) (r : Rec) → All P rs → P r → All P (rs ++ (r ∷ []))
All-snoc P [] r a p = (p, tt)
All-snoc P (s ∷ rs) r a p = (a.0, All-snoc P rs r a.1 p)

Ends-ApartFrom : (s : Rec) (rs : List Rec) → Ends s.start rs → ApartFrom s rs
Ends-ApartFrom s [] a = tt
Ends-ApartFrom s (r ∷ rs) a = (inr (inl a.0), Ends-ApartFrom s rs a.1)

abbrev pub SoaApart : ℕ → List Rec → Option Rec → Type 0
SoaApart i rs none = Unit
SoaApart i rs (some s) = (s.end < i) × ApartFrom s rs

abbrev pub SerialOn : List Bytes → Option Rec → Option TokPos → Type 0
SerialOn lines (some s) (some st) = OnLines lines s.start s.end st
SerialOn lines _ _ = Unit

-- What holds while the records are attached, those so far ending before line `i`.
pub record Attached (i : ℕ) (f : File) : Type 0 where
  pub ends : Ends i f.records
  pub apart : SoaApart i f.records f.soa_rec
  pub serial : SerialOn f.lines f.soa_rec f.serial_tok

SoaApart-snoc :
    (i : ℕ) (rs : List Rec) (o : Option Rec) (r : Rec)
    → i ≤ r.start
    → r.start ≤ r.end
    → SoaApart i rs o
    → SoaApart (r.end + 1) (rs ++ (r ∷ [])) o
SoaApart-snoc i rs none r h k a = tt
SoaApart-snoc i rs (some s) r h k a =
    (omega (arith, a.0), All-snoc _ rs r a.1 (inr (inr (omega (arith, a.0)))))

locate_serial-On :
    (lines : List Bytes) (s : Rec) (e : Entry)
    → s.start ≡ e.start
    → s.end ≡ e.end
    → EntryTokens lines e
    → (o : Option TokPos) → locate_serial e.tokens ≡ o
    → SerialOn lines (some s) o
locate_serial-On lines s e p q a none l = tt
locate_serial-On lines s e p q a (some st) l =
    let on = locate_serial-All (OnLines lines e.start e.end) e.tokens st a l in
    (omega (arith, on.0), omega (arith, on.1), on.2)

module _ (dns : DnsLib) where
  pub attach-Attached :
      (i pos : ℕ) (es : List Entry) (rrs : List Rr) (f : File)
      → Spaced i es
      → All (EntryTokens f.lines) es
      → Attached i f
      → (j : ℕ) × Attached j (attach dns pos es rrs f)
        × ((attach dns pos es rrs f).lines ≡ f.lines)
        × ((attach dns pos es rrs f).no_surgery ≡ f.no_surgery)
  unfolding attach
  attach-Attached i pos [] rrs f s t a = (i, a, refl, refl)
  attach-Attached i pos (e ∷ es) [] f s t a = (i, a, refl, refl)
  attach-Attached i pos (e ∷ es) (rr ∷ rrs) f s t a = elim (Bool-cases (rr.rrtype == type_soa)) [
    | inl is_soa ↦ rw is_soa (
        attach-Attached (e.end + 1) (pos + 1) es rrs
          (record f {
            records = f.records ++ (r ∷ []);
            soa_rec = some r;
            serial_tok = locate_serial e.tokens;
          })
          s.2 t.1
          (record {
            ends = ends;
            apart = (
              omega arith,
              All-snoc _ f.records r
                  (Ends-ApartFrom r f.records (Ends-le i e.start f.records s.0 a.ends)) (inl refl),
            );
            serial = locate_serial-On f.lines r e refl refl t.0 (locate_serial e.tokens) refl;
          }))
    | inr not_soa ↦ rw not_soa (
        attach-Attached (e.end + 1) (pos + 1) es rrs (record f { records = f.records ++ (r ∷ []) })
          s.2 t.1
          (record {
            ends = ends;
            apart = SoaApart-snoc i f.records f.soa_rec r s.0 s.1 a.apart;
            serial = a.serial;
          }))
  ]
    where
      r : Rec
      r = to_rec dns pos e rr

      ends : Ends (e.end + 1) (f.records ++ (r ∷ []))
      ends =
          All-snoc _ f.records r (Ends-le i (e.end + 1) f.records (omega (arith, s.0, s.1)) a.ends)
            (omega arith)
