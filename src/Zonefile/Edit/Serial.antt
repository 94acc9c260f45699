-- ===== src/Zonefile/Edit/Serial.antt =====
-- The bump of the SOA serial: the number, and the line that it is written on.
use goddns.Base.{
  ℕ, zero, suc, ◌+◌, ◌-◌, ◌^◌, ◌≤◌, ◌<◌, List, [], ◌∷◌, ◌++◌, Option, none, some, ◌≡◌, ◌≢◌, refl,
  ap, ◌∙◌, arith, length, get_elem?, take, drop,
}
use goddns.Base.Strings.{Bytes, join}
use goddns.Base.Decimal.{show_nat, parse_uint32, parse_uint32-show_nat}
use goddns.Zonefile.Scan.{TokPos, slice}
use goddns.Zonefile.Parse.{Reason, File, soa_serial}
use goddns.Zonefile.Edit.{
  Date, date_base, next_serial, splice, change_line, set_serial, set_floor, floor_of, serial_floor,
}

-- The next serial is a uint32 not below the date's, and it is greater than the current one unless
-- that is the greatest uint32, from which it falls back to the date's.
pub next_serial_bounds :
    (today : Date) (cur : ℕ)
    → cur < 2 ^ 32
    → (next_serial today cur < 2 ^ 32)
      × (date_base today ≤ next_serial today cur)
      × (cur ≢ 2 ^ 32 - 1 → cur < next_serial today cur)
      × (cur ≡ 2 ^ 32 - 1 → next_serial today cur ≡ date_base today)
unfolding next_serial
next_serial_bounds today cur h =
    let base : date_base today < 2 ^ 32 = unfold date_base in omega arith in
    (ground arith, ground arith, λ ne. ground arith, λ e. ground arith)

length-take : (n : ℕ) (xs : Bytes) → n ≤ length xs → length (take n xs) ≡ n
length-take zero xs h = refl
length-take (suc n) [] h = absurd (omega arith)
length-take (suc n) (x ∷ xs) h = ap suc (length-take n xs (omega arith))

drop_front : (xs ys : Bytes) (n : ℕ) → length xs ≡ n → drop n (xs ++ ys) ≡ ys
drop_front [] ys zero e = refl
drop_front [] ys (suc n) e = absurd (omega arith)
drop_front (x ∷ xs) ys zero e = absurd (omega arith)
drop_front (x ∷ xs) ys (suc n) e = drop_front xs ys n (omega arith)

take_front : (xs ys : Bytes) (n : ℕ) → length xs ≡ n → take n (xs ++ ys) ≡ xs
take_front [] ys zero e = refl
take_front [] ys (suc n) e = absurd (omega arith)
take_front (x ∷ xs) ys zero e = absurd (omega arith)
take_front (x ∷ xs) ys (suc n) e = ap (◌∷◌ x) (take_front xs ys n (omega arith))

slice-splice :
    (i j : ℕ) (text line : Bytes)
    → i ≤ length line
    → slice i (i + length text) (splice i j text line) ≡ text
slice-splice i j text line h =
    let front = drop_front (take i line) (text ++ drop j line) i (length-take i line h) in
    let e : i + length text - i ≡ length text = omega arith in
    rw (front, e) (take_front text (drop j line) (length text) refl)

drop-drop_front : (xs ys : Bytes) (n m : ℕ) → length xs ≡ n → drop (n + m) (xs ++ ys) ≡ drop m ys
drop-drop_front [] ys zero m e = let z : 0 + m ≡ m = omega arith in rw z
drop-drop_front [] ys (suc n) m e = absurd (omega arith)
drop-drop_front (x ∷ xs) ys zero m e = absurd (omega arith)
drop-drop_front (x ∷ xs) ys (suc n) m e =
    let z : suc n + m ≡ suc (n + m) = omega arith in rw z (drop-drop_front xs ys n m (omega arith))

behind-splice :
    (i j : ℕ) (text line : Bytes)
    → i ≤ length line
    → drop (i + length text) (splice i j text line) ≡ drop j line
behind-splice i j text line h =
    drop-drop_front (take i line) (text ++ drop j line) i (length text) (length-take i line h)
    ∙ drop_front text (drop j line) (length text) refl

change_line_self :
    (i : ℕ) (f : Bytes → Bytes) (ls : List Bytes) (l : Bytes)
    → get_elem? ls i ≡ some l
    → get_elem? (change_line i f ls) i ≡ some (f l)
unfolding change_line
change_line_self i f [] l e = cc
change_line_self zero f (x ∷ ls) l e = ground arith
change_line_self (suc i) f (x ∷ ls) l e = change_line_self i f ls l e

change_line_other :
    (i k : ℕ) (f : Bytes → Bytes) (ls : List Bytes)
    → i ≢ k
    → get_elem? (change_line i f ls) k ≡ get_elem? ls k
unfolding change_line
change_line_other i k f [] ne = refl
change_line_other zero zero f (x ∷ ls) ne = absurd (ne refl)
change_line_other zero (suc k) f (x ∷ ls) ne = refl
change_line_other (suc i) zero f (x ∷ ls) ne = refl
change_line_other (suc i) (suc k) f (x ∷ ls) ne = change_line_other i k f ls (λ e. ne (ap suc e))

-- The text that stands where the located token stood, up to the length of the new serial.
abbrev pub reread : TokPos → ℕ → Bytes → Bytes
reread st next line = slice st.start (st.start + length (show_nat next)) line

-- A bump rewrites the token's line alone, and there only the token: what is then read in its
-- place is the new serial, the text before it is unchanged, and so is the text behind it.
pub set_serial_lem :
    (st : TokPos) (next : ℕ) (ls : List Bytes) (l : Bytes)
    → next < 2 ^ 32
    → get_elem? ls st.line ≡ some l
    → st.start ≤ length l
    → ((k : ℕ) → st.line ≢ k → get_elem? (set_serial st next ls) k ≡ get_elem? ls k)
      × ((l' : Bytes) × (get_elem? (set_serial st next ls) st.line ≡ some l')
          × (parse_uint32 (reread st next l') ≡ some next)
          × (take st.start l' ≡ take st.start l)
          × (drop (st.start + length (show_nat next)) l' ≡ drop st.end l))
unfolding set_serial
set_serial_lem st next ls l h e b = (
  λ k ne. change_line_other st.line k _ ls ne,
  (
    splice st.start st.end (show_nat next) l,
    change_line_self st.line _ ls l e,
    rw slice-splice-here (parse_uint32-show_nat next h),
    take_front (take st.start l) _ st.start before,
    behind-splice st.start st.end (show_nat next) l b,
  ),
)
  where
    slice-splice-here : reread st next (splice st.start st.end (show_nat next) l) ≡ show_nat next
    slice-splice-here = slice-splice st.start st.end (show_nat next) l b

    before : length (take st.start l) ≡ st.start
    before = length-take st.start l b

-- `SerialFloor` writes, on the located token, a serial above both the file's and the floor, when
-- both are below the greatest uint32.
pub serial_floor_lem :
    (today : Date) (f : File) (floor : ℕ) (out : Bytes)
    → serial_floor today f floor ≡ some out
    → soa_serial f < 2 ^ 32 - 1
    → floor < 2 ^ 32 - 1
    → (st : TokPos) × (n : ℕ) × (f.serial_tok ≡ some st)
      × (out ≡ join b'\n' (set_serial st n f.lines))
      × (soa_serial f < n)
      × (floor < n)
      × (n < 2 ^ 32)
unfolding serial_floor
serial_floor_lem today f floor out e p q = go f.no_surgery f.serial_tok e
  where
    n : ℕ
    n = next_serial today (floor_of (soa_serial f) floor)

    bounds : (floor_of (soa_serial f) floor < n) × (n < 2 ^ 32)
    bounds =
        let fits : floor_of (soa_serial f) floor < 2 ^ 32 - 1 = ground arith in
        let b = next_serial_bounds today (floor_of (soa_serial f) floor) (omega arith) in
        (b.2 (omega arith), b.0)

    go :
        (why : Option Reason) (o : Option TokPos)
        → elim why [ some r ↦ none | none ↦ set_floor today f floor o ] ≡ some out
        → (st : TokPos) × (n : ℕ) × (o ≡ some st)
          × (out ≡ join b'\n' (set_serial st n f.lines))
          × (soa_serial f < n)
          × (floor < n)
          × (n < 2 ^ 32)
    go (some r) o e = cc
    go none none e = cc
    go none (some st) e =
        (st, n, refl, ground arith, ground (arith, bounds), ground (arith, bounds), bounds.1)
