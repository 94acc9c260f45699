-- ===== src/Base/Decimal.antt =====
-- Decimal numbers as package strconv prints and parses them.
use native.Mathlib.Nat.{pow-suc}
use Prim.Native.Nat.{ℕ, zero, suc, ◌+◌, ◌-◌, ◌*◌, ◌/◌, ◌%◌, ◌^◌, ◌<◌}
use mathlib.Core.Path.{◌≡◌, refl, ◌∙◌}
use mathlib.Core.Bool.{Bool, true, false, ◌&&◌}
use mathlib.Core.Option.{Option, none, some}
use mathlib.Core.List.{[], ◌∷◌, ◌++◌}
use native.Mathlib.Omega.{arith}
use goddns.Base.Tests.{ltb, leb, if◌then◌else◌, Bool-cases}
use mathlib.Core.Logic.{inl, inr}
use goddns.Base.Lists.{is_empty, all}
use goddns.Base.Strings.{Bytes, has_prefix, trim_prefix}

digits_of : ℕ → ℕ → Bytes
digits_of zero n = []
digits_of (suc f) n =
    let rest = digits_of f (n / 10) in
    if ltb n 10 then (b'0' + n) ∷ [] else rest ++ ((b'0' + n % 10) ∷ [])

-- `strconv.FormatUint(n, 10)`: a uint64 has at most 20 digits.
unfoldable pub show_nat : ℕ → Bytes
unfolding digits_of
show_nat = digits_of 20

parse_digits : ℕ → Bytes → Option ℕ
parse_digits acc [] = some acc
parse_digits acc (c ∷ cs) =
    let rest = parse_digits (acc * 10 + (c - b'0')) cs in
    if leb b'0' c && leb c b'9' then rest else none

abbrev within : ℕ → Option ℕ → Option ℕ
within limit none = none
within limit (some n) = if ltb n limit then some n else none

-- `strconv.ParseUint(s, 10, 32)`.
unfoldable pub parse_uint32 : Bytes → Option ℕ
unfolding parse_digits
parse_uint32 s = if is_empty s then none else within (2 ^ 32) (parse_digits 0 s)

-- `strconv.ParseInt(s, 10, 64)`, where it gives a number that is not negative.
unfoldable pub parse_int64 : Bytes → Option ℕ
unfolding parse_digits trim_prefix
parse_int64 s =
    let t = trim_prefix s (b'+' ∷ []) in
    if is_empty t then none else within (2 ^ 63) (parse_digits 0 t)

abbrev capped_int : Option ℕ → ℕ
capped_int none = 0
capped_int (some n) = if ltb n (2 ^ 63) then n else 2 ^ 63 - 1

-- The value of `strconv.Atoi(s)` with its error ignored, where it is not negative; a number that is too
-- large reads as the largest.
unfoldable pub atoi : Bytes → ℕ
unfolding parse_digits trim_prefix
atoi s =
    let t = trim_prefix s (b'+' ∷ []) in if is_empty t then 0 else capped_int (parse_digits 0 t)

parse_digits-append :
    (acc d n : ℕ) (s : Bytes)
    → d < 10
    → parse_digits acc s ≡ some n
    → parse_digits acc (s ++ ((b'0' + d) ∷ [])) ≡ some (n * 10 + d)
unfolding parse_digits
parse_digits-append acc d n [] h e = ground arith
parse_digits-append acc d n (c ∷ s) h e =
    ground (arith, parse_digits-append (acc * 10 + (c - b'0')) d n s h)

parse_digits-digits_of : (f n : ℕ) → n < 10 ^ suc f → parse_digits 0 (digits_of (suc f) n) ≡ some n
unfolding digits_of
parse_digits-digits_of zero n h = unfold parse_digits in ground arith
parse_digits-digits_of (suc f) n h = elim (Bool-cases (ltb n 10)) [
  | inl small ↦ unfold parse_digits in ground arith
  | inr large ↦
      let down : n / 10 < 10 ^ suc f = omega (arith, pow-suc 10 (suc f)) in
      let ih = parse_digits-digits_of f (n / 10) down in
      let e : (n / 10) * 10 + n % 10 ≡ n = omega arith in
      rw large (parse_digits-append 0 (n % 10) (n / 10) _ (omega arith) ih ∙ rw e)
]

digits_of-ne-nil : (f n : ℕ) → is_empty (digits_of (suc f) n) ≡ false
unfolding digits_of
digits_of-ne-nil f n = elim (Bool-cases (ltb n 10)) [
  | inl small ↦ rw small refl
  | inr large ↦ rw large (behind (digits_of f (n / 10)) _)
]
  where
    behind : (s : Bytes) (d : ℕ) → is_empty (s ++ (d ∷ [])) ≡ false
    behind [] d = refl
    behind (c ∷ s) d = refl

-- Parsing the print of a uint32 gives it back.
pub parse_uint32-show_nat : (n : ℕ) → n < 2 ^ 32 → parse_uint32 (show_nat n) ≡ some n
unfolding parse_uint32 show_nat
parse_uint32-show_nat n h =
    let parsed = parse_digits-digits_of 19 n (omega arith) in
    ground (arith, parsed, digits_of-ne-nil 19 n)

abbrev pub is_digit : ℕ → Bool
is_digit c = leb b'0' c && leb c b'9'

all-append : (p : ℕ → Bool) (xs ys : Bytes) → all p (xs ++ ys) ≡ (all p xs && all p ys)
all-append p [] ys = refl
all-append p (x ∷ xs) ys = ground (arith, all-append p xs ys)

digits_of-digits : (f n : ℕ) → all is_digit (digits_of f n) ≡ true
unfolding digits_of
digits_of-digits zero n = refl
digits_of-digits (suc f) n = ground (
  arith,
  digits_of-digits f (n / 10),
  all-append is_digit (digits_of f (n / 10)) ((b'0' + n % 10) ∷ []),
)

-- A number is printed in digits.
pub show_nat-digits : (n : ℕ) → all is_digit (show_nat n) ≡ true
unfolding show_nat
show_nat-digits n = digits_of-digits 20 n

no_plus : (s : Bytes) → all is_digit s ≡ true → trim_prefix s (b'+' ∷ []) ≡ s
unfolding trim_prefix has_prefix
no_plus [] h = refl
no_plus (c ∷ s) h = ground arith

-- Parsing the print of an int64 that is not negative gives it back.
pub parse_int64-show_nat : (n : ℕ) → n < 2 ^ 63 → parse_int64 (show_nat n) ≡ some n
unfolding parse_int64
parse_int64-show_nat n h =
    let parsed = parse_digits-digits_of 19 n (omega arith) in
    rw (no_plus (show_nat n) (show_nat-digits n))
      (unfold show_nat in ground (arith, parsed, digits_of-ne-nil 19 n))
