-- ===== src/Named/Serials.antt =====
-- The agreement of a zone's nameservers on its serial: `SerialsAgree` and the verdict of
-- `ZoneSerialCheck` in internal/named/health.go. The probes are an argument.
use goddns.Base.{
  ℕ, Bool, true, false, List, [], ◌∷◌, leb, ◌==◌, ◌≡◌, refl, arith, if◌then◌else◌, is_empty, all,
  length, ◌+◌,
}
use goddns.Base.Strings.{Bytes}

pub record NsCheck : Type 0 where
  pub name : Bytes
  pub addrs : List Bytes
  pub serial : ℕ
  pub aa : Bool
  pub ok : Bool
  pub note : Bytes

pub data SerialStatus : Type 0 where
  serial_no_ns serial_agree serial_mismatch serial_unreachable : SerialStatus

-- `seen[s]++`.
unfoldable pub count_in : ℕ → List (ℕ × ℕ) → List (ℕ × ℕ)
count_in s [] = (s, 1) ∷ []
count_in s ((t, n) ∷ seen) =
    let rest = count_in s seen in if t == s then (t, n + 1) ∷ seen else (t, n) ∷ rest

-- The loop of `SerialsAgree`.
unfoldable pub seen_onto : List NsCheck → List (ℕ × ℕ) → List (ℕ × ℕ)
unfolding count_in
seen_onto [] seen = seen
seen_onto (c ∷ checks) seen = seen_onto checks (if c.ok then count_in c.serial seen else seen)

unfoldable pub serials_agree : List NsCheck → Bool × List (ℕ × ℕ)
unfolding seen_onto
serials_agree checks = let seen = seen_onto checks [] in (leb (length seen) 1, seen)

-- The switch of `ZoneSerialCheck`.
abbrev pub verdict : Bool → List (ℕ × ℕ) → SerialStatus × ℕ
verdict agree [] = (serial_unreachable, 0)
verdict true ((s, n) ∷ []) = (serial_agree, s)
verdict _ _ = (serial_mismatch, 0)

-- `ZoneSerialCheck`, of the probes.
unfoldable pub zone_serial_check : List NsCheck → SerialStatus × ℕ
unfolding serials_agree
zone_serial_check checks =
    let r = serials_agree checks in if is_empty checks then (serial_no_ns, 0) else verdict r.0 r.1

-- The serials of the nameservers that answered.
unfoldable pub answered : List NsCheck → List ℕ
answered [] = []
answered (c ∷ checks) = let rest = answered checks in if c.ok then c.serial ∷ rest else rest

abbrev pub agreed : List ℕ → SerialStatus × ℕ
agreed [] = (serial_unreachable, 0)
agreed (s ∷ serials) = if all (λ t. t == s) serials then (serial_agree, s) else (serial_mismatch, 0)

abbrev seen_verdict : List (ℕ × ℕ) → SerialStatus × ℕ
seen_verdict seen = verdict (leb (length seen) 1) seen

is_many : List (ℕ × ℕ) → Bool
is_many (a ∷ b ∷ seen) = true
is_many _ = false

is_many-count_in :
    (s : ℕ) (seen : List (ℕ × ℕ)) → is_many seen ≡ true → is_many (count_in s seen) ≡ true
unfolding count_in is_many
is_many-count_in s [] h = cc
is_many-count_in s (a ∷ []) h = cc
is_many-count_in s ((t, n) ∷ (u, m) ∷ seen) h = ground arith

many_verdict :
    (checks : List NsCheck) (seen : List (ℕ × ℕ))
    → is_many seen ≡ true
    → seen_verdict (seen_onto checks seen) ≡ (serial_mismatch, 0)
unfolding seen_onto is_many
many_verdict [] (a ∷ b ∷ seen) h = ground arith
many_verdict [] (a ∷ []) h = cc
many_verdict [] [] h = cc
many_verdict (c ∷ checks) seen h =
    many_verdict checks (if c.ok then count_in c.serial seen else seen)
      (ground (arith, is_many-count_in c.serial seen))

two_many : (s t n : ℕ) → (t == s) ≡ false → is_many (count_in s ((t, n) ∷ [])) ≡ true
unfolding count_in is_many
two_many s t n h = ground arith

same_count : (s t n : ℕ) → (t == s) ≡ true → count_in s ((t, n) ∷ []) ≡ (t, n + 1) ∷ []
unfolding count_in
same_count s t n h = ground arith

one_verdict :
    (checks : List NsCheck) (s n : ℕ)
    → seen_verdict (seen_onto checks ((s, n) ∷ [])) ≡ agreed (s ∷ answered checks)
unfolding seen_onto answered
one_verdict [] s n = ground arith
one_verdict (c ∷ checks) s n = ground (
  arith,
  one_verdict checks s n,
  one_verdict checks s (n + 1),
  same_count c.serial s n,
  two_many c.serial s n,
  many_verdict checks (count_in c.serial ((s, n) ∷ [])),
)

first_verdict :
    (checks : List NsCheck) → seen_verdict (seen_onto checks []) ≡ agreed (answered checks)
unfolding seen_onto answered
first_verdict [] = refl
first_verdict (c ∷ checks) = ground (arith, first_verdict checks, one_verdict checks c.serial 1)

-- The verdict on a zone's serial: no nameserver to check, where there is none; unreachable, where none
-- answered; agreement on the serial of the first that answered, where all that answered have
-- it; and mismatch otherwise.
pub zone_serial_check_lem :
    (checks : List NsCheck)
    → zone_serial_check checks
      ≡ (if is_empty checks then (serial_no_ns, 0) else agreed (answered checks))
unfolding zone_serial_check serials_agree
zone_serial_check_lem checks = ground (arith, first_verdict checks)
