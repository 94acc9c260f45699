-- ===== src/Admin/Throttle.antt =====
-- `loginThrottle` of internal/admin/throttle.go. Times and durations are nanoseconds; a
-- `time.Duration` is the bit pattern of an int64, and the zero `time.Time` is 0.
pub mod Window
pub mod Locks
use goddns.Base.{
  ℕ, ◌+◌, ◌-◌, ◌*◌, ◌%◌, ◌^◌, Bool, true, false, not, ◌&&◌, ◌||◌, List, [], ◌∷◌, Option, none, some,
  ltb, leb, if◌then◌else◌, length,
}
use goddns.Base.Strings.{Bytes}
use goddns.Base.Dict.{Dict, lookup, insert, remove, retain}

pub record FailRec : Type 0 where
  pub n : ℕ
  pub until : ℕ
  pub seen : ℕ

abbrev pub Throttle : Type 0
Throttle = Dict FailRec

abbrev pub threshold : ℕ
threshold = 8

abbrev pub minute : ℕ
minute = 60_000_000_000

-- `throttleWindow`.
abbrev pub window : ℕ
window = 15 * minute

abbrev pub fresh : FailRec
fresh = record { n = 0; until = 0; seen = 0 }

-- `now.Sub(r.seen) > throttleWindow`; a negative difference is 0 here, and no more than the window.
abbrev pub is_stale : ℕ → FailRec → Bool
is_stale now r = ltb window (now - r.seen)

abbrev latest_block : ℕ → Option FailRec → ℕ → ℕ
latest_block now none until = until
latest_block now (some r) until = if ltb now r.until && ltb until r.until then r.until else until

blocked_onto : ℕ → Throttle → List Bytes → ℕ → ℕ
blocked_onto now t [] until = until
blocked_onto now t (k ∷ keys) until = blocked_onto now t keys (latest_block now (lookup k t) until)

-- `blockedUntil`.
unfoldable pub blocked_until : ℕ → List Bytes → Throttle → ℕ
unfolding blocked_onto
blocked_until now keys t = blocked_onto now t keys 0

-- The sweep at the head of `fail`.
unfoldable pub sweep : ℕ → Throttle → Throttle
unfolding retain
sweep now t = if ltb 4096 (length t) then retain (λ k r. not (is_stale now r)) t else t

-- `time.Minute << shift`, and the test `d > throttleWindow` on signed numbers.
abbrev shifted : ℕ → ℕ
shifted shift = minute * 2 ^ shift % 2 ^ 64

abbrev over_window : ℕ → Bool
over_window d = ltb d (2 ^ 63) && ltb window d

-- How long the n-th failure locks, from the clamp of the shift to the cap.
unfoldable pub back_off : ℕ → ℕ
back_off n =
    let shift = if ltb 20 (n - threshold) then 20 else n - threshold in
    let d = shifted shift in if over_window d then window else d

-- `now.Add(d)`, where d may be negative.
abbrev add_duration : ℕ → ℕ → ℕ
add_duration now d = if ltb d (2 ^ 63) then now + d else now + d - 2 ^ 64

abbrev pub or_fresh : ℕ → Option FailRec → FailRec
or_fresh now none = fresh
or_fresh now (some r) = if is_stale now r then fresh else r

unfoldable pub count_failure : ℕ → FailRec → FailRec
unfolding back_off
count_failure now r =
    let n' = r.n + 1 in
    record {
      n = n';
      until = if leb threshold n' then add_duration now (back_off n') else r.until;
      seen = now;
    }

unfoldable pub fail_key : ℕ → Bytes → Throttle → Throttle
fail_key now k t = insert k (count_failure now (or_fresh now (lookup k t))) t

fail_keys : ℕ → List Bytes → Throttle → Throttle
fail_keys now [] t = t
fail_keys now (k ∷ keys) t = fail_keys now keys (fail_key now k t)

-- `fail`.
unfoldable pub fail : ℕ → List Bytes → Throttle → Throttle
unfolding fail_keys
fail now keys t = fail_keys now keys (sweep now t)

-- `ok`.
unfoldable pub succeed : List Bytes → Throttle → Throttle
succeed [] t = t
succeed (k ∷ keys) t = succeed keys (remove k t)
