-- ===== src/Tests/Admin.antt =====
-- Runs of internal/admin/throttle.go.
use goddns.Base.{ℕ, ◌+◌, ◌*◌, ◌≤◌, zero, suc, [], ◌∷◌, ◌≡◌, refl, arith}
use goddns.Base.Strings.{Bytes, bytes, str_eq}
use goddns.Base.Dict.{lookup, insert, remove}
use goddns.Admin.Throttle.{
  Throttle, minute, window, blocked_until, sweep, back_off, count_failure, fail_key, fail, succeed,
}
use goddns.Admin.Throttle.Window.{back_off_bounds, IsSane, fail-IsSane, blocked_until-sweep}
use goddns.Admin.Throttle.Locks.{HasFree, failures, blocked_until-fail_free}

abbrev peer : Bytes
peer = bytes "ip:9"

abbrev noon : ℕ
noon = 720 * minute

abbrev none_yet : Throttle
none_yet = []

abbrev after_fails : ℕ → Throttle
after_fails zero = none_yet
after_fails (suc n) = fail noon (peer ∷ []) (after_fails n)

-- The eighth failure locks for a minute, the ninth for two, the twelfth for the window.
back_offs : (back_off 8 ≡ minute) × (back_off 9 ≡ 2 * minute) × (back_off 12 ≡ window)
unfolding back_off
back_offs = (refl, refl, refl)

runs :
    (blocked_until noon (peer ∷ []) (after_fails 7) ≡ 0)
    × (blocked_until noon (peer ∷ []) (after_fails 8) ≡ noon + minute)
    × (blocked_until noon (peer ∷ []) (succeed (peer ∷ []) (after_fails 8)) ≡ 0)
unfolding blocked_until fail fail_key count_failure back_off sweep insert lookup succeed remove
    str_eq
runs = (refl, refl, refl)

none_yet-IsSane : IsSane noon none_yet
unfolding lookup
none_yet-IsSane = record { is_map = tt; at_key = λ k r e. cc }

after_fails-IsSane : (n : ℕ) → IsSane noon (after_fails n)
after_fails-IsSane zero = none_yet-IsSane
after_fails-IsSane (suc n) = fail-IsSane noon (peer ∷ []) (after_fails n) (after_fails-IsSane n)

back_off_bounds_example : (minute ≤ back_off 11) × (back_off 11 ≤ window)
back_off_bounds_example = back_off_bounds 11 (omega arith)

blocked_until-sweep_example :
    blocked_until (noon + 5) (peer ∷ []) (sweep noon (after_fails 9))
    ≡ blocked_until (noon + 5) (peer ∷ []) (after_fails 9)
blocked_until-sweep_example =
    blocked_until-sweep noon (noon + 5) (peer ∷ []) (after_fails 9) (after_fails-IsSane 9)
      (omega arith)

seven : failures noon peer (after_fails 7) ≡ 7
unfolding fail fail_key count_failure back_off sweep insert lookup str_eq
seven = refl

three : failures noon peer (after_fails 3) ≡ 3
unfolding fail fail_key count_failure back_off sweep insert lookup str_eq
three = refl

three-HasFree : HasFree (after_fails 3)
unfolding fail fail_key count_failure back_off sweep insert lookup str_eq
three-HasFree = λ k r e h. ground arith

three_unlocked : blocked_until noon (peer ∷ []) (fail noon (peer ∷ []) (after_fails 3)) ≡ 0
three_unlocked =
    blocked_until-fail_free noon noon peer (after_fails 3) (after_fails-IsSane 3).is_map
      three-HasFree (rw three (omega arith))
