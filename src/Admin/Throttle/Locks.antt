-- ===== src/Admin/Throttle/Locks.antt =====
-- When a key is locked: not before the eighth failure in a row, always from then on, and never
-- after a success.
use goddns.Base.{
  ℕ, ◌+◌, ◌≤◌, ◌<◌, true, false, not, List, [], ◌∷◌, none, some, ◌≡◌, refl, ap, any, ◌∙◌, arith,
  if◌then◌else◌, Option-cases, inl, inr,
}
use goddns.Base.Strings.{Bytes, str_eq, str_eq_refl}
use goddns.Base.Dict.{lookup, remove, IsMap, lookup-insert, lookup-remove, lookup-retain}
use goddns.Admin.Throttle.{
  FailRec, Throttle, threshold, minute, window, fresh, is_stale, blocked_onto, blocked_until, sweep,
  or_fresh, count_failure, fail_key, fail_keys, fail, succeed,
}
use goddns.Admin.Throttle.Window.{back_off_bounds}

-- A record of fewer failures than the threshold holds no lock.
abbrev pub HasFree : Throttle → Type 0
HasFree t = (k : Bytes) (r : FailRec) → lookup k t ≡ some r → r.n < threshold → r.until ≡ 0

-- The number of failures that count at `now`.
abbrev pub failures : ℕ → Bytes → Throttle → ℕ
failures now k t = (or_fresh now (lookup k t)).n

lookup-fail :
    (now : ℕ) (k : Bytes) (t : Throttle)
    → lookup k (fail_key now k t) ≡ some (count_failure now (or_fresh now (lookup k t)))
unfolding fail_key
lookup-fail now k t = rw lookup-insert (rw str_eq_refl)

-- What the sweep drops, the failure would have started afresh.
or_fresh-sweep :
    (now : ℕ) (k : Bytes) (t : Throttle)
    → IsMap t
    → or_fresh now (lookup k (sweep now t)) ≡ or_fresh now (lookup k t)
unfolding sweep
or_fresh-sweep now k t m = ground (arith, lookup-retain (λ k r. not (is_stale now r)) k t m)

-- The failure that reaches the threshold, and each one after it within the window, locks its key
-- for at least a minute and at most the window, whatever the count.
pub blocked_until-fail :
    (now later : ℕ) (k : Bytes) (t : Throttle)
    → IsMap t
    → threshold ≤ failures now k t + 1
    → later < now + minute
    → (now + minute ≤ blocked_until later (k ∷ []) (fail now (k ∷ []) t))
      × (blocked_until later (k ∷ []) (fail now (k ∷ []) t) ≤ now + window)
unfolding blocked_until fail count_failure
blocked_until-fail now later k t m h l =
    rw (lookup-fail now k (sweep now t), or_fresh-sweep now k t m)
      (ground (arith, back_off_bounds (failures now k t + 1)))

HasFree-fail_key : (now : ℕ) (k : Bytes) (t : Throttle) → HasFree t → HasFree (fail_key now k t)
unfolding fail_key count_failure
HasFree-fail_key now k t f j r e n = elim (Option-cases (lookup k t)) [
  | inl none_yet ↦ ground (arith, lookup-insert k j (count_failure now fresh) t, f j r)
  | inr (old, was) ↦
      ground (
        arith,
        lookup-insert k j (count_failure now (or_fresh now (some old))) t,
        f j r,
        f k old was,
      )
]

HasFree-fail_keys :
    (now : ℕ) (keys : List Bytes) (t : Throttle) → HasFree t → HasFree (fail_keys now keys t)
unfolding fail_keys
HasFree-fail_keys now [] t f = f
HasFree-fail_keys now (k ∷ keys) t f = HasFree-fail_keys now keys _ (HasFree-fail_key now k t f)

HasFree-sweep : (now : ℕ) (t : Throttle) → IsMap t → HasFree t → HasFree (sweep now t)
unfolding sweep
HasFree-sweep now t m f j r e =
    f j r (ground (arith, lookup-retain (λ k r. not (is_stale now r)) j t m))

-- Every failure keeps the invariant that fewer than eight failures lock nothing.
pub fail-HasFree :
    (now : ℕ) (keys : List Bytes) (t : Throttle) → IsMap t → HasFree t → HasFree (fail now keys t)
unfolding fail
fail-HasFree now keys t m f = HasFree-fail_keys now keys _ (HasFree-sweep now t m f)

-- In a table where fewer failures than the threshold lock nothing, a failure that stays below the
-- threshold leaves its key unlocked at every time.
pub blocked_until-fail_free :
    (now later : ℕ) (k : Bytes) (t : Throttle)
    → IsMap t
    → HasFree t
    → failures now k t + 1 < threshold
    → blocked_until later (k ∷ []) (fail now (k ∷ []) t) ≡ 0
unfolding blocked_until
blocked_until-fail_free now later k t m f n =
    let rec = count_failure now (or_fresh now (lookup k (sweep now t))) in
    let found : lookup k (fail now (k ∷ []) t) ≡ some rec =
      unfold fail in lookup-fail now k (sweep now t) in
    let count : rec.n ≡ failures now k t + 1 =
      unfold count_failure in ap (λ (r : FailRec). r.n + 1) (or_fresh-sweep now k t m) in
    let free : rec.until ≡ 0 = fail-HasFree now (k ∷ []) t m f k rec found (omega (arith, count)) in
    ground arith

-- `ok` forgets exactly the keys that it is given.
pub lookup-succeed :
    (j : Bytes) (keys : List Bytes) (t : Throttle)
    → lookup j (succeed keys t) ≡ (if any (λ k. str_eq k j) keys then none else lookup j t)
unfolding succeed
lookup-succeed j [] t = refl
lookup-succeed j (k ∷ keys) t =
    ground (arith, lookup-succeed j keys (remove k t), lookup-remove k j t)

blocked_onto-none :
    (now : ℕ) (keys : List Bytes) (t : Throttle)
    → ((k : Bytes) → any (λ a. str_eq a k) keys ≡ true → lookup k t ≡ none)
    → blocked_onto now t keys 0 ≡ 0
unfolding blocked_onto
blocked_onto-none now [] t h = refl
blocked_onto-none now (k ∷ keys) t h =
    rw (h k (rw str_eq_refl)) (blocked_onto-none now keys t λ j e. h j (ground arith))

-- After a successful login none of its keys is locked at any time, and the other keys' records
-- are as they were.
pub blocked_until-succeed :
    (now : ℕ) (keys : List Bytes) (t : Throttle)
    → (blocked_until now keys (succeed keys t) ≡ 0)
      × ((j : Bytes) → any (λ k. str_eq k j) keys ≡ false → lookup j (succeed keys t) ≡ lookup j t)
unfolding blocked_until
blocked_until-succeed now keys t = (
  blocked_onto-none now keys (succeed keys t) (λ k e. lookup-succeed k keys t ∙ rw e),
  λ j e. lookup-succeed j keys t ∙ rw e,
)
