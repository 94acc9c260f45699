-- ===== src/Admin/Throttle/Window.antt =====
-- No lock outlasts the window that follows the last failure, and the sweep drops no live lock.
use native.Mathlib.Decide.{dec_lt}
use goddns.Base.{
  ℕ, zero, suc, ◌+◌, ◌-◌, ◌≤◌, ◌<◌, Bool, true, not, ◌&&◌, List, [], ◌∷◌, Option, none, some, ◌≡◌,
  refl, arith, ltb, leb, lt→ltb, length, Option-cases, Bool-cases, sym, ◌∙◌, inl, inr,
}
use goddns.Base.Strings.{Bytes}
use goddns.Base.Dict.{
  lookup, remove, retain, IsMap, insert-IsMap, remove-IsMap, lookup-insert, lookup-remove,
  lookup-retain, retain-IsMap, passing,
}
use goddns.Admin.Throttle.{
  FailRec, Throttle, threshold, minute, window, is_stale, latest_block, blocked_onto, blocked_until,
  sweep, back_off, or_fresh, count_failure, fail_key, fail_keys, fail, succeed,
}

-- The shift is clamped, so each of the 21 waits is between a minute and the window.
waits_fit : ℕ → Bool
waits_fit zero = true
waits_fit (suc k) = leb minute (back_off (8 + k)) && leb (back_off (8 + k)) window && waits_fit k

waits_fit_22 : waits_fit 22 ≡ true
unfolding waits_fit back_off
waits_fit_22 = refl

waits_fit_sound :
    (m k : ℕ)
    → waits_fit m ≡ true
    → k < m
    → (minute ≤ back_off (8 + k)) × (back_off (8 + k) ≤ window)
unfolding waits_fit
waits_fit_sound zero k t h = elim h [ ]
waits_fit_sound (suc m) k t h = ground (arith, waits_fit_sound m k)

back_off_capped : (n : ℕ) → 28 < n → back_off n ≡ window
unfolding back_off
back_off_capped n h = rw (lt→ltb 20 (n - 8) (omega arith))

pub back_off_bounds : (n : ℕ) → threshold ≤ n → (minute ≤ back_off n) × (back_off n ≤ window)
back_off_bounds n h = elim (dec_lt 28 n) [
  | yes p ↦ rw (back_off_capped n p) (omega arith)
  | no p ↦
      let e : n ≡ 8 + (n - 8) = omega arith in
      rw e (waits_fit_sound 22 (n - 8) waits_fit_22 (omega arith))
]

-- A lock ends at most a window after the failure that set it.
abbrev pub Fits : FailRec → Type 0
Fits r = r.until ≤ r.seen + window

pub count_failure-Fits :
    (now : ℕ) (r : FailRec) → Fits r → r.seen ≤ now → Fits (count_failure now r)
unfolding count_failure
count_failure-Fits now r f s = ground (arith, back_off_bounds (r.n + 1))

-- Every lock fits, and no failure lies in the future.
pub record IsSane (now : ℕ) (t : Throttle) : Type 0 where
  pub is_map : IsMap t
  pub at_key : (k : Bytes) (r : FailRec) → lookup k t ≡ some r → Fits r × (r.seen ≤ now)

pub IsSane-later : (now later : ℕ) (t : Throttle) → now ≤ later → IsSane now t → IsSane later t
IsSane-later now later t h s = record {
  is_map = s.is_map;
  at_key = λ k r e. ((s.at_key k r e).0, omega (arith, (s.at_key k r e).1));
}

passing-eq-some :
    (p : FailRec → Bool) (o : Option FailRec) {r : FailRec} → passing p o ≡ some r → o ≡ some r
passing-eq-some p none h = cc
passing-eq-some p (some r) h = ground arith

retain-IsSane :
    (p : Bytes → FailRec → Bool) (now : ℕ) (t : Throttle) → IsSane now t → IsSane now (retain p t)
retain-IsSane p now t s = record {
  is_map = retain-IsMap p t s.is_map;
  at_key = λ k r e. s.at_key k r (passing-eq-some (p k) _ (sym (lookup-retain p k t s.is_map) ∙ e));
}

pub sweep-IsSane : (now : ℕ) (t : Throttle) → IsSane now t → IsSane now (sweep now t)
unfolding sweep
sweep-IsSane now t s = elim (Bool-cases (ltb 4096 (length t))) [
  | inl full ↦ rw full (retain-IsSane _ now t s)
  | inr small ↦ rw small s
]

or_fresh-Fits :
    (now : ℕ) (k : Bytes) (t : Throttle)
    → IsSane now t
    → Fits (or_fresh now (lookup k t)) × ((or_fresh now (lookup k t)).seen ≤ now)
or_fresh-Fits now k t s = elim (Option-cases (lookup k t)) [
  | inl e ↦ rw e (omega arith)
  | inr (r, e) ↦ rw e (ground (arith, s.at_key k r e))
]

fail_key-IsSane :
    (now : ℕ) (k : Bytes) (t : Throttle) → IsSane now t → IsSane now (fail_key now k t)
unfolding fail_key
fail_key-IsSane now k t s =
    let old = or_fresh now (lookup k t) in
    let fits = or_fresh-Fits now k t s in
    record {
      is_map = insert-IsMap k _ t s.is_map;
      at_key = λ j r e. ground (
        arith,
        lookup-insert k j (count_failure now old) t,
        s.at_key j r,
        count_failure-Fits now old fits.0 fits.1,
        seen-count_failure now old,
      );
    }
  where
    seen-count_failure : (now : ℕ) (r : FailRec) → (count_failure now r).seen ≡ now
    seen-count_failure now r = unfold count_failure in refl

fail_keys-IsSane :
    (now : ℕ) (keys : List Bytes) (t : Throttle) → IsSane now t → IsSane now (fail_keys now keys t)
unfolding fail_keys
fail_keys-IsSane now [] t s = s
fail_keys-IsSane now (k ∷ keys) t s = fail_keys-IsSane now keys _ (fail_key-IsSane now k t s)

-- Every operation keeps the table sane, whatever the clock does between calls.
pub fail-IsSane :
    (now : ℕ) (keys : List Bytes) (t : Throttle) → IsSane now t → IsSane now (fail now keys t)
unfolding fail
fail-IsSane now keys t s = fail_keys-IsSane now keys _ (sweep-IsSane now t s)

pub succeed-IsSane :
    (now : ℕ) (keys : List Bytes) (t : Throttle) → IsSane now t → IsSane now (succeed keys t)
unfolding succeed
succeed-IsSane now [] t s = s
succeed-IsSane now (k ∷ keys) t s = succeed-IsSane now keys (remove k t) (record {
  is_map = remove-IsMap k t s.is_map;
  at_key = λ j r e. s.at_key j r (ground (arith, lookup-remove k j t));
})

-- An entry that the sweep drops holds no lock, so one lookup more or less makes no difference.
latest_block-sweep :
    (now later : ℕ) (k : Bytes) (t : Throttle) (until : ℕ)
    → IsSane now t
    → now ≤ later
    → latest_block later (lookup k (sweep now t)) until ≡ latest_block later (lookup k t) until
unfolding sweep
latest_block-sweep now later k t until s h = elim (Option-cases (lookup k t)) [
  | inl e ↦ ground (arith, lookup-retain (λ k r. not (is_stale now r)) k t s.is_map)
  | inr (r, e) ↦
      let fits = s.at_key k r e in
      ground (arith, lookup-retain (λ k r. not (is_stale now r)) k t s.is_map)
]

-- The sweep is invisible: in a sane table no login that was blocked becomes free by it, nor the
-- other way round, at the time of the sweep or later.
pub blocked_until-sweep :
    (now later : ℕ) (keys : List Bytes) (t : Throttle)
    → IsSane now t
    → now ≤ later
    → blocked_until later keys (sweep now t) ≡ blocked_until later keys t
unfolding blocked_until
blocked_until-sweep now later keys t s h = onto keys 0
  where
    onto :
        (keys : List Bytes) (until : ℕ)
        → blocked_onto later (sweep now t) keys until ≡ blocked_onto later t keys until
    onto [] until = refl
    onto (k ∷ keys) until = rw (latest_block-sweep now later k t until s h) (onto keys _)

blocked_onto-le :
    (now : ℕ) (keys : List Bytes) (t : Throttle) (until : ℕ)
    → IsSane now t
    → until ≤ now + window
    → blocked_onto now t keys until ≤ now + window
unfolding blocked_onto
blocked_onto-le now [] t until s h = h
blocked_onto-le now (k ∷ keys) t until s h =
    blocked_onto-le now keys t _ s (elim (Option-cases (lookup k t)) [
      | inl e ↦ rw e h
      | inr (r, e) ↦ let fits = s.at_key k r e in rw e (ground arith)
    ])

-- Whatever failures are recorded next in a sane table, at that time no key is locked for longer
-- than the window.
pub blocked_until-fail-le :
    (now : ℕ) (keys asked : List Bytes) (t : Throttle)
    → IsSane now t
    → blocked_until now asked (fail now keys t) ≤ now + window
unfolding blocked_until
blocked_until-fail-le now keys asked t s =
    blocked_onto-le now asked _ 0 (fail-IsSane now keys t s) (omega arith)
