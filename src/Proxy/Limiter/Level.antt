-- ===== src/Proxy/Limiter/Level.antt =====
-- The level of a client's bucket: what it holds at a time, whether or not the limiter still
-- remembers the client. Every request reads and lowers its own level only.
use goddns.Base.{
  ℕ, ◌+◌, ◌-◌, ◌*◌, ◌≤◌, ◌<◌, Bool, true, false, ◌&&◌, some, ◌≡◌, refl, arith, leb, if◌then◌else◌,
  Option-cases, Bool-cases, inl, inr,
}
use goddns.Base.Strings.{Bytes, str_eq, str_eq_iff}
use goddns.Base.Dict.{
  lookup, insert, IsMap, insert-IsMap, retain-IsMap, lookup-insert, lookup-retain,
}
use goddns.Proxy.Limiter.{
  Bucket, Limiter, one_token, minute, new_limiter, earned, or_full, capped, refill, idle_limit,
  sweep_due, still_used, sweep_idle, allow_key,
}

-- What the bucket of `k` holds at `now`: full, for a client that the limiter does not remember.
unfoldable pub level : ℕ → Bytes → Limiter → ℕ
level now k l = (refill now l (or_full now l (lookup k l.buckets))).tokens

-- The capacity is two seconds' worth, and no request lies in the future.
pub record IsSane (now : ℕ) (l : Limiter) : Type 0 where
  pub burst_is : l.burst ≡ l.rate * 2 * one_token
  pub is_map : IsMap l.buckets
  pub at_key :
      (k : Bytes) (b : Bucket) → lookup k l.buckets ≡ some b → (b.tokens ≤ l.burst) × (b.last ≤ now)

earned_self : (rate now : ℕ) → earned rate now now ≡ 0
unfolding earned
earned_self rate now = grind arith

pub earned_split :
    (rate last now later : ℕ)
    → last ≤ now
    → now ≤ later
    → earned rate last later ≡ earned rate last now + earned rate now later
unfolding earned
earned_split rate last now later p q =
    let e : later - last ≡ (now - last) + (later - now) = omega arith in
    rw e (distrib (now - last) (later - now))
  where
    distrib : (a b : ℕ) → (a + b) * rate ≡ a * rate + b * rate
    distrib a b = omega arith

-- A minute of rest fills any bucket.
earned-minute :
    (rate last now : ℕ) → minute < now - last → rate * 2 * one_token ≤ earned rate last now
unfolding earned
earned-minute rate last now h = grind arith

pub level-le-burst : (now : ℕ) (k : Bytes) (l : Limiter) → level now k l ≤ l.burst
unfolding level refill
level-le-burst now k l = ground arith

pub new_limiter-IsSane : (now rate : ℕ) → IsSane now (new_limiter now rate)
unfolding new_limiter lookup
new_limiter-IsSane now rate = record { burst_is = refl; is_map = tt; at_key = λ k b e. cc }

-- Between requests the level of a sane bucket rises by what is earned, up to the capacity.
pub level_later :
    (now later : ℕ) (k : Bytes) (l : Limiter)
    → IsSane now l
    → now ≤ later
    → level later k l ≡ capped l.burst (level now k l + earned l.rate now later)
unfolding level refill
level_later now later k l s h = elim (Option-cases (lookup k l.buckets)) [
  | inl e ↦ rw e (ground (arith, earned_self l.rate now, earned_self l.rate later))
  | inr (b, e) ↦ rw e (ground (arith, s.at_key k b e, earned_split l.rate b.last now later))
]

-- What the sweep forgets was full again.
level-sweep_idle :
    (now later : ℕ) (k : Bytes) (l : Limiter)
    → IsSane now l
    → now ≤ later
    → level later k (sweep_idle now l) ≡ level later k l
unfolding level refill sweep_idle
level-sweep_idle now later k l s h =
    let kept = lookup-retain (still_used now (idle_limit l)) k l.buckets s.is_map in
    elim (Option-cases (lookup k l.buckets)) [
      | inl e ↦ ground (arith, kept)
      | inr (b, e) ↦ ground (
        arith,
        kept,
        earned_self l.rate later,
        s.at_key k b e,
        s.burst_is,
        earned-minute l.rate b.last now,
        earned_split l.rate b.last now later,
      )
    ]

sweep_idle-IsSane : (now : ℕ) (l : Limiter) → IsSane now l → IsSane now (sweep_idle now l)
unfolding sweep_idle
sweep_idle-IsSane now l s = elim (Bool-cases (sweep_due now l)) [
  | inl due ↦ rw due (record {
    burst_is = s.burst_is;
    is_map = retain-IsMap _ l.buckets s.is_map;
    at_key = λ k b e.
        s.at_key k b
          (ground (arith, lookup-retain (still_used now (idle_limit l)) k l.buckets s.is_map));
  })
  | inr idle ↦ rw idle s
]

put_bucket-IsSane :
    (now : ℕ) (k : Bytes) (b : Bucket) (l : Limiter)
    → b.tokens ≤ l.burst
    → b.last ≤ now
    → IsSane now l
    → IsSane now (record l { buckets = insert k b l.buckets })
put_bucket-IsSane now k b l p q s = record {
  burst_is = s.burst_is;
  is_map = insert-IsMap k b l.buckets s.is_map;
  at_key = λ j c e. ground (arith, lookup-insert k j b l.buckets, s.at_key j c);
}

level-put_bucket :
    (now later : ℕ) (k j : Bytes) (t : ℕ) (l : Limiter)
    → level later j (record l { buckets = insert k (record { tokens = t; last = now }) l.buckets })
      ≡ (if str_eq k j then capped l.burst (t + earned l.rate now later) else level later j l)
unfolding level refill
level-put_bucket now later k j t l =
    ground (arith, lookup-insert k j (record { tokens = t; last = now }) l.buckets)

-- A request passes exactly when its client's level holds a token.
pub allow_key-level :
    (now : ℕ) (k : Bytes) (l : Limiter) → (allow_key now k l).0 ≡ leb one_token (level now k l)
unfolding allow_key level
allow_key-level now k l = ground arith

sweep_idle_same :
    (now : ℕ) (l : Limiter)
    → ((sweep_idle now l).burst ≡ l.burst) × ((sweep_idle now l).rate ≡ l.rate)
unfolding sweep_idle
sweep_idle_same now l = ground arith

-- The limiter behind the sweep, with the client's bucket refilled.
abbrev refilled : ℕ → Bytes → Limiter → Limiter
refilled now k l = record l {
  buckets = insert k (record { tokens = level now k l; last = now }) l.buckets;
}

refilled-IsSane : (now : ℕ) (k : Bytes) (l : Limiter) → IsSane now l → IsSane now (refilled now k l)
refilled-IsSane now k l s = put_bucket-IsSane now k _ l (level-le-burst now k l) (omega arith) s

-- `allow` in terms of the level.
abbrev charge : Bool → ℕ → ℕ → Bytes → Limiter → Limiter
charge true t now k l = record l {
  buckets = insert k (record { tokens = t; last = now }) l.buckets;
}
charge false t now k l = l

allow_key-charge :
    (now : ℕ) (k : Bytes) (l : Limiter)
    → (allow_key now k l).1
      ≡ charge
          (leb one_token (level now k l))
          (level now k l - one_token)
          now
          k
          (sweep_idle now (refilled now k l))
unfolding allow_key level refill
allow_key-charge now k l = ground arith

charge-IsSane :
    (b : Bool) (t now : ℕ) (k : Bytes) (l : Limiter)
    → t ≤ l.burst
    → IsSane now l
    → IsSane now (charge b t now k l)
charge-IsSane true t now k l h s = put_bucket-IsSane now k _ l h (omega arith) s
charge-IsSane false t now k l h s = s

-- Every request keeps the limiter sane: no bucket above the capacity, none from the future.
pub allow_key-IsSane :
    (now : ℕ) (k : Bytes) (l : Limiter) → IsSane now l → IsSane now (allow_key now k l).1
allow_key-IsSane now k l s = rw allow_key-charge (
    charge-IsSane _ _ now k _
      (omega (arith, level-le-burst now k l, (sweep_idle_same now (refilled now k l)).0))
      (sweep_idle-IsSane now _ (refilled-IsSane now k l s)))

level-charge :
    (b : Bool) (t now : ℕ) (k j : Bytes) (l : Limiter)
    → t ≤ l.burst
    → level now j (charge b t now k l) ≡ (if b && str_eq k j then t else level now j l)
level-charge true t now k j l h =
    ground (arith, level-put_bucket now now k j t l, earned_self l.rate now)
level-charge false t now k j l h = refl

-- A request takes one token from its client's level if it passes, and nothing from any other
-- client's, although the same call may sweep buckets.
pub level-allow_key :
    (now : ℕ) (k j : Bytes) (l : Limiter)
    → IsSane now l
    → level now j (allow_key now k l).1
      ≡ (if (allow_key now k l).0 && str_eq k j then level now j l - one_token else level now j l)
level-allow_key now k j l s =
    let swept = sweep_idle now (refilled now k l) in
    let fits : level now k l - one_token ≤ swept.burst =
      omega (arith, level-le-burst now k l, (sweep_idle_same now (refilled now k l)).0) in
    rw (allow_key-charge, allow_key-level)
      (ground (
        arith,
        level-charge (leb one_token (level now k l)) (level now k l - one_token) now k j swept fits,
        level-sweep_idle now now j (refilled now k l) (refilled-IsSane now k l s),
        level-put_bucket now now k j (level now k l) l,
        earned_self l.rate now,
        level-le-burst now k l,
        str_eq_iff k j,
      ))

charge_same :
    (b : Bool) (t now : ℕ) (k : Bytes) (l : Limiter)
    → ((charge b t now k l).rate ≡ l.rate) × ((charge b t now k l).burst ≡ l.burst)
charge_same true t now k l = (refl, refl)
charge_same false t now k l = (refl, refl)

-- Rate and capacity never change.
pub allow_key_same :
    (now : ℕ) (k : Bytes) (l : Limiter)
    → ((allow_key now k l).1.rate ≡ l.rate) × ((allow_key now k l).1.burst ≡ l.burst)
allow_key_same now k l =
    let swept = sweep_idle_same now (refilled now k l) in
    let charged =
      charge_same (leb one_token (level now k l)) (level now k l - one_token) now k
        (sweep_idle now (refilled now k l)) in
    rw allow_key-charge (ground (arith, swept, charged))
