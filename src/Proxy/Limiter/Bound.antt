-- ===== src/Proxy/Limiter/Bound.antt =====
-- The limit that a client meets over any run of requests, its own and others'.
use goddns.Base.{
  ℕ, ◌+◌, ◌-◌, ◌*◌, ◌≤◌, ◌<◌, true, ◌&&◌, List, [], ◌∷◌, ◌≡◌, refl, arith, if◌then◌else◌,
}
use goddns.Base.Strings.{Bytes, str_eq, str_eq_iff}
use goddns.Proxy.Limiter.{Limiter, one_token, earned, allow_key}
use goddns.Proxy.Limiter.Level.{
  level, IsSane, earned_split, level_later, level-le-burst, allow_key-level, allow_key_same,
  allow_key-IsSane, level-allow_key,
}

-- Requests, each a time and the key of its client.
abbrev pub Requests : Type 0
Requests = List (ℕ × Bytes)

abbrev pub Ordered : ℕ → Requests → Type 0
Ordered t [] = Unit
Ordered t ((now, k) ∷ rest) = (t ≤ now) × Ordered now rest

abbrev pub end_of : ℕ → Requests → ℕ
end_of t [] = t
end_of t ((now, k) ∷ rest) = end_of now rest

-- How many requests of the client `j` pass.
unfoldable pub passed : Bytes → Requests → Limiter → ℕ
passed j [] l = 0
passed j ((now, k) ∷ rest) l =
    (if (allow_key now k l).0 && str_eq k j then 1 else 0) + passed j rest (allow_key now k l).1

end_of-le : (t : ℕ) (tr : Requests) → Ordered t tr → t ≤ end_of t tr
end_of-le t [] o = omega arith
end_of-le t ((now, k) ∷ rest) o = omega (arith, end_of-le now rest o.1)

passed-le-level :
    (j : Bytes) (t : ℕ) (tr : Requests) (l : Limiter)
    → IsSane t l
    → Ordered t tr
    → passed j tr l * one_token ≤ level t j l + earned l.rate t (end_of t tr)
unfolding passed
passed-le-level j t [] l s o = omega arith
passed-le-level j t ((now, k) ∷ rest) l s o =
    let s' = later s o.0 in
    let ih = passed-le-level j now rest (allow_key now k l).1 (allow_key-IsSane now k l s') o.1 in
    ground (
      arith,
      ih,
      level_later t now j l s o.0,
      level-allow_key now k j l s',
      allow_key-level now k l,
      allow_key_same now k l,
      str_eq_iff k j,
      earned_split l.rate t now (end_of now rest) o.0 (end_of-le now rest o.1),
    )
  where
    later : {now : ℕ} → IsSane t l → t ≤ now → IsSane now l
    later s h = record {
      burst_is = s.burst_is;
      is_map = s.is_map;
      at_key = λ k b e. ((s.at_key k b e).0, omega (arith, (s.at_key k b e).1));
    }

-- From any sane state and in any run of requests, whoever else sends and whatever is swept, a
-- client gets at most its burst of two seconds' worth and what the rate earns over the run.
pub passed-le :
    (j : Bytes) (t : ℕ) (tr : Requests) (l : Limiter)
    → IsSane t l
    → Ordered t tr
    → passed j tr l * one_token ≤ l.rate * 2 * one_token + (end_of t tr - t) * l.rate
passed-le j t tr l s o = omega (
  arith,
  passed-le-level j t tr l s o,
  level-le-burst t j l,
  s.burst_is,
  (let e : earned l.rate t (end_of t tr) ≡ (end_of t tr - t) * l.rate = unfold earned in refl in e),
)

-- In a sane state, a client whose last request was refused, or passed, at `now` passes again once a
-- token has been earned: with any rate of at least one, a second later at the latest.
pub allow_key_again :
    (now later : ℕ) (k : Bytes) (l : Limiter)
    → IsSane now l
    → 0 < l.rate
    → now + 1_000_000_000 ≤ later
    → (allow_key later k (allow_key now k l).1).0 ≡ true
allow_key_again now later k l s r h =
    let s' = allow_key-IsSane now k l s in
    let gained : one_token ≤ earned l.rate now later = unfold earned in grind arith in
    ground (
      arith,
      allow_key-level later k (allow_key now k l).1,
      allow_key_same now k l,
      s'.burst_is,
      level_later now later k (allow_key now k l).1 s',
    )
