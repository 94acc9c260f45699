-- ===== src/Proxy/Limiter.antt =====
-- `limiter` of internal/proxy/limiter.go. Times are nanoseconds and tokens are counted in
-- billionths, so that a rate in tokens per second is a rate in these units per nanosecond and the
-- arithmetic is exact where the code rounds floats.
pub mod Level
pub mod Bound
use goddns.Base.{
  ℕ, ◌+◌, ◌-◌, ◌*◌, Bool, true, false, not, ◌&&◌, ◌||◌, List, [], ◌∷◌, ◌++◌, Option, none, some,
  ltb, ◌==◌, if◌then◌else◌, length, take, drop, is_empty,
}
use goddns.Base.Strings.{Bytes, bytes, str_eq}
use goddns.Net.{to4}
use goddns.Base.Dict.{Dict, lookup, insert, retain}

pub record Bucket : Type 0 where
  pub tokens : ℕ
  pub last : ℕ

pub record Limiter : Type 0 where
  pub rate : ℕ
  pub burst : ℕ
  pub buckets : Dict Bucket
  pub sweep : ℕ

abbrev pub one_token : ℕ
one_token = 1_000_000_000

abbrev pub second : ℕ
second = 1_000_000_000

abbrev pub minute : ℕ
minute = 60 * second

-- `newLimiter`.
unfoldable pub new_limiter : ℕ → ℕ → Limiter
new_limiter now rate_per_sec = record {
  rate = rate_per_sec;
  burst = rate_per_sec * 2 * one_token;
  buckets = [];
  sweep = now;
}

abbrev masked_or_v4 : Bytes → Option Bytes → Bytes
masked_or_v4 ip (some v4) = v4
masked_or_v4 ip none = take 8 ip ++ (0 ∷ 0 ∷ 0 ∷ 0 ∷ 0 ∷ 0 ∷ 0 ∷ 0 ∷ [])

-- The key is the octets of the masked address, which the code prints.
unfoldable pub bucket_key : Bytes → Bytes
unfolding to4
bucket_key ip = if is_empty ip then bytes "unknown" else masked_or_v4 ip (to4 ip)

-- `now.Sub(b.last).Seconds() * l.rate`; a clock that runs backwards earns nothing.
unfoldable pub earned : ℕ → ℕ → ℕ → ℕ
earned rate last now = (now - last) * rate

abbrev pub or_full : ℕ → Limiter → Option Bucket → Bucket
or_full now l none = record { tokens = l.burst; last = now }
or_full now l (some b) = b

abbrev pub capped : ℕ → ℕ → ℕ
capped burst tokens = if ltb burst tokens then burst else tokens

-- The bucket of a request at `now`, refilled.
unfoldable pub refill : ℕ → Limiter → Bucket → Bucket
refill now l b = record {
  tokens = capped l.burst (b.tokens + earned l.rate b.last now);
  last = now;
}

abbrev crowded : Limiter → Bool
crowded l = ltb 16384 (length l.buckets)

abbrev pub idle_limit : Limiter → ℕ
idle_limit l = if crowded l then minute else 10 * minute

unfoldable pub sweep_due : ℕ → Limiter → Bool
sweep_due now l = ltb minute (now - l.sweep) && (crowded l || ltb (10 * minute) (now - l.sweep))

abbrev pub still_used : ℕ → ℕ → Bytes → Bucket → Bool
still_used now idle k v = not (ltb idle (now - v.last))

-- The periodic sweep of idle buckets.
unfoldable pub sweep_idle : ℕ → Limiter → Limiter
unfolding sweep_due
sweep_idle now l =
    if sweep_due now l
    then record l { buckets = retain (still_used now (idle_limit l)) l.buckets; sweep = now }
    else l

abbrev put_bucket : Bytes → Bucket → Limiter → Limiter
put_bucket k b l = record l { buckets = insert k b l.buckets }

-- `allow`, of the key that `bucketKey` gives the client.
unfoldable pub allow_key : ℕ → Bytes → Limiter → Bool × Limiter
unfolding refill sweep_idle
allow_key now key l =
    let b = refill now l (or_full now l (lookup key l.buckets)) in
    let swept = sweep_idle now (put_bucket key b l) in
    if ltb b.tokens one_token
    then (false, swept)
    else (true, put_bucket key (record b { tokens = b.tokens - one_token }) swept)

unfoldable pub allow : ℕ → Bytes → Limiter → Bool × Limiter
unfolding allow_key bucket_key
allow now ip l = allow_key now (bucket_key ip) l
