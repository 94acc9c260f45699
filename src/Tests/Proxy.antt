-- ===== src/Tests/Proxy.antt =====
-- Runs of internal/proxy/limiter.go.
use goddns.Base.{◌+◌, ◌-◌, ◌*◌, ◌≤◌, [], ◌∷◌, ◌≡◌, refl, arith}
use goddns.Base.Strings.{Bytes, bytes, str_eq}
use goddns.Base.Dict.{lookup, insert}
use goddns.Net.{to4}
use goddns.Proxy.Limiter.{
  Limiter, one_token, new_limiter, bucket_key, earned, refill, sweep_due, sweep_idle, allow_key,
}
use goddns.Proxy.Limiter.Level.{IsSane, new_limiter-IsSane}
use goddns.Proxy.Limiter.Bound.{Requests, end_of, passed, passed-le}

abbrev client : Bytes
client = bytes "c"

abbrev other : Bytes
other = bytes "d"

abbrev fresh : Limiter
fresh = new_limiter 0 1

abbrev four_requests : Requests
four_requests = (1, client) ∷ (1, client) ∷ (2, other) ∷ (3, client) ∷ []

-- At one token a second two requests pass, and the third does not.
two_pass : passed client four_requests fresh ≡ 2
unfolding passed allow_key refill sweep_idle sweep_due earned new_limiter insert lookup str_eq
two_pass = refl

-- A client's IPv4 address and the same address in its 16-octet form share a bucket.
same_bucket :
    bucket_key (10 ∷ 0 ∷ 0 ∷ 1 ∷ [])
    ≡ bucket_key (0 ∷ 0 ∷ 0 ∷ 0 ∷ 0 ∷ 0 ∷ 0 ∷ 0 ∷ 0 ∷ 0 ∷ 255 ∷ 255 ∷ 10 ∷ 0 ∷ 0 ∷ 1 ∷ [])
unfolding bucket_key to4 str_eq
same_bucket = refl

fresh-IsSane : IsSane 0 fresh
fresh-IsSane = new_limiter-IsSane 0 1

passed-le_example :
    passed client four_requests fresh * one_token
    ≤ fresh.rate * 2 * one_token + (end_of 0 four_requests - 0) * fresh.rate
passed-le_example =
    passed-le client 0 four_requests fresh fresh-IsSane
      (omega arith, (omega arith, (omega arith, (omega arith, tt))))
