-- ===== src/Tls/Gate.antt =====
-- What a handshake asks of ACME, and when it is served.
use goddns.Base.{true, [], Option, some, ◌≡◌, all}
use goddns.Base.Strings.{Bytes}
use goddns.Base.Result.{ok}
use goddns.Tls.{Hybrid, Served, allowed}

abbrev IsFair : Hybrid → Served → Type 0
IsFair h s =
    (all (allowed h) s.asked ≡ true)
    × ((c : Option Bytes) × (s.answer ≡ ok c))
    × (s.state.allow ≡ h.allow)

-- Once the disk has been looked at for a matching certificate.
abbrev IsGated : Hybrid → Option Bytes → Served → Type 0
IsGated h m s =
    (all (allowed h) s.asked ≡ true)
    × ((c : Option Bytes) × (s.answer ≡ ok c))
    × ((c : Bytes) → m ≡ some c → (s.answer ≡ ok (some c)) × (s.asked ≡ []))
    × (s.state.allow ≡ h.allow)
