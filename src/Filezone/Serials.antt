-- ===== src/Filezone/Serials.antt =====
-- The serial of a raw replacement, `normalizeRawSerial` of internal/filezone/filezone.go.
use goddns.Base.{ℕ, ◌<◌, ◌^◌, ◌-◌, Option, none, some, ◌≡◌, refl, ◌⊎◌, inl, inr, arith}
use goddns.Base.Strings.{Bytes, join}
use goddns.Base.Result.{Result, ok, err}
use goddns.Dns.{DnsLib}
use goddns.Zonefile.Scan.{TokPos}
use goddns.Zonefile.Parse.{File, parse, soa_serial}
use goddns.Zonefile.Edit.{Date, set_serial}
use goddns.Zonefile.Edit.Serial.{serial_floor_lem}
use goddns.Filezone.{current_serial, or_zero, bumped, or_own, normalize_raw_serial}

module _ (dns : DnsLib) (today : Date) (zone cur new : Bytes) where
  abbrev pub floor : ℕ
  floor = or_zero dns (current_serial dns cur zone)

  -- The replacement as `SerialFloor` rewrites it, with the serial `n` on the located token.
  pub record Rewritten (out : Bytes) : Type 0 where
    pub f : File
    pub parsed : parse dns new zone ≡ ok f
    pub st : TokPos
    pub n : ℕ
    pub located : f.serial_tok ≡ some st
    pub out_is : out ≡ join b'\n' (set_serial st n f.lines)
    pub above : floor < n

  abbrev pub Fits : Type 0
  Fits = (f : File) → parse dns new zone ≡ ok f → soa_serial f < 2 ^ 32 - 1

  bumped-Rewritten :
      (r : Result Bytes File) (out : Bytes)
      → parse dns new zone ≡ r
      → floor < 2 ^ 32 - 1
      → Fits
      → bumped dns today floor r ≡ some out
      → Rewritten out
  bumped-Rewritten (err e) out p s fits b = cc
  bumped-Rewritten (ok f) out p s fits b =
      let (st, n, located, out_is, _, above, _) =
        serial_floor_lem today f floor out b (fits f p) s in
      record {
        f = f;
        parsed = p;
        st = st;
        n = n;
        located = located;
        out_is = out_is;
        above = above;
      }

  or_own-inv :
      (o : Option ℕ) (b : Option Bytes) (out : Bytes)
      → or_own dns floor new o b ≡ ok out
      → (b ≡ some out) ⊎ ((out ≡ new) × ((n : ℕ) × (o ≡ some n) × (floor < n)))
  or_own-inv o (some x) out e = inl cc
  or_own-inv none none out e = cc
  or_own-inv (some n) none out e = inr (ground arith, (n, refl, ground arith))

  -- A raw replacement that goes through has a serial above that of the file in place: either the
  -- located token is rewritten to such a serial, or the text goes in as it is and its own serial
  -- is greater; where neither the file's serial nor the replacement's is the greatest uint32.
  pub normalize_raw_serial_lem :
      (out : Bytes)
      → floor < 2 ^ 32 - 1
      → Fits
      → normalize_raw_serial dns today zone cur new ≡ ok out
      → Rewritten out
        ⊎ ((out ≡ new) × ((n : ℕ) × (current_serial dns new zone ≡ some n) × (floor < n)))
  unfolding normalize_raw_serial
  normalize_raw_serial_lem out s fits e =
      elim (or_own-inv (current_serial dns new zone) (bumped dns today floor (parse dns new zone))
        out e) [
          | inl b ↦ inl (bumped-Rewritten (parse dns new zone) out refl s fits b)
          | inr own ↦ inr own
        ]
