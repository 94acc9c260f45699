-- ===== src/Serve/Traffic.antt =====
-- `runTrafficFlusher` of cmd/goddns/serve.go: the proxy's counters are persisted by their growth.
use goddns.Base.{
  ℕ, ◌+◌, ◌-◌, ◌≤◌, Bool, ◌&&◌, List, [], ◌∷◌, Option, none, some, ◌==◌, ◌≡◌, arith, if◌then◌else◌,
}
use goddns.Base.Strings.{Bytes, str_eq, str_eq_iff}
use goddns.Base.Dict
use goddns.Base.Dict.{Dict, insert, lookup-insert}

-- `snap`: the counters of a host when they were last persisted.
pub record Snap : Type 0 where
  pub req : ℕ
  pub in_bytes : ℕ
  pub out_bytes : ℕ

-- `proxy.HostStat`, as far as it is persisted.
pub record HostStat : Type 0 where
  pub host : Bytes
  pub totals : Snap

-- A call of `AddTraffic` that the store took.
pub record Row : Type 0 where
  pub host : Bytes
  pub day : Bytes
  pub added : Snap

pub record Flusher : Type 0 where
  pub last : Dict Snap
  pub rows : List Row

abbrev zero_snap : Snap
zero_snap = record { req = 0; in_bytes = 0; out_bytes = 0 }

abbrev or_zero : Option Snap → Snap
or_zero none = zero_snap
or_zero (some s) = s

-- `last[s.Host]`.
unfoldable pub last_of : Bytes → Dict Snap → Snap
last_of h m = or_zero (Dict.lookup h m)

-- A negative growth counts as none.
abbrev pub growth : Snap → Snap → Snap
growth now prev = record {
  req = now.req - prev.req;
  in_bytes = now.in_bytes - prev.in_bytes;
  out_bytes = now.out_bytes - prev.out_bytes;
}

abbrev pub is_still : Snap → Bool
is_still d = d.req == 0 && d.in_bytes == 0 && d.out_bytes == 0

-- The body of the loop of `flush`; `fails` says for which hosts the store refuses the row.
unfoldable pub flush_one : Bytes → (Bytes → Bool) → HostStat → Flusher → Flusher
flush_one day fails s f =
    let d = growth s.totals (last_of s.host f.last) in
    if is_still d
    then record f { last = insert s.host s.totals f.last }
    else if fails s.host
    then f
    else record {
      last = insert s.host s.totals f.last;
      rows = record { host = s.host; day = day; added = d } ∷ f.rows;
    }

unfoldable pub flush : Bytes → (Bytes → Bool) → List HostStat → Flusher → Flusher
flush day fails [] f = f
flush day fails (s ∷ ss) f = flush day fails ss (flush_one day fails s f)

abbrev plus : Snap → Snap → Snap
plus a b = record {
  req = a.req + b.req;
  in_bytes = a.in_bytes + b.in_bytes;
  out_bytes = a.out_bytes + b.out_bytes;
}

-- All that the store has of a host.
unfoldable pub stored : Bytes → List Row → Snap
stored h [] = zero_snap
stored h (r ∷ rows) =
    let rest = stored h rows in if str_eq r.host h then plus r.added rest else rest

-- What is stored of each host is what it had when it was last persisted.
abbrev pub IsBalanced : Flusher → Type 0
IsBalanced f = (h : Bytes) → stored h f.rows ≡ last_of h f.last

abbrev Le : Snap → Snap → Type 0
Le a b = (a.req ≤ b.req) × (a.in_bytes ≤ b.in_bytes) × (a.out_bytes ≤ b.out_bytes)

-- No counter has fallen since it was last persisted.
abbrev pub Grow : Bytes → (Bytes → Bool) → List HostStat → Flusher → Type 0
Grow day fails [] f = Unit {0}
Grow day fails (s ∷ ss) f =
    Le (last_of s.host f.last) s.totals × Grow day fails ss (flush_one day fails s f)

last_of-insert :
    (k h : Bytes) (s : Snap) (m : Dict Snap)
    → last_of h (insert k s m) ≡ (if str_eq k h then s else last_of h m)
unfolding last_of
last_of-insert k h s m = ground (arith, lookup-insert k h s m)

flush_one-IsBalanced :
    (day : Bytes) (fails : Bytes → Bool) (s : HostStat) (f : Flusher)
    → Le (last_of s.host f.last) s.totals
    → IsBalanced f
    → IsBalanced (flush_one day fails s f)
unfolding flush_one stored
flush_one-IsBalanced day fails s f le b h =
    ground (arith, b h, b s.host, last_of-insert s.host h s.totals f.last, str_eq_iff s.host h)

-- Whatever rows the store refuses, a flush of counters that have not fallen keeps the balance: no
-- traffic is persisted twice, and none is lost that a later flush does not make up for.
pub flush-IsBalanced :
    (day : Bytes) (fails : Bytes → Bool) (ss : List HostStat) (f : Flusher)
    → Grow day fails ss f
    → IsBalanced f
    → IsBalanced (flush day fails ss f)
unfolding flush
flush-IsBalanced day fails [] f g b = b
flush-IsBalanced day fails (s ∷ ss) f g b =
    flush-IsBalanced day fails ss (flush_one day fails s f) g.1
      (flush_one-IsBalanced day fails s f g.0 b)
