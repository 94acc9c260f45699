-- ===== src/Serve/Consoles.antt =====
-- `consoleManager.sync` of cmd/goddns/serve.go: the listeners of the console ports.
use goddns.Base.{
  ℕ, Bool, true, List, [], ◌∷◌, Option, none, some, ◌==◌, ◌≡◌, refl, ap, arith, if◌then◌else◌, any,
  ==_iff,
}

-- A port with its listener.
abbrev pub Listeners : Type 0
Listeners = List (ℕ × ℕ)

unfoldable pub listener_at : ℕ → Listeners → Option ℕ
listener_at p [] = none
listener_at p ((q, l) ∷ active) = if q == p then some l else listener_at p active

abbrev pub wants : List ℕ → ℕ → Bool
wants ports p = any (λ q. q == p) ports

-- The listeners that stay, and those that are closed.
unfoldable pub kept : List ℕ → Listeners → Listeners
kept ports [] = []
kept ports ((p, l) ∷ active) =
    let rest = kept ports active in if wants ports p then (p, l) ∷ rest else rest

unfoldable pub closed : List ℕ → Listeners → List ℕ
closed ports [] = []
closed ports ((p, l) ∷ active) =
    let rest = closed ports active in if wants ports p then rest else l ∷ rest

-- The second loop, at one port: `open` gives a listener, or fails.
abbrev pub opened : ℕ → Option ℕ → Option ℕ → Listeners → Listeners
opened p (some l) o active = active
opened p none none active = active
opened p none (some l) active = (p, l) ∷ active

unfoldable pub open_ports : (ℕ → Option ℕ) → List ℕ → Listeners → Listeners
unfolding listener_at
open_ports open_at [] active = active
open_ports open_at (p ∷ ports) active =
    open_ports open_at ports (opened p (listener_at p active) (open_at p) active)

-- `sync`.
unfoldable pub sync : (ℕ → Option ℕ) → List ℕ → Listeners → Listeners
unfolding open_ports kept
sync open_at ports active = open_ports open_at ports (kept ports active)

abbrev pub or_open : Option ℕ → Option ℕ → Option ℕ
or_open none o = o
or_open (some l) o = some l

wants-eq : (ports : List ℕ) (q p : ℕ) → (q == p) ≡ true → wants ports q ≡ wants ports p
wants-eq ports q p e = ap (wants ports) ((==_iff q p).0 e)

listener_at-kept :
    (ports : List ℕ) (p : ℕ) (active : Listeners)
    → listener_at p (kept ports active) ≡ (if wants ports p then listener_at p active else none)
unfolding listener_at kept
listener_at-kept ports p [] = ground arith
listener_at-kept ports p ((q, l) ∷ active) =
    ground (arith, listener_at-kept ports p active, ==_iff q p, wants-eq ports q p)

listener_at-opened :
    (p q : ℕ) (o : Option ℕ) (active : Listeners)
    → listener_at p (opened q (listener_at q active) o active)
      ≡ (if q == p then or_open (listener_at p active) o else listener_at p active)
unfolding listener_at
listener_at-opened p q o active = ground (arith, ==_iff q p)

listener_at-open_ports :
    (open_at : ℕ → Option ℕ) (ports : List ℕ) (p : ℕ) (active : Listeners)
    → listener_at p (open_ports open_at ports active)
      ≡ (if wants ports p then or_open (listener_at p active) (open_at p) else listener_at p active)
unfolding open_ports
listener_at-open_ports open_at [] p active = refl
listener_at-open_ports open_at (q ∷ ports) p active = ground (
  arith,
  listener_at-open_ports open_at ports p (opened q (listener_at q active) (open_at q) active),
  listener_at-opened p q (open_at q) active,
  ==_iff q p,
)

-- After `sync` a port has a listener exactly when it is wanted and was open already, and then it
-- is the listener of before, or could be opened. No listener of a port that is not wanted stays.
pub listener_at-sync :
    (open_at : ℕ → Option ℕ) (ports : List ℕ) (p : ℕ) (active : Listeners)
    → listener_at p (sync open_at ports active)
      ≡ (if wants ports p then or_open (listener_at p active) (open_at p) else none)
unfolding sync
listener_at-sync open_at ports p active = ground (
  arith,
  listener_at-open_ports open_at ports p (kept ports active),
  listener_at-kept ports p active,
)
