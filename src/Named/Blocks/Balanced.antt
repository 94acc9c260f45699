-- ===== src/Named/Blocks/Balanced.antt =====
-- What the block scanner of internal/named/parse.go returns.
use goddns.Base.{ℕ, [], ◌∷◌, Option, none, some, ◌≡◌}
use goddns.Base.Strings.{Bytes}
use goddns.Named.Blocks.{Mode, outside, next_state}

abbrev then_state : (Mode → ℕ → Option (Mode × ℕ)) → Option (Mode × ℕ) → Option (Mode × ℕ)
then_state f none = none
then_state f (some (m, d)) = f m d

-- Where a text leads, if no brace in it closes the block.
unfoldable pub level : Bytes → Mode → ℕ → Option (Mode × ℕ)
unfolding next_state
level [] m d = some (m, d)
level (c ∷ s) m d = then_state (level s) (next_state m d c)

-- A text without the end of the block in it, whose strings and braces are closed.
abbrev pub IsBody : Bytes → Type 0
IsBody body = level body outside 0 ≡ some (outside, 0)
