-- ===== src/Base/Strings.antt =====
-- Go's `string` as a list of bytes, with the functions of package strings that the program calls.
-- Case mapping and white space are those of ASCII.
use Prim.Native.Char.{code}
use Prim.Native.String.{String}
use Prim.Native.Nat.{ℕ, ◌+◌, ◌-◌}
use mathlib.Core.Path.{◌≡◌, refl}
use mathlib.Core.Logic.{◌↔◌, inl, inr}
use mathlib.Core.Bool.{Bool, true, false, ◌&&◌, ◌||◌}
use mathlib.Core.Option.{Option, none, some}
use mathlib.Core.List.{List, [], ◌∷◌, ◌++◌, map, reverse}
use native.Mathlib.Omega.{arith}
use goddns.Base.Tests.{==_refl, ==_iff, Bool-cases, Option-cases, leb, ◌==◌, if◌then◌else◌}
use goddns.Base.Lists.{is_empty, any, length, take, drop}

abbrev pub Bytes : Type 0
Bytes = List ℕ

-- The bytes of a literal; every literal of the program that is modelled is ASCII.
abbrev pub bytes : String → Bytes
bytes String.[] = []
bytes (String.◌∷◌ c s) = code c ∷ bytes s

-- Go's `==` on strings.
unfoldable pub str_eq : Bytes → Bytes → Bool
str_eq [] [] = true
str_eq (x ∷ a) (y ∷ b) = x == y && str_eq a b
str_eq _ _ = false

pub str_eq_iff : (a b : Bytes) → (str_eq a b ≡ true) ↔ (a ≡ b)
unfolding str_eq
str_eq_iff (x ∷ a) (y ∷ b) = ground (arith, str_eq_iff a b)
str_eq_iff _ _ = ground arith

pub str_eq_refl : (a : Bytes) → str_eq a a ≡ true
str_eq_refl a = (str_eq_iff a a).1 refl

abbrev pub lower : ℕ → ℕ
lower c = if leb b'A' c && leb c b'Z' then c + 32 else c

abbrev pub upper : ℕ → ℕ
upper c = if leb b'a' c && leb c b'z' then c - 32 else c

unfoldable pub to_lower : Bytes → Bytes
to_lower = map lower

unfoldable pub to_upper : Bytes → Bytes
to_upper = map upper

-- `strings.EqualFold`.
unfoldable pub equal_fold : Bytes → Bytes → Bool
unfolding str_eq to_lower
equal_fold a b = str_eq (to_lower a) (to_lower b)

unfoldable pub has_prefix : Bytes → Bytes → Bool
has_prefix s [] = true
has_prefix [] (y ∷ p) = false
has_prefix (x ∷ s) (y ∷ p) = x == y && has_prefix s p

unfoldable pub has_suffix : Bytes → Bytes → Bool
unfolding has_prefix
has_suffix s p = has_prefix (reverse s) (reverse p)

unfoldable pub trim_prefix : Bytes → Bytes → Bytes
unfolding has_prefix
trim_prefix s p = if has_prefix s p then drop (length p) s else s

unfoldable pub trim_suffix : Bytes → Bytes → Bytes
unfolding has_suffix
trim_suffix s p = if has_suffix s p then take (length s - length p) s else s

abbrev pub is_space : ℕ → Bool
is_space c = c == b' ' || leb 9 c && leb c 13

unfoldable pub trim_left : Bytes → Bytes
trim_left [] = []
trim_left (c ∷ s) = let rest = trim_left s in if is_space c then rest else c ∷ s

-- `strings.TrimSpace`.
unfoldable pub trim_space : Bytes → Bytes
unfolding trim_left
trim_space s = reverse (trim_left (reverse (trim_left s)))

-- `strings.Contains`.
unfoldable pub contains : Bytes → Bytes → Bool
unfolding has_prefix
contains [] p = has_prefix [] p
contains (c ∷ s) p = has_prefix (c ∷ s) p || contains s p

-- The first field of a split, the byte going in front of it.
abbrev cons_first : ℕ → List Bytes → List Bytes
cons_first c [] = (c ∷ []) ∷ []
cons_first c (l ∷ ls) = (c ∷ l) ∷ ls

-- `strings.Split` and `strings.Join` at a separator of one byte.
unfoldable pub split : ℕ → Bytes → List Bytes
split sep [] = [] ∷ []
split sep (c ∷ s) = let rest = split sep s in if c == sep then [] ∷ rest else cons_first c rest

unfoldable pub join : ℕ → List Bytes → Bytes
join sep [] = []
join sep (l ∷ []) = l
join sep (l ∷ k ∷ ls) = l ++ (sep ∷ join sep (k ∷ ls))

-- `strings.FieldsFunc` at the bytes of a class: the parts that are not empty.
split_class : (ℕ → Bool) → Bytes → List Bytes
split_class p [] = [] ∷ []
split_class p (c ∷ s) = let rest = split_class p s in if p c then [] ∷ rest else cons_first c rest

non_empty : List Bytes → List Bytes
non_empty [] = []
non_empty (f ∷ fs) = let rest = non_empty fs in if is_empty f then rest else f ∷ rest

unfoldable pub fields_func : (ℕ → Bool) → Bytes → List Bytes
unfolding split_class non_empty
fields_func p s = non_empty (split_class p s)

-- `strings.Fields`.
unfoldable pub fields : Bytes → List Bytes
unfolding fields_func
fields s = fields_func is_space s

-- `strings.Cut` at a separator of one byte.
abbrev more_first : ℕ → Option (Bytes × Bytes) → Option (Bytes × Bytes)
more_first c none = none
more_first c (some (a, b)) = some (c ∷ a, b)

unfoldable pub cut : ℕ → Bytes → Option (Bytes × Bytes)
cut sep [] = none
cut sep (c ∷ s) = let rest = cut sep s in if c == sep then some ([], s) else more_first c rest

-- A split is never empty, so that a split of one more byte is known by its first field.
split-ne-nil : (sep : ℕ) (s : Bytes) → (l : Bytes) × (ls : List Bytes) × (split sep s ≡ l ∷ ls)
unfolding split
split-ne-nil sep [] = ([], [], refl)
split-ne-nil sep (c ∷ s) = step (c == sep) (split-ne-nil sep s)
  where
    step :
        (b : Bool)
        → ((l : Bytes) × (ls : List Bytes) × (split sep s ≡ l ∷ ls))
        → (l : Bytes) × (ls : List Bytes) × ((if b
              then [] ∷ split sep s
              else cons_first c (split sep s))
            ≡ l ∷ ls)
    step true (l, ls, e) = ([], split sep s, refl)
    step false (l, ls, e) = (c ∷ l, ls, rw e)

join_first :
    (sep c : ℕ) (l : Bytes) (ls : List Bytes) → join sep ((c ∷ l) ∷ ls) ≡ c ∷ join sep (l ∷ ls)
unfolding join
join_first sep c l [] = refl
join_first sep c l (k ∷ ls) = refl

-- Joining what was split gives the text back.
pub join-split : (sep : ℕ) (s : Bytes) → join sep (split sep s) ≡ s
unfolding split
join-split sep [] = unfold join in refl
join-split sep (c ∷ s) =
    let (l, ls, e) = split-ne-nil sep s in
    let ih : join sep (l ∷ ls) ≡ s = rw e at (join-split sep s) in rw e (step l ls ih)
  where
    step :
        (l : Bytes) (ls : List Bytes)
        → join sep (l ∷ ls) ≡ s
        → join sep (if c == sep then [] ∷ l ∷ ls else (c ∷ l) ∷ ls) ≡ c ∷ s
    step l ls ih = ground (arith, ih, join_first sep c l ls, join_nil l ls)
      where
        join_nil : (l : Bytes) (ls : List Bytes) → join sep ([] ∷ l ∷ ls) ≡ sep ∷ join sep (l ∷ ls)
        join_nil l ls = unfold join in refl

-- The first separator of a text is where one stands behind a part without any.
pub cut-append :
    (sep : ℕ) (a b : Bytes) → any (λ c. c == sep) a ≡ false → cut sep (a ++ (sep ∷ b)) ≡ some (a, b)
unfolding cut
cut-append sep [] b h = ground (arith, ==_refl sep)
cut-append sep (c ∷ a) b h = ground (arith, cut-append sep a b)

-- What a cut gives makes up the text.
pub cut-eq-some : (sep : ℕ) (s a b : Bytes) → cut sep s ≡ some (a, b) → s ≡ a ++ (sep ∷ b)
unfolding cut
cut-eq-some sep [] a b h = cc
cut-eq-some sep (c ∷ s) a b h = elim (Bool-cases (c == sep)) [
  | inl e ↦ ground (arith, ==_iff c sep)
  | inr e ↦ elim (Option-cases (cut sep s)) [
    | inl n ↦ ground arith
    | inr (p, q) ↦ ground (arith, cut-eq-some sep s p.0 p.1 q)
  ]
]
