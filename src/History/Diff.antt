-- ===== src/History/Diff.antt =====
-- `Diff` and `DropSOA` of internal/history/history.go.
use goddns.Base.{
  Bool, false, not, ◌&&◌, List, [], ◌∷◌, ◌≡◌, refl, ◌∙◌, arith, if◌then◌else◌, is_empty, any,
  filter, Option, none, some, get_elem?,
}
use goddns.Base.Strings.{Bytes, bytes, str_eq, str_eq_iff, trim_space, split, fields}
use goddns.Base.Sort.{str_lt, sort_by, any-sort_by}

abbrev pub has_line : Bytes → List Bytes → Bool
has_line l ls = any (str_eq l) ls

abbrev is_line : Bytes → Bool
is_line l = not (is_empty (trim_space l))

-- The keys of a map with the lines as its keys.
unfoldable distinct : List Bytes → List Bytes
distinct [] = []
distinct (l ∷ ls) = let rest = distinct ls in if has_line l rest then rest else l ∷ rest

-- `lineSet`.
unfoldable pub line_set : Bytes → List Bytes
unfolding distinct
line_set s = distinct (filter is_line (split 10 s))

unfoldable pub new_lines : List Bytes → List Bytes → List Bytes
new_lines a b = sort_by str_lt (filter (λ l. not (has_line l b)) a)

-- `Diff`: the lines added and removed.
unfoldable pub diff : Bytes → Bytes → List Bytes × List Bytes
unfolding line_set new_lines
diff old new = (new_lines (line_set new) (line_set old), new_lines (line_set old) (line_set new))

abbrev is_text : Option Bytes → Bool
is_text none = false
is_text (some f) = str_eq f (bytes "SOA")

-- A line whose fourth field is SOA.
unfoldable pub is_soa_line : Bytes → Bool
unfolding fields
is_soa_line l = is_text (get_elem? (fields l) 3)

-- `DropSOA`.
unfoldable pub drop_soa : List Bytes → List Bytes
drop_soa ls = filter (λ l. not (is_soa_line l)) ls

-- A text has a line that is not blank.
abbrev pub in_text : Bytes → Bytes → Bool
in_text l s = is_line l && has_line l (split 10 s)

any-filter_eq :
    (l : Bytes) (q : Bytes → Bool) (xs : List Bytes)
    → has_line l (filter q xs) ≡ (q l && has_line l xs)
any-filter_eq l q [] = ground arith
any-filter_eq l q (x ∷ xs) = ground (arith, any-filter_eq l q xs, str_eq_iff l x)

any-distinct : (l : Bytes) (xs : List Bytes) → has_line l (distinct xs) ≡ has_line l xs
unfolding distinct
any-distinct l [] = refl
any-distinct l (x ∷ xs) = ground (arith, any-distinct l xs, str_eq_iff l x)

has_line-line_set : (l s : Bytes) → has_line l (line_set s) ≡ in_text l s
unfolding line_set
has_line-line_set l s =
    any-distinct l (filter is_line (split 10 s)) ∙ any-filter_eq l is_line (split 10 s)

has_line-new_lines :
    (l : Bytes) (a b : List Bytes)
    → has_line l (new_lines a b) ≡ (not (has_line l b) && has_line l a)
unfolding new_lines
has_line-new_lines l a b =
    any-sort_by str_lt (str_eq l) (filter (λ x. not (has_line x b)) a)
    ∙ any-filter_eq l (λ x. not (has_line x b)) a

-- What `diff` says of each line of two texts.
pub record IsDiff (old new : Bytes) (d : List Bytes × List Bytes) : Type 0 where
  pub added : (l : Bytes) → has_line l d.0 ≡ (in_text l new && not (in_text l old))
  pub removed : (l : Bytes) → has_line l d.1 ≡ (in_text l old && not (in_text l new))
  -- What is left when the SOA lines are dropped.
  pub shown :
      (l : Bytes)
      → has_line l (drop_soa d.0) ≡ (not (is_soa_line l) && in_text l new && not (in_text l old))

-- A line is reported as added exactly when it stands in the new text only, as removed exactly when it
-- stands in the old text only, and dropping the SOA lines leaves every other line; blank lines are none.
pub diff-IsDiff : (old new : Bytes) → IsDiff old new (diff old new)
unfolding diff drop_soa
diff-IsDiff old new = record {
  added = λ l. ground (
    arith,
    has_line-new_lines l (line_set new) (line_set old),
    has_line-line_set l new,
    has_line-line_set l old,
  );
  removed = λ l. ground (
    arith,
    has_line-new_lines l (line_set old) (line_set new),
    has_line-line_set l new,
    has_line-line_set l old,
  );
  shown = λ l. ground (
    arith,
    any-filter_eq l (λ x. not (is_soa_line x)) (new_lines (line_set new) (line_set old)),
    has_line-new_lines l (line_set new) (line_set old),
    has_line-line_set l new,
    has_line-line_set l old,
  );
}
