-- ===== src/Store/Tokens.antt =====
-- The table of tokens: one record for a name, one for a token.
use goddns.Base.{
  ℕ, ◌+◌, ◌<◌, Bool, true, false, ◌||◌, List, [], ◌∷◌, ◌++◌, ◌≡◌, refl, ◌∙◌, arith, ◌==◌,
  if◌then◌else◌, filter, any, All,
}
use goddns.Base.Strings.{Bytes, str_eq, str_eq_iff}
use goddns.Store.{Record, Db, named, hashed, update_where}

abbrev pub has_id : ℕ → Record → Bool
has_id i r = r.id == i

-- No record of `rows` shares its name, its hash or its id with `r`.
pub record IsApart (r : Record) (rows : List Record) : Type 0 where
  pub name_free : any (named r.fqdn) rows ≡ false
  pub hash_free : any (hashed r.token_hash) rows ≡ false
  pub id_free : any (has_id r.id) rows ≡ false

abbrev pub IsUnique : List Record → Type 0
IsUnique [] = Unit
IsUnique (r ∷ rows) = IsApart r rows × IsUnique rows

abbrev pub Below : ℕ → List Record → Type 0
Below n rows = All (λ r. r.id < n) rows

pub record IsValid (db : Db) : Type 0 where
  pub unique : IsUnique db.rows
  pub below : Below db.next_id db.rows

-- What an update keeps of a record: all that identifies it.
pub record SameIdentity (r s : Record) : Type 0 where
  pub fqdn_same : r.fqdn ≡ s.fqdn
  pub hash_same : r.token_hash ≡ s.token_hash
  pub id_same : r.id ≡ s.id

module _ (p : Record → Bool) (f : Record → Record) where
  pub any-update :
      (q : Record → Bool) (rows : List Record)
      → ((r : Record) → q (f r) ≡ q r)
      → any q (update_where p f rows) ≡ any q rows
  unfolding update_where
  any-update q [] h = refl
  any-update q (r ∷ rows) h = ground (arith, h r, any-update q rows h)

  module _ (same : (r : Record) → SameIdentity (f r) r) where
    pub update_where-IsUnique :
        (rows : List Record) → IsUnique rows → IsUnique (update_where p f rows)
    unfolding update_where
    update_where-IsUnique [] u = tt
    update_where-IsUnique (r ∷ rows) u = (apart (p r), update_where-IsUnique rows u.1)
      where
        apart : (b : Bool) → IsApart (if b then f r else r) (update_where p f rows)
        apart b = record {
          name_free =
              any-update (named (if b then f r else r).fqdn) rows (λ s. rw ((same s).fqdn_same))
              ∙ ground (arith, (same r).fqdn_same, u.0.name_free);
          hash_free =
              any-update (hashed (if b then f r else r).token_hash) rows
                (λ s. rw ((same s).hash_same))
              ∙ ground (arith, (same r).hash_same, u.0.hash_free);
          id_free =
              any-update (has_id (if b then f r else r).id) rows (λ s. rw ((same s).id_same))
              ∙ ground (arith, (same r).id_same, u.0.id_free);
        }

    pub update_where-Below :
        (n : ℕ) (rows : List Record) → Below n rows → Below n (update_where p f rows)
    unfolding update_where
    update_where-Below n [] b = tt
    update_where-Below n (r ∷ rows) b =
        (ground (arith, (same r).id_same), update_where-Below n rows b.1)

any-append :
    (q : Record → Bool) (rows : List Record) (r : Record)
    → any q (rows ++ (r ∷ [])) ≡ (any q rows || q r)
any-append q [] r = ground arith
any-append q (s ∷ rows) r = ground (arith, any-append q rows r)

pub append-IsUnique :
    (rows : List Record) (r : Record) → IsUnique rows → IsApart r rows → IsUnique (rows ++ (r ∷ []))
append-IsUnique [] r u a = (record { name_free = refl; hash_free = refl; id_free = refl }, tt)
append-IsUnique (s ∷ rows) r u a = (
  record {
    name_free = ground (
      arith,
      any-append (named s.fqdn) rows r,
      u.0.name_free,
      a.name_free,
      str_eq_iff r.fqdn s.fqdn,
      str_eq_iff s.fqdn r.fqdn,
    );
    hash_free = ground (
      arith,
      any-append (hashed s.token_hash) rows r,
      u.0.hash_free,
      a.hash_free,
      str_eq_iff r.token_hash s.token_hash,
      str_eq_iff s.token_hash r.token_hash,
    );
    id_free = ground (arith, any-append (has_id s.id) rows r, u.0.id_free, a.id_free);
  },
  append-IsUnique rows r u.1 (record {
    name_free = ground (arith, a.name_free);
    hash_free = ground (arith, a.hash_free);
    id_free = ground (arith, a.id_free);
  }),
)

pub Below-append :
    (n : ℕ) (rows : List Record) (r : Record)
    → Below n rows
    → r.id < n + 1
    → Below (n + 1) (rows ++ (r ∷ []))
Below-append n [] r b h = (h, tt)
Below-append n (s ∷ rows) r b h = (omega (arith, b.0), Below-append n rows r b.1 h)

pub Below-id_free : (n : ℕ) (rows : List Record) → Below n rows → any (has_id n) rows ≡ false
Below-id_free n [] b = refl
Below-id_free n (r ∷ rows) b = ground (arith, b.0, Below-id_free n rows b.1)

any-filter :
    (q keep : Record → Bool) (rows : List Record)
    → any q rows ≡ false
    → any q (filter keep rows) ≡ false
any-filter q keep [] h = refl
any-filter q keep (r ∷ rows) h = ground (arith, any-filter q keep rows)

pub filter-IsUnique :
    (keep : Record → Bool) (rows : List Record) → IsUnique rows → IsUnique (filter keep rows)
filter-IsUnique keep [] u = tt
filter-IsUnique keep (r ∷ rows) u = step (keep r) (filter-IsUnique keep rows u.1)
  where
    apart : IsApart r (filter keep rows)
    apart = record {
      name_free = any-filter _ keep rows u.0.name_free;
      hash_free = any-filter _ keep rows u.0.hash_free;
      id_free = any-filter _ keep rows u.0.id_free;
    }

    step :
        (b : Bool)
        → IsUnique (filter keep rows)
        → IsUnique (if b then r ∷ filter keep rows else filter keep rows)
    step true rest = (apart, rest)
    step false rest = rest

pub Below-filter :
    (keep : Record → Bool) (n : ℕ) (rows : List Record) → Below n rows → Below n (filter keep rows)
Below-filter keep n [] b = tt
Below-filter keep n (r ∷ rows) b = ground (arith, b.0, Below-filter keep n rows b.1)

-- A new token for a name.
abbrev pub set_hash : Bytes → Record → Record
set_hash h r = record r { token_hash = h }

pub update_where_none :
    (f : Bytes) (g : Record → Record) (rows : List Record)
    → any (named f) rows ≡ false
    → update_where (named f) g rows ≡ rows
unfolding update_where
update_where_none f g [] h = refl
update_where_none f g (r ∷ rows) h = ground (arith, update_where_none f g rows)

pub any-hashed-update :
    (x f h : Bytes) (rows : List Record)
    → any (hashed x) rows ≡ false
    → str_eq h x ≡ false
    → any (hashed x) (update_where (named f) (set_hash h) rows) ≡ false
unfolding update_where
any-hashed-update x f h [] e ne = refl
any-hashed-update x f h (r ∷ rows) e ne = ground (arith, any-hashed-update x f h rows)
