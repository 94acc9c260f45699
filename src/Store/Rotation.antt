-- ===== src/Store/Rotation.antt =====
-- `Rotate`: the new token takes the old one's place, and nothing else changes.
use mathlib.Core.Option
use goddns.Base.{
  ℕ, Bool, false, not, ◌&&◌, List, [], ◌∷◌, some, ◌≡◌, ◌≢◌, refl, ap, ◌∙◌, arith, if◌then◌else◌,
  any, find?, Bool-cases, inl, inr,
}
use goddns.Base.Strings.{Bytes, str_eq_iff}
use goddns.Base.Result.{ok, err}
use goddns.Store.{Record, Db, not_found, fqdn_of, named, hashed, update_where, get, lookup, rotate}
use goddns.Store.Tokens.{
  IsApart, IsUnique, Below, IsValid, has_id, any-update, set_hash, update_where_none,
  any-hashed-update,
}

abbrev enabled : Bytes → Record → Bool
enabled x r = hashed x r && not r.disabled

-- No record but the one named `f` has the hash `h`.
abbrev OnlyAt : Bytes → Bytes → List Record → Type 0
OnlyAt f h rows = any (λ r. hashed h r && not (named f r)) rows ≡ false

only_named :
    (f h : Bytes) (rows : List Record)
    → OnlyAt f h rows
    → any (named f) rows ≡ false
    → any (hashed h) rows ≡ false
only_named f h [] o n = refl
only_named f h (r ∷ rows) o n = ground (arith, only_named f h rows)

module _ (f h : Bytes) where
  abbrev replaced : List Record → List Record
  replaced rows = update_where (named f) (set_hash h) rows

  replaced-IsApart :
      (r : Record) (rows : List Record)
      → IsApart r rows
      → OnlyAt f h (r ∷ rows)
      → IsApart (if named f r then set_hash h r else r) (replaced rows)
  replaced-IsApart r rows a o = elim (Bool-cases (named f r)) [
    | inl here ↦
        let gone : any (named f) rows ≡ false =
          ground (arith, a.name_free, (str_eq_iff r.fqdn f).0 here) in
        rw here (record {
          name_free =
              any-update (named f) (set_hash h) (named r.fqdn) rows (λ s. refl) ∙ a.name_free;
          hash_free =
              ap (any (hashed h)) (update_where_none f (set_hash h) rows gone)
              ∙ only_named f h rows (ground arith) gone;
          id_free = any-update (named f) (set_hash h) (has_id r.id) rows (λ s. refl) ∙ a.id_free;
        })
    | inr away ↦ rw away (record {
      name_free = any-update (named f) (set_hash h) (named r.fqdn) rows (λ s. refl) ∙ a.name_free;
      hash_free =
          any-hashed-update r.token_hash f h rows a.hash_free
            (ground (arith, str_eq_iff h r.token_hash, str_eq_iff r.token_hash h));
      id_free = any-update (named f) (set_hash h) (has_id r.id) rows (λ s. refl) ∙ a.id_free;
    })
  ]

  replaced-IsUnique :
      (rows : List Record) → IsUnique rows → OnlyAt f h rows → IsUnique (replaced rows)
  unfolding update_where
  replaced-IsUnique [] u o = tt
  replaced-IsUnique (r ∷ rows) u o =
      (replaced-IsApart r rows u.0 o, replaced-IsUnique rows u.1 (ground arith))

  replaced-Below : (n : ℕ) (rows : List Record) → Below n rows → Below n (replaced rows)
  unfolding update_where
  replaced-Below n [] b = tt
  replaced-Below n (r ∷ rows) b = (ground arith, replaced-Below n rows b.1)

-- What a rotation with a fresh token has done, when it returns the record `r`.
pub record Rotated (hash_token : Bytes → Bytes) (tok name : Bytes) (db : Db) (r : Record) (db' : Db)
    : Type 0 where
  pub old : Record
  pub was : get name db ≡ ok old
  pub kept : r ≡ set_hash (hash_token tok) old
  pub found : get name db' ≡ ok r
  pub new_works : old.disabled ≡ false → lookup hash_token tok db' ≡ ok r
  pub old_fails :
      (t : Bytes)
      → hash_token t ≡ old.token_hash
      → hash_token tok ≢ hash_token t
      → lookup hash_token t db' ≡ err not_found
  pub others :
      (t : Bytes)
      → old.token_hash ≢ hash_token t
      → hash_token tok ≢ hash_token t
      → lookup hash_token t db' ≡ lookup hash_token t db

module _ (hash_token : Bytes → Bytes) (tok name : Bytes) (db : Db) where
  rotate-inv :
      {r : Record} {db' : Db}
      → rotate hash_token tok name db ≡ ok (r, db')
      → OnlyAt (fqdn_of name) (hash_token tok) db.rows
        × (find? (named (fqdn_of name)) (replaced (fqdn_of name) (hash_token tok) db.rows) ≡ some r)
        × (db' ≡ record db { rows = replaced (fqdn_of name) (hash_token tok) db.rows })
  unfolding rotate
  rotate-inv e = ground arith

  -- A rotation that succeeds keeps the table valid.
  pub rotate-IsValid :
      {r : Record} {db' : Db}
      → IsValid db
      → rotate hash_token tok name db ≡ ok (r, db')
      → IsValid db'
  rotate-IsValid v e =
      let (only, found, is) = rotate-inv e in
      rw is (record {
        unique = replaced-IsUnique (fqdn_of name) (hash_token tok) db.rows v.unique only;
        below = replaced-Below (fqdn_of name) (hash_token tok) db.next_id db.rows v.below;
      })
