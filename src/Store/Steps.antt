-- ===== src/Store/Steps.antt =====
-- The operations of the store as steps of its table, and what `Add` gives.
use goddns.Base.{
  ℕ, ◌+◌, Bool, false, not, ◌&&◌, List, [], ◌∷◌, ◌++◌, none, some, ◌≡◌, ◌≢◌, refl, arith,
  if◌then◌else◌, filter, any, find?,
}
use goddns.Base.Strings.{Bytes, str_eq_iff, str_eq_refl}
use goddns.Base.Result.{ok}
use goddns.Store.{
  Record, Db, empty, fqdn_of, named, hashed, update_where, get, delete, mark_updated, mark_seen,
  lookup, new_record, add, rotate,
}
use goddns.Store.Tokens.{
  IsValid, SameIdentity, update_where-IsUnique, update_where-Below, append-IsUnique, Below-append,
  Below-id_free, filter-IsUnique, Below-filter,
}
use goddns.Store.Rotation.{rotate-IsValid}

module _ (hash_token : Bytes → Bytes) where
  -- One call of the store that succeeds.
  pub data Step (db : Db) : Db → Type 0 where
    added :
        (tok name zone : Bytes) (ttl : ℕ) (r : Record) {db' : Db}
        → add hash_token tok name zone ttl db ≡ ok (r, db')
        → Step db db'
    rotated :
        (tok name : Bytes) (r : Record) {db' : Db}
        → rotate hash_token tok name db ≡ ok (r, db')
        → Step db db'
    deleted : (name : Bytes) {db' : Db} → delete name db ≡ ok db' → Step db db'
    updated : (now id : ℕ) (ip : Bytes) {db' : Db} → db' ≡ mark_updated now id ip db → Step db db'
    seen : (now id : ℕ) {db' : Db} → db' ≡ mark_seen now id db → Step db db'

  pub data Reach (db : Db) : Db → Type 0 where
    here : Reach db db
    next : {mid db' : Db} → Reach db mid → Step mid db' → Reach db db'

  module _ (tok name zone : Bytes) (ttl : ℕ) (db : Db) where
    abbrev added_record : Record
    added_record = new_record hash_token tok name zone ttl db.next_id

    add-inv :
        {r : Record} {db' : Db}
        → add hash_token tok name zone ttl db ≡ ok (r, db')
        → (any (named (fqdn_of name)) db.rows ≡ false)
          × (any (hashed (hash_token tok)) db.rows ≡ false)
          × (r ≡ added_record)
          × (db' ≡ record { rows = db.rows ++ (added_record ∷ []); next_id = db.next_id + 1 })
    unfolding add
    add-inv e = ground arith

    add-IsValid :
        {r : Record} {db' : Db}
        → IsValid db
        → add hash_token tok name zone ttl db ≡ ok (r, db')
        → IsValid db'
    add-IsValid v e =
        let (name_free, hash_free, _, is) = add-inv e in
        rw is (record {
          unique = append-IsUnique db.rows added_record v.unique (record {
            name_free = name_free;
            hash_free = hash_free;
            id_free = Below-id_free db.next_id db.rows v.below;
          });
          below = Below-append db.next_id db.rows added_record v.below (omega arith);
        })

    find?-append :
        (p : Record → Bool) (rows : List Record) (r : Record)
        → find? p (rows ++ (r ∷ []))
          ≡ elim (find? p rows) [ none ↦ if p r then some r else none | some s ↦ some s ]
    find?-append p [] r = ground arith
    find?-append p (s ∷ rows) r = ground (arith, find?-append p rows r)

    find?-none_of_any :
        (p : Record → Bool) (rows : List Record) → any p rows ≡ false → find? p rows ≡ none
    find?-none_of_any p [] h = refl
    find?-none_of_any p (s ∷ rows) h = ground (arith, find?-none_of_any p rows)

    any-and :
        (p q : Record → Bool) (rows : List Record)
        → any p rows ≡ false
        → any (λ r. p r && q r) rows ≡ false
    any-and p q [] h = refl
    any-and p q (s ∷ rows) h = ground (arith, any-and p q rows)

    -- A binding that `Add` returns is enabled, is found by its token and by its name, and changes
    -- no other token's lookup.
    pub add_lem :
        {r : Record} {db' : Db}
        → add hash_token tok name zone ttl db ≡ ok (r, db')
        → (lookup hash_token tok db' ≡ ok r)
          × (get name db' ≡ ok r)
          × (r.fqdn ≡ fqdn_of name)
          × ((t : Bytes)
              → hash_token tok ≢ hash_token t
              → lookup hash_token t db' ≡ lookup hash_token t db)
    unfolding lookup get
    add_lem e =
        let (name_free, hash_free, r_is, is) = add-inv e in
        (
          ground (
            arith,
            find?-append (λ r. hashed (hash_token tok) r && not r.disabled) db.rows added_record,
            find?-none_of_any (λ r. hashed (hash_token tok) r && not r.disabled) db.rows
                (any-and (hashed (hash_token tok)) (λ r. not r.disabled) db.rows hash_free),
            str_eq_refl (hash_token tok),
          ),
          ground (
            arith,
            find?-append (named (fqdn_of name)) db.rows added_record,
            find?-none_of_any (named (fqdn_of name)) db.rows name_free,
            str_eq_refl (fqdn_of name),
          ),
          ground arith,
          λ t ne. ground (
            arith,
            find?-append (λ r. hashed (hash_token t) r && not r.disabled) db.rows added_record,
            str_eq_iff (hash_token tok) (hash_token t),
          ),
        )

  delete-IsValid :
      (name : Bytes) (db : Db) {db' : Db} → IsValid db → delete name db ≡ ok db' → IsValid db'
  unfolding delete
  delete-IsValid name db v e =
      let keep = λ (r : Record). not (named (fqdn_of name) r) in
      let is = deleted_is e in
      rw is (record {
        unique = filter-IsUnique keep db.rows v.unique;
        below = Below-filter keep db.next_id db.rows v.below;
      })
    where
      deleted_is :
          {db' : Db}
          → delete name db ≡ ok db'
          → db' ≡ record db { rows = filter (λ r. not (named (fqdn_of name) r)) db.rows }
      deleted_is e = ground arith

  update-IsValid :
      (p : Record → Bool) (f : Record → Record) (db : Db)
      → ((r : Record) → SameIdentity (f r) r)
      → IsValid db
      → IsValid (record db { rows = update_where p f db.rows })
  update-IsValid p f db same v = record {
    unique = update_where-IsUnique p f same db.rows v.unique;
    below = update_where-Below p f same db.next_id db.rows v.below;
  }

  pub Step-IsValid : {db db' : Db} → Step db db' → IsValid db → IsValid db'
  unfolding mark_updated mark_seen
  Step-IsValid {db} (added tok name zone ttl r e) v = add-IsValid tok name zone ttl db v e
  Step-IsValid {db} (rotated tok name r e) v = rotate-IsValid hash_token tok name db v e
  Step-IsValid {db} (deleted name e) v = delete-IsValid name db v e
  Step-IsValid {db} (updated now id ip is) v =
      rw is (
        update-IsValid _ _ db (λ r. record { fqdn_same = refl; hash_same = refl; id_same = refl })
          v)
  Step-IsValid {db} (seen now id is) v =
      rw is (
        update-IsValid _ _ db (λ r. record { fqdn_same = refl; hash_same = refl; id_same = refl })
          v)

  -- Whatever calls the store has served since it was empty, no two records share a name, a token
  -- hash or an id, and the next id is new.
  pub Reach-IsValid : {db : Db} → Reach empty db → IsValid db
  Reach-IsValid here = record { unique = tt; below = tt }
  Reach-IsValid (next r s) = Step-IsValid s (Reach-IsValid r)
