-- ===== src/Store.antt =====
-- The SQLite token store of internal/store/store.go: the table `records`, with its UNIQUE
-- constraints. The hash of a token is a parameter, a fresh token an argument. Times are Unix
-- seconds. The zone history of snapshots.go is in a child.
pub mod Tokens
pub mod Rotation
pub mod Steps
pub mod Snapshots
use goddns.Base.{
  ℕ, zero, suc, ◌+◌, Bool, true, false, not, ◌&&◌, ◌||◌, List, [], ◌∷◌, ◌++◌, Option, none, some,
  map, ltb, leb, ◌==◌, if◌then◌else◌, filter, any, find?,
}
use goddns.Base.Strings.{Bytes, bytes, str_eq, to_lower, trim_space, has_suffix}
use goddns.Base.Sort.{str_lt, sort_by}
use goddns.Base.Result.{Result, ok, err}

pub record Record : Type 0 where
  pub id : ℕ
  pub fqdn : Bytes
  pub zone : Bytes
  pub ttl : ℕ
  pub token_hash : Bytes
  pub last_ip : Bytes
  pub last_update : ℕ
  pub last_seen : ℕ
  pub disabled : Bool

-- The table, and the next id of AUTOINCREMENT.
pub record Db : Type 0 where
  pub rows : List Record
  pub next_id : ℕ

abbrev pub empty : Db
empty = record { rows = []; next_id = 1 }

pub data StoreError : Type 0 where
  not_found : StoreError
  constraint : StoreError

-- `FQDN`.
unfoldable pub fqdn_of : Bytes → Bytes
unfolding to_lower trim_space has_suffix
fqdn_of s =
    let t = trim_space (to_lower s) in if has_suffix t (bytes ".") then t else t ++ bytes "."

abbrev pub named : Bytes → Record → Bool
named f r = str_eq r.fqdn f

abbrev pub hashed : Bytes → Record → Bool
hashed h r = str_eq r.token_hash h

abbrev pub or_not_found {ℓ} : {A : Type ℓ} → Option A → Result StoreError A
or_not_found none = err not_found
or_not_found (some a) = ok a

-- `UPDATE records SET … WHERE …`.
unfoldable pub update_where : (Record → Bool) → (Record → Record) → List Record → List Record
update_where p f [] = []
update_where p f (r ∷ rows) = (if p r then f r else r) ∷ update_where p f rows

-- `Get`.
unfoldable pub get : Bytes → Db → Result StoreError Record
get name db = or_not_found (find? (named (fqdn_of name)) db.rows)

-- `List`.
unfoldable pub list : Db → List Record
unfolding sort_by str_lt
list db = sort_by (λ a b. str_lt a.fqdn b.fqdn) db.rows

-- `Del`.
unfoldable pub delete : Bytes → Db → Result StoreError Db
delete name db =
    if any (named (fqdn_of name)) db.rows
    then ok (record db { rows = filter (λ r. not (named (fqdn_of name) r)) db.rows })
    else err not_found

-- `MarkUpdated` and `MarkSeen`.
unfoldable pub mark_updated : ℕ → ℕ → Bytes → Db → Db
unfolding update_where
mark_updated now id ip db = record db {
  rows =
      update_where (λ r. r.id == id)
        (λ r. record r { last_ip = ip; last_update = now; last_seen = now }) db.rows;
}

unfoldable pub mark_seen : ℕ → ℕ → Db → Db
unfolding update_where
mark_seen now id db = record db {
  rows = update_where (λ r. r.id == id) (λ r. record r { last_seen = now }) db.rows;
}

module _ (hash_token : Bytes → Bytes) where
  -- `Lookup`: the enabled record of a token.
  unfoldable pub lookup : Bytes → Db → Result StoreError Record
  lookup tok db = or_not_found (find? (λ r. hashed (hash_token tok) r && not r.disabled) db.rows)

  abbrev pub new_record : Bytes → Bytes → Bytes → ℕ → ℕ → Record
  new_record tok name zone ttl id = record {
    id = id;
    fqdn = fqdn_of name;
    zone = fqdn_of zone;
    ttl = ttl;
    token_hash = hash_token tok;
    last_ip = [];
    last_update = 0;
    last_seen = 0;
    disabled = false;
  }

  -- `Add`, with the token that `newToken` drew.
  unfoldable pub add : Bytes → Bytes → Bytes → ℕ → Db → Result StoreError (Record × Db)
  add tok name zone ttl db =
      let rec = new_record tok name zone ttl db.next_id in
      if any (named rec.fqdn) db.rows || any (hashed rec.token_hash) db.rows
      then err constraint
      else ok (rec, record { rows = db.rows ++ (rec ∷ []); next_id = db.next_id + 1 })

  -- `Rotate`: the update fails if another record has the new hash.
  unfoldable pub rotate : Bytes → Bytes → Db → Result StoreError (Record × Db)
  unfolding update_where
  rotate tok name db =
      let f = fqdn_of name in
      let h = hash_token tok in
      if any (λ r. hashed h r && not (named f r)) db.rows
      then err constraint
      else let rows' = update_where (named f) (λ r. record r { token_hash = h }) db.rows in
        elim (find? (named f) rows') [
          | none ↦ err not_found
          | some r ↦ ok (r, record db { rows = rows' })
        ]
