-- ===== src/Tests/Store.antt =====
-- Runs of internal/store/store.go and internal/store/snapshots.go.
use goddns.Base.{false, [], ◌∷◌, ◌≡◌, refl}
use goddns.Base.Strings.{
  Bytes, bytes, str_eq, to_lower, trim_space, has_suffix, trim_suffix, has_prefix, trim_left,
}
use goddns.Base.Result.{ok, err}
use goddns.Store.{
  Record, Db, empty, constraint, not_found, fqdn_of, update_where, lookup, add, rotate,
}
use goddns.Store.Tokens.{IsValid}
use goddns.Store.Steps.{added, rotated, Reach, here, next, Reach-IsValid}
use goddns.Store.Snapshots.{SnapDb, snap_zone, put_row, snapshot_put}
use goddns.Store.Snapshots.History.{history}

-- A hash for the runs: the token behind a mark.
abbrev hash : Bytes → Bytes
hash t = b'#' ∷ t

abbrev home : Record
home = record {
  id = 1;
  fqdn = bytes "home.example.com.";
  zone = bytes "example.com.";
  ttl = 60;
  token_hash = hash (bytes "t1");
  last_ip = [];
  last_update = 0;
  last_seen = 0;
  disabled = false;
}

abbrev one_row : Db
one_row = record { rows = home ∷ []; next_id = 2 }

abbrev moved : Record
moved = record home { token_hash = hash (bytes "t2") }

abbrev rotated_row : Db
rotated_row = record { rows = moved ∷ []; next_id = 2 }

first_add :
    add hash (bytes "t1") (bytes " Home.Example.com") (bytes "example.com") 60 empty
    ≡ ok (home, one_row)
unfolding add fqdn_of to_lower trim_space trim_left has_suffix has_prefix str_eq
first_add = refl

add_twice :
    add hash (bytes "t2") (bytes "home.example.com.") (bytes "example.com") 60 one_row
    ≡ err constraint
unfolding add fqdn_of to_lower trim_space trim_left has_suffix has_prefix str_eq
add_twice = refl

rotate_home : rotate hash (bytes "t2") (bytes "home.example.com") one_row ≡ ok (moved, rotated_row)
unfolding rotate update_where fqdn_of to_lower trim_space trim_left has_suffix has_prefix str_eq
rotate_home = refl

old_token : lookup hash (bytes "t1") rotated_row ≡ err not_found
unfolding lookup str_eq
old_token = refl

one_row_reached : Reach hash empty one_row
one_row_reached =
    next here
      (added (bytes "t1") (bytes " Home.Example.com") (bytes "example.com") 60 home first_add)

rotated_row_reached : Reach hash empty rotated_row
rotated_row_reached =
    next one_row_reached (rotated (bytes "t2") (bytes "home.example.com") moved rotate_home)

Reach-IsValid_example : IsValid rotated_row
Reach-IsValid_example = Reach-IsValid hash rotated_row_reached

abbrev no_snaps : SnapDb
no_snaps = record { rows = []; next_id = 1 }

abbrev two_snaps : SnapDb
two_snaps =
    (snapshot_put 20 (bytes "a.org.") 2 (bytes "v2") 1
      (snapshot_put 10 (bytes "A.org") 1 (bytes "v1") 1 no_snaps).1).1

-- The history of a zone that keeps one snapshot.
latest_is_second :
    history (bytes "a.org") two_snaps
    ≡ put_row 20 (bytes "a.org") 2 (bytes "v2") (record no_snaps { next_id = 2 }) ∷ []
unfolding history snapshot_put snap_zone to_lower trim_space trim_left trim_suffix has_suffix
    has_prefix str_eq
latest_is_second = refl
