-- ===== src/Tls.antt =====
-- The certificate sources of internal/tlsmgr: the certificate on disk (files.go) and the hybrid of it
-- and ACME (hybrid.go). Reading and parsing the pair of files, the check of a hostname and
-- ACME are parameters.
pub mod Gate
use goddns.Base.{
  ℕ, Bool, true, false, not, ◌&&◌, ◌||◌, List, [], ◌∷◌, ◌++◌, Option, none, some, ltb,
  if◌then◌else◌, is_empty, any, length,
}
use goddns.Base.Strings.{Bytes, bytes, str_eq, to_lower, trim_space, trim_suffix}
use goddns.Base.Result.{Result, ok, err}

-- `x509.Certificate`, as far as it is read: the window of validity, and the names that
-- `VerifyHostname` takes.
pub record Leaf : Type 0 where
  pub not_before : ℕ
  pub not_after : ℕ
  pub covers : Bytes → Bool

-- `Files`: what was loaded last.
pub record Files : Type 0 where
  pub cert : Option Bytes
  pub leaf : Option Leaf
  pub mod_time : ℕ

-- The disk at a moment: the time of `Stat`, and the pair with its leaf where it loads and parses.
pub record Disk : Type 0 where
  pub modified : Option ℕ
  pub pair : Option (Bytes × Option Leaf)

abbrev pub time_or : ℕ → Option ℕ → ℕ
time_or t none = t
time_or t (some u) = u

-- `load` of a pair that loads.
abbrev pub taken : Option ℕ → Files → Option (Bytes × Option Leaf) → Option Files
taken modified f none = none
taken modified f (some (cert, leaf)) =
    some (record { cert = some cert; leaf = leaf; mod_time = time_or f.mod_time modified })

unfoldable pub load : Disk → Files → Option Files
load d f = taken d.modified f d.pair

abbrev pub or_old : Files → Option Files → Files
or_old f none = f
or_old f (some g) = g

abbrev pub reload_at : Disk → Files → Option ℕ → Files
reload_at d f none = f
reload_at d f (some t) = if ltb f.mod_time t then or_old f (load d f) else f

-- `reloadIfStale`.
unfoldable pub reload_if_stale : Disk → Files → Files
unfolding load
reload_if_stale d f = reload_at d f d.modified

-- The certificate of the files, if it is in date and covers the name.
abbrev pub covering : Bytes → ℕ → Option Leaf → Option Bytes → Option Bytes
covering name now none cert = none
covering name now (some leaf) none = none
covering name now (some leaf) (some cert) =
    if ltb now leaf.not_before || ltb leaf.not_after now
    then none
    else if leaf.covers name
    then some cert
    else none

-- `matching`, with the files after it.
unfoldable pub matching : Bytes → ℕ → Disk → Files → Option Bytes × Files
unfolding reload_if_stale
matching name now d f =
    if is_empty name
    then (none, f)
    else let g = reload_if_stale d f in (covering name now g.leaf g.cert, g)

-- What `GetCertificate` returns, of any source: a certificate, which may be nil, or an error.
abbrev pub Answer : Type 0
Answer = Result Bytes (Option Bytes)

-- `GetCertificate` of the files.
unfoldable pub file_certificate : Disk → Files → Answer × Files
unfolding reload_if_stale
file_certificate d f = let g = reload_if_stale d f in (ok g.cert, g)

-- `Hybrid`. The ACME source answers by the number of earlier calls and the name of the client.
pub record Hybrid : Type 0 where
  pub files : Option Files
  pub acme : Option (ℕ → Bytes → Answer)
  pub allow : List Bytes

unfoldable pub norm_name : Bytes → Bytes
unfolding trim_space to_lower trim_suffix
norm_name s = trim_suffix (to_lower (trim_space s)) (bytes ".")

abbrev pub add_name : Bytes → List Bytes → List Bytes
add_name n m = if is_empty n || any (str_eq n) m then m else n ∷ m

-- The loop of `SetAllowed`.
unfoldable pub allowed_onto : List Bytes → List Bytes → List Bytes
unfolding norm_name str_eq
allowed_onto [] m = m
allowed_onto (n ∷ names) m = allowed_onto names (add_name (norm_name n) m)

unfoldable pub set_allowed : List Bytes → Hybrid → Hybrid
unfolding allowed_onto
set_allowed names h = record { files = h.files; acme = h.acme; allow = allowed_onto names [] }

unfoldable pub allowed : Hybrid → Bytes → Bool
unfolding norm_name str_eq
allowed h name = any (str_eq (norm_name name)) h.allow

-- The outcome of a handshake: the answer, the names that ACME was asked for, and the state.
pub record Served : Type 0 where
  pub answer : Answer
  pub asked : List Bytes
  pub state : Hybrid

abbrev pub with_files : Files → Hybrid → Hybrid
with_files f h = record { files = some f; acme = h.acme; allow = h.allow }

-- Step 3, after the calls of ACME in `asked`.
abbrev pub last_resort :
    Bytes → Disk → List Bytes → Hybrid → Option Files → Option (ℕ → Bytes → Answer) → Served
last_resort name d asked h (some f) acme =
    let r = file_certificate d f in record { answer = r.0; asked = asked; state = with_files r.1 h }
last_resort name d asked h none (some acme) = record {
  answer = acme (length asked) name;
  asked = asked ++ (name ∷ []);
  state = h;
}
last_resort name d asked h none none = record {
  answer = err (bytes "hybrid: no certificate source available");
  asked = asked;
  state = h;
}

abbrev pub after_acme : Bytes → Disk → Hybrid → Answer → Served
after_acme name d h (ok (some cert)) = record {
  answer = ok (some cert);
  asked = name ∷ [];
  state = h;
}
after_acme name d h _ = last_resort name d (name ∷ []) h h.files h.acme

-- Steps 2 and 3.
abbrev pub fall_back : Bytes → Disk → Hybrid → Option (ℕ → Bytes → Answer) → Served
fall_back name d h none = last_resort name d [] h h.files none
fall_back name d h (some acme) =
    if not (is_empty (norm_name name)) && allowed h name
    then after_acme name d h (acme 0 name)
    else last_resort name d [] h h.files (some acme)

abbrev pub after_match : Bytes → Disk → Hybrid → Option Bytes × Files → Served
after_match name d h (some cert, f) = record {
  answer = ok (some cert);
  asked = [];
  state = with_files f h;
}
after_match name d h (none, f) = fall_back name d (with_files f h) h.acme

abbrev pub first_match : Bytes → ℕ → Disk → Disk → Hybrid → Option Files → Served
first_match name now d e h none = fall_back name e h h.acme
first_match name now d e h (some f) = after_match name e h (matching (norm_name name) now d f)

-- `GetCertificate` of the hybrid. The disk may change between its two looks.
unfoldable pub get_certificate : Bytes → ℕ → Disk → Disk → Hybrid → Served
get_certificate name now d e h = first_match name now d e h h.files
