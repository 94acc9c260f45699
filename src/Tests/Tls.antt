-- ===== src/Tests/Tls.antt =====
-- Runs of the hybrid certificate source of internal/tlsmgr.
use goddns.Base.{ℕ, [], ◌∷◌, Option, none, some, ◌≡◌, refl}
use goddns.Base.Strings.{Bytes, bytes, str_eq, to_lower, trim_space, trim_suffix}
use goddns.Base.Result.{ok}
use goddns.Tls.{
  Leaf, Files, Disk, Hybrid, Answer, allowed, allowed_onto, set_allowed, matching, norm_name, load,
  reload_if_stale, get_certificate,
}

-- A certificate of w.z, renewed on disk at 7.
abbrev leaf : Leaf
leaf = record { not_before = 1; not_after = 9; covers = λ n. str_eq n (bytes "w.z") }

abbrev disk : Disk
disk = record { modified = some 7; pair = some (bytes "new", some leaf) }

abbrev files : Files
files = record { cert = some (bytes "old"); leaf = none; mod_time = 3 }

abbrev acme : ℕ → Bytes → Answer
acme n name = ok (some (bytes "acme"))

abbrev hybrid : Option Files → Hybrid
hybrid f = set_allowed (bytes " V.z. " ∷ []) (record { files = f; acme = some acme; allow = [] })

serves_renewed :
    (get_certificate (bytes "W.z") 5 disk disk (hybrid (some files))).answer
    ≡ ok (some (bytes "new"))
unfolding get_certificate matching norm_name trim_space to_lower trim_suffix reload_if_stale load
    str_eq set_allowed
serves_renewed = refl

asks_acme :
    (get_certificate (bytes "v.z") 5 disk disk (hybrid (some files))).asked ≡ bytes "v.z" ∷ []
unfolding get_certificate matching norm_name trim_space to_lower trim_suffix reload_if_stale load
    str_eq set_allowed allowed allowed_onto
asks_acme = refl
