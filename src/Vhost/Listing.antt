-- ===== src/Vhost/Listing.antt =====
-- `List` of internal/vhostmut/vhostmut.go: the vhosts of the main file and of the fragments, by host.
use goddns.Base.{Bool, false, List, [], ◌∷◌, ◌++◌, Option, none, some}
use goddns.Base.Strings.{Bytes, str_eq}
use goddns.Base.Dict.{Dict}
use goddns.Base.Sort.{str_lt, sort_by}
use goddns.Base.Result.{Result, ok, err, ◌>>=◌}
use goddns.Config.{ProxyRule}
use goddns.Vhost.{Toml, Tree, VhostError, unreadable, normalize, frag, fragment_files, decode_base}

-- `Entry`; the main file as a source is the empty name.
pub record Entry : Type 0 where
  pub host : Bytes
  pub source : Bytes
  pub managed : Bool
  pub rule : ProxyRule

module _ (toml : Toml) where
  unfoldable pub base_entries : Dict ProxyRule → List Entry
  base_entries [] = []
  base_entries ((k, r) ∷ m) =
      record { host = normalize k; source = []; managed = false; rule = r } ∷ base_entries m

  unfoldable pub file_entries : Bytes → Dict ProxyRule → List Entry
  file_entries file [] = []
  file_entries file ((k, r) ∷ m) =
      record {
        host = normalize k;
        source = file;
        managed = str_eq file (frag (normalize k));
        rule = r;
      }
      ∷ file_entries file m

  abbrev entries_then :
      Bytes
      → Option (Dict ProxyRule)
      → Result VhostError (List Entry)
      → Result VhostError (List Entry)
  entries_then file none rest = err (unreadable file)
  entries_then file (some m) rest = rest >>= λ es. ok (file_entries file m ++ es)

  unfoldable pub entries_of : List (Bytes × Bytes) → Result VhostError (List Entry)
  unfolding file_entries
  entries_of [] = ok []
  entries_of ((file, text) ∷ files) = entries_then file (toml.decode text) (entries_of files)

  abbrev listed : Tree → Option (Dict ProxyRule) → Result VhostError (List Entry)
  listed t none = err (unreadable [])
  listed t (some m) = do
    es ← entries_of (fragment_files toml t)
    ok (sort_by (λ a b. str_lt a.host b.host) (base_entries m ++ es))

  -- `List`.
  unfoldable pub list_vhosts : Tree → Result VhostError (List Entry)
  unfolding entries_of base_entries fragment_files sort_by str_lt
  list_vhosts t = listed t (decode_base toml t.base)
