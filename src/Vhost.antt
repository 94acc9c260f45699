-- ===== src/Vhost.antt =====
-- The vhost editor, internal/vhostmut/vhostmut.go, on the tables of the main file and of the fragments
-- in proxy.d. The decoder of TOML and the quoting of a text are parameters; writing and removing a
-- file are one step that may fail.
pub mod Owned
pub mod Listing
use Prim.Native.String.{String}
use goddns.Base.{
  ℕ, Bool, true, false, not, ◌&&◌, ◌||◌, List, [], ◌∷◌, ◌++◌, Option, none, some, ltb, leb, ◌==◌,
  if◌then◌else◌, is_empty, any, length, filter,
}
use goddns.Base.Strings.{Bytes, bytes, str_eq, trim_space}
use goddns.Base.Dict
use goddns.Base.Dict.{Dict, insert, remove}
use goddns.Base.Decimal.{show_nat}
use goddns.Base.Sort.{str_lt, sort_by}
use goddns.Base.Result.{Result, ok, err, ◌>>=◌, ◌>>◌, check}
use goddns.Config.{ProxyRule, Libraries}
use goddns.Config.Load.{norm_host}
use goddns.Proxy.Validate.{RuleError, valid_host, validate_rule}

pub record Toml : Type 0 where
  -- The [proxy] tables of a file.
  pub decode : Bytes → Option (Dict ProxyRule)
  pub quote : Bytes → Bytes

-- The main file, missing or with its text, and the files of proxy.d that end in .conf.
pub record Tree : Type 0 where
  pub base : Option Bytes
  pub fragments : Dict Bytes

pub data VhostError : Type 0 where
  no_conf_path : VhostError
  bad_rule : RuleError → VhostError
  bad_vhost : VhostError
  unreadable : Bytes → VhostError
  defined_in : Bytes → VhostError
  not_managed : VhostError
  write_failed : VhostError

pub data VhostAction : Type 0 where
  add_vhost update_vhost remove_vhost : VhostAction

-- `Result` of the package.
pub record VhostReport : Type 0 where
  pub host : Bytes
  pub file : Bytes
  pub action : VhostAction
  pub fragment : Bytes

-- `normalize`, and the file of a host.
abbrev pub normalize : Bytes → Bytes
normalize = norm_host

abbrev pub frag : Bytes → Bytes
frag h = h ++ bytes ".conf"

-- Whether a table has the host under some spelling.
unfoldable pub defines : Bytes → Dict ProxyRule → Bool
unfolding norm_host str_eq
defines h [] = false
defines h ((k, r) ∷ m) = str_eq (normalize k) h || defines h m

unfoldable pub trim_all : List Bytes → List Bytes
unfolding trim_space
trim_all [] = []
trim_all (s ∷ ss) =
    let rest = trim_all ss in let t = trim_space s in if is_empty t then rest else t ∷ rest

-- What is owned of a host, and where else it is defined.
pub record Ownership : Type 0 where
  pub managed : Bool
  pub conflict : Option Bytes

abbrev pub newline : Bytes
newline = 10 ∷ []

abbrev show_bool : Bool → Bytes
show_bool true = bytes "true"
show_bool false = bytes "false"

unfoldable pub join_with : Bytes → List Bytes → Bytes
join_with sep [] = []
join_with sep (s ∷ []) = s
join_with sep (s ∷ t ∷ ss) = s ++ (sep ++ join_with sep (t ∷ ss))

unfoldable pub map_bytes : {A : Type 0} → (A → Bytes) → List A → List Bytes
map_bytes f [] = []
map_bytes f (a ∷ as') = f a ∷ map_bytes f as'

module _ (toml : Toml) where
  -- `decodeProxy`: a missing file has no vhosts.
  abbrev pub decode_base : Option Bytes → Option (Dict ProxyRule)
  decode_base none = some []
  decode_base (some text) = toml.decode text

  abbrev pub owned_file : Bytes → Bytes → Dict ProxyRule → Ownership → Ownership
  owned_file h file rules o =
      if str_eq file (frag h)
      then if length rules == 1 && defines h rules
        then record o { managed = true }
        else record o { conflict = some file }
      else if defines h rules
      then record o { conflict = some file }
      else o

  abbrev pub of_file :
      Bytes → Bytes → Option (Dict ProxyRule) → Ownership → Result VhostError Ownership
  of_file h file none o = err (unreadable file)
  of_file h file (some rules) o = ok (owned_file h file rules o)

  -- The loop of `ownership` over the fragments.
  unfoldable pub owned_in : Bytes → List (Bytes × Bytes) → Ownership → Result VhostError Ownership
  unfolding defines str_eq
  owned_in h [] o = ok o
  owned_in h ((file, text) ∷ files) o = of_file h file (toml.decode text) o >>= owned_in h files

  -- `fragmentFiles`.
  unfoldable pub fragment_files : Tree → List (Bytes × Bytes)
  unfolding sort_by str_lt
  fragment_files t = sort_by (λ a b. str_lt a.0 b.0) t.fragments

  abbrev pub from_base :
      Bytes → List (Bytes × Bytes) → Option (Dict ProxyRule) → Result VhostError Ownership
  from_base h files none = err (unreadable [])
  from_base h files (some rules) = owned_in h files (record {
    managed = false;
    conflict = if defines h rules then some (bytes "goddns.conf") else none;
  })

  -- `ownership`.
  unfoldable pub ownership : Bytes → Tree → Result VhostError Ownership
  unfolding owned_in fragment_files defines
  ownership h t = from_base h (fragment_files t) (decode_base t.base)

  string_array : List Bytes → Bytes
  string_array ss = bytes "[" ++ (join_with (bytes ", ") (map_bytes toml.quote ss) ++ bytes "]")

  abbrev when : Bool → Bytes → Bytes
  when true line = line ++ newline
  when false line = []

  -- `renderFragment`.
  unfoldable pub render_fragment : Bytes → ProxyRule → Bytes
  unfolding string_array join_with map_bytes show_nat
  render_fragment host r =
      bytes "# Managed by goddns "
      ++ (226 ∷ 128 ∷ 148 ∷ bytes " edit via `goddns vhost` or the admin UI."
          ++ (newline
              ++ (bytes "# Hand-editing is fine (goddns reads it back); keep one vhost per file."
                  ++ (newline
                      ++ (newline
                          ++ (when true (bytes "[proxy." ++ (toml.quote host ++ bytes "]"))
                              ++ (when true (bytes "upstream        = " ++ toml.quote r.upstream)
                                  ++ (when true
                                        (bytes "upstream_verify = " ++ show_bool r.upstream_verify)
                                      ++ (when true (
                                            bytes "preserve_host   = " ++ show_bool r.preserve_host)
                                          ++ (when r.bmc_compat (
                                                bytes "bmc_compat      = "
                                                ++ show_bool r.bmc_compat)
                                              ++ (when (not (is_empty r.console_ports)) (
                                                    bytes "console_ports   = ["
                                                    ++ (join_with (bytes ", ")
                                                          (map_bytes show_nat r.console_ports)
                                                        ++ bytes "]"))
                                                  ++ (when (not (is_empty r.allow)) (
                                                        bytes "allow           = "
                                                        ++ string_array r.allow)
                                                      ++ (when (ltb 0 r.rate_limit) (
                                                            bytes "rate_limit      = "
                                                            ++ show_nat r.rate_limit)
                                                          ++ when (not (is_empty r.basic_auth)) (
                                                            bytes "basic_auth      = "
                                                            ++ string_array
                                                            r.basic_auth))))))))))))))

  -- The rule as it is written.
  abbrev pub trimmed : ProxyRule → ProxyRule
  trimmed r = record r {
    allow = trim_all r.allow;
    basic_auth = trim_all r.basic_auth;
    upstream = trim_space r.upstream;
  }

  abbrev pub checked_rule : Libraries → Bytes → ProxyRule → Result VhostError (Unit {0})
  checked_rule lib h r = elim (validate_rule lib h r) [ ok u ↦ ok u | err e ↦ err (bad_rule e) ]

  abbrev pub no_conflict : Option Bytes → Result VhostError (Unit {0})
  no_conflict none = ok tt
  no_conflict (some file) = err (defined_in file)

  -- `PreviewSet`; `has_conf` says whether the editor knows the main file.
  unfoldable pub preview_set :
      Libraries → Bool → Bytes → ProxyRule → Tree → Result VhostError VhostReport
  preview_set lib has_conf host rule t = do
    let h = normalize host
    let r = trimmed rule
    check has_conf no_conf_path
    checked_rule lib h rule
    o ← ownership h t
    no_conflict o.conflict
    ok (record {
      host = h;
      file = frag h;
      action = if o.managed then update_vhost else add_vhost;
      fragment = render_fragment h r;
    })

  abbrev pub not_ours : Option Bytes → VhostError
  not_ours none = not_managed
  not_ours (some file) = defined_in file

  -- `PreviewRemove`.
  unfoldable pub preview_remove : Bool → Bytes → Tree → Result VhostError VhostReport
  preview_remove has_conf host t = do
    let h = normalize host
    check has_conf no_conf_path
    check (valid_host h) bad_vhost
    o ← ownership h t
    check o.managed (not_ours o.conflict)
    ok (record { host = h; file = frag h; action = remove_vhost; fragment = [] })

  abbrev pub written : Bool → Tree → VhostReport → Result VhostError VhostReport × Tree
  written false t res = (err write_failed, t)
  written true t res = (ok res, record t { fragments = insert res.file res.fragment t.fragments })

  abbrev pub removed : Bool → Tree → VhostReport → Result VhostError VhostReport × Tree
  removed false t res = (err write_failed, t)
  removed true t res = (ok res, record t { fragments = remove res.file t.fragments })

  abbrev pub after :
      (VhostReport → Result VhostError VhostReport × Tree)
      → Tree
      → Result VhostError VhostReport
      → Result VhostError VhostReport × Tree
  after f t (err e) = (err e, t)
  after f t (ok res) = f res

  -- `Set` and `Remove`; `writes` says whether the file system lets them.
  unfoldable pub set :
      Libraries → Bool → Bool → Bytes → ProxyRule → Tree → Result VhostError VhostReport × Tree
  set lib has_conf writes host rule t =
      after (written writes t) t (preview_set lib has_conf host rule t)

  unfoldable pub remove_host : Bool → Bool → Bytes → Tree → Result VhostError VhostReport × Tree
  remove_host has_conf writes host t = after (removed writes t) t (preview_remove has_conf host t)
