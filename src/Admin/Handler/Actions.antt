-- ===== src/Admin/Handler/Actions.antt =====
-- The handlers of internal/admin/admin.go that change state, for a user with a session.
use Prim.Native.String.{String}
use goddns.Base.{
  ℕ, ◌+◌, ◌%◌, ◌^◌, Bool, true, false, not, ◌&&◌, ◌||◌, List, [], ◌∷◌, ◌++◌, Option, none, some,
  ltb, ◌==◌, if◌then◌else◌, is_empty, any, length,
}
use goddns.Base.Strings.{Bytes, fields_func, bytes, str_eq, trim_space, trim_suffix, equal_fold}
use goddns.Base.Decimal.{show_nat, atoi, parse_int64}
use goddns.Base.Result.{Result, ok, err}
use goddns.Config.{ProxyRule, Libraries, AdminConfig, Config}
use goddns.Store.{Db, Record, StoreError, add, delete, rotate}
use goddns.Admin.Session.{Codec}
use goddns.Vhost.{
  Toml, Tree, VhostError, VhostReport, preview_set, preview_remove, set, remove_host,
}
use goddns.Admin.Handler.{
  Request, Response, bad_request, redirect, page, error_page, help_page, EditCall, apply_static,
  apply_record, apply_restore, World, Meets, field, is_post, is_confirmed, csrf_ok,
}

trimmed_fields : List Bytes → List Bytes
trimmed_fields [] = []
trimmed_fields (f ∷ fs) =
    let rest = trimmed_fields fs in let t = trim_space f in if is_empty t then rest else t ∷ rest

-- `splitLines`: at commas and line ends.
unfoldable pub split_lines : Bytes → List Bytes
unfolding fields_func trimmed_fields
split_lines s = trimmed_fields (fields_func (λ c. c == b',' || c == 10 || c == 13) s)

abbrev port_then : Option ℕ → Option (List ℕ) → Option (List ℕ)
port_then (some p) (some ports) = some (p ∷ ports)
port_then _ _ = none

parse_ports : List Bytes → Option (List ℕ)
parse_ports [] = some []
parse_ports (f ∷ fs) = port_then (parse_int64 f) (parse_ports fs)

unfoldable pub ports_of : Bytes → Option (List ℕ)
unfolding fields_func parse_ports
ports_of s =
    parse_ports (fields_func (λ c. c == b',' || c == b' ' || c == 10 || c == 13 || c == 9) s)

abbrev pub flag : String → Request → Bool
flag name r = str_eq (field name r) (bytes "1")

abbrev form_rule : Request → List ℕ → List Bytes → ProxyRule
form_rule r ports auth = record {
  upstream = trim_space (field "upstream" r);
  upstream_verify = flag "verify" r;
  preserve_host = flag "preserve" r;
  bmc_compat = flag "bmc" r;
  console_ports = ports;
  allow = split_lines (field "allow" r);
  basic_auth = auth;
  rate_limit = atoi (field "rate" r);
}

-- The login that a password in the form adds; `none` is its refusal.
abbrev with_login : Bytes → Bytes → Bytes → List Bytes → Option (List Bytes)
with_login hash user pass auth =
    if is_empty pass
    then some auth
    else if is_empty user || any (λ c. c == b':') user || ltb (length pass) 8
    then none
    else some (auth ++ ((user ++ (b':' ∷ hash)) ∷ []))

abbrev rule_with : Request → Option (List ℕ) → Option (List Bytes) → Option ProxyRule
rule_with r (some ports) (some auth) = some (form_rule r ports auth)
rule_with r _ _ = none

-- `proxyRuleFromForm`, for its rule; the hash of a password is drawn.
unfoldable pub rule_from_form : Bytes → Request → Option ProxyRule
unfolding ports_of split_lines
rule_from_form hash r = rule_with r (ports_of (field "console_ports" r)) (
    with_login hash (trim_space (field "auth_user" r)) (field "auth_pass" r)
      (split_lines (field "auth" r)))

-- The test that a console port is the proxy's own.
abbrev pub collides : Option Bytes → ProxyRule → Bool
collides none rule = false
collides (some port) rule =
    not (is_empty port) && any (λ p. str_eq (show_nat p) port) rule.console_ports

module _ (lib : Libraries) (codec : Codec) (secret : Bytes) (toml : Toml)
    (hash_token : Bytes → Bytes) where
  -- The first test of each handler that changes something.
  abbrev pub is_genuine : AdminConfig → Bytes → Request → Bool
  is_genuine ad user r = is_post r && csrf_ok lib codec secret ad user r

  abbrev added : Bytes → World → Result StoreError (Record × Db) → Response × World
  added tok w (err e) = (error_page, w)
  added tok w (ok (rec, db)) = (help_page rec.fqdn tok, record w { db = db })

  -- `handleAdd`; the TTL is a uint32.
  unfoldable pub handle_add : AdminConfig → Bytes → Meets → Request → World → Response × World
  unfolding atoi
  handle_add ad user m r w =
      let fqdn = trim_space (field "fqdn" r) in
      let zone = trim_space (field "zone" r) in
      let n = atoi (field "ttl" r) in
      let ttl = if n == 0 then 60 else n in
      if not (is_genuine ad user r)
      then (bad_request, w)
      else if is_empty fqdn || is_empty zone
      then (bad_request, w)
      else added m.fresh_token w (add hash_token m.fresh_token fqdn zone (ttl % 2 ^ 32) w.db)

  abbrev rotated : Bytes → World → Result StoreError (Record × Db) → Response × World
  rotated tok w (err e) = (bad_request, w)
  rotated tok w (ok (rec, db)) = (help_page rec.fqdn tok, record w { db = db })

  -- `handleRotate`.
  unfoldable pub handle_rotate : AdminConfig → Bytes → Meets → Request → World → Response × World
  handle_rotate ad user m r w =
      if not (is_genuine ad user r)
      then (bad_request, w)
      else if not (is_confirmed r)
      then (page (bytes "confirm"), w)
      else rotated m.fresh_token w
          (rotate hash_token m.fresh_token (trim_space (field "fqdn" r)) w.db)

  abbrev deleted : World → Result StoreError Db → Response × World
  deleted w (err e) = (bad_request, w)
  deleted w (ok db) = (redirect (bytes "/"), record w { db = db })

  -- `handleDel`.
  unfoldable pub handle_del : AdminConfig → Bytes → Meets → Request → World → Response × World
  handle_del ad user m r w =
      if not (is_genuine ad user r)
      then (bad_request, w)
      else if not (is_confirmed r)
      then (page (bytes "confirm"), w)
      else deleted w (delete (trim_space (field "fqdn" r)) w.db)

  abbrev pub stored : World → Result VhostError VhostReport × Tree → Response × World
  stored w (err e, tree) = (error_page, record w { tree = tree })
  stored w (ok res, tree) =
      (redirect (bytes "/"), record w { tree = tree; reloads = w.reloads + 1 })

  abbrev pub previewed :
      Request → Response × World → World → Result VhostError VhostReport → Response × World
  previewed r done w (err e) = (error_page, w)
  previewed r done w (ok res) = if is_confirmed r then done else (page (bytes "confirm"), w)

  abbrev pub set_rule : Config → Meets → Request → World → Option ProxyRule → Response × World
  set_rule c m r w none = (error_page, w)
  set_rule c m r w (some rule) =
      let host = trim_space (field "host" r) in
      if collides (lib.split_port c.proxy_listen) rule
      then (error_page, w)
      else previewed r (stored w (set toml lib true m.writes host rule w.tree)) w
          (preview_set toml lib true host rule w.tree)

  -- `handleProxySet`; vhosts can be edited, so that the path of the main file is known.
  unfoldable pub handle_proxy_set : Config → Bytes → Meets → Request → World → Response × World
  unfolding rule_from_form
  handle_proxy_set c user m r w =
      if not (is_genuine c.admin user r)
      then (bad_request, w)
      else set_rule c m r w (rule_from_form m.fresh_hash r)

  -- `handleProxyDel`.
  unfoldable pub handle_proxy_del : AdminConfig → Bytes → Meets → Request → World → Response × World
  handle_proxy_del ad user m r w =
      let host = trim_space (field "host" r) in
      if not (is_genuine ad user r)
      then (bad_request, w)
      else previewed r (stored w (remove_host toml true m.writes host w.tree)) w
          (preview_remove toml true host w.tree)

  abbrev pub edited : Meets → Request → World → Bytes → EditCall → Response × World
  edited m r w target call =
      if not (is_confirmed r)
      then (if m.previews then page (bytes "confirm") else error_page, w)
      else (if m.applies then redirect target else error_page, record w { calls = call ∷ w.calls })

  -- `handleRecord`; `handleStaticRecord` is its branch for a static zone, whose line is parsed by the editor.
  unfoldable pub handle_record : AdminConfig → Bytes → Meets → Request → World → Response × World
  handle_record ad user m r w =
      let zone = trim_space (field "zone" r) in
      let action = field "action" r in
      let line = trim_space (field "rr" r) in
      let known = str_eq action (bytes "add") || str_eq action (bytes "del") in
      if not (is_genuine ad user r)
      then (bad_request, w)
      else if is_empty zone || is_empty line || not known
      then (bad_request, w)
      else if m.is_static zone
      then edited m r w (bytes "/zone") (apply_static zone action line)
      else if not (m.parses line)
      then (error_page, w)
      else edited m r w (bytes "/zone") (apply_record zone action line)

  abbrev pub is_zone : Bytes → Option Bytes → Bool
  is_zone zone none = false
  is_zone zone (some z) = equal_fold (trim_suffix z (bytes ".")) (trim_suffix zone (bytes "."))

  -- `handleRestore`: only a snapshot of the zone itself, and only where there is something to restore.
  unfoldable pub handle_restore : AdminConfig → Bytes → Meets → Request → World → Response × World
  unfolding equal_fold trim_suffix
  handle_restore ad user m r w =
      let zone = trim_space (field "zone" r) in
      let id = m.scan_id (trim_space (field "id" r)) in
      if not (is_genuine ad user r)
      then (bad_request, w)
      else if id == 0 || is_empty zone
      then (bad_request, w)
      else if not (is_zone zone (m.snapshot_zone id))
      then (error_page, w)
      else if not m.has_plan
      then (error_page, w)
      else edited m r w (bytes "/zone") (apply_restore zone id)
