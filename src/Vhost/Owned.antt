-- ===== src/Vhost/Owned.antt =====
-- What the vhost editor of internal/vhostmut may touch.
use goddns.Base.{
  Bool, true, false, not, ◌&&◌, ◌||◌, List, [], ◌∷◌, Option, none, some, ◌==◌, ◌≡◌, ◌⊎◌, inl, inr,
  refl, sym, ap, ◌∙◌, arith, if◌then◌else◌, any, length, Option-cases, inl, inr,
}
use goddns.Base.Strings.{Bytes, bytes, str_eq}
use goddns.Base.Dict
use goddns.Base.Dict.{Dict, insert, remove, lookup-insert, lookup-remove}
use goddns.Base.Sort.{str_lt, any-sort_by}
use goddns.Base.Result.{Result, ok, err, check, bind-eq-ok, then-eq-ok, check-eq-ok}
use goddns.Config.{ProxyRule, Libraries}
use goddns.Proxy.Validate.{valid_host}
use goddns.Vhost.{
  Toml, Tree, VhostError, VhostReport, Ownership, no_conf_path, bad_vhost, write_failed, not_ours,
  normalize, frag, defines, decode_base, owned_file, owned_in, fragment_files, ownership,
  render_fragment, trimmed, checked_rule, no_conflict, preview_set, preview_remove, written,
  removed, after, set, remove_host,
}

abbrev is_none : Option Bytes → Bool
is_none none = true
is_none (some s) = false

-- A file that is the host's own: its name, and no vhost but the host's.
abbrev single : Bytes → Dict ProxyRule → Bool
single h rules = length rules == 1 && defines h rules

abbrev file_of : Result VhostError VhostReport → Bytes
file_of (ok r) = r.file
file_of (err e) = []

abbrev text_of : Result VhostError VhostReport → Bytes
text_of (ok r) = r.fragment
text_of (err e) = []

module _ (toml : Toml) where
  abbrev holds : (Dict ProxyRule → Bool) → Option (Dict ProxyRule) → Bool
  holds p none = false
  holds p (some rules) = p rules

  abbrev pub is_own : Bytes → Bytes × Bytes → Bool
  is_own h (file, text) = str_eq file (frag h) && holds (single h) (toml.decode text)

  -- A file that stands in the way: another's that defines the host, or one of the host's name that has
  -- other vhosts.
  abbrev pub is_clash : Bytes → Bytes × Bytes → Bool
  is_clash h (file, text) =
      if str_eq file (frag h)
      then holds (λ rules. not (single h rules)) (toml.decode text)
      else holds (defines h) (toml.decode text)

  owned_in_lem :
      (h : Bytes) (files : List (Bytes × Bytes)) (o o' : Ownership)
      → owned_in toml h files o ≡ ok o'
      → (is_none o'.conflict ≡ (is_none o.conflict && not (any (is_clash h) files)))
        × (o'.managed ≡ (o.managed || any (is_own h) files))
  unfolding owned_in
  owned_in_lem h [] o o' e = let same : o ≡ o' = cc e in rw (← same) (ground arith)
  owned_in_lem h ((file, text) ∷ files) o o' e = elim (Option-cases (toml.decode text)) [
    | inl n ↦ cc (rw n at e)
    | inr (rules, q) ↦
        let ih = owned_in_lem h files (owned_file toml h file rules o) o' (rw q at e) in
        rw q (ground (arith, ih.0, ih.1))
  ]

  abbrev pub base_defines : Bytes → Tree → Bool
  base_defines h t = holds (defines h) (decode_base toml t.base)

  ownership_lem :
      (h : Bytes) (t : Tree) (o : Ownership)
      → ownership toml h t ≡ ok o
      → (is_none o.conflict ≡ (not (base_defines h t) && not (any (is_clash h) t.fragments)))
        × (o.managed ≡ any (is_own h) t.fragments)
  unfolding ownership fragment_files
  ownership_lem h t o e = elim (Option-cases (decode_base toml t.base)) [
    | inl n ↦ cc (rw n at e)
    | inr (rules, q) ↦
        let start : Ownership = record {
          managed = false;
          conflict = if defines h rules then some (bytes "goddns.conf") else none;
        } in
        let l = owned_in_lem h (fragment_files toml t) start o (rw q at e) in
        let clash = any-sort_by (λ a b. str_lt a.0 b.0) (is_clash h) t.fragments in
        let own = any-sort_by (λ a b. str_lt a.0 b.0) (is_own h) t.fragments in
        rw q (ground (arith, l.0, l.1, clash, own))
  ]

  -- A tree in which the editor changed the file of one host, and nothing else.
  abbrev pub OnlyFile : Bytes → Option Bytes → Tree → Tree → Type 0
  OnlyFile file content t t' =
      (t'.base ≡ t.base)
      × ((f : Bytes)
          → Dict.lookup f t'.fragments
            ≡ (if str_eq file f then content else Dict.lookup f t.fragments))

  -- No file but the host's own has a vhost of the host, and its own, if there, has no other.
  abbrev pub IsFree : Bytes → Tree → Type 0
  IsFree h t = (base_defines h t ≡ false) × (any (is_clash h) t.fragments ≡ false)

  free-of-ok : (o : Option Bytes) → no_conflict toml o ≡ ok tt → is_none o ≡ true
  free-of-ok none p = refl
  free-of-ok (some f) p = cc

  preview_set-IsFree :
      (lib : Libraries) (has_conf : Bool) (host : Bytes) (rule : ProxyRule) (t : Tree)
      (res : VhostReport)
      → preview_set toml lib has_conf host rule t ≡ ok res
      → IsFree (normalize host) t
        × (res.file ≡ frag (normalize host))
        × (res.fragment ≡ render_fragment toml (normalize host) (trimmed toml rule))
  unfolding preview_set
  preview_set-IsFree lib has_conf host rule t res p =
      let p1 = then-eq-ok (check has_conf no_conf_path) _ p in
      let p2 = then-eq-ok (checked_rule toml lib (normalize host) rule) _ p1.1 in
      let (o, po, p3) = bind-eq-ok (ownership toml (normalize host) t) _ p2.1 in
      let p4 = then-eq-ok (no_conflict toml o.conflict) _ p3 in
      let free = free-of-ok o.conflict p4.0 in
      let l = ownership_lem (normalize host) t o po in
      (
        (ground (arith, free, l.0), ground (arith, free, l.0)),
        sym (ap file_of p4.1),
        sym (ap text_of p4.1),
      )

  -- A call that fails changes nothing, and of one that succeeds the given holds.
  abbrev pub AllOrNothing : Tree → (Tree → Type 0) → Result VhostError VhostReport × Tree → Type 0
  AllOrNothing t P out =
      ((e : VhostError) × (out ≡ (err e, t))) ⊎ ((res : VhostReport) × (out.0 ≡ ok res) × P out.1)

  written-OnlyFile :
      (writes : Bool) (t : Tree) (file text : Bytes) (res : VhostReport) (Q : Type 0)
      → Q
      → res.file ≡ file
      → res.fragment ≡ text
      → AllOrNothing t (λ t'. Q × OnlyFile file (some text) t t') (written toml writes t res)
  written-OnlyFile false t file text res Q q a b = inl (write_failed, refl)
  written-OnlyFile true t file text res Q q a b = inr (
    res,
    refl,
    (q, (refl, λ f. rw (← a, ← b) (lookup-insert res.file f res.fragment t.fragments))),
  )

  removed-OnlyFile :
      (writes : Bool) (t : Tree) (file : Bytes) (res : VhostReport) (Q : Type 0)
      → Q
      → res.file ≡ file
      → AllOrNothing t (λ t'. Q × OnlyFile file none t t') (removed toml writes t res)
  removed-OnlyFile false t file res Q q a = inl (write_failed, refl)
  removed-OnlyFile true t file res Q q a =
      inr (res, refl, (q, (refl, λ f. rw (← a) (lookup-remove res.file f t.fragments))))

  after-AllOrNothing :
      (f : VhostReport → Result VhostError VhostReport × Tree) (t : Tree) (P : Tree → Type 0)
      (r : Result VhostError VhostReport)
      → ((res : VhostReport) → r ≡ ok res → AllOrNothing t P (f res))
      → AllOrNothing t P (after toml f t r)
  after-AllOrNothing f t P (err e) h = inl (e, refl)
  after-AllOrNothing f t P (ok res) h = h res refl

  abbrev pub IsPlaced : Bytes → ProxyRule → Tree → Tree → Type 0
  IsPlaced host rule t t' =
      IsFree (normalize host) t
      × OnlyFile (frag (normalize host))
          (some (render_fragment toml (normalize host) (trimmed toml rule))) t t'

  abbrev pub IsTakenAway : Bytes → Tree → Tree → Type 0
  IsTakenAway host t t' =
      ((valid_host (normalize host) ≡ true) × (any (is_own (normalize host)) t.fragments ≡ true))
      × OnlyFile (frag (normalize host)) none t t'

  -- `Set` changes nothing when it fails. When it succeeds, neither the main file nor a fragment of another
  -- name defines the host, the host's own fragment has no other vhost, and only that fragment is
  -- written.
  pub set-OnlyFile :
      (lib : Libraries) (has_conf writes : Bool) (host : Bytes) (rule : ProxyRule) (t : Tree)
      → AllOrNothing t (IsPlaced host rule t) (set toml lib has_conf writes host rule t)
  unfolding set
  set-OnlyFile lib has_conf writes host rule t =
      after-AllOrNothing (written toml writes t) t (IsPlaced host rule t)
        (preview_set toml lib has_conf host rule t)
        (λ res p.
          let f = preview_set-IsFree lib has_conf host rule t res p in
          written-OnlyFile writes t (frag (normalize host)) _ res (IsFree (normalize host) t) f.0
            f.1 f.2)

  preview_remove-Own :
      (has_conf : Bool) (host : Bytes) (t : Tree) (res : VhostReport)
      → preview_remove toml has_conf host t ≡ ok res
      → ((valid_host (normalize host) ≡ true) × (any (is_own (normalize host)) t.fragments ≡ true))
        × (res.file ≡ frag (normalize host))
  unfolding preview_remove
  preview_remove-Own has_conf host t res p =
      let p1 = then-eq-ok (check has_conf no_conf_path) _ p in
      let p2 = then-eq-ok (check (valid_host (normalize host)) bad_vhost) _ p1.1 in
      let (o, po, p3) = bind-eq-ok (ownership toml (normalize host) t) _ p2.1 in
      let p4 = then-eq-ok (check o.managed (not_ours toml o.conflict)) _ p3 in
      let owned = check-eq-ok o.managed (not_ours toml o.conflict) p4.0 in
      (
        (check-eq-ok _ bad_vhost p2.0, sym (ownership_lem (normalize host) t o po).1 ∙ owned),
        sym (ap file_of p4.1),
      )

  -- `Remove` changes nothing when it fails. When it succeeds, a fragment of the host's own name had the host's
  -- vhost and no other, the name is a valid host's, and only that fragment is removed.
  pub remove_host-OnlyFile :
      (has_conf writes : Bool) (host : Bytes) (t : Tree)
      → AllOrNothing t (IsTakenAway host t) (remove_host toml has_conf writes host t)
  unfolding remove_host
  remove_host-OnlyFile has_conf writes host t =
      after-AllOrNothing (removed toml writes t) t (IsTakenAway host t)
        (preview_remove toml has_conf host t)
        (λ res p.
          let f = preview_remove-Own has_conf host t res p in
          removed-OnlyFile writes t (frag (normalize host)) res _ f.0 f.1)
