-- ===== src/Server/Repeat.antt =====
-- A client that repeats its request.
use goddns.Base.{
  ℕ, Bool, true, false, not, ◌&&◌, List, [], ◌∷◌, ◌++◌, Option, none, some, ◌≡◌, ◌≢◌, refl, sym, ap,
  ◌∙◌, arith, ◌==◌, ==_refl, Bool-cases, inl, inr, if◌then◌else◌, is_empty, find?,
}
use goddns.Base.Strings.{Bytes, str_eq_iff}
use goddns.Base.Result.{Result, ok, err}
use goddns.Net.{IpNet, TextForms}
use goddns.Store.{StoreError, Record, Db, hashed, lookup, update_where, mark_updated}
use goddns.Store.Tokens.{has_id}
use goddns.Server.{
  Request, World, Faults, Verdict, missing_token, good, no_change, client_ip, do_update, with_ip,
  cut_slash, simple_path, simple_override, handle_simple, simple_found, looked_up, stamped,
  update_of, IpError,
}

-- A row that is found and stamped is found again, with its stamp.
find?-update :
    (f : Record → Record) (q : Record → Bool) (rows : List Record) (r : Record)
    → ((s : Record) → q (f s) ≡ q s)
    → find? q rows ≡ some r
    → find? q (update_where (has_id r.id) f rows) ≡ some (f r)
unfolding update_where
find?-update f q [] r same e = cc
find?-update f q (s ∷ rows) r same e = elim (Bool-cases (q s)) [
  | inl pos ↦
      let is : s ≡ r = ground arith in
      rw is (rw (==_refl r.id) (rw (same r ∙ sym (ap q is) ∙ pos) refl))
  | inr neg ↦
      let found : find? q rows ≡ some r = ground arith in
      rw (either (s.id == r.id) neg) (find?-update f q rows r same found)
]
  where
    either : (b : Bool) → q s ≡ false → q (if b then f s else s) ≡ false
    either true neg = same s ∙ neg
    either false neg = neg

module _ (forms : TextForms) (hash_token : Bytes → Bytes) where
  -- After a stamp the same token finds the record with its stamp.
  lookup-mark_updated :
      (now : ℕ) (tok ip : Bytes) (r : Record) (db : Db)
      → lookup hash_token tok db ≡ ok r
      → lookup hash_token tok (mark_updated now r.id ip db)
        ≡ ok (record r { last_ip = ip; last_update = now; last_seen = now })
  unfolding lookup mark_updated
  lookup-mark_updated now tok ip r db e = ground (
    arith,
    find?-update (λ s. record s { last_ip = ip; last_update = now; last_seen = now })
        (λ s. hashed (hash_token tok) s && not s.disabled) db.rows r (λ s. refl),
  )

  module _ (faults : Faults) (now : ℕ) (rec : Record) (w : World) where
    after : Bytes → World
    unfolding mark_updated
    after ip = record {
      db = stamped forms faults w.db (mark_updated now rec.id (forms.ip_string ip) w.db);
      sent = w.sent ++ (update_of forms rec ip ∷ []);
    }

    do_update-good :
        (found ip : Bytes) (w' : World)
        → do_update forms faults now rec found w ≡ (good ip, w')
        → (found ≡ ip) × (w' ≡ after ip)
    unfolding do_update after
    do_update-good found ip w' e = ground arith

    with_ip-good :
        (o : Result IpError Bytes) (ip : Bytes) (w' : World)
        → with_ip forms faults now rec w o ≡ (good ip, w')
        → (o ≡ ok ip) × (w' ≡ after ip)
    with_ip-good (err x) ip w' e = cc
    with_ip-good (ok found) ip w' e = let (a, b) = do_update-good found ip w' e in (ap ok a, b)

  -- On the record as stamped the same address is no change.
  do_update-again :
      (faults : Faults) (later : ℕ) (rec : Record) (ip : Bytes) (w : World)
      → rec.last_ip ≡ forms.ip_string ip
      → ((do_update forms faults later rec ip w).0 ≡ no_change ip)
        × ((do_update forms faults later rec ip w).1.sent ≡ w.sent)
  unfolding do_update
  do_update-again faults later rec ip w e =
      ground (arith, str_eq_iff rec.last_ip (forms.ip_string ip))

  looked_up-inv :
      (faults : Faults) (tok : Bytes) (w : World) (o : Result StoreError Record)
      → looked_up forms hash_token faults tok w ≡ some o
      → lookup hash_token tok w.db ≡ o
  looked_up-inv faults tok w o e = ground arith

  looked_up-of :
      (faults : Faults) (tok : Bytes) (w : World) (o : Result StoreError Record)
      → faults.lookup_fails ≡ false
      → lookup hash_token tok w.db ≡ o
      → looked_up forms hash_token faults tok w ≡ some o
  looked_up-of faults tok w o f e = ground arith

  stamp_written :
      (faults : Faults) (now : ℕ) (rec : Record) (w : World) (ip : Bytes) (w' : World)
      → w' ≡ after faults now rec w ip
      → faults.stamp_fails ≡ false
      → w'.db ≡ mark_updated now rec.id (forms.ip_string ip) w.db
  unfolding after
  stamp_written faults now rec w ip w' is s = ap (λ (x : World). x.db) is ∙ rw s refl

  simple_found-again :
      (nets : List IpNet) (faults faults' : Faults) (now later : ℕ) (r : Request)
      (tok override : Bytes) (w : World) (o : Option (Result StoreError Record)) (ip : Bytes)
      (w' : World)
      → looked_up forms hash_token faults tok w ≡ o
      → simple_found forms hash_token nets faults now r override w o ≡ (good ip, w')
      → faults.stamp_fails ≡ false
      → faults'.lookup_fails ≡ false
      → let again =
          simple_found forms hash_token nets faults' later r override w'
            (looked_up forms hash_token faults' tok w') in
        (again.0 ≡ no_change ip) × (again.1.sent ≡ w'.sent)
  simple_found-again nets faults faults' now later r tok override w none ip w' l e s f = cc
  simple_found-again nets faults faults' now later r tok override w (some (err x)) ip w' l e s f =
      cc
  simple_found-again nets faults faults' now later r tok override w (some (ok rec)) ip w' l e s f =
      let (c, is) = with_ip-good faults now rec w (client_ip forms nets r override) ip w' e in
      let fresh = record rec { last_ip = forms.ip_string ip; last_update = now; last_seen = now } in
      let db_is = stamp_written faults now rec w ip w' is s in
      let found : lookup hash_token tok w'.db ≡ ok fresh =
        ap (lookup hash_token tok) db_is
        ∙ lookup-mark_updated now tok (forms.ip_string ip) rec w.db
            (looked_up-inv faults tok w (ok rec) l) in
      rw (looked_up-of faults' tok w' (ok fresh) f found)
        (rw c (do_update-again faults' later fresh ip w' refl))

  -- A gate that let the first request through lets the second one through.
  gated :
      (b : Bool) (v : Verdict) (x y : Verdict × World) (w w' : World) (ip : Bytes)
      → v ≢ good ip
      → (if b then (v, w) else x) ≡ (good ip, w')
      → (x ≡ (good ip, w') → (y.0 ≡ no_change ip) × (y.1.sent ≡ w'.sent))
      → ((if b then (v, w') else y).0 ≡ no_change ip)
        × ((if b then (v, w') else y).1.sent ≡ w'.sent)
  gated true v x y w w' ip ne e k = absurd (ne (ap (λ (p : Verdict × World). p.0) e))
  gated false v x y w w' ip ne e k = k e

  -- A client that was answered `good` on /update/, its stamp written, and that repeats its request
  -- is answered `nochg` with the same address, and nothing more is written to the DNS.
  pub handle_simple-repeated :
      (nets : List IpNet) (faults faults' : Faults) (now later : ℕ) (r : Request) (w : World)
      (ip : Bytes) (w' : World)
      → handle_simple forms hash_token nets faults now r w ≡ (good ip, w')
      → faults.stamp_fails ≡ false
      → faults'.lookup_fails ≡ false
      → let again = handle_simple forms hash_token nets faults' later r w' in
        (again.0 ≡ no_change ip) × (again.1.sent ≡ w'.sent)
  unfolding handle_simple
  handle_simple-repeated nets faults faults' now later r w ip w' e s f =
      let cut = cut_slash (simple_path forms hash_token r) in
      let override = simple_override forms hash_token r cut.1 in
      gated (is_empty (simple_path forms hash_token r)) missing_token
        (simple_found forms hash_token nets faults now r override w
          (looked_up forms hash_token faults cut.0 w))
        (simple_found forms hash_token nets faults' later r override w'
          (looked_up forms hash_token faults' cut.0 w'))
        w w' ip (λ h. cc h) e
        (λ e'.
          simple_found-again nets faults faults' now later r cut.0 override w
            (looked_up forms hash_token faults cut.0 w) ip w' refl e' s f)
