-- ===== src/Server/Writes.antt =====
-- What a request makes the server write to the DNS.
use goddns.Base.{
  ℕ, Bool, true, false, List, [], ◌∷◌, ◌++◌, Option, none, some, ◌≡◌, ◌≢◌, refl, ◌⊎◌, inl, inr,
  arith, if◌then◌else◌, is_empty, Bool-cases,
}
use goddns.Base.Strings.{Bytes, str_eq}
use goddns.Base.Result.{Result, ok, err}
use goddns.Net.{IpNet, TextForms}
use goddns.Store.{StoreError, Record, lookup, mark_updated}
use goddns.Server.{
  Request, World, Faults, Verdict, good, dns_error, client_ip, update_of, stamped, IpError,
  looked_up, simple_found, dyn_found, missing_token, bad_auth, no_host, do_update, with_ip,
  cut_slash, simple_path, simple_override, handle_simple, dyn_token, host_matches, handle_dyn_dns2,
  query_get,
}

module _ (forms : TextForms) (hash_token : Bytes → Bytes) where
  -- What a request with a token and an address to register may do: nothing to the DNS, and then
  -- no answer `good`; or one update, of the token's own name and zone to that address, which is
  -- not the one on record, and then the answer is `good` unless the backend fails.
  pub data Written (faults : Faults) (tok : Bytes) (w : World) : Verdict × World → Type 0 where
    nothing :
        {v : Verdict} {w' : World}
        → w'.sent ≡ w.sent
        → ((ip : Bytes) → v ≢ good ip)
        → Written faults tok w (v, w')
    one :
        (r : Record) (ip : Bytes) {v : Verdict} {w' : World}
        → lookup hash_token tok w.db ≡ ok r
        → str_eq r.last_ip (forms.ip_string ip) ≡ false
        → w'.sent ≡ w.sent ++ (update_of forms r ip ∷ [])
        → v ≡ (if faults.update_fails then dns_error else good ip)
        → Written faults tok w (v, w')

  do_update-Written :
      (faults : Faults) (now : ℕ) (tok : Bytes) (r : Record) (ip : Bytes) (w : World)
      → lookup hash_token tok w.db ≡ ok r
      → Written faults tok w (do_update forms faults now r ip w)
  unfolding do_update
  do_update-Written faults now tok r ip w found =
      elim (Bool-cases (str_eq r.last_ip (forms.ip_string ip))) [
        | inl same ↦ rw same (nothing refl (λ i h. cc h))
        | inr new ↦ rw new (asked new (Bool-cases faults.update_fails))
      ]
    where
      asked :
          str_eq r.last_ip (forms.ip_string ip) ≡ false
          → (faults.update_fails ≡ true) ⊎ (faults.update_fails ≡ false)
          → Written faults tok w (
              let asked_for = record w { sent = w.sent ++ (update_of forms r ip ∷ []) } in
              if faults.update_fails then (dns_error, asked_for) else (
                good ip,
                record asked_for {
                  db = stamped forms faults w.db (mark_updated now r.id (forms.ip_string ip) w.db);
                },
              ))
      asked new (inl fails) = rw fails (one r ip found new refl refl)
      asked new (inr works) = rw works (one r ip found new refl refl)

  with_ip-Written :
      (faults : Faults) (now : ℕ) (tok : Bytes) (r : Record) (w : World) (o : Result IpError Bytes)
      → lookup hash_token tok w.db ≡ ok r
      → Written faults tok w (with_ip forms faults now r w o)
  with_ip-Written faults now tok r w (err e) found = nothing refl (λ i h. cc h)
  with_ip-Written faults now tok r w (ok ip) found = do_update-Written faults now tok r ip w found

  looked_up-inv :
      (faults : Faults) (tok : Bytes) (w : World) (r : Record)
      → looked_up forms hash_token faults tok w ≡ some (ok r)
      → lookup hash_token tok w.db ≡ ok r
  looked_up-inv faults tok w r e = ground arith

  silent :
      (faults : Faults) (tok : Bytes) (w : World) (v : Verdict)
      → ((ip : Bytes) → v ≢ good ip)
      → Written faults tok w (v, w)
  silent faults tok w v ne = nothing refl ne

  gated :
      (faults : Faults) (tok : Bytes) (w : World) (b : Bool) (x y : Verdict × World)
      → Written faults tok w x
      → Written faults tok w y
      → Written faults tok w (if b then x else y)
  gated faults tok w true x y p q = p
  gated faults tok w false x y p q = q

  simple_found-Written :
      (nets : List IpNet) (faults : Faults) (now : ℕ) (r : Request) (tok override : Bytes)
      (w : World) (o : Option (Result StoreError Record))
      → looked_up forms hash_token faults tok w ≡ o
      → Written faults tok w (simple_found forms hash_token nets faults now r override w o)
  simple_found-Written nets faults now r tok override w none e = silent faults tok w _ (λ i h. cc h)
  simple_found-Written nets faults now r tok override w (some (err x)) e =
      silent faults tok w _ (λ i h. cc h)
  simple_found-Written nets faults now r tok override w (some (ok rec)) e =
      with_ip-Written faults now tok rec w (client_ip forms nets r override)
        (looked_up-inv faults tok w rec e)

  -- A request to /update/ writes to the DNS at most one update, and only of the name to which the
  -- store binds the token in its path; it answers `good` only for such an update.
  pub handle_simple-Written :
      (nets : List IpNet) (faults : Faults) (now : ℕ) (r : Request) (w : World)
      → Written faults
          (cut_slash (simple_path forms hash_token r)).0
          w
          (handle_simple forms hash_token nets faults now r w)
  unfolding handle_simple
  handle_simple-Written nets faults now r w =
      let cut = cut_slash (simple_path forms hash_token r) in
      gated faults cut.0 w (is_empty (simple_path forms hash_token r)) (missing_token, w) _
        (silent faults cut.0 w missing_token (λ i h. cc h))
        (simple_found-Written nets faults now r cut.0 (simple_override forms hash_token r cut.1) w
          (looked_up forms hash_token faults cut.0 w) refl)

  dyn_found-Written :
      (nets : List IpNet) (faults : Faults) (now : ℕ) (r : Request) (tok : Bytes) (w : World)
      (o : Option (Result StoreError Record))
      → looked_up forms hash_token faults tok w ≡ o
      → Written faults tok w (dyn_found forms hash_token nets faults now r w o)
  dyn_found-Written nets faults now r tok w none e = silent faults tok w _ (λ i h. cc h)
  dyn_found-Written nets faults now r tok w (some (err x)) e = silent faults tok w _ (λ i h. cc h)
  dyn_found-Written nets faults now r tok w (some (ok rec)) e =
      gated faults tok w (host_matches forms hash_token r rec) _ (no_host, w)
        (with_ip-Written faults now tok rec w (client_ip forms nets r (query_get "myip" r))
          (looked_up-inv faults tok w rec e))
        (silent faults tok w no_host (λ i h. cc h))

  -- A request to /nic/update writes to the DNS at most one update, and only of the name to which
  -- the store binds the request's token; it answers `good` only for such an update.
  pub handle_dyn_dns2-Written :
      (nets : List IpNet) (faults : Faults) (now : ℕ) (r : Request) (w : World)
      → Written faults
          (dyn_token forms hash_token r)
          w
          (handle_dyn_dns2 forms hash_token nets faults now r w)
  unfolding handle_dyn_dns2
  handle_dyn_dns2-Written nets faults now r w =
      let tok = dyn_token forms hash_token r in
      gated faults tok w (is_empty tok) (bad_auth, w) _ (silent faults tok w bad_auth (λ i h. cc h))
        (dyn_found-Written nets faults now r tok w (looked_up forms hash_token faults tok w) refl)
