-- ===== src/Recordmut/Restore.antt =====
-- What the operations of a restore do to a zone, record by record.
use goddns.Base.{
  Bool, true, false, not, ◌&&◌, ◌||◌, List, [], ◌∷◌, ◌++◌, none, some, ◌≡◌, refl, ◌∙◌, arith,
  if◌then◌else◌, any,
}
use goddns.Base.Strings.{Bytes, str_eq, str_eq_iff}
use goddns.Base.Dict.{Dict, insert, lookup, lookup-insert}
use goddns.Base.Sort.{any-sort_by, str_lt}
use goddns.Dns.{Rr, DnsLib, Action, add_rr, del_rr, del_rrset, del_name, Op}
use goddns.Recordmut.{is_some, managed, rr_key, keyed, only_in, op_text, sort_ops, restore_ops}

abbrev same_action : Action → Action → Bool
same_action add_rr add_rr = true
same_action del_rr del_rr = true
same_action del_rrset del_rrset = true
same_action del_name del_name = true
same_action _ _ = false

module _ (dns : DnsLib) where
  -- A record that the operator owns has the key.
  abbrev pub has_key : Bytes → List Rr → Bool
  has_key k = any (λ r. not (managed r) && str_eq (rr_key dns r) k)

  -- The operation is the action on the record with the key.
  abbrev pub acts_on : Action → Bytes → Op → Bool
  acts_on act k op =
      same_action op.action act && elim op.rr [ none ↦ false | some rr ↦ str_eq (rr_key dns rr) k ]

  -- Whether a zone has the key after additions and exact deletions, as RFC 2136 does them.
  abbrev pub has_key_after : Bytes → List Op → List Rr → Bool
  has_key_after k ops live =
      has_key k live && not (any (acts_on del_rr k) ops) || any (acts_on add_rr k) ops

  lookup-keyed :
      (k : Bytes) (rs : List Rr) (m : Dict Rr)
      → is_some (lookup k (keyed dns rs m)) ≡ (has_key k rs || is_some (lookup k m))
  unfolding keyed
  lookup-keyed k [] m = refl
  lookup-keyed k (r ∷ rs) m = ground (
    arith,
    lookup-keyed k rs m,
    lookup-keyed k rs (insert (rr_key dns r) r m),
    lookup-insert (rr_key dns r) k r m,
  )

  -- Every entry stands under its own key, and is not managed.
  abbrev IsKeyed : Dict Rr → Type 0
  IsKeyed [] = Unit
  IsKeyed ((k, rr) ∷ m) = (rr_key dns rr ≡ k) × (managed rr ≡ false) × IsKeyed m

  insert-IsKeyed :
      (r : Rr) (m : Dict Rr) → managed r ≡ false → IsKeyed m → IsKeyed (insert (rr_key dns r) r m)
  unfolding insert
  insert-IsKeyed r [] f h = (refl, f, tt)
  insert-IsKeyed r ((k, s) ∷ m) f h = ground (arith, insert-IsKeyed r m f h.2)

  keyed-IsKeyed : (rs : List Rr) (m : Dict Rr) → IsKeyed m → IsKeyed (keyed dns rs m)
  unfolding keyed
  keyed-IsKeyed [] m h = h
  keyed-IsKeyed (r ∷ rs) m h = keyed-IsKeyed rs _ (step (managed r) refl)
    where
      step :
          (b : Bool) → managed r ≡ b → IsKeyed (if managed r then m else insert (rr_key dns r) r m)
      step true e = rw e h
      step false e = rw e (insert-IsKeyed r m e h)

  -- The operations of `only_in` name exactly the keys of the one map that the other has not.
  any-only_in :
      (act : Action) (k : Bytes) (m other : Dict Rr)
      → IsKeyed m
      → any (acts_on act k) (only_in dns act m other)
        ≡ (is_some (lookup k m) && not (is_some (lookup k other)))
  unfolding only_in
  any-only_in act k [] other h = refl
  any-only_in act k ((j, rr) ∷ m) other (j_is, f, h) = ground (
    arith,
    any-only_in act k m other h,
    str_eq_iff (rr_key dns rr) k,
    str_eq_iff j k,
    same_self act,
  )
    where
      same_self : (act : Action) → same_action act act ≡ true
      same_self add_rr = refl
      same_self del_rr = refl
      same_self del_rrset = refl
      same_self del_name = refl

  any-only_in_other :
      (act other_act : Action) (k : Bytes) (m other : Dict Rr)
      → same_action other_act act ≡ false
      → any (acts_on act k) (only_in dns other_act m other) ≡ false
  unfolding only_in
  any-only_in_other act other_act k [] other ne = refl
  any-only_in_other act other_act k ((j, rr) ∷ m) other ne =
      ground (arith, any-only_in_other act other_act k m other ne)

  any-append : (p : Op → Bool) (xs ys : List Op) → any p (xs ++ ys) ≡ (any p xs || any p ys)
  any-append p [] ys = refl
  any-append p (x ∷ xs) ys = ground (arith, any-append p xs ys)

  restored :
      (act : Action) (k : Bytes) (want live : List Rr)
      → any (acts_on act k) (restore_ops dns want live) ≡ (
          any (acts_on act k) (only_in dns del_rr (keyed dns live []) (keyed dns want []))
          || any (acts_on act k) (only_in dns add_rr (keyed dns want []) (keyed dns live [])))
  unfolding restore_ops sort_ops
  restored act k want live =
      let less = λ (a b : Op). str_lt (op_text dns a) (op_text dns b) in
      let dels = only_in dns del_rr (keyed dns live []) (keyed dns want []) in
      let adds = only_in dns add_rr (keyed dns want []) (keyed dns live []) in
      any-append (acts_on act k) (sort_ops dns dels) (sort_ops dns adds)
      ∙ rw (any-sort_by less (acts_on act k) dels) (rw (any-sort_by less (acts_on act k) adds) refl)

  or_nothing : (k : Bytes) (b : Bool) → (b || is_some (lookup {V = Rr} k [])) ≡ b
  unfolding lookup
  or_nothing k true = refl
  or_nothing k false = refl

  -- A restore deletes exactly the keys that the live zone has and the snapshot has not, adds
  -- exactly those that the snapshot has and the live zone has not, and so leaves a zone with the
  -- snapshot's keys, of the records that BIND does not manage.
  pub has_key-restore_ops :
      (k : Bytes) (want live : List Rr)
      → let ops = restore_ops dns want live in
        (any (acts_on del_rr k) ops ≡ (has_key k live && not (has_key k want)))
        × (any (acts_on add_rr k) ops ≡ (has_key k want && not (has_key k live)))
        × (has_key_after k ops live ≡ has_key k want)
  has_key-restore_ops k want live =
      let w = keyed dns want [] in
      let l = keyed dns live [] in
      let in_want : is_some (lookup k w) ≡ has_key k want =
        lookup-keyed k want [] ∙ or_nothing k (has_key k want) in
      let in_live : is_some (lookup k l) ≡ has_key k live =
        lookup-keyed k live [] ∙ or_nothing k (has_key k live) in
      let dels = any-only_in del_rr k l w (keyed-IsKeyed live [] tt) in
      let adds = any-only_in add_rr k w l (keyed-IsKeyed want [] tt) in
      let no_adds = any-only_in_other add_rr del_rr k l w refl in
      let no_dels = any-only_in_other del_rr add_rr k w l refl in
      from (has_key k want) (has_key k live) _ _
        (restored del_rr k want live ∙ ground (arith, in_want, in_live, dels, no_dels))
        (restored add_rr k want live ∙ ground (arith, in_want, in_live, adds, no_adds))
    where
      from :
          (w l d a : Bool)
          → d ≡ (l && not w)
          → a ≡ (w && not l)
          → (d ≡ (l && not w)) × (a ≡ (w && not l)) × ((l && not d || a) ≡ w)
      from w l d a hd ha = ground arith
