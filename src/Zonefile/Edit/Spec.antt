-- ===== src/Zonefile/Edit/Spec.antt =====
-- What an edit that succeeds has done, said of the records that its operations name.
use mathlib.Core.Path.{fun_ext}
use goddns.Base.{
  ℕ, Bool, ◌||◌, List, [], ◌∷◌, ◌++◌, Option, none, some, ◌≡◌, refl, ap, ◌∙◌, arith, ◌==◌, any, All,
  append-nil, append_assoc,
}
use goddns.Base.Strings.{Bytes, join}
use goddns.Base.Result.{Result, ok, bind-eq-ok}
use goddns.Dns.{Rr, DnsLib, Action, Op}
use goddns.Zonefile.Scan.{TokPos}
use goddns.Zonefile.Parse.{Reason, Rec, File, soa_serial}
use goddns.Zonefile.Edit.{
  EditError, Date, next_serial, set_serial, drop_lines, append_records, can_delete, Plan,
  delete_all, targets, adds_of, apply_op, apply_ops, is_listed, finish, unless_raw, edit,
}

-- A test of the first line of a record.
abbrev pub starts_at : ℕ → Rec → Bool
starts_at i r = r.start == i

abbrev pub MayDelete : File → List Rec → Type 0
MayDelete f = All (λ r. can_delete f r ≡ ok tt)

any-append : (p : Rec → Bool) (rs ss : List Rec) → any p (rs ++ ss) ≡ (any p rs || any p ss)
any-append p [] ss = refl
any-append p (r ∷ rs) ss = ground (arith, any-append p rs ss)

All-append : (P : Rec → Type 0) (rs ss : List Rec) → All P rs → All P ss → All P (rs ++ ss)
All-append P [] ss a b = b
All-append P (r ∷ rs) ss a b = (a.0, All-append P rs ss a.1 b)

delete_all_lem :
    (f : File) (rs : List Rec) (p q : Plan)
    → delete_all f rs p ≡ ok q
    → MayDelete f rs
      × (q.adds ≡ p.adds)
      × ((i : ℕ) → is_listed q.del i ≡ (any (starts_at i) rs || is_listed p.del i))
unfolding delete_all
delete_all_lem f [] p q e = ground arith
delete_all_lem f (r ∷ rs) p q e =
    let (u, may, rest) =
      bind-eq-ok (can_delete f r) (λ _. delete_all f rs (record p { del = r.start ∷ p.del })) e in
    let (all_may, adds, listed) = delete_all_lem f rs (record p { del = r.start ∷ p.del }) q rest in
    ((may, all_may), adds, λ i. ground (arith, listed i))

unless_raw-eq-ok {ℓ} :
    {A : Type ℓ} (o : Option Reason) (rest : Result EditError A) {a : A}
    → unless_raw o rest ≡ ok a
    → (o ≡ none) × (rest ≡ ok a)
unless_raw-eq-ok none rest e = (refl, e)
unless_raw-eq-ok (some why) rest e = cc

module _ (dns : DnsLib) where
  abbrev pub op_targets : File → Action → Option Rr → List Rec
  op_targets f act none = []
  op_targets f act (some rr) = targets dns f act rr

  -- The records that some deletion names.
  abbrev pub all_targets : File → List Op → List Rec
  all_targets f [] = []
  all_targets f (op ∷ ops) = op_targets f op.action op.rr ++ all_targets f ops

  abbrev op_adds : Action → Option Rr → List Bytes
  op_adds act none = []
  op_adds act (some rr) = adds_of act rr

  -- The texts of the records that are added.
  abbrev pub all_adds : List Op → List Bytes
  all_adds [] = []
  all_adds (op ∷ ops) = op_adds op.action op.rr ++ all_adds ops

  -- What a run of operations adds to a plan.
  record Gathered (f : File) (rs : List Rec) (texts : List Bytes) (p q : Plan) : Type 0 where
    may : MayDelete f rs
    adds : q.adds ≡ p.adds ++ texts
    listed : (i : ℕ) → is_listed q.del i ≡ (any (starts_at i) rs || is_listed p.del i)

  apply_op_lem :
      (f : File) (act : Action) (o : Option Rr) (p q : Plan)
      → apply_op dns f act o p ≡ ok q
      → Gathered f (op_targets f act o) (op_adds act o) p q
  apply_op_lem f act none p q e = cc
  apply_op_lem f act (some rr) p q e =
      let (may, adds, listed) = delete_all_lem f (targets dns f act rr) _ q e in
      record { may = may; adds = adds; listed = listed }

  apply_ops_lem :
      (f : File) (ops : List Op) (p q : Plan)
      → apply_ops dns f ops p ≡ ok q
      → Gathered f (all_targets f ops) (all_adds ops) p q
  unfolding apply_ops
  apply_ops_lem f [] p q e = record {
    may = tt;
    adds = ground (arith, append-nil p.adds);
    listed = λ i. ground arith;
  }
  apply_ops_lem f (op ∷ ops) p q e =
      let (m, first, rest) =
        bind-eq-ok (apply_op dns f op.action op.rr p) (apply_ops dns f ops) e in
      let g = apply_op_lem f op.action op.rr p m first in
      let h = apply_ops_lem f ops m q rest in
      record {
        may = All-append _ (op_targets f op.action op.rr) (all_targets f ops) g.may h.may;
        adds =
            h.adds
            ∙ ap (λ (a : List Bytes). a ++ all_adds ops) g.adds
            ∙ append_assoc p.adds (op_adds op.action op.rr) (all_adds ops);
        listed = λ i. ground (
          arith,
          g.listed i,
          h.listed i,
          any-append (starts_at i) (op_targets f op.action op.rr) (all_targets f ops),
        );
      }

  drop_lines_ext :
      (a b : ℕ → Bool) (i : ℕ) (ls : List Bytes)
      → ((k : ℕ) → a k ≡ b k)
      → drop_lines a i ls ≡ drop_lines b i ls
  drop_lines_ext a b i ls h = ap (λ (t : ℕ → Bool). drop_lines t i ls) (fun_ext h)

  -- The result of an edit: the bumped lines, without those at which a named record starts, and the
  -- added records.
  pub record Edited (today : Date) (f : File) (ops : List Op) (out : Bytes) : Type 0 where
    pub surgical : f.no_surgery ≡ none
    pub st : TokPos
    pub located : f.serial_tok ≡ some st
    pub may : MayDelete f (all_targets f ops)
    pub out_is :
        out
        ≡ join b'\n' (
            append_records
              (drop_lines
                (λ i. any (starts_at i) (all_targets f ops))
                0
                (set_serial st (next_serial today (soa_serial f)) f.lines))
              (all_adds ops))

  finish_lem :
      (today : Date) (f : File) (ops : List Op) (o : Option TokPos) (q : Plan) (out : Bytes)
      → f.no_surgery ≡ none
      → f.serial_tok ≡ o
      → Gathered f (all_targets f ops) (all_adds ops) (record { del = []; adds = [] }) q
      → finish today f o q ≡ ok out
      → Edited today f ops out
  finish_lem today f ops none q out s l g e = cc
  finish_lem today f ops (some st) q out s l g e = record {
    surgical = s;
    st = st;
    located = l;
    may = g.may;
    out_is = ground (
      arith,
      g.adds,
      drop_lines_ext (is_listed q.del) (λ i. any (starts_at i) (all_targets f ops)) 0
          (set_serial st (next_serial today (soa_serial f)) f.lines)
          (λ i. ground (arith, g.listed i)),
    );
  }

  pub edit_lem :
      (today : Date) (f : File) (ops : List Op) (out : Bytes)
      → edit dns today f ops ≡ ok out
      → Edited today f ops out
  unfolding edit
  edit_lem today f ops out e =
      let (surgical, run) = unless_raw-eq-ok f.no_surgery _ e in
      let (q, planned, finished) =
        bind-eq-ok (apply_ops dns f ops (record { del = []; adds = [] }))
          (finish today f f.serial_tok) run in
      finish_lem today f ops f.serial_tok q out surgical refl
        (apply_ops_lem f ops (record { del = []; adds = [] }) q planned) finished
