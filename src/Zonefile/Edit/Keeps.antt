-- ===== src/Zonefile/Edit/Keeps.antt =====
-- What an edit keeps: every line at which no deleted record starts, the serial's among them.
use goddns.Base.{
  ℕ, zero, suc, ◌+◌, ◌≤◌, ◌<◌, Bool, true, false, List, [], ◌∷◌, ◌++◌, Option, none, some, ◌≡◌,
  refl, sym, ap, ◌∙◌, arith, ◌==◌, if◌then◌else◌, any, All, get_elem?, length, take, drop, ◌-◌, ◌^◌,
  find?, filter, ◌⊎◌,
}
use goddns.Base.Strings.{Bytes}
use goddns.Base.Decimal.{show_nat, parse_uint32}
use goddns.Base.Result.{ok}
use goddns.Dns.{Rr, DnsLib, Action, add_rr, del_rr, del_rrset, del_name, Op}
use goddns.Zonefile.Scan.{TokPos}
use goddns.Zonefile.Parse.{Rec, File}
use goddns.Zonefile.Parse.Attach.{Disjoint, ApartFrom}
use goddns.Zonefile.Edit.{
  drop_lines, append_records, can_delete, targets, to_list, ends_blank, without_last,
}
use goddns.Zonefile.Edit.Serial.{reread}
use goddns.Zonefile.Edit.Spec.{starts_at, MayDelete, op_targets, all_targets}

-- The number that line `i + k` gets when lines from `i` on are dropped.
unfoldable pub moved_to : (ℕ → Bool) → ℕ → ℕ → ℕ
moved_to del i zero = 0
moved_to del i (suc k) = (if del i then 0 else 1) + moved_to del (i + 1) k

-- Lines that are kept stay in order.
pub moved_to-lt :
    (del : ℕ → Bool) (i k m : ℕ) → k < m → del (i + k) ≡ false → moved_to del i k < moved_to del i m
unfolding moved_to
moved_to-lt del i k zero h d = omega arith
moved_to-lt del i zero (suc m) h d =
    let same : i + 0 ≡ i = omega arith in
    let kept : del i ≡ false = sym (ap del same) ∙ d in rw kept (omega arith)
moved_to-lt del i (suc k) (suc m) h d =
    let same : i + 1 + k ≡ i + suc k = omega arith in
    let ih = moved_to-lt del (i + 1) k m (omega arith) (ap del same ∙ d) in omega (arith, ih)

pub get_elem?-drop_lines :
    (del : ℕ → Bool) (i k : ℕ) (ls : List Bytes) (l : Bytes)
    → get_elem? ls k ≡ some l
    → del (i + k) ≡ false
    → get_elem? (drop_lines del i ls) (moved_to del i k) ≡ some l
unfolding drop_lines moved_to
get_elem?-drop_lines del i zero [] l e d = cc
get_elem?-drop_lines del i (suc k) [] l e d = cc
get_elem?-drop_lines del i zero (x ∷ ls) l e d = ground arith
get_elem?-drop_lines del i (suc k) (x ∷ ls) l e d =
    let same : i + 1 + k ≡ i + suc k = omega arith in
    ground (arith, get_elem?-drop_lines del (i + 1) k ls l e (ap del same ∙ d))

get_elem?-append :
    (xs ys : List Bytes) (k : ℕ) (l : Bytes)
    → get_elem? xs k ≡ some l
    → get_elem? (xs ++ ys) k ≡ some l
get_elem?-append [] ys k l e = cc
get_elem?-append (x ∷ xs) ys zero l e = e
get_elem?-append (x ∷ xs) ys (suc k) l e = get_elem?-append xs ys k l e

get_elem?-without_last :
    (xs : List Bytes) (k c : ℕ) (l : Bytes)
    → ends_blank xs ≡ true
    → get_elem? xs k ≡ some (c ∷ l)
    → get_elem? (without_last xs) k ≡ some (c ∷ l)
unfolding ends_blank without_last
get_elem?-without_last [] k c l b e = cc
get_elem?-without_last (x ∷ []) zero c l b e = ground arith
get_elem?-without_last (x ∷ []) (suc k) c l b e = cc
get_elem?-without_last (x ∷ y ∷ xs) zero c l b e = e
get_elem?-without_last (x ∷ y ∷ xs) (suc k) c l b e = get_elem?-without_last (y ∷ xs) k c l b e

-- A line that is not blank stays where it is when records are added.
pub get_elem?-append_records :
    (res adds : List Bytes) (k c : ℕ) (l : Bytes)
    → get_elem? res k ≡ some (c ∷ l)
    → get_elem? (append_records res adds) k ≡ some (c ∷ l)
unfolding append_records
get_elem?-append_records res adds k c l e = ground (
  arith,
  get_elem?-append res adds k (c ∷ l) e,
  λ (b : ends_blank res ≡ true).
      get_elem?-append (without_last res) (adds ++ ([] ∷ [])) k (c ∷ l)
        (get_elem?-without_last res k c l b e),
)

All-filter : (P : Rec → Type 0) (p : Rec → Bool) (rs : List Rec) → All P rs → All P (filter p rs)
All-filter P p [] h = tt
All-filter P p (r ∷ rs) h = ground (arith, All-filter P p rs h.1)

All-find? :
    (P : Rec → Type 0) (p : Rec → Bool) (rs : List Rec) → All P rs → All P (to_list (find? p rs))
All-find? P p [] h = tt
All-find? P p (r ∷ rs) h = ground (arith, All-find? P p rs h.1)

All-append : (P : Rec → Type 0) (rs ss : List Rec) → All P rs → All P ss → All P (rs ++ ss)
All-append P [] ss a b = b
All-append P (r ∷ rs) ss a b = (a.0, All-append P rs ss a.1 b)

module _ (dns : DnsLib) where
  -- Only records of the file are ever deleted.
  targets-All :
      (P : Rec → Type 0) (f : File) (act : Action) (rr : Rr)
      → All P f.records
      → All P (targets dns f act rr)
  unfolding targets
  targets-All P f add_rr rr h = tt
  targets-All P f del_rr rr h = All-find? P _ f.records h
  targets-All P f del_rrset rr h = All-filter P _ f.records h
  targets-All P f del_name rr h = All-filter P _ f.records h

  pub all_targets-All :
      (P : Rec → Type 0) (f : File) (ops : List Op)
      → All P f.records
      → All P (all_targets dns f ops)
  all_targets-All P f [] h = tt
  all_targets-All P f (op ∷ ops) h = step op.action op.rr (all_targets-All P f ops h)
    where
      step :
          (act : Action) (o : Option Rr)
          → All P (all_targets dns f ops)
          → All P (op_targets dns f act o ++ all_targets dns f ops)
      step act none rest = rest
      step act (some rr) rest =
          All-append P (targets dns f act rr) (all_targets dns f ops) (targets-All P f act rr h)
            rest

-- A record that may be deleted is not the SOA and starts on no line of it.
can_delete-Off :
    (f : File) (soa r : Rec) (i : ℕ)
    → f.soa_rec ≡ some soa
    → (r.pos ≡ soa.pos) ⊎ Disjoint r soa
    → can_delete f r ≡ ok tt
    → soa.start ≤ i
    → i ≤ soa.end
    → (r.start == i) ≡ false
unfolding can_delete
can_delete-Off f soa r i s a c lo hi = ground arith

pub none_starts :
    (f : File) (soa : Rec) (i : ℕ) (rs : List Rec)
    → f.soa_rec ≡ some soa
    → ApartFrom soa rs
    → MayDelete f rs
    → soa.start ≤ i
    → i ≤ soa.end
    → any (starts_at i) rs ≡ false
none_starts f soa i [] s a m lo hi = refl
none_starts f soa i (r ∷ rs) s a m lo hi =
    ground (arith, can_delete-Off f soa r i s a.0 m.0 lo hi, none_starts f soa i rs s a.1 m.1 lo hi)

pub parse_uint32-lt : (s : Bytes) (n : ℕ) → parse_uint32 s ≡ some n → n < 2 ^ 32
unfolding parse_uint32
parse_uint32-lt s n e = ground arith

drop_nil : (n : ℕ) (s : Bytes) → s ≡ [] → drop n s ≡ []
drop_nil zero s e = e
drop_nil (suc n) [] e = refl
drop_nil (suc n) (c ∷ s) e = cc

take_nil : (n : ℕ) (s : Bytes) → s ≡ [] → take n s ≡ []
take_nil zero s e = refl
take_nil (suc n) [] e = refl
take_nil (suc n) (c ∷ s) e = cc

pub reread_nil : (st : TokPos) (n : ℕ) → parse_uint32 (reread st n []) ≡ none
unfolding parse_uint32
reread_nil st n =
    rw
      (take_nil (st.start + length (show_nat n) - st.start) (drop st.start [])
        (drop_nil st.start [] refl))
      refl
