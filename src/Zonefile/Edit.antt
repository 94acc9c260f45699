-- ===== src/Zonefile/Edit.antt =====
-- `Edit` and `SerialFloor` of internal/zonefile/zonefile.go. The date of today is an argument.
pub mod Serial
pub mod Spec
pub mod Keeps
pub mod Outcome
use goddns.Base.{
  ℕ, zero, suc, ◌+◌, ◌*◌, ◌%◌, ◌^◌, Bool, true, false, not, ◌&&◌, ◌||◌, List, [], ◌∷◌, ◌++◌, Option,
  none, some, ltb, leb, ◌==◌, if◌then◌else◌, filter, find?, any, take, drop, is_empty,
}
use goddns.Base.Strings.{Bytes, bytes, str_eq, to_lower, equal_fold, trim_suffix, trim_prefix, join}
use goddns.Base.Decimal.{show_nat}
use goddns.Base.Result.{Result, ok, err, ◌>>=◌, ◌>>◌, check}
use goddns.Dns.{Rr, DnsLib, Action, add_rr, del_rr, del_rrset, del_name, Op}
use goddns.Zonefile.Scan.{TokPos}
use goddns.Zonefile.Parse.{Reason, Rec, File, soa_serial}

-- `*UnsafeError`, by its reason, and the plain errors.
pub data EditError : Type 0 where
  raw_mode : Reason → EditError
  deletes_soa : EditError
  not_single_line : ℕ → EditError
  next_inherits_owner : ℕ → EditError
  next_inherits_ttl : ℕ → EditError
  no_record : EditError
  no_serial_token : EditError

pub record Date : Type 0 where
  pub year : ℕ
  pub month : ℕ
  pub day : ℕ

abbrev u32 : ℕ
u32 = 2 ^ 32

-- `nextSerial`, in uint32 arithmetic.
unfoldable pub date_base : Date → ℕ
date_base d = (d.year * 1_000_000 + d.month * 10_000 + d.day * 100) % u32

unfoldable pub next_serial : Date → ℕ → ℕ
unfolding date_base
next_serial today cur =
    let next = (cur + 1) % u32 in let base = date_base today in if ltb next base then base else next

-- `line[:start] + text + line[end:]`.
abbrev pub splice : ℕ → ℕ → Bytes → Bytes → Bytes
splice i j text line = take i line ++ (text ++ drop j line)

-- A line of the file, changed.
unfoldable pub change_line : ℕ → (Bytes → Bytes) → List Bytes → List Bytes
change_line i f [] = []
change_line zero f (l ∷ ls) = f l ∷ ls
change_line (suc i) f (l ∷ ls) = l ∷ change_line i f ls

-- The lines with a serial in place of the located token.
unfoldable pub set_serial : TokPos → ℕ → List Bytes → List Bytes
unfolding change_line
set_serial st next = change_line st.line (splice st.start st.end (show_nat next))

-- The lines whose numbers, from `i` on, do not pass the test.
unfoldable pub drop_lines : (ℕ → Bool) → ℕ → List Bytes → List Bytes
drop_lines del i [] = []
drop_lines del i (l ∷ ls) = let rest = drop_lines del (i + 1) ls in if del i then rest else l ∷ rest

unfoldable pub ends_blank : List Bytes → Bool
ends_blank [] = false
ends_blank (l ∷ []) = is_empty l
ends_blank (l ∷ k ∷ ls) = ends_blank (k ∷ ls)

unfoldable pub without_last : List Bytes → List Bytes
without_last [] = []
without_last (l ∷ []) = []
without_last (l ∷ k ∷ ls) = l ∷ without_last (k ∷ ls)

-- `appendRecords`.
unfoldable pub append_records : List Bytes → List Bytes → List Bytes
unfolding ends_blank without_last
append_records res adds =
    if is_empty adds
    then res
    else if ends_blank res
    then without_last res ++ (adds ++ ([] ∷ []))
    else res ++ adds

-- `nextRecord`.
unfoldable pub next_record : File → Rec → Option Rec
next_record f r = find? (λ x. x.pos == r.pos + 1) f.records

abbrev is_soa : Option Rec → Rec → Bool
is_soa none r = false
is_soa (some s) r = r.pos == s.pos

abbrev after_ok : File → Rec → Option Rec → Result EditError (Unit {0})
after_ok f r none = ok tt
after_ok f r (some nxt) =
    if not nxt.explicit
    then err (next_inherits_owner (r.start + 1))
    else if not f.has_ttl_direc && not nxt.explicit_ttl
    then err (next_inherits_ttl (r.start + 1))
    else ok tt

-- `canDelete`.
unfoldable pub can_delete : File → Rec → Result EditError (Unit {0})
unfolding next_record
can_delete f r =
    if is_soa f.soa_rec r
    then err deletes_soa
    else if not r.explicit || not (r.start == r.end)
    then err (not_single_line (r.start + 1))
    else after_ok f r (next_record f r)

-- What `Edit` has gathered: the lines to drop and the records to add.
pub record Plan : Type 0 where
  pub del : List ℕ
  pub adds : List Bytes

unfoldable pub delete_all : File → List Rec → Plan → Result EditError Plan
unfolding can_delete
delete_all f [] p = ok p
delete_all f (r ∷ rs) p = can_delete f r >> delete_all f rs (record p { del = r.start ∷ p.del })

abbrev pub to_list : Option Rec → List Rec
to_list none = []
to_list (some r) = r ∷ []

abbrev pub adds_of : Action → Rr → List Bytes
adds_of add_rr rr = rr.text ∷ []
adds_of _ rr = []

abbrev pub is_listed : List ℕ → ℕ → Bool
is_listed del i = any (λ d. d == i) del

-- The end of `Edit`. A file with no located serial would panic here; none is surgical.
abbrev pub finish : Date → File → Option TokPos → Plan → Result EditError Bytes
finish today f none p = err no_serial_token
finish today f (some st) p =
    let out = set_serial st (next_serial today (soa_serial f)) f.lines in
    ok (join b'\n' (append_records (drop_lines (is_listed p.del) 0 out) p.adds))

abbrev pub unless_raw {ℓ} : {A : Type ℓ} → Option Reason → Result EditError A → Result EditError A
unless_raw (some why) rest = err (raw_mode why)
unless_raw none rest = rest

module _ (dns : DnsLib) where
  -- `rrKey`.
  unfoldable pub rr_key : Rr → Bytes
  unfolding to_lower trim_suffix trim_prefix
  rr_key rr =
      to_lower (trim_suffix rr.name (bytes "."))
      ++ (b' ' ∷ (dns.type_to_string rr.rrtype ++ (b' ' ∷ trim_prefix rr.text rr.header_text)))

  abbrev pub same_key : Rr → Rec → Bool
  same_key rr r = str_eq (rr_key r.rr) (rr_key rr)

  abbrev pub same_name : Rr → Rec → Bool
  same_name rr r = equal_fold r.rr.name rr.name

  -- The records that `findExact`, `findRRset` and `findName` give for a deletion.
  unfoldable pub targets : File → Action → Rr → List Rec
  unfolding rr_key equal_fold str_eq
  targets f add_rr rr = []
  targets f del_rr rr = to_list (find? (same_key rr) f.records)
  targets f del_rrset rr = filter (λ r. same_name rr r && r.rr.rrtype == rr.rrtype) f.records
  targets f del_name rr = filter (same_name rr) f.records

  abbrev pub apply_op : File → Action → Option Rr → Plan → Result EditError Plan
  apply_op f act none p = err no_record
  apply_op f act (some rr) p =
      delete_all f (targets f act rr) (record p { adds = p.adds ++ adds_of act rr })

  unfoldable pub apply_ops : File → List Op → Plan → Result EditError Plan
  unfolding delete_all targets
  apply_ops f [] p = ok p
  apply_ops f (op ∷ ops) p = apply_op f op.action op.rr p >>= apply_ops f ops

  -- `Edit`.
  unfoldable pub edit : Date → File → List Op → Result EditError Bytes
  unfolding apply_ops set_serial next_serial soa_serial drop_lines append_records join
  edit today f ops =
      unless_raw f.no_surgery
        (apply_ops f ops (record { del = []; adds = [] }) >>= finish today f f.serial_tok)

abbrev pub floor_of : ℕ → ℕ → ℕ
floor_of base floor = if ltb base floor then floor else base

abbrev pub set_floor : Date → File → ℕ → Option TokPos → Option Bytes
set_floor today f floor none = none
set_floor today f floor (some st) =
    some (join b'\n' (set_serial st (next_serial today (floor_of (soa_serial f) floor)) f.lines))

-- `SerialFloor`; `none` is its `*UnsafeError`.
unfoldable pub serial_floor : Date → File → ℕ → Option Bytes
unfolding set_serial next_serial soa_serial join
serial_floor today f floor = elim f.no_surgery [
  | some why ↦ none
  | none ↦ set_floor today f floor f.serial_tok
]
