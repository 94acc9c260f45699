-- ===== src/Zonefile/Edit/Outcome.antt =====
-- The file that an edit of a parsed file gives back.
use goddns.Base.{
  ℕ, ◌+◌, ◌<◌, Bool, false, List, [], ◌∷◌, some, ◌≡◌, ◌≢◌, refl, sym, ap, ◌∙◌, arith, any,
  get_elem?,
}
use goddns.Base.Strings.{Bytes, join}
use goddns.Base.Decimal.{parse_uint32}
use goddns.Base.Result.{ok}
use goddns.Dns.{DnsLib, Op}
use goddns.Zonefile.Scan.{TokPos}
use goddns.Zonefile.Parse.{File, soa_serial, parse}
use goddns.Zonefile.Parse.Surgical.{IsSurgical, parse-IsSurgical}
use goddns.Zonefile.Edit.{Date, next_serial, set_serial, drop_lines, append_records, edit}
use goddns.Zonefile.Edit.Serial.{reread, next_serial_bounds, set_serial_lem}
use goddns.Zonefile.Edit.Spec.{starts_at, all_targets, all_adds, Edited, edit_lem}
use goddns.Zonefile.Edit.Keeps.{
  moved_to, moved_to-lt, get_elem?-drop_lines, get_elem?-append_records, none_starts,
  parse_uint32-lt, reread_nil, all_targets-All,
}

module _ (dns : DnsLib) (today : Date) (f : File) (ops : List Op) where
  -- A record that some operation deletes starts on the line.
  abbrev pub deleted : ℕ → Bool
  deleted i = any (starts_at i) (all_targets dns f ops)

  -- The line `k` of the file, in the result.
  abbrev pub place : ℕ → ℕ
  place = moved_to deleted 0

  -- The lines of the result: the serial's line is there, with a greater serial in place of the
  -- old one, and so is, unchanged, every other line that is not blank and not deleted.
  pub record Outcome (out : Bytes) : Type 0 where
    pub res : List Bytes
    pub out_is : out ≡ join b'\n' res
    pub st : TokPos
    pub st_is : f.serial_tok ≡ some st
    pub serial_line : Bytes
    pub serial_kept : get_elem? res (place st.line) ≡ some serial_line
    pub serial_reads :
        parse_uint32 (reread st (next_serial today (soa_serial f)) serial_line)
        ≡ some (next_serial today (soa_serial f))
    pub others_kept :
        (k c : ℕ) (l : Bytes)
        → st.line ≢ k
        → deleted k ≡ false
        → get_elem? f.lines k ≡ some (c ∷ l)
        → get_elem? res (place k) ≡ some (c ∷ l)
    pub in_order : (k m : ℕ) → k < m → deleted k ≡ false → place k < place m

  abbrev bumped : TokPos → List Bytes
  bumped st = set_serial st (next_serial today (soa_serial f)) f.lines

  abbrev result_lines : TokPos → List Bytes
  result_lines st = append_records (drop_lines deleted 0 (bumped st)) (all_adds dns ops)

  line_kept :
      (st : TokPos) (k : ℕ) (l : Bytes)
      → get_elem? (bumped st) k ≡ some l
      → l ≢ []
      → deleted k ≡ false
      → get_elem? (result_lines st) (place k) ≡ some l
  line_kept st k [] e ne d = absurd (ne refl)
  line_kept st k (c ∷ l) e ne d =
      let same : 0 + k ≡ k = omega arith in
      get_elem?-append_records (drop_lines deleted 0 (bumped st)) (all_adds dns ops) (place k) c l
        (get_elem?-drop_lines deleted 0 k (bumped st) (c ∷ l) e (ap deleted same ∙ d))

  ne_nil : (st : TokPos) (n : ℕ) (l : Bytes) → parse_uint32 (reread st n l) ≡ some n → l ≢ []
  ne_nil st n [] e = λ h. cc (e, reread_nil st n)
  ne_nil st n (c ∷ l) e = λ h. cc h

  Outcome-of :
      (out : Bytes) (s : IsSurgical f) (e : Edited dns today f ops out) → s.st ≡ e.st → Outcome out
  Outcome-of out s e same =
      let next = next_serial today (soa_serial f) in
      let (lo, hi, at) = s.on_soa in
      let small =
        next_serial_bounds today (soa_serial f)
          (parse_uint32-lt s.st.text (soa_serial f) s.reads) in
      let spared =
        none_starts f s.soa s.st.line (all_targets dns f ops) s.soa_is
          (all_targets-All dns _ f ops s.apart) e.may lo hi in
      let (others, (l', at', reads, _, _)) =
        set_serial_lem s.st next f.lines at.text_line small.0 at.at_line
          (omega (arith, at.non_empty, at.inside)) in
      record {
        res = result_lines s.st;
        out_is = rw same e.out_is;
        st = s.st;
        st_is = s.st_is;
        serial_line = l';
        serial_kept = line_kept s.st s.st.line l' at' (ne_nil s.st next l' reads) spared;
        serial_reads = reads;
        others_kept = λ k c l ne d e'. line_kept s.st k (c ∷ l) (others k ne ∙ e') (λ h. cc h) d;
        in_order = λ k m lt d. moved_to-lt deleted 0 k m lt (ap deleted (zero_left k) ∙ d);
      }
    where
      zero_left : (k : ℕ) → 0 + k ≡ k
      zero_left k = omega arith

pub edit-Outcome :
    (dns : DnsLib) (today : Date) (content origin : Bytes) (f : File) (ops : List Op) (out : Bytes)
    → parse dns content origin ≡ ok f
    → edit dns today f ops ≡ ok out
    → Outcome dns today f ops out
edit-Outcome dns today content origin f ops out p e =
    let done = edit_lem dns today f ops out e in
    let s = parse-IsSurgical dns content origin f p done.surgical in
    Outcome-of dns today f ops out s done (some_inj (sym s.st_is ∙ done.located))
  where
    some_inj : {a b : TokPos} → some a ≡ some b → a ≡ b
    some_inj h = cc
