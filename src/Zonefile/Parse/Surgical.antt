-- ===== src/Zonefile/Parse/Surgical.antt =====
-- What a parse guarantees of a file that may be edited in place.
use goddns.Base.{
  ℕ, true, List, Option, none, some, ◌≡◌, inl, inr, refl, ap, subst, ◌∙◌, arith, ◌==◌, length,
  filter, Bool-cases,
}
use goddns.Base.Strings.{Bytes, split}
use goddns.Base.Decimal.{parse_uint32}
use goddns.Base.Result.{Result, ok}
use goddns.Dns.{Rr, DnsLib}
use goddns.Zonefile.Scan.{TokPos}
use goddns.Zonefile.Entries.{Entry, tokenize_entries}
use goddns.Zonefile.Entries.Cover.{tokenize_entries-Covers}
use goddns.Zonefile.Entries.Tokens.{OnLines, EntryTokens, tokenize_entries-Tokens}
use goddns.Zonefile.Parse.{
  Reason, Rec, File, first_pass, is_resource, soa_serial, attach, check_serial, serial_matches,
  zip_records, resolved, unless_raw, start_file, parse,
}
use goddns.Zonefile.Parse.Attach.{
  ApartFrom, Covers-Spaced, All-filter, SoaApart, SerialOn, attach-Attached,
}

-- A file that may be edited in place: it has an SOA record and, on a line of that record and at
-- its own columns, a token that reads as the record's serial; no other record shares a line with
-- the SOA.
pub record IsSurgical (f : File) : Type 0 where
  pub soa : Rec
  pub soa_is : f.soa_rec ≡ some soa
  pub st : TokPos
  pub st_is : f.serial_tok ≡ some st
  pub on_soa : OnLines f.lines soa.start soa.end st
  pub reads : parse_uint32 st.text ≡ some (soa_serial f)
  pub apart : ApartFrom soa f.records

serial_matches-inv :
    (dns : DnsLib) (st : TokPos) (n : ℕ)
    → serial_matches dns (some st) n ≡ true
    → parse_uint32 st.text ≡ some n
serial_matches-inv dns st n e = ground arith

IsSurgical-of :
    (dns : DnsLib) (i : ℕ) (f : File) (o : Option Rec) (t : Option TokPos)
    → f.soa_rec ≡ o
    → f.serial_tok ≡ t
    → f.no_surgery ≡ none
    → SoaApart i f.records o
    → SerialOn f.lines o t
    → (check_serial dns f).no_surgery ≡ none
    → (check_serial dns f ≡ f) × IsSurgical f
unfolding check_serial
IsSurgical-of dns i f none t p q n a s c = absurd (ground arith)
IsSurgical-of dns i f (some r) none p q n a s c = absurd (ground arith)
IsSurgical-of dns i f (some r) (some st) p q n a s c =
    elim (Bool-cases (serial_matches dns f.serial_tok (soa_serial f))) [
      | inl same ↦ (
        ground arith,
        record {
          soa = r;
          soa_is = p;
          st = st;
          st_is = q;
          on_soa = s;
          reads = serial_matches-inv dns st (soa_serial f) (rw q at same);
          apart = a.1;
        },
      )
      | inr differs ↦ absurd (ground arith)
    ]

module _ (dns : DnsLib) (content origin : Bytes) where
  abbrev lines : List Bytes
  lines = split b'\n' content

  abbrev recs : List Entry
  recs = filter (λ e. is_resource e.kind) (tokenize_entries lines)

  abbrev start : File
  start = start_file dns lines origin (first_pass (tokenize_entries lines))

  zip-IsSurgical :
      (rrs : List Rr)
      → start.no_surgery ≡ none
      → (zip_records dns start recs rrs).no_surgery ≡ none
      → IsSurgical (zip_records dns start recs rrs)
  unfolding zip_records
  zip-IsSurgical rrs n h = elim (Bool-cases (length recs == length rrs)) [
    | inl same ↦
        let spaced =
          Covers-Spaced 0 (length lines) (tokenize_entries lines) (tokenize_entries-Covers lines) in
        let tokens =
          All-filter (EntryTokens lines) (λ e. is_resource e.kind) (tokenize_entries lines)
            (tokenize_entries-Tokens lines) in
        let (j, a, _, n') =
          attach-Attached dns 0 0 recs rrs start spaced tokens
            (record { ends = tt; apart = tt; serial = tt }) in
        let g = attach dns 0 recs rrs start in
        let (is_same, surgical) =
          IsSurgical-of dns j g g.soa_rec g.serial_tok refl refl (n' ∙ n) a.apart a.serial
            (rw same at h) in
        rw (same, is_same) surgical
    | inr differs ↦ absurd (ground arith)
  ]

  resolved-IsSurgical :
      (r : List Rr × Option Bytes) (f : File)
      → start.no_surgery ≡ none
      → resolved dns start recs r ≡ ok f
      → f.no_surgery ≡ none
      → IsSurgical f
  resolved-IsSurgical (rrs, some why) f n e h = cc
  resolved-IsSurgical (rrs, none) f n e h =
      let is : zip_records dns start recs rrs ≡ f = cc in
      subst IsSurgical is (zip-IsSurgical rrs n (ap (λ (g : File). g.no_surgery) is ∙ h))

  unless_raw-inv :
      (o : Option Reason) (rest : Result Bytes File) (f : File)
      → start.no_surgery ≡ o
      → unless_raw dns o start rest ≡ ok f
      → f.no_surgery ≡ none
      → (o ≡ none) × (rest ≡ ok f)
  unless_raw-inv none rest f s e h = (refl, e)
  unless_raw-inv (some why) rest f s e h = absurd (ground arith)

  -- A file that `Parse` returns with no reason against surgery is surgical, whatever the zone
  -- parser of the library returned.
  pub parse-IsSurgical :
      (f : File) → parse dns content origin ≡ ok f → f.no_surgery ≡ none → IsSurgical f
  unfolding parse
  parse-IsSurgical f e h =
      let (n, rest) = unless_raw-inv start.no_surgery _ f refl e h in
      resolved-IsSurgical (dns.parse_zone content (dns.fqdn origin)) f n rest h
