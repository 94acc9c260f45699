-- ===== src/Tests/Delegation.antt =====
-- Runs of the delegation and serial checks of internal/named.
use Prim.Native.String.{String}
use goddns.Base.{ℕ, Bool, true, false, List, [], ◌∷◌, ◌++◌, none, ◌≡◌, refl, all}
use goddns.Base.Strings.{bytes, str_eq}
use goddns.Dns.{Body, soa, ns, a, Rr, DnsLib}
use goddns.Named.Serials.{
  NsCheck, serial_mismatch, zone_serial_check, serials_agree, seen_onto, count_in,
}
use goddns.Named.Delegation.{
  address_index, addresses, index_onto, apex_ns, apex_onto, primary_of, glue_findings,
  check_delegation,
}
use goddns.Named.Delegation.Quiet.{is_quiet}

abbrev dns : DnsLib
dns = record {
  fqdn = λ s. s ++ bytes ".";
  canonical_name = λ s. s;
  is_sub_domain = λ parent child. str_eq parent child;
  type_to_string = λ t. [];
  parse_zone = λ content origin. ([], none);
}

abbrev rr_of : String → ℕ → Body → Rr
rr_of name t body = record {
  name = bytes name;
  rrtype = t;
  text = [];
  header_text = [];
  body = body;
}

abbrev head_rrs : List Rr
head_rrs =
    rr_of "z." 6 (soa (bytes "N.z.") 7)
    ∷ rr_of "Z." 2 (ns (bytes "n.z."))
    ∷ rr_of "z." 2 (ns (bytes "q."))
    ∷ []

abbrev glue : Rr
glue = rr_of "N.z." 1 (a (bytes "192.0.2.1"))

glue_found : all is_quiet (check_delegation dns (bytes "z") (head_rrs ++ (glue ∷ []))) ≡ true
unfolding check_delegation apex_ns apex_onto primary_of glue_findings address_index index_onto
    addresses
glue_found = refl

glue_missing : all is_quiet (check_delegation dns (bytes "z") head_rrs) ≡ false
unfolding check_delegation apex_ns apex_onto primary_of glue_findings address_index index_onto
    addresses
glue_missing = refl

abbrev probe : ℕ → Bool → NsCheck
probe serial ok = record {
  name = bytes "n";
  addrs = [];
  serial = serial;
  aa = ok;
  ok = ok;
  note = [];
}

abbrev lagging : List NsCheck
lagging = probe 7 true ∷ probe 0 false ∷ probe 6 true ∷ []

lagging_mismatch : zone_serial_check lagging ≡ (serial_mismatch, 0)
unfolding zone_serial_check serials_agree seen_onto count_in
lagging_mismatch = refl
