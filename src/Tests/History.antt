-- ===== src/Tests/History.antt =====
-- Runs of the capture of snapshots, internal/history, and of the transfers of internal/named.
use goddns.Base.{ℕ, true, false, [], ◌∷◌, ◌++◌, some, ◌≡◌, refl, arith}
use goddns.Base.Strings.{Bytes, bytes}
use goddns.Base.Result.{ok}
use goddns.Dns.{Rr, soa}
use goddns.Named.{Zone, Inventory, axfr_keys, soa_of}
use goddns.Store.Snapshots.{SnapDb}
use goddns.Store.Snapshots.History.{history}
use goddns.History.{Answers, drop_last_soa, transfer, transfer_auto, capture, sweep_zones}
use goddns.History.Steady.{IsBounded, sweep_zones-IsBounded, capture_again}
use goddns.History.Diff.{IsDiff, diff, diff-IsDiff}

abbrev soa_rr : ℕ → Rr
soa_rr n = record {
  name = bytes "z.";
  rrtype = 6;
  text = bytes "z. SOA";
  header_text = [];
  body = soa (bytes "n.") n;
}

-- A transfer of one SOA, framed by itself.
abbrev answers : ℕ → Answers
answers n = record {
  serial = some n;
  reads = true;
  writes = true;
  server = bytes "s";
  answer = λ key. ok (soa_rr n ∷ soa_rr n ∷ []);
  in_time = λ key. true;
}

abbrev zone : Zone
zone = record {
  name = bytes "z";
  view = [];
  type = bytes "master";
  file = bytes "z";
  path = bytes "/z";
  dynamic = false;
  update_keys = [];
  allow_update = [];
}

abbrev inv : Inventory
inv = record { directory = []; zones = zone ∷ []; keys = [] }

abbrev start : SnapDb
start = record { rows = []; next_id = 1 }

abbrev dotted : Bytes → Bytes
dotted s = s ++ bytes "."

start-IsBounded : IsBounded 50 start
unfolding history
start-IsBounded z = ground arith

sweep_zones-IsBounded_example :
    IsBounded 50 (sweep_zones dotted (λ z. answers 7) 5 inv (bytes "k") 0 start)
sweep_zones-IsBounded_example =
    sweep_zones-IsBounded dotted (λ z. answers 7) 5 inv (bytes "k") 0 start start-IsBounded

framed : transfer (bytes "z.") (bytes "s") (ok (soa_rr 7 ∷ soa_rr 7 ∷ [])) ≡ ok (soa_rr 7 ∷ [])
unfolding transfer drop_last_soa
framed = refl

transferred :
    transfer_auto
      (bytes "z.")
      (bytes "s")
      (answers 7).answer
      (answers 7).in_time
      (axfr_keys inv (some zone) (bytes "k"))
    ≡ some (soa_rr 7 ∷ [])
unfolding transfer_auto transfer drop_last_soa
transferred = refl

capture_again_example :
    capture dotted
      (answers 7)
      9
      zone
      inv
      (bytes "k")
      3
      (capture dotted (answers 7) 5 zone inv (bytes "k") 3 start)
    ≡ capture dotted (answers 7) 5 zone inv (bytes "k") 3 start
unfolding soa_of
capture_again_example =
    capture_again dotted (answers 7) (answers 7) 5 9 zone inv (bytes "k") 3 7 start (soa_rr 7 ∷ [])
      refl refl refl transferred refl refl

abbrev old : Bytes
old = bytes "z. 1 IN SOA a\nw. 1 IN A 1\n"

abbrev new : Bytes
new = bytes "z. 1 IN SOA b\nw. 1 IN A 1\nv. 1 IN A 2\n"

diff-IsDiff_example : IsDiff old new (diff old new)
diff-IsDiff_example = diff-IsDiff old new
