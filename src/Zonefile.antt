-- ===== src/Zonefile.antt =====
-- The in-place zone-file edit engine, internal/zonefile/zonefile.go: tokenizer, parser and edits.
pub mod Scan
pub mod Entries
pub mod Parse
pub mod Edit
