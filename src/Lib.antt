-- ===== src/Lib.antt =====
-- goddns, a dynamic DNS server beside BIND: the parts of the program that decide what is written to
-- a zone, who may ask for it, what passes the reverse proxy, and how a configuration is accepted
-- and applied.
--
-- The parts, and the modules that model them:
--
--   internal/config/config.go - Config: the fields and the errors; Config.Load: `Load` in its steps
--     (Reading: what it reads, with the merging of proxy.d; Checks: what it refuses);
--     Config.Restart: `NeedsRestart`, `ProxyHosts`, `ConsolePorts`.
--   internal/tsig/tsig.go - Tsig: the keys, `Find` and `Render`.
--   cmd/goddns/serve.go - Serve: `buildTLS` and `hybridNames`; Serve.Consoles: `sync` of the console
--     listeners; Serve.Traffic: the traffic flusher; Serve.Reload: a round of `reloadLoop`;
--     Serve.Plumbing: what a start reads of the configuration.
--   internal/vhostmut/vhostmut.go - Vhost: the editor of the fragments in proxy.d;
--     Vhost.Listing: `List`.
--   internal/admin - Admin.Throttle: the brake on password guessing; Admin.Session: sessions and CSRF
--     tokens; Admin.Handler: the login and the layers; Admin.Handler.Actions: the handlers that change
--     state; Admin.Handler.Serve: `ServeHTTP`.
--   internal/zonefile/zonefile.go - Zonefile: `scanLine` (Scan), `tokenizeEntries` and the
--     classification of tokens (Entries), `Parse` (Parse), `Edit` and `SerialFloor` (Edit).
--   internal/filezone/filezone.go - Filezone: `resolve`, `screen`, `compute`, `diff` and
--     `normalizeRawSerial`; Filezone.Commit has `commit`, `Apply` and `ReplaceRaw` on a state of the
--     file, its backups and what named has loaded; Filezone.Preview: what is shown without writing.
--   internal/recordmut/recordmut.go - Recordmut: the guards, `buildResult`, `restoreOps` and
--     `RestorePlan`; Recordmut.Apply has `Preview` and `Apply` on the snapshots and the updates sent.
--   internal/named - Named: zones, keys and their lookup, and the order of records; Named.Blocks: `Parse`
--     with its block scanner; Named.Check: `Check`; Named.Delegation: `CheckDelegation`; Named.Serials:
--     `SerialsAgree` and the verdict of `ZoneSerialCheck`.
--   internal/history/history.go, internal/named/axfr.go - History: `Transfer`, `TransferAuto`, `capture`
--     and `sweep`; History.Diff: `Diff` and `DropSOA`.
--   internal/zoned/zoned.go - Zoned: `process` of the privileged helper.
--   internal/server/server.go - Server: `clientIP`, `doUpdate`, `handleSimple` and `handleDynDNS2`,
--     on the token store and the updates that the backend is asked for.
--   internal/store - Store: the table of tokens; Store.Snapshots: the history of zones.
--   internal/proxy - Proxy.Limiter: the rate limiter; Proxy.Router: `ServeHTTP` up to the hand-over
--     to the upstream, with the counters, and `Update` with `compile`; Proxy.Router.Console:
--     `ServeConsole` up to the splice; Proxy.Validate: `ValidateRule`.
--   internal/tlsmgr - Tls: `load`, `reloadIfStale` and `matching` of the files, `SetAllowed` and
--     `GetCertificate` of the hybrid.
--   internal/ddns/mutate.go - Dns: `Op` and `Action`, and what is read of a `dns.RR`.
--
-- They meet as in the program: a round of the reload loop runs `Load` and puts its result into the
-- router's table and the listeners; the admin handler asks the throttle and the sessions, and edits
-- the token store and, through the vhost editor, the fragments that `Load` merges; the file editor
-- runs the zone file engine on an inventory of Named; the record editor puts a snapshot into Store
-- before it sends; the endpoints look tokens up in Store; the helper runs the file editor on its
-- own configuration; the poller of the history puts what a transfer brings into Store; the router
-- asks the limiter. Base has what they share: Boolean tests and lists over native numbers, byte
-- strings, association lists for Go's maps, results for errors, sorting, decimals. Net has IP
-- addresses. Tests runs the definitions.
--
-- A string is a list of bytes, and case and white space are those of ASCII. A map is an association
-- list, of which the first entry of a key counts; where the code ranges over a map, the model takes
-- its entries in the order of that list. State is passed explicitly. Mutexes, the table's atomic
-- pointer and the advisory lock make the operations atomic, so that a run is a sequence of calls;
-- the one interleaving that the code handles itself, another editor writing the zone's file between
-- two reads, is part of the file editor's model. Times are nanoseconds (Admin.Throttle, Proxy) or
-- Unix seconds (Store, Admin.Session). uint32 and int64 wrap where the code computes with them: the
-- next serial, the TTL of a form, and the wait of the throttle. Numbers of the configuration and of
-- a form are natural numbers; a negative one is not modelled. The limiter counts billionths of a
-- token exactly, where the code rounds floats, and a clock that runs backwards earns nothing. The
-- number of decimal digits is bounded by 20, enough for a uint64; every other loop is a structural
-- recursion.
--
-- What is not under the repository is a parameter or an argument: the functions of
-- github.com/miekg/dns (`DnsLib`), parsing and printing of addresses (`TextForms`), URLs, networks,
-- ports and bcrypt (`Libraries`), the decoding of TOML (`Sources`, `Toml`), regular expressions
-- (`Captures`), HMAC and base64 (`Codec`), the hash of a token, the outcome of a database
-- statement, of a DNS update, of a zone transfer, and of named-checkzone and rndc (`Faults`,
-- `System`), what a request or a round meets (`Meets`, `Round`), the pair of certificate files with
-- the check of a hostname (`Disk`, `Leaf`) and ACME. Of SQLite the UNIQUE constraints are modelled.
--
-- Not modelled: flag parsing, printing and wiring in cmd/goddns, and its commands other than serve;
-- the HTML of the admin pages, of which a page that only shows something is known by its name; the
-- setup of ACME; the socket of the privileged helper and the watcher of files; the live probes of
-- nameservers; the bytes of a console and the header rewriting of the proxy; the tables of the
-- traffic. They are I/O and library calls for the most part.
pub mod Admin
pub mod Base
pub mod Config
pub mod Dns
pub mod Filezone
pub mod History
pub mod Named
pub mod Net
pub mod Proxy
pub mod Recordmut
pub mod Serve
pub mod Server
pub mod Store
pub mod Tests
pub mod Tls
pub mod Tsig
pub mod Vhost
pub mod Zoned
pub mod Zonefile
