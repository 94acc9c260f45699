-- ===== src/Tests.antt =====
-- Runs at concrete inputs: the tests of each part, with an example of each of its theorems.
mod Admin
mod Proxy
mod Store
mod Zonefile
mod Server
mod Recordmut
mod Filezone
mod Router
mod Console
mod Delegation
mod Tls
mod Config
mod Serve
mod Vhost
mod Session
mod Handler
mod History
mod Zoned
mod Named
