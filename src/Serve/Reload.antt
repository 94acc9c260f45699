-- ===== src/Serve/Reload.antt =====
-- `reloadLoop` of cmd/goddns/serve.go: one round for a tick or a SIGHUP. What the round meets, such as
-- the files that `Load` reads and the outcome of ACME, is an argument.
pub mod Routed
use goddns.Base.{
  ℕ, Bool, true, false, not, ◌&&◌, ◌||◌, List, [], ◌∷◌, Option, none, some, ltb, if◌then◌else◌,
  is_empty,
}
use goddns.Base.Strings.{Bytes, str_eq}
use goddns.Base.Result.{Result, ok, err}
use goddns.Config.{Libraries, Config, ConfigError}
use goddns.Config.Load.{Sources, load}
use goddns.Config.Restart.{proxy_hosts, console_ports}
use goddns.Proxy.Router.{Proxy}
use goddns.Proxy.Router.Tables.{update}
use goddns.Serve.{hybrid_names}
use goddns.Serve.Consoles.{Listeners, sync}

-- The state of the loop, with what it swaps: the configuration and the backend built from it, the
-- routing table, the names for ACME in hybrid mode, and the console listeners.
pub record Daemon : Type 0 where
  pub cfg : Config
  pub proxy : Option Proxy
  pub applied_hosts : List Bytes
  pub dirty : Bool
  pub last_sig : Bytes
  pub names : Option (List Bytes)
  pub consoles : Option Listeners
  pub interval : ℕ

-- What one round meets: the files and the environment, whether the backend accepts the key, whether
-- ACME takes the hosts, and which ports can be opened.
pub record Round : Type 0 where
  pub now : ℕ
  pub source : Sources
  pub backend_ok : Config → Bool
  pub manage_ok : Bool
  pub open_at : ℕ → Option ℕ

-- A tick, with whether the main file changed and the signature of the side files, or a SIGHUP.
pub data Event : Type 0 where
  tick : Bool → Bytes → Event
  hup : Bytes → Event

-- `slices.Equal`.
unfoldable pub same_hosts : List Bytes → List Bytes → Bool
unfolding str_eq
same_hosts [] [] = true
same_hosts (a ∷ as') (b ∷ bs) = str_eq a b && same_hosts as' bs
same_hosts _ _ = false

abbrev pub map_option : {A B : Type 0} → (A → B) → Option A → Option B
map_option f none = none
map_option f (some a) = some (f a)

-- A failed update of a table leaves it.
abbrev pub or_same : Proxy → Option Proxy → Proxy
or_same px none = px
or_same px (some px') = px'

-- `lib` is the library; `manages` says that the certificates are ACME's, to manage at each reload.
module _ (lib : Libraries) (manages : Bool) where
  abbrev pub after_update : Round → Config → Daemon → Option Proxy → Daemon
  after_update r c d none = record d { dirty = true }
  after_update r c d (some px) =
      let hosts = proxy_hosts c in
      if manages && not (same_hosts hosts d.applied_hosts) && not r.manage_ok
      then record d { proxy = some px; dirty = true }
      else record d { proxy = some px; applied_hosts = hosts; dirty = false }

  abbrev pub apply_to : Round → Config → Daemon → Option Proxy → Daemon
  apply_to r c d none = d
  apply_to r c d (some px) =
      if not c.proxy_enabled
      then if is_empty d.applied_hosts then record d { dirty = false } else record d {
        proxy = some (or_same px (update lib r.now [] px));
        applied_hosts = [];
        dirty = false;
      }
      else after_update r c d (update lib r.now c.proxy px)

  -- `applyProxy`.
  unfoldable pub apply_proxy : Round → Config → Daemon → Daemon
  apply_proxy r c d = apply_to r c d d.proxy

  abbrev pub swapped : Round → Config → Daemon → Daemon
  swapped r c d = record d {
    cfg = c;
    names = map_option (λ _. hybrid_names c) d.names;
    consoles = map_option (sync r.open_at (console_ports c)) d.consoles;
    interval = if ltb 0 c.reload_interval then c.reload_interval else d.interval;
  }

  abbrev pub loaded : Round → Daemon → Result ConfigError Config → Daemon
  loaded r d (err e) = d
  loaded r d (ok c) = if r.backend_ok c then swapped r c (apply_proxy r c d) else d

  -- The reading and the swap of a configuration.
  unfoldable pub reload : Round → Daemon → Daemon
  reload r d = loaded r d (load lib r.source)

  -- One round.
  unfoldable pub step : Round → Event → Daemon → Daemon
  step r (hup sig) d = reload r (record d { last_sig = sig })
  step r (tick changed sig) d =
      if not changed && str_eq sig d.last_sig
      then if d.dirty then apply_proxy r d.cfg d else d
      else reload r (record d { last_sig = sig })
