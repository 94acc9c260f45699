-- ===== src/Serve/Reload/Routed.antt =====
-- The routing table follows the configuration through all rounds.
use goddns.Base.{true, Option, none, some, ◌≡◌}
use goddns.Base.Strings.{Bytes}
use goddns.Base.Dict
use goddns.Base.Dict.{Dict}
use goddns.Base.Result.{Result}
use goddns.Config.{Libraries, Config}
use goddns.Config.Valid.{is_some}
use goddns.Config.Sound.{IsSound}
use goddns.Proxy.Router.{Proxy}
use goddns.Serve.Reload.{Daemon}

-- The table has the hosts of the configuration, and no other.
abbrev pub SameHosts : Config → Option Proxy → Type 0
SameHosts c none = Unit {0}
SameHosts c (some px) =
    (h : Bytes) → is_some (Dict.lookup h px.rules) ≡ is_some (Dict.lookup h c.proxy)

-- The configuration in use passed `Load`, and where the proxy is enabled it is what is routed.
pub record IsRouted (lib : Libraries) (d : Daemon) : Type 0 where
  pub sound : IsSound lib d.cfg
  pub routes : d.cfg.proxy_enabled ≡ true → SameHosts d.cfg d.proxy
