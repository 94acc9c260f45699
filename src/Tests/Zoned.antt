-- ===== src/Tests/Zoned.antt =====
-- Runs of the helper of internal/zoned.
use goddns.Base.{true, [], ◌∷◌, some, ◌≡◌, ◌⊎◌, refl}
use goddns.Base.Strings.{bytes, str_eq}
use goddns.Config.{Config}
use goddns.Config.Load.{defaults}
use goddns.Zoned.{HelperRequest, bad_action, process}
use goddns.Zoned.Contained.{IsHelped, process-IsHelped}
use goddns.Tests.Filezone.{dns, sys, inv, today, before}

abbrev config : Config
config = record defaults { editable_zones = bytes "z" ∷ [] }

abbrev asks_add : HelperRequest
asks_add = record { zone = bytes "z."; action = bytes "add"; rr = bytes "w A 1"; apply = true }

process-IsHelped_example :
    ((process dns sys inv today (some config) asks_add before).1 ≡ before)
    ⊎ IsHelped dns sys inv today
        (some config)
        asks_add
        before
        (process dns sys inv today (some config) asks_add before).1
process-IsHelped_example = process-IsHelped dns sys inv today (some config) asks_add before

other_action :
    process dns sys inv today (some config) (record asks_add { action = bytes "delname" }) before
    ≡ (bad_action, before)
unfolding process str_eq
other_action = refl
