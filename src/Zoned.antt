-- ===== src/Zoned.antt =====
-- The privileged helper, internal/zoned/zoned.go: what it does with one request. The decoding of the
-- request and the check of the peer are the system's.
pub mod Contained
use Prim.Native.String.{String}
use goddns.Base.{
  ℕ, Bool, true, false, not, ◌&&◌, ◌||◌, List, [], ◌∷◌, Option, none, some, if◌then◌else◌,
}
use goddns.Base.Strings.{Bytes, bytes, str_eq}
use goddns.Base.Result.{Result, ok, err}
use goddns.Dns.{DnsLib, Rr, Action, add_rr, del_rr, Op}
use goddns.Zonefile.Edit.{Date}
use goddns.Named.{Inventory}
use goddns.Config.{Config}
use goddns.Filezone.{FileError, Diff}
use goddns.Filezone.Commit.{World, System, apply}
use goddns.Filezone.Preview.{parse_rr, preview_file}

-- `Request`.
pub record HelperRequest : Type 0 where
  pub zone : Bytes
  pub action : Bytes
  pub rr : Bytes
  pub apply : Bool

-- `Response`, with the error by its kind.
pub data HelperReply (dns : DnsLib) : Type 0 where
  bad_action no_config bad_record : HelperReply dns
  not_edited : FileError → HelperReply dns
  edited : Diff dns → HelperReply dns

-- The operation of a request.
abbrev pub op_of : Bytes → Rr → Op
op_of action rr = record {
  action = if str_eq action (bytes "del") then del_rr else add_rr;
  rr = some rr;
}

-- The two actions that the helper takes.
abbrev pub is_action : Bytes → Bool
is_action a = str_eq a (bytes "add") || str_eq a (bytes "del")

module _ (dns : DnsLib) (sys : System) (inv : Inventory) (today : Date) where
  abbrev reply_of : Result FileError (Diff dns) → HelperReply dns
  reply_of (err e) = not_edited e
  reply_of (ok d) = edited d

  abbrev pub ran : List Bytes → HelperRequest → Op → World → HelperReply dns × World
  ran allowed r op w =
      if r.apply
      then (let out = apply dns sys allowed inv today r.zone (op ∷ []) w in (reply_of out.0, out.1))
      else (reply_of (preview_file dns sys allowed inv today r.zone (op ∷ []) w.file), w)

  abbrev pub with_record : List Bytes → HelperRequest → World → Option Rr → HelperReply dns × World
  with_record allowed r w none = (bad_record, w)
  with_record allowed r w (some rr) = ran allowed r (op_of r.action rr) w

  abbrev pub with_config : HelperRequest → World → Option Config → HelperReply dns × World
  with_config r w none = (no_config, w)
  with_config r w (some c) = with_record c.editable_zones r w (parse_rr dns r.rr r.zone)

  -- `process`, on the configuration that it reads.
  unfoldable pub process : Option Config → HelperRequest → World → HelperReply dns × World
  unfolding parse_rr apply preview_file
  process cfg r w = if not (is_action r.action) then (bad_action, w) else with_config r w cfg
