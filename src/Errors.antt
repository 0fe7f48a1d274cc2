-- ===== src/Errors.antt =====
-- Go's `error` values: internal/contract/session/Pump.go, internal/contract/route/link.go,
-- internal/contract/tun/preflight.go and the sentinels of tunnelpb/codec.go, contract/tun/tun.go
-- and contract/transport/transport.go. A `nil` error is a value of the type, as in Go.
pub mod Text
use Prim.Native.Char.{code}
use Prim.Native.String.{String}
use unverified.Common.{
  ℕ, zero, suc, ◌+◌, ◌/◌, ◌%◌, Bool, true, false, Option, none, some, [], ◌∷◌, ◌++◌, ◌==◌, ltb,
  if◌then◌else◌,
}
use unverified.Common.Words.{Bytes}

-- The bytes of a text in ASCII.
unfoldable pub bytes : String → Bytes
bytes String.[] = []
bytes (String.◌∷◌ c s) = code c ∷ bytes s

-- The values made once by `errors.New` and compared by identity.
pub data Sentinel : Type 0 where
  eof unexpected_eof canceled deadline_exceeded : Sentinel
  tun_closed transport_closed : Sentinel
  short_read unknown_tag length_invalid field_too_long : Sentinel
  not_exist : Sentinel

-- The stable reasons of `PumpError`, `LinkError` and `PreflightError`.
pub data Reason : Type 0 where
  unsupported_platform : Reason
  read_tun_failed write_tun_failed send_frame_failed recv_frame_failed : Reason
  ip_binary_not_found cidr_invalid link_up_failed link_down_failed : Reason
  address_already_assigned address_add_failed : Reason
  tun_device_missing tun_device_not_read_write cap_net_admin_missing cap_probe_failed : Reason

-- `wrap before e after` is `fmt.Errorf("<before>%w<after>", e)`. `new` is an `errors.New` that
-- nothing compares with, or an error of the operating system. `exit_status n` is the
-- `*exec.ExitError` of a process that exited with the code n.
pub data Error : Type 0 where
  nil : Error
  sentinel : Sentinel → Error
  new : Bytes → Error
  exit_status : ℕ → Error
  wrap : Bytes → Error → Bytes → Error
  pump_error : Reason → Bytes → Error → Error
  link_error : Reason → Error → Error
  preflight_error : Reason → Error → Error

abbrev pub is_nil : Error → Bool
is_nil nil = true
is_nil _ = false

abbrev rank : Sentinel → ℕ
rank eof = 0
rank unexpected_eof = 1
rank canceled = 2
rank deadline_exceeded = 3
rank tun_closed = 4
rank transport_closed = 5
rank short_read = 6
rank unknown_tag = 7
rank length_invalid = 8
rank field_too_long = 9
rank not_exist = 10

abbrev pub same : Sentinel → Sentinel → Bool
same s t = rank s == rank t

-- `errors.Is(err, target)`: the chain of `Unwrap` is searched for the sentinel.
unfoldable pub is_error : Error → Sentinel → Bool
is_error nil t = false
is_error (sentinel s) t = same s t
is_error (new m) t = false
is_error (exit_status n) t = false
is_error (wrap before e after) t = is_error e t
is_error (pump_error r op e) t = is_error e t
is_error (link_error r e) t = is_error e t
is_error (preflight_error r e) t = is_error e t

-- `Unwrap` of `PumpError`, `LinkError` and `PreflightError`.
abbrev unwrap_pump : Reason → Bytes → Error → Error
unwrap_pump r op cause = cause

abbrev unwrap_link : Reason → Error → Error
unwrap_link r cause = cause

abbrev unwrap_preflight : Reason → Error → Error
unwrap_preflight r cause = cause

-- `errors.Unwrap`: the error below, which for the typed errors is what their `Unwrap` returns.
abbrev unwrap : Error → Error
unwrap nil = nil
unwrap (sentinel s) = nil
unwrap (new m) = nil
unwrap (exit_status n) = nil
unwrap (wrap before e after) = e
unwrap (pump_error r op e) = unwrap_pump r op e
unwrap (link_error r e) = unwrap_link r e
unwrap (preflight_error r e) = unwrap_preflight r e

-- `PumpReason`: the reason of the first `*PumpError` of the chain; `none` is the empty string.
unfoldable pub pump_reason : Error → Option Reason
pump_reason nil = none
pump_reason (sentinel s) = none
pump_reason (new m) = none
pump_reason (exit_status n) = none
pump_reason (wrap before e after) = pump_reason e
pump_reason (pump_error r op e) = some r
pump_reason (link_error r e) = pump_reason e
pump_reason (preflight_error r e) = pump_reason e

-- `IsPumpError`.
unfoldable pub is_pump_error : Error → Bool
is_pump_error nil = false
is_pump_error (sentinel s) = false
is_pump_error (new m) = false
is_pump_error (exit_status n) = false
is_pump_error (wrap before e after) = is_pump_error e
is_pump_error (pump_error r op e) = true
is_pump_error (link_error r e) = is_pump_error e
is_pump_error (preflight_error r e) = is_pump_error e

-- `LinkReason` and `IsLinkError`.
unfoldable pub link_reason : Error → Option Reason
link_reason nil = none
link_reason (sentinel s) = none
link_reason (new m) = none
link_reason (exit_status n) = none
link_reason (wrap before e after) = link_reason e
link_reason (pump_error r op e) = link_reason e
link_reason (link_error r e) = some r
link_reason (preflight_error r e) = link_reason e

unfoldable pub is_link_error : Error → Bool
is_link_error nil = false
is_link_error (sentinel s) = false
is_link_error (new m) = false
is_link_error (exit_status n) = false
is_link_error (wrap before e after) = is_link_error e
is_link_error (pump_error r op e) = is_link_error e
is_link_error (link_error r e) = true
is_link_error (preflight_error r e) = is_link_error e

-- `PreflightReason` and `IsPreflightError`.
unfoldable pub preflight_reason : Error → Option Reason
preflight_reason nil = none
preflight_reason (sentinel s) = none
preflight_reason (new m) = none
preflight_reason (exit_status n) = none
preflight_reason (wrap before e after) = preflight_reason e
preflight_reason (pump_error r op e) = preflight_reason e
preflight_reason (link_error r e) = preflight_reason e
preflight_reason (preflight_error r e) = some r

unfoldable pub is_preflight_error : Error → Bool
is_preflight_error nil = false
is_preflight_error (sentinel s) = false
is_preflight_error (new m) = false
is_preflight_error (exit_status n) = false
is_preflight_error (wrap before e after) = is_preflight_error e
is_preflight_error (pump_error r op e) = is_preflight_error e
is_preflight_error (link_error r e) = is_preflight_error e
is_preflight_error (preflight_error r e) = true
