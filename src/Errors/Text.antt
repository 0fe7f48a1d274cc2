-- ===== src/Errors/Text.antt =====
-- `Error()`: the text of an error. From internal/contract/session/Pump.go (PumpError.Error),
-- internal/contract/route/link.go (LinkError.Error) and internal/contract/tun/preflight.go
-- (PreflightError.Error); the texts of the sentinels are those of their `errors.New`.
use unverified.Common.{Bool, ℕ, zero, suc, ◌+◌, ◌/◌, ◌%◌, [], ◌∷◌, ◌++◌, ltb, if◌then◌else◌}
use unverified.Common.Words.{Bytes}
use unverified.Errors.{
  Sentinel, eof, unexpected_eof, canceled, deadline_exceeded, tun_closed, transport_closed,
  short_read, unknown_tag, length_invalid, field_too_long, not_exist, Reason, unsupported_platform,
  read_tun_failed, write_tun_failed, send_frame_failed, recv_frame_failed, ip_binary_not_found,
  cidr_invalid, link_up_failed, link_down_failed, address_already_assigned, address_add_failed,
  tun_device_missing, tun_device_not_read_write, cap_net_admin_missing, cap_probe_failed, Error,
  nil, sentinel, new, exit_status, wrap, pump_error, link_error, preflight_error, is_nil, bytes,
}

-- The decimal digits of a number below 10 ^ fuel.
unfoldable pub digits : ℕ → ℕ → Bytes
digits zero n = []
digits (suc k) n =
    let high = digits k (n / 10) in if ltb n 10 then (48 + n) ∷ [] else high ++ ((48 + n % 10) ∷ [])

unfoldable pub sentinel_text : Sentinel → Bytes
unfolding bytes
sentinel_text eof = bytes "EOF"
sentinel_text unexpected_eof = bytes "unexpected EOF"
sentinel_text canceled = bytes "context canceled"
sentinel_text deadline_exceeded = bytes "context deadline exceeded"
sentinel_text tun_closed = bytes "tun: device is closed"
sentinel_text transport_closed = bytes "transport: stream closed"
sentinel_text short_read = bytes "tunnelpb: short read"
sentinel_text unknown_tag = bytes "tunnelpb: unknown tag"
sentinel_text length_invalid = bytes "tunnelpb: length invalid"
sentinel_text field_too_long = bytes "tunnelpb: field exceeds declared max"
sentinel_text not_exist = bytes "file does not exist"

-- The constants `Reason...` of the three contract packages.
unfoldable pub reason_text : Reason → Bytes
unfolding bytes
reason_text unsupported_platform = bytes "unsupported_platform"
reason_text read_tun_failed = bytes "read_tun_failed"
reason_text write_tun_failed = bytes "write_tun_failed"
reason_text send_frame_failed = bytes "send_frame_failed"
reason_text recv_frame_failed = bytes "recv_frame_failed"
reason_text ip_binary_not_found = bytes "ip_binary_not_found"
reason_text cidr_invalid = bytes "cidr_invalid"
reason_text link_up_failed = bytes "link_up_failed"
reason_text link_down_failed = bytes "link_down_failed"
reason_text address_already_assigned = bytes "address_already_assigned"
reason_text address_add_failed = bytes "address_add_failed"
reason_text tun_device_missing = bytes "tun_device_missing"
reason_text tun_device_not_read_write = bytes "tun_device_not_read_write"
reason_text cap_net_admin_missing = bytes "cap_net_admin_missing"
reason_text cap_probe_failed = bytes "cap_probe_failed"

-- `Error()` of the three typed errors, from whether the cause is nil and from its text.
abbrev pump_error_text : Reason → Bytes → Bool → Bytes → Bytes
pump_error_text r op no_cause cause =
    bytes "pump: "
    ++ (op ++ (bytes ": " ++ (reason_text r ++ (if no_cause then [] else bytes ": " ++ cause))))

abbrev link_error_text : Reason → Bool → Bytes → Bytes
link_error_text r no_cause cause =
    bytes "link: " ++ (reason_text r ++ (if no_cause then [] else bytes ": " ++ cause))

abbrev preflight_error_text : Reason → Bool → Bytes → Bytes
preflight_error_text r no_cause cause =
    bytes "tun preflight: " ++ (reason_text r ++ (if no_cause then [] else bytes ": " ++ cause))

-- A `nil` error has no text; `%v` prints it as `<nil>`. An exit code has at most ten digits.
unfoldable pub error_text : Error → Bytes
unfolding bytes digits sentinel_text reason_text
error_text nil = bytes "<nil>"
error_text (sentinel s) = sentinel_text s
error_text (new m) = m
error_text (exit_status n) = bytes "exit status " ++ digits 10 n
error_text (wrap before e after) = before ++ (error_text e ++ after)
error_text (pump_error r op e) = let cause = error_text e in pump_error_text r op (is_nil e) cause
error_text (link_error r e) = let cause = error_text e in link_error_text r (is_nil e) cause
error_text (preflight_error r e) =
    let cause = error_text e in preflight_error_text r (is_nil e) cause
