-- ===== src/Pump/Taxonomy.antt =====
-- How the loops of internal/tunnel/session/pump_linux.go read an error and the first byte of a packet.
use Prim.Native.Nat.{bit_and}
use unverified.Common.{
  ℕ, ◌/◌, ◌%◌, Bool, ◌||◌, Option, none, some, [], ◌∷◌, ◌++◌, if◌then◌else◌, ◌==◌, get_or,
}
use unverified.Errors.{
  Error, nil, new, pump_error, bytes, is_error, eof, canceled, deadline_exceeded, tun_closed,
  transport_closed, read_tun_failed, write_tun_failed, send_frame_failed, recv_frame_failed,
}

-- What ends a loop with nil: `errors.Is` with the sentinels that each call's branch names.
abbrev pub is_canceled : Error → Bool
is_canceled e = is_error e canceled || is_error e deadline_exceeded

unfoldable pub read_failure : Error → Error
read_failure e =
    if is_error e tun_closed || is_canceled e
    then nil
    else pump_error read_tun_failed (bytes "read tun") e

unfoldable pub send_failure : Error → Error
send_failure e =
    if is_error e transport_closed || is_error e eof || is_canceled e
    then nil
    else pump_error send_frame_failed (bytes "send frame") e

unfoldable pub receive_failure : Error → Error
receive_failure e =
    if is_error e eof || is_error e transport_closed || is_canceled e
    then nil
    else pump_error recv_frame_failed (bytes "recv frame") e

unfoldable pub write_failure : Error → Error
write_failure e =
    if is_error e tun_closed || is_canceled e
    then nil
    else pump_error write_tun_failed (bytes "write tun") e

-- `tagIPv4` and `tagIPv6`.
abbrev pump_tag_ipv4 : ℕ
pump_tag_ipv4 = 0x04

abbrev pump_tag_ipv6 : ℕ
pump_tag_ipv6 = 0x06

-- The switch on the first byte of a packet.
unfoldable pub tag_of : ℕ → Option ℕ
tag_of x =
    if bit_and x 0xf0 == 0x40
    then some pump_tag_ipv4
    else if bit_and x 0xf0 == 0x60
    then some pump_tag_ipv6
    else none

abbrev hex_digit : ℕ → ℕ
hex_digit n = get_or (bytes "0123456789abcdef") n 0

unfoldable pub unknown_version : ℕ → Error
unknown_version x = pump_error send_frame_failed (bytes "tag dispatch") (
    new (
      bytes "pump: unknown IP version 0x"
      ++ (hex_digit (x / 16) ∷ hex_digit (x % 16) ∷ [])
      ++ bytes " in packet header (first byte)"))
