-- ===== src/TunnelPb/Encode.antt =====
-- Writing: `WriteFrame` and the `write...` functions of
-- internal/transport/grpc/tunnelpb/codec.go. A message's text is the format of the source.
pub mod Pieces
pub mod Sessions
pub mod Uniform
pub mod Frames
pub mod Written
pub mod Sent
use unverified.Common.{
  ℕ, Bool, true, false, Option, none, some, List, [], ◌∷◌, ◌++◌, ◌==◌, ◌||◌, not, ◌%◌,
  if◌then◌else◌, length, ltb,
}
use unverified.Common.Words.{Bytes, put_be}
use unverified.Errors.{
  Error, nil, sentinel, new, wrap, length_invalid, field_too_long, unknown_tag, bytes, is_nil,
}
use unverified.Stream.{Writer, Action, ◌>>◌, write, done, give_up, relabel_failure}
use unverified.TunnelPb.{
  Frame, Hello, Session, Keepalive, Rekey, Close, tag_ipv4, tag_ipv6, tag_hello, tag_session,
  tag_keepalive, tag_rekey, tag_close, max_ip_packet, max_string_len, max_dns_entries, x25519_len,
  mlkem_len,
}
use unverified.TunnelPb.Ip.{to4, to16, write_ip, write_ip16}

unfoldable pub write_hello : Option Hello → Action
write_hello none = give_up (new (bytes "tunnelpb: nil Hello"))
write_hello (some h) =
    if ltb max_string_len (length h.client_id)
    then give_up (wrap (bytes "tunnelpb: Hello.ClientID %d > %d: ") (sentinel field_too_long) [])
    else (do
      write (put_be 4 h.protocol_version ++ ((length h.client_id % 256) ∷ put_be 4 h.cipher_suite))
      write h.client_id)

-- The loop over `DNSServers`.
unfoldable pub write_dns : List Bytes → Action
write_dns [] = done
write_dns (dns ∷ more) =
    let rest = write_dns more in
    if length (to16 dns) == 0
    then give_up (new (bytes "tunnelpb: Session.DNSServers[%d]: invalid IP"))
    else (do write (to16 dns); rest)

unfoldable pub write_session : Option Session → Action
write_session none = give_up (new (bytes "tunnelpb: nil Session"))
write_session (some s) =
    if ltb max_dns_entries (length s.dns_servers)
    then give_up
        (wrap (bytes "tunnelpb: Session.DNSServers %d > %d: ") (sentinel field_too_long) [])
    else (do
      write ((length s.dns_servers % 256) ∷ put_be 4 s.mtu)
      λ w.
          relabel_failure (λ e. wrap (bytes "tunnelpb: Session.AssignedIPv4: ") e [])
            (write_ip (to4 s.assigned_ipv4) 4 w)
      λ w.
          relabel_failure (λ e. wrap (bytes "tunnelpb: Session.AssignedIPv6: ") e [])
            (write_ip16 s.assigned_ipv6 16 w)
      write_dns s.dns_servers)

unfoldable pub write_keepalive : Option Keepalive → Action
write_keepalive none = give_up (new (bytes "tunnelpb: nil Keepalive"))
write_keepalive (some k) = write (put_be 8 k.nonce)

unfoldable pub write_rekey : Option Rekey → Action
write_rekey none = give_up (new (bytes "tunnelpb: nil Rekey"))
write_rekey (some rk) =
    if not (length rk.x25519_public == x25519_len)
    then give_up
        (wrap (bytes "tunnelpb: Rekey.X25519Public length %d != 32: ") (sentinel length_invalid) [])
    else if not (length rk.mlkem_public == mlkem_len)
    then give_up (
        wrap (bytes "tunnelpb: Rekey.MLKEMPublic length %d != 1184: ") (sentinel length_invalid) [])
    else (do write rk.x25519_public; write rk.mlkem_public; write (put_be 8 rk.activate_at_seq))

unfoldable pub write_close : Option Close → Action
write_close none = give_up (new (bytes "tunnelpb: nil Close"))
write_close (some c) =
    if ltb max_string_len (length c.message)
    then give_up (wrap (bytes "tunnelpb: Close.Message %d > %d: ") (sentinel field_too_long) [])
    else (do write (put_be 4 c.code ++ ((length c.message % 256) ∷ [])); write c.message)

-- The bytes of a packet slice; a nil slice has none.
abbrev pub packet_bytes : Option Bytes → Bytes
packet_bytes none = []
packet_bytes (some p) = p

unfoldable pub write_packet : ℕ → Bytes → Action
write_packet tag p =
    if ltb max_ip_packet (length p)
    then give_up
        (wrap (bytes "tunnelpb: packet length %d exceeds max %d: ") (sentinel field_too_long) [])
    else (do write (tag ∷ []); write (put_be 2 (length p % 65536)); write p)

-- The `switch` of `WriteFrame`, over the frame's tag.
unfoldable pub write_by_tag : ℕ → Frame → Action
write_by_tag tag f =
    if tag == tag_ipv4 || tag == tag_ipv6
    then write_packet tag (packet_bytes f.packet)
    else if tag == tag_hello
    then (do write (tag ∷ []); write_hello f.hello)
    else if tag == tag_session
    then (do write (tag ∷ []); write_session f.session)
    else if tag == tag_keepalive
    then (do write (tag ∷ []); write_keepalive f.keepalive)
    else if tag == tag_rekey
    then (do write (tag ∷ []); write_rekey f.rekey)
    else if tag == tag_close
    then (do write (tag ∷ []); write_close f.close)
    else give_up (wrap [] (sentinel unknown_tag) (bytes ": 0x%02x"))

unfoldable pub write_frame : Frame → Action
unfolding write_by_tag
write_frame f = write_by_tag f.tag f
