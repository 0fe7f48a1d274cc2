-- ===== src/TunnelPb/Encode/Frames.antt =====
-- `WriteFrame` of internal/transport/grpc/tunnelpb/codec.go on the frame of a message.
use unverified.Common.{ℕ, ◌≡◌, refl, ◌++◌, [], ◌∷◌, List, ◌⊎◌, inl, inr, length, some, map, All}
use unverified.Common.Words.{Bytes}
use unverified.Errors.{nil}
use unverified.Stream.{reliable, write, Action, ◌>>◌}
use unverified.TunnelPb.{Session}
use unverified.TunnelPb.Ip.{to4, to16}
use unverified.TunnelPb.Ip.Laws.{to4_id, to16_id}
use unverified.TunnelPb.Encode.{
  write_frame, write_hello, write_session, write_keepalive, write_rekey, write_close,
}
use unverified.TunnelPb.Encode.Pieces.{
  Appends, Appends->>, Appends-write, write_hello-Appends, write_close-Appends,
  write_keepalive-Appends, write_rekey-Appends, write_packet-Appends, normal, IsWritableDns,
}
use unverified.TunnelPb.Encode.Sessions.{IsWritable, write_session-Appends}
use unverified.TunnelPb.Wire.{
  Message, ipv4, ipv6, hello, session, keepalive, rekey, close, IsValid, encoding, frame_of, IsDns,
}

IsDns-IsWritable : (ips : List Bytes) → All IsDns ips → IsWritableDns ips
IsDns-IsWritable [] h = tt
IsDns-IsWritable (ip ∷ ips) ((len, _), more) = (rw (to16_id ip len) len, IsDns-IsWritable ips more)

IsDns-map : (ips : List Bytes) → All IsDns ips → map to16 ips ≡ ips
IsDns-map [] h = refl
IsDns-map (ip ∷ ips) ((len, _), more) = rw (to16_id ip len, IsDns-map ips more)

IsValid-IsWritable : (s : Session) → IsValid (session s) → IsWritable s
IsValid-IsWritable s (v4, v6, few, dns, mtu) = record {
  few = few;
  v6 = long v6.0;
  dns = IsDns-IsWritable s.dns_servers dns;
}
  where
    long :
        (s.assigned_ipv6 ≡ []) ⊎ (length s.assigned_ipv6 ≡ 16)
        → (s.assigned_ipv6 ≡ []) ⊎ (length (to16 s.assigned_ipv6) ≡ 16)
    long (inl unset) = inl unset
    long (inr len) = inr (rw (to16_id s.assigned_ipv6 len) len)

to4_address : (ip : Bytes) → (ip ≡ []) ⊎ (length ip ≡ 4) → to4 ip ≡ ip
to4_address ip (inl unset) = rw unset (unfold to4 in refl)
to4_address ip (inr len) = to4_id ip len

to16_address : (ip : Bytes) → (ip ≡ []) ⊎ (length ip ≡ 16) → to16 ip ≡ ip
to16_address ip (inl unset) = rw unset (unfold to16 in refl)
to16_address ip (inr len) = to16_id ip len

-- A session within the limits is written as it is.
normal_id : (s : Session) → IsValid (session s) → normal s ≡ s
unfolding normal
normal_id s (v4, v6, few, dns, mtu) i = record {
  assigned_ipv4 = to4_address s.assigned_ipv4 v4.0 i;
  assigned_ipv6 = to16_address s.assigned_ipv6 v6.0 i;
  dns_servers = IsDns-map s.dns_servers dns i;
  mtu = s.mtu;
}

-- The tag byte, and then the payload.
pub tagged :
    (tag : ℕ) (m : Action) (bs : Bytes) → Appends m bs → Appends (write (tag ∷ []) >> m) (tag ∷ bs)
tagged tag m bs h = Appends->> (write (tag ∷ [])) m (tag ∷ []) bs (Appends-write (tag ∷ [])) h

-- On a writer that takes everything, `WriteFrame` of a valid message's frame returns no error and
-- appends the message's bytes.
pub write_frame-encoding :
    (m : Message) (sent : Bytes)
    → IsValid m
    → write_frame (frame_of m) (reliable sent) ≡ (nil, reliable (sent ++ encoding m))
unfolding write_frame frame_of encoding
write_frame-encoding (ipv4 p) sent v = write_packet-Appends 4 p v.1 sent
write_frame-encoding (ipv6 p) sent v = write_packet-Appends 6 p v.1 sent
write_frame-encoding (hello h) sent v =
    tagged 0x10 (write_hello (some h)) _ (write_hello-Appends h v.1.0) sent
write_frame-encoding (session s) sent v =
    tagged 0x11 (write_session (some s)) _
      (rw (normal_id s v) at (write_session-Appends s (IsValid-IsWritable s v))) sent
write_frame-encoding (keepalive k) sent v =
    tagged 0x12 (write_keepalive (some k)) _ (write_keepalive-Appends k) sent
write_frame-encoding (rekey rk) sent v =
    tagged 0x13 (write_rekey (some rk)) _ (write_rekey-Appends rk v.0.0 v.1.0) sent
write_frame-encoding (close c) sent v =
    tagged 0x14 (write_close (some c)) _ (write_close-Appends c v.1.0) sent
