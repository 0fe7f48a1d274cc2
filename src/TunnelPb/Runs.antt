-- ===== src/TunnelPb/Runs.antt =====
-- Runs of the codec of internal/transport/grpc/tunnelpb/codec.go, and its theorems at them.
use unverified.Common.{◌≡◌, ◌≢◌, refl, inl, none, some, [], ◌∷◌, ◌++◌, arith, All, true, false}
use unverified.Common.Words.{Bytes, put_be, IsByte}
use unverified.Errors.{nil, sentinel, eof, short_read, length_invalid, is_error}
use unverified.Stream.{reader, reliable}
use unverified.TunnelPb.{blank, Session}
use unverified.TunnelPb.Encode.{write_frame, write_session}
use unverified.TunnelPb.Encode.Pieces.{normal}
use unverified.TunnelPb.Encode.Sessions.{IsWritable}
use unverified.TunnelPb.Encode.Frames.{write_frame-encoding}
use unverified.TunnelPb.Encode.Sent.{IsSent, write_frame-IsSent}
use unverified.TunnelPb.Encode.{write_keepalive}
use unverified.Stream.{Writer, accepts, breaks, write}
use unverified.Errors.{new}
use unverified.TunnelPb.Decode.{read_frame}
use unverified.TunnelPb.Decode.Frames.{Decoded, read_frame-Decoded}
use unverified.TunnelPb.Wire.{Message, IsValid, hello, keepalive, encoding, frame_of, session_body}
use unverified.TunnelPb.Wire.Carried.{IsTyped}
use unverified.TunnelPb.Wire.RoundTrip.{read_frame-encoding}
use unverified.TunnelPb.Wire.Canonical.{IsCanonical, read_frame-IsCanonical}
use unverified.TunnelPb.Wire.Framing.{read_frame_truncated}
use unverified.TunnelPb.Wire.Deviations.{
  session_cut_eof, write_frame_empty, write_session_drops_ipv4,
}

abbrev greeting : Message
greeting = hello (record { protocol_version = 1; client_id = 97 ∷ 98 ∷ []; cipher_suite = 258 })

greeting-IsValid : IsValid greeting
greeting-IsValid = (omega arith, ((omega arith), (omega arith, (omega arith, tt))), omega arith)

abbrev ping : Message
ping = keepalive (record { nonce = 7 })

ping-IsValid : IsValid ping
ping-IsValid = omega arith

abbrev ping_bytes : Bytes
ping_bytes = 0x12 ∷ 0 ∷ 0 ∷ 0 ∷ 0 ∷ 0 ∷ 0 ∷ 0 ∷ 7 ∷ []

ping-encoding : encoding ping ≡ ping_bytes
unfolding encoding put_be
ping-encoding = refl

read_frame-encoding_example :
    read_frame (reader (encoding greeting ++ (9 ∷ [])) (sentinel eof))
    ≡ ((some (frame_of greeting), nil), reader (9 ∷ []) (sentinel eof))
read_frame-encoding_example = read_frame-encoding greeting (9 ∷ []) (sentinel eof) greeting-IsValid

ping_read : read_frame (reader ping_bytes nil) ≡ ((some (frame_of ping), nil), reader [] nil)
unfolding encoding put_be
ping_read = read_frame-encoding ping [] nil ping-IsValid

ping_bytes-IsByte : All IsByte ping_bytes
ping_bytes-IsByte = (
  omega arith,
  (
    omega arith,
    (
      omega arith,
      (omega arith, (omega arith, (omega arith, (omega arith, (omega arith, (omega arith, tt)))))),
    ),
  ),
)

read_frame-Decoded_example : Decoded (reader ping_bytes nil) (frame_of ping) (reader [] nil)
read_frame-Decoded_example =
    read_frame-Decoded (reader ping_bytes nil) (frame_of ping) (reader [] nil) ping_bytes-IsByte
      ping_read

ping-IsTyped : IsTyped (frame_of ping)
unfolding frame_of
ping-IsTyped = record {
  packet = tt;
  hello = tt;
  session = tt;
  keepalive = omega arith;
  rekey = tt;
  close = tt;
}

ping_written : write_frame (frame_of ping) (reliable []) ≡ (nil, reliable (encoding ping))
ping_written = write_frame-encoding ping [] ping-IsValid

-- A stream that takes the two writes of a ping and breaks in the next.
abbrev two_writes : Writer
two_writes = record { sent = 1 ∷ []; plan = accepts ∷ accepts ∷ breaks 0 (new []) ∷ [] }

abbrev behind_ping : Writer
behind_ping = record { sent = (1 ∷ []) ++ ping_bytes; plan = breaks 0 (new []) ∷ [] }

ping_sent : write_frame (frame_of ping) two_writes ≡ (nil, behind_ping)
unfolding write_frame write_keepalive write put_be frame_of
ping_sent = refl

write_frame-IsSent_example : IsSent (frame_of ping) two_writes behind_ping
write_frame-IsSent_example =
    write_frame-IsSent (frame_of ping) two_writes behind_ping ping-IsTyped (tt, (tt, (refl, tt)))
      ping_sent

write_frame-encoding_example :
    write_frame (frame_of greeting) (reliable (1 ∷ []))
    ≡ (nil, reliable ((1 ∷ []) ++ encoding greeting))
write_frame-encoding_example = write_frame-encoding greeting (1 ∷ []) greeting-IsValid

read_frame_truncated_example :
    read_frame (reader (0x12 ∷ 0 ∷ []) (sentinel eof))
    ≢ ((some (frame_of ping), nil), reader [] nil)
read_frame_truncated_example =
    read_frame_truncated ping (0x12 ∷ 0 ∷ []) (0 ∷ 0 ∷ 0 ∷ 0 ∷ 0 ∷ 7 ∷ []) 0 (sentinel eof)
      (frame_of ping) (reader [] nil) ping-IsValid ping-encoding

session_cut_eof_example :
    ((read_frame (reader (0x11 ∷ 2 ∷ put_be 4 1420) (sentinel eof))).0.0 ≡ some (blank 0x11))
    × (is_error (read_frame (reader (0x11 ∷ 2 ∷ put_be 4 1420) (sentinel eof))).0.1 eof ≡ true)
    × (is_error (read_frame (reader (0x11 ∷ 2 ∷ put_be 4 1420) (sentinel eof))).0.1 short_read
        ≡ false)
session_cut_eof_example = session_cut_eof 2 1420 (omega arith)

write_frame_empty_example :
    (write_frame (blank 0x04) (reliable []) ≡ (nil, reliable (0x04 ∷ 0 ∷ 0 ∷ [])))
    × ((read_frame (reader (0x04 ∷ 0 ∷ 0 ∷ 8 ∷ []) nil)).0.0 ≡ none)
    × (is_error (read_frame (reader (0x04 ∷ 0 ∷ 0 ∷ 8 ∷ []) nil)).0.1 length_invalid ≡ true)
write_frame_empty_example = write_frame_empty (blank 0x04) (8 ∷ []) nil (inl refl) refl

abbrev odd_session : Session
odd_session = record {
  assigned_ipv4 = 10 ∷ 66 ∷ [];
  assigned_ipv6 = [];
  dns_servers = [];
  mtu = 1420;
}

odd-IsWritable : IsWritable odd_session
odd-IsWritable = record { few = omega arith; v6 = inl refl; dns = tt }

write_session_drops_ipv4_example :
    write_session (some odd_session) (reliable [])
    ≡ (nil, reliable (session_body (record (normal odd_session) { assigned_ipv4 = [] })))
write_session_drops_ipv4_example =
    write_session_drops_ipv4 odd_session [] odd-IsWritable (omega arith) (omega arith)

read_frame-IsCanonical_example :
    IsCanonical (reader ping_bytes nil) (frame_of ping) (reader [] nil) (7 ∷ [])
read_frame-IsCanonical_example =
    read_frame-IsCanonical (reader ping_bytes nil) (frame_of ping) (reader [] nil) (7 ∷ [])
      ping_bytes-IsByte ping_read
