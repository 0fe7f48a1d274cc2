-- ===== src/TunnelPb/Wire/RoundTrip.antt =====
-- `ReadFrame` of internal/transport/grpc/tunnelpb/codec.go on the bytes of a message.
use unverified.Common.{◌≡◌, refl, ◌++◌, [], ◌∷◌, some}
use unverified.Common.Words.{Bytes}
use unverified.Errors.{Error, nil}
use unverified.Stream.{reader}
use unverified.Stream.Laws.{read_full-append}
use unverified.TunnelPb.Decode.{read_frame}
use unverified.TunnelPb.Wire.{
  Message, IsValid, ipv4, ipv6, hello, session, keepalive, rekey, close, encoding, frame_of,
}
use unverified.TunnelPb.Wire.Pieces.{
  read_hello-body, read_keepalive-body, read_rekey-body, read_close-body, read_packet-body,
}
use unverified.TunnelPb.Wire.Addresses.{read_session-body}

-- On the bytes of a valid message `ReadFrame` returns the frame of that message and no error, and
-- leaves exactly what stood behind them.
pub read_frame-encoding :
    (m : Message) (rest : Bytes) (e : Error)
    → IsValid m
    → read_frame (reader (encoding m ++ rest) e) ≡ ((some (frame_of m), nil), reader rest e)
unfolding read_frame encoding frame_of
read_frame-encoding (ipv4 p) rest e v =
    rw (read_full-append 1 (4 ∷ []) _ e refl, read_packet-body p rest e v)
read_frame-encoding (ipv6 p) rest e v =
    rw (read_full-append 1 (6 ∷ []) _ e refl, read_packet-body p rest e v)
read_frame-encoding (hello h) rest e v =
    rw (read_full-append 1 (0x10 ∷ []) _ e refl, read_hello-body h rest e v)
read_frame-encoding (session s) rest e v =
    rw (read_full-append 1 (0x11 ∷ []) _ e refl, read_session-body s rest e v)
read_frame-encoding (keepalive k) rest e v =
    rw (read_full-append 1 (0x12 ∷ []) _ e refl, read_keepalive-body k rest e v)
read_frame-encoding (rekey rk) rest e v =
    rw (read_full-append 1 (0x13 ∷ []) _ e refl, read_rekey-body rk rest e v)
read_frame-encoding (close c) rest e v =
    rw (read_full-append 1 (0x14 ∷ []) _ e refl, read_close-body c rest e v)
