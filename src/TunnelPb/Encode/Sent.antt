-- ===== src/TunnelPb/Encode/Sent.antt =====
-- `WriteFrame` of internal/transport/grpc/tunnelpb/codec.go on a stream that may break.
use unverified.Common.{◌≡◌, ap, ◌∙◌, ◌⊎◌, ◌++◌, []}
use unverified.Common.Words.{Bytes}
use unverified.Errors.{nil}
use unverified.Stream.{Writer, reliable}
use unverified.Stream.Uniform.{IsLawful}
use unverified.TunnelPb.{Frame}
use unverified.TunnelPb.Encode.{write_frame}
use unverified.TunnelPb.Encode.Uniform.{write_frame-IsUniform}
use unverified.TunnelPb.Encode.Written.{write_frame-IsWritten}
use unverified.TunnelPb.Wire.{Message, IsValid, encoding}
use unverified.TunnelPb.Wire.Carried.{IsTyped, Carries, IsEmptyPacket}

-- The message that `f` carries has been appended.
pub record IsSent (f : Frame) (w after : Writer) : Type 0 where
  pub message : Message
  pub carried : Carries f message
  pub valid : IsValid message ⊎ IsEmptyPacket message
  pub sent : after.sent ≡ w.sent ++ encoding message
  pub lawful : IsLawful after

-- If `WriteFrame` returns no error, on any stream, then the frame carries a message, that message is
-- valid or a packet of no bytes, and exactly its bytes were appended to the stream. The fields of
-- the frame are in the ranges of their Go types, and a write of the stream that takes less than all
-- returns an error.
pub write_frame-IsSent :
    (f : Frame) (w after : Writer)
    → IsTyped f
    → IsLawful w
    → write_frame f w ≡ (nil, after)
    → IsSent f w after
write_frame-IsSent f w after typed l ran =
    let wrote = (write_frame-IsUniform f).wrote w after l ran in
    let (m, carried, valid, added) =
      write_frame-IsWritten f [] (reliable wrote.bytes_added) typed (wrote.alike []) in
    record {
      message = m;
      carried = carried;
      valid = valid;
      sent = wrote.sent ∙ ap (λ (bs : Bytes). w.sent ++ bs) (ap (λ (v : Writer). v.sent) added);
      lawful = wrote.lawful;
    }
