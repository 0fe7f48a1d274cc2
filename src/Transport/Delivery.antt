-- ===== src/Transport/Delivery.antt =====
-- The receiving end of a stream: `RecvFrame` of internal/transport/grpc/wrapper.go, called again and
-- again on what a sender has left.
use unverified.Common.{
  ℕ, zero, suc, ◌≡◌, refl, ap, ◌∙◌, false, Option, some, List, [], ◌∷◌, ◌++◌, map, append_assoc,
  All, length, ◌⊎◌, inl, inr, ◌≢◌,
}
use mathlib.Core.Path.{subst}
use unverified.Common.Words.{Bytes}
use unverified.Errors.{Error, nil}
use unverified.Stream.{reader, Writer}
use unverified.TunnelPb.{Frame}
use unverified.TunnelPb.Wire.{Message, IsValid, encoding, frame_of}
use unverified.TunnelPb.Wire.RoundTrip.{read_frame-encoding}
use unverified.Transport.{Tunnel, Call, run, accepted, recv_frame, after_receive}
use unverified.Transport.Integrity.{IsTypedCall, CarryAll, encodings, run-Streamed}
use unverified.TunnelPb.Wire.Carried.{Carries, IsEmptyPacket}
use unverified.Stream.Uniform.{IsLawful}
use unverified.TunnelPb.Encode.{packet_bytes}

-- The answers of n calls of `RecvFrame`.
unfoldable pub receive_times : ℕ → Tunnel → List (Option Frame × Error)
receive_times zero t = []
receive_times (suc n) t = (recv_frame t).0 ∷ receive_times n (recv_frame t).1

abbrev pub arrived : Message → Option Frame × Error
arrived m = (some (frame_of m), nil)

abbrev pub receiver : Bytes → Error → Writer → Tunnel
receiver bs e w = record { incoming = reader bs e; outgoing = w; closed = false }

receive_next :
    (m : Message) (rest : Bytes) (e : Error) (w : Writer)
    → IsValid m
    → recv_frame (receiver (encoding m ++ rest) e w) ≡ (arrived m, receiver rest e w)
unfolding recv_frame
receive_next m rest e w v =
    ap (after_receive (receiver (encoding m ++ rest) e w)) (read_frame-encoding m rest e v)

pub receive_stream :
    (ms : List Message) (rest : Bytes) (e : Error) (w : Writer)
    → All IsValid ms
    → receive_times (length ms) (receiver (encodings ms ++ rest) e w) ≡ map arrived ms
unfolding receive_times
receive_stream [] rest e w v = refl
receive_stream (m ∷ ms) rest e w (v, vs) =
    ap (λ (bs : Bytes). receive_times (suc (length ms)) (receiver bs e w))
      (append_assoc (encoding m) (encodings ms) rest)
    ∙ ap (λ (x : (Option Frame × Error) × Tunnel). x.0 ∷ receive_times (length ms) x.1)
        (receive_next m (encodings ms ++ rest) e w v)
    ∙ ap (λ (xs : List (Option Frame × Error)). arrived m ∷ xs) (receive_stream ms rest e w vs)

-- A packet frame has a packet of at least one byte.
abbrev pub IsFilled : Frame → Type 0
IsFilled f = (f.tag ≡ 0x04) ⊎ (f.tag ≡ 0x06) → packet_bytes f.packet ≢ []

filled-IsValid :
    (f : Frame) (m : Message) → Carries f m → IsValid m ⊎ IsEmptyPacket m → IsFilled f → IsValid m
filled-IsValid f m carries (inl valid) full = valid
filled-IsValid f m carries (inr (inl e)) full =
    let (tagged, nothing) = subst (Carries f) e carries in absurd (full (inl tagged) nothing)
filled-IsValid f m carries (inr (inr e)) full =
    let (tagged, nothing) = subst (Carries f) e carries in absurd (full (inr tagged) nothing)

all-IsValid :
    (fs : List Frame) (ms : List Message) → CarryAll fs ms → All IsFilled fs → All IsValid ms
all-IsValid [] [] h full = tt
all-IsValid [] (m ∷ ms) h full = absurd h
all-IsValid (f ∷ fs) [] h full = absurd h
all-IsValid (f ∷ fs) (m ∷ ms) ((carries, valid), hs) (full, more) =
    (filled-IsValid f m carries valid full, all-IsValid fs ms hs more)

-- End to end: whatever calls a sender makes on its tunnel and wherever its stream fails, the calls of
-- `RecvFrame` at the other end of the stream return the messages of the frames that the sender's
-- tunnel has accepted, in order and without an error, also where the stream has broken within a
-- later frame. The stream was empty, no accepted frame is a packet of no bytes, the fields of the
-- frames are in the ranges of their types, and a write of the stream that takes less than all
-- returns an error.
pub received_in_order :
    (cs : List Call) (t : Tunnel) (e : Error) (w : Writer)
    → All IsTypedCall cs
    → IsLawful t.outgoing
    → t.outgoing.sent ≡ []
    → All IsFilled (accepted cs t)
    → (ms : List Message) × CarryAll (accepted cs t) ms
      × (receive_times (length ms) (receiver (run cs t).outgoing.sent e w) ≡ map arrived ms)
received_in_order cs t e w typed l empty full =
    let s = run-Streamed cs t typed l in
    (
      s.messages,
      s.carried,
      ap (λ (bs : Bytes). receive_times (length s.messages) (receiver bs e w))
            (s.sent ∙ ap (λ (bs : Bytes). bs ++ (encodings s.messages ++ s.tail)) empty)
          ∙ receive_stream s.messages s.tail e w
              (all-IsValid (accepted cs t) s.messages s.carried full),
    )
