-- ===== src/Relay/Complete.antt =====
-- Nothing is lost between the pumps of two hosts on a stream that does not fail
-- (internal/tunnel/session/pump_linux.go, internal/transport/grpc/wrapper.go).
use Prim.Native.Nat.{bit_and}
use unverified.Common.{
  All-reverse, length-reverse, ◌≡◌, refl, ap, sym, ◌∙◌, ℕ, ◌≤◌, false, Option, List, [], ◌∷◌, ◌++◌,
  map, append_assoc, All, All-append, length, length-map, by_test, ◌==◌, arith,
}
use mathlib.Core.List.{reverse, reverse-reverse}
use mathlib.Core.Path.{subst}
use unverified.Common.Words.{Bytes, IsByte}
use unverified.Errors.{Error}
use unverified.Stream.{Reader, Writer, reliable}
use unverified.TunnelPb.{Frame}
use unverified.TunnelPb.Encode.Frames.{write_frame-encoding}
use unverified.TunnelPb.Encode.Uniform.{write_frame-IsUniform}
use unverified.TunnelPb.Wire.{Message, ipv4, ipv6, IsValid, frame_of, encoding}
use unverified.Transport.{
  Tunnel, wrap_stream, run, step, send_frame, close, close_frame, after_send,
}
use unverified.Transport.Integrity.{encodings}
use unverified.Transport.Delivery.{receive_times, receiver, receive_stream}
use unverified.Pump.{Runtime, Move}
use unverified.Pump.Taxonomy.{tag_of}
use unverified.Pump.Buffers.{new_buffer_pool}
use unverified.Pump.Exclusive.{IsFitting}
use unverified.Pump.Transfer.{
  framed_as, framed, frames_for, payloads, pending_up, pending_down, Carried,
}
use unverified.Pump.Transfer.Turns.{run_carries}
use unverified.Relay.Payloads.{routed, payloads-frames_for}
use unverified.Relay.Accepted.{relay_calls}
use unverified.Relay.Packets.{pumped, calls_for}
use unverified.Relay.Received.{frames_in, frames_in-arrived}

-- What an IP packet of the device is: bytes, and at most 65535 of them.
abbrev pub InRange : Bytes → Type 0
InRange p = (length p ≤ 65535) × All IsByte p

-- The frame of a valid message.
abbrev IsSendable : Frame → Type 0
IsSendable f = (m : Message) × (f ≡ frame_of m) × IsValid m

framed-IsSendable : (p : Bytes) → InRange p → All IsSendable (framed p)
unfolding tag_of frame_of
framed-IsSendable [] h = tt
framed-IsSendable (x ∷ xs) (short, typed) =
    by_test (λ (t : Option ℕ). All IsSendable (framed_as t (x ∷ xs))) (bit_and x 0xf0 == 0x40) _ _
      (λ _. ((ipv4 (x ∷ xs), refl, (omega arith, short, typed)), tt))
      (λ _.
        by_test (λ (t : Option ℕ). All IsSendable (framed_as t (x ∷ xs))) (bit_and x 0xf0 == 0x60) _
          _ (λ _. ((ipv6 (x ∷ xs), refl, (omega arith, short, typed)), tt)) (λ _. tt))

frames_for-IsSendable : (ps : List Bytes) → All InRange ps → All IsSendable (frames_for ps)
frames_for-IsSendable [] h = tt
frames_for-IsSendable (p ∷ ps) (h, hs) =
    All-append IsSendable (framed p) (frames_for ps) (framed-IsSendable p h)
      (frames_for-IsSendable ps hs)

messages_of :
    (fs : List Frame)
    → All IsSendable fs
    → (ms : List Message) × (fs ≡ map frame_of ms) × All IsValid ms
messages_of [] h = ([], refl, tt)
messages_of (f ∷ fs) ((m, e, v), hs) =
    let (ms, es, vs) = messages_of fs hs in
    (m ∷ ms, ap (λ (g : Frame). g ∷ fs) e ∙ ap (λ (gs : List Frame). frame_of m ∷ gs) es, (v, vs))

abbrev open_on : Reader → Bytes → Tunnel
open_on r sent = record { incoming = r; outgoing = reliable sent; closed = false }

send_frame-encoding :
    (m : Message) (r : Reader) (sent : Bytes)
    → IsValid m
    → (send_frame (frame_of m) (open_on r sent)).1 ≡ open_on r (sent ++ encoding m)
unfolding send_frame
send_frame-encoding m r sent v =
    ap (λ (x : Error × Writer). (after_send (open_on r sent) x).1) (write_frame-encoding m sent v)

-- On a stream that takes everything, all frames are on it, and the bytes of the `Close` behind them.
run_leaves :
    (ms : List Message) (code : ℕ) (message : Bytes) (r : Reader) (sent : Bytes)
    → All IsValid ms
    → (tail : Bytes) × ((run
          (relay_calls (map frame_of ms) code message)
          (open_on r sent)).outgoing.sent
        ≡ sent ++ (encodings ms ++ tail))
unfolding run step close
run_leaves [] code message r sent v =
    let grew = (write_frame-IsUniform (close_frame code message)).grew (reliable sent) tt in
    (grew.tail, grew.kept)
run_leaves (m ∷ ms) code message r sent (v, vs) =
    let (tail, e) = run_leaves ms code message r (sent ++ encoding m) vs in
    (
      tail,
      ap (λ (t : Tunnel). (run (relay_calls (map frame_of ms) code message) t).outgoing.sent)
            (send_frame-encoding m r sent v)
          ∙ e
          ∙ append_assoc sent (encoding m) (encodings ms ++ tail)
          ∙ ap (λ (bs : Bytes). sent ++ bs) (sym (append_assoc (encoding m) (encodings ms) tail)),
    )

-- All frames are received again.
module _ (code : ℕ) (message : Bytes) (r : Reader) (e : Error) (w : Writer) where
  abbrev received : ℕ → List Frame → List Frame
  received k fs = frames_in (
      receive_times k
        (receiver (run (relay_calls fs code message) (open_on r [])).outgoing.sent e w))

  received_messages :
      (ms : List Message)
      → All IsValid ms
      → received (length ms) (map frame_of ms) ≡ map frame_of ms
  received_messages ms v =
      let (tail, left) = run_leaves ms code message r [] v in
      ap (λ (bs : Bytes). frames_in (receive_times (length ms) (receiver bs e w))) left
      ∙ ap frames_in (receive_stream ms tail e w v)
      ∙ frames_in-arrived ms

  received_all : (fs : List Frame) → All IsSendable fs → received (length fs) fs ≡ fs
  received_all fs h =
      let (ms, same, valid) = messages_of fs h in
      ap (λ (gs : List Frame). received (length gs) gs) same
      ∙ ap (λ (n : ℕ). received n (map frame_of ms)) (length-map frame_of ms)
      ∙ received_messages ms valid
      ∙ sym same

  relayed_all :
      (s t : Runtime)
      → Carried s
      → Carried t
      → All InRange s.traffic.read
      → pending_up s.up s.memory ≡ []
      → reverse t.traffic.received ≡ received (length s.traffic.sent) (reverse s.traffic.sent)
      → routed s.traffic.read ≡ pending_down t.down t.memory ++ t.traffic.written
  relayed_all s t cs ct ranged idle answers =
      let sent : s.traffic.sent ≡ frames_for s.traffic.read =
        ap (λ (fs : List Frame). fs ++ s.traffic.sent) (sym idle) ∙ cs.upwards in
      let sendable =
        All-reverse IsSendable s.traffic.sent
          (subst (All IsSendable) (sym sent) (frames_for-IsSendable s.traffic.read ranged)) in
      let same : t.traffic.received ≡ s.traffic.sent =
        sym (reverse-reverse t.traffic.received)
        ∙ ap reverse (
            answers
            ∙ ap (λ (n : ℕ). received n (reverse s.traffic.sent))
                (sym (length-reverse s.traffic.sent))
            ∙ received_all (reverse s.traffic.sent) sendable)
        ∙ reverse-reverse s.traffic.sent in
      sym (payloads-frames_for s.traffic.read)
      ∙ ap payloads (sym sent ∙ sym same)
      ∙ sym ct.downwards

-- From device to device on a stream that does not fail, nothing is lost: when the sender's pump waits
-- in no `SendFrame`, and the receiver's pump has the frames of as many calls of `RecvFrame` as the
-- sender's has sent, the packets given to the receiver's device, with the one in progress, are all
-- the IPv4 and IPv6 packets read from the sender's, in order and byte for byte. The sender's tunnel is
-- new and gets the frames of its pump and then a `Close`. The packets read are bytes, at most 65535,
-- and no packet of the peers is longer than the buffers.
pub relays_all_packets :
    (from_size to_size : ℕ) (from to : List Move) (code : ℕ) (message : Bytes) (r : Reader)
    (e : Error) (w : Writer)
    → All (IsFitting (new_buffer_pool from_size).slice_size) from
    → All (IsFitting (new_buffer_pool to_size).slice_size) to
    → All InRange (pumped from_size from).traffic.read
    → pending_up (pumped from_size from).up (pumped from_size from).memory ≡ []
    → reverse (pumped to_size to).traffic.received
      ≡ frames_in (
          receive_times (length (pumped from_size from).traffic.sent) (
            receiver
              (run
                (calls_for (pumped from_size from) code message)
                (wrap_stream r (reliable []))).outgoing.sent
              e
              w))
    → routed (pumped from_size from).traffic.read
      ≡ pending_down (pumped to_size to).down (pumped to_size to).memory
        ++ (pumped to_size to).traffic.written
unfolding wrap_stream
relays_all_packets from_size to_size from to code message r e w from_fits to_fits =
    relayed_all code message r e w (pumped from_size from) (pumped to_size to)
      (run_carries from_size from from_fits) (run_carries to_size to to_fits)
