-- ===== src/Relay/Packets.antt =====
-- The packets that the pump of the receiver writes, against those that the pump of the sender has
-- read (internal/tunnel/session/pump_linux.go, internal/transport/grpc/wrapper.go).
use unverified.Common.{
  All-reverse, ◌≡◌, refl, ap, sym, ◌∙◌, ℕ, ◌≤◌, List, [], ◌∷◌, ◌++◌, map, append_assoc, append-nil,
  All, All-append, All-append_left, All-append_right, length, take, drop, take-append-drop,
}
use mathlib.Core.List.{reverse, reverse-append, reverse-reverse}
use mathlib.Core.Path.{subst}
use unverified.Common.Words.{Bytes}
use unverified.Errors.{Error}
use unverified.Stream.{Writer}
use unverified.Stream.Uniform.{IsLawful}
use unverified.TunnelPb.{Frame}
use unverified.TunnelPb.Wire.{Message, frame_of}
use unverified.Transport.{Call, Tunnel, run, accepted}
use unverified.Transport.Integrity.{IsTypedCall, run-Streamed, encodings}
use unverified.Transport.Delivery.{receive_times, receiver}
use unverified.Pump.{Runtime, Move, play, fresh_runtime}
use unverified.Pump.Buffers.{new_buffer_pool}
use unverified.Pump.Exclusive.{IsFitting}
use unverified.Pump.Transfer.{brought, payloads, pending_up, pending_down, Carried}
use unverified.Pump.Transfer.Turns.{run_carries}
use unverified.Relay.Payloads.{
  routed, payloads-append, payloads-reverse, routed-payloads, IsRelayed, frames_for-IsRelayed,
  carried_payloads,
}
use unverified.Relay.Accepted.{relay_calls, AcceptsFirst, relay_calls-AcceptsFirst}
use unverified.Relay.Received.{frames_in, frames_in-arrived, receive_some, CarryAll-length}

-- The packets that messages bring.
abbrev brings : List Message → List Bytes
brings ms = payloads (map frame_of ms)

brings-append : (ms ns : List Message) → brings (ms ++ ns) ≡ brings ms ++ brings ns
brings-append [] ns = refl
brings-append (m ∷ ms) ns =
    let here = brought (frame_of m).close (frame_of m).packet in
    ap (λ (ps : List Bytes). here ++ ps) (brings-append ms ns)
    ∙ sym (append_assoc here (brings ms) (brings ns))

latest_first :
    (all got later unsent : List Bytes)
    → all ≡ (reverse got ++ later) ++ unsent
    → reverse all ≡ (reverse unsent ++ reverse later) ++ got
latest_first all got later unsent e =
    ap reverse e
    ∙ reverse-append (reverse got ++ later) unsent
    ∙ ap (λ (ps : List Bytes). reverse unsent ++ ps)
        (reverse-append (reverse got) later
          ∙ ap (λ (ps : List Bytes). reverse later ++ ps) (reverse-reverse got))
    ∙ sym (append_assoc (reverse unsent) (reverse later) got)

-- The packets of the frames sent, when a receiver has taken the frames `received`.
module _ (sent received : List Frame) (ms : List Message) (k : ℕ) (accepts : List Frame)
    (a : AcceptsFirst (reverse sent) accepts) (same : brings ms ≡ payloads accepts)
    (got : reverse received ≡ map frame_of (take k ms)) where
  kept_packets : payloads a.kept ≡ reverse (payloads received) ++ brings (drop k ms)
  kept_packets =
      sym (append-nil (payloads a.kept))
      ∙ ap (λ (ps : List Bytes). payloads a.kept ++ ps) (sym a.ending_empty)
      ∙ sym (ap payloads a.all ∙ payloads-append a.kept a.ending)
      ∙ sym same
      ∙ ap brings (sym (take-append-drop k ms))
      ∙ brings-append (take k ms) (drop k ms)
      ∙ ap (λ (ps : List Bytes). ps ++ brings (drop k ms))
          (ap payloads (sym got) ∙ payloads-reverse received)

  sent_packets :
      payloads sent
      ≡ (reverse (payloads a.unsent) ++ reverse (brings (drop k ms))) ++ payloads received
  sent_packets =
      ap payloads (sym (reverse-reverse sent))
      ∙ payloads-reverse (reverse sent)
      ∙ latest_first (payloads (reverse sent)) (payloads received) (brings (drop k ms))
          (payloads a.unsent)
          (ap payloads a.first
            ∙ payloads-append a.kept a.unsent
            ∙ ap (λ (ps : List Bytes). ps ++ payloads a.unsent) kept_packets)

accepts-IsRelayed :
    (sent accepts : List Frame)
    → All IsRelayed sent
    → AcceptsFirst (reverse sent) accepts
    → All IsRelayed accepts
accepts-IsRelayed sent accepts h a = subst (All IsRelayed) (sym a.all) (
    All-append IsRelayed a.kept a.ending
      (All-append_left IsRelayed a.kept a.unsent
        (subst (All IsRelayed) a.first (All-reverse IsRelayed sent h)))
      a.ending_relayed)

-- The pump with buffers of this size, and the calls of its tunnel: a `SendFrame` for each frame that
-- it has sent, and a `Close`.
abbrev pub pumped : ℕ → List Move → Runtime
pumped size moves = play moves (fresh_runtime size)

abbrev pub calls_for : Runtime → ℕ → Bytes → List Call
calls_for s code message = relay_calls (reverse s.traffic.sent) code message

-- The packets written and the one in progress are, the latest first, the end of those read.
abbrev pub IsRelay : Runtime → Runtime → Type 0
IsRelay s r =
    (later : List Bytes) × (routed s.traffic.read
      ≡ later ++ (pending_down r.down r.memory ++ r.traffic.written))

relays :
    (s r : Runtime) (code : ℕ) (message : Bytes) (t : Tunnel) (k : ℕ) (e : Error) (w : Writer)
    → Carried s
    → Carried r
    → All IsTypedCall (calls_for s code message)
    → IsLawful t.outgoing
    → t.outgoing.sent ≡ []
    → k ≤ length (accepted (calls_for s code message) t)
    → reverse r.traffic.received
      ≡ frames_in (receive_times k (receiver (run (calls_for s code message) t).outgoing.sent e w))
    → IsRelay s r
relays s r code message t k e w cs cr typed lawful empty enough answers =
    let calls = calls_for s code message in
    let a = relay_calls-AcceptsFirst (reverse s.traffic.sent) code message t in
    let str = run-Streamed calls t typed lawful in
    let relayed =
      All-append_right IsRelayed (pending_up s.up s.memory) s.traffic.sent
        (subst (All IsRelayed) (sym cs.upwards) (frames_for-IsRelayed s.traffic.read)) in
    let (valid, same) =
      carried_payloads (accepted calls t) str.messages
        (accepts-IsRelayed s.traffic.sent (accepted calls t) relayed a) str.carried in
    let stream = str.sent ∙ ap (λ (bs : Bytes). bs ++ (encodings str.messages ++ str.tail)) empty in
    let got =
      answers
      ∙ ap (λ (bs : Bytes). frames_in (receive_times k (receiver bs e w))) stream
      ∙ ap frames_in (
          receive_some k str.messages str.tail e w valid (
            subst (λ (n : ℕ). k ≤ n) (CarryAll-length (accepted calls t) str.messages str.carried)
              enough))
      ∙ frames_in-arrived (take k str.messages) in
    let later = reverse (payloads a.unsent) ++ reverse (brings (drop k str.messages)) in
    (
      payloads (pending_up s.up s.memory) ++ later,
      routed-payloads s cs
          ∙ ap (λ (ps : List Bytes). payloads (pending_up s.up s.memory) ++ ps)
              (sent_packets s.traffic.sent r.traffic.received str.messages k (accepted calls t) a
                same got)
          ∙ sym (
              append_assoc (payloads (pending_up s.up s.memory)) later
                (payloads r.traffic.received))
          ∙ ap (λ (ps : List Bytes). (payloads (pending_up s.up s.memory) ++ later) ++ ps)
              (sym cr.downwards),
    )

-- From device to device: whatever the interleavings of the two pumps are and wherever the stream
-- between them fails, the packets that the receiver's pump has given to its device, with the one in
-- progress, are the first of the IPv4 and IPv6 packets that the sender's pump has read from its
-- own, in order and byte for byte. The stream was empty, the sender's tunnel has got the frames of
-- its pump and then a `Close`, and the receiver's pump has the frames that the first k calls of
-- `RecvFrame` return, at most as many as the sender's tunnel has accepted. No packet of the peer is
-- longer than
-- the buffers, the fields of the frames are in the ranges of their types, and a write of the stream
-- that takes less than all returns an error.
relays_packets :
    (from_size to_size : ℕ) (from to : List Move) (code : ℕ) (message : Bytes) (t : Tunnel) (k : ℕ)
    (e : Error) (w : Writer)
    → All (IsFitting (new_buffer_pool from_size).slice_size) from
    → All (IsFitting (new_buffer_pool to_size).slice_size) to
    → All IsTypedCall (calls_for (pumped from_size from) code message)
    → IsLawful t.outgoing
    → t.outgoing.sent ≡ []
    → k ≤ length (accepted (calls_for (pumped from_size from) code message) t)
    → reverse (pumped to_size to).traffic.received
      ≡ frames_in (
          receive_times k
            (receiver (run (calls_for (pumped from_size from) code message) t).outgoing.sent e w))
    → IsRelay (pumped from_size from) (pumped to_size to)
relays_packets from_size to_size from to code message t k e w from_fits to_fits =
    relays (pumped from_size from) (pumped to_size to) code message t k e w
      (run_carries from_size from from_fits) (run_carries to_size to to_fits)
