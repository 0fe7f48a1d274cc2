-- ===== src/Relay/Runs.antt =====
-- Two packets on their way between two pumps, over a stream that breaks within the second
-- (internal/tunnel/session/pump_linux.go, internal/transport/grpc/wrapper.go).
use unverified.Common.{◌++◌, false, ℕ, ◌≡◌, refl, some, List, [], ◌∷◌, arith, All, length}
use mathlib.Core.List.{reverse}
use mathlib.Core.Path.{subst, sym, ap, ◌∙◌}
use unverified.Common.Words.{IsByte, Bytes, be_uint, put_be}
use unverified.Errors.{nil, sentinel, eof, new}
use unverified.Stream.{reader, reliable, accepts, breaks, write, read_full}
use unverified.TunnelPb.{Frame}
use unverified.TunnelPb.Encode.{write_frame, write_by_tag, write_close, write_packet}
use unverified.TunnelPb.Decode.{read_frame, read_body, read_packet}
use unverified.TunnelPb.Wire.Carried.{IsTyped}
use unverified.Transport.{
  Tunnel, run, accepted, close_frame, send_frame, recv_frame, close, step, accepted_by,
}
use unverified.Transport.Integrity.{IsTypedCall}
use unverified.Transport.Delivery.{receive_times, receiver}
use unverified.Pump.{
  Move, up_starts, read_returns, send_returns, down_starts, receive_returns, write_returns,
  packet_frame, turn, play, fresh_runtime,
}
use unverified.Pump.Taxonomy.{tag_of}
use unverified.Pump.Buffers.{new_buffer_pool, pool_get, get_buf, put_buf}
use unverified.Relay.Accepted.{relay_calls}
use unverified.Relay.Received.{frames_in}
use unverified.Pump.Transfer.{pending_up, pending_down}
use unverified.Pump.Taxonomy.{send_failure}
use unverified.Stream.{Reader}
use unverified.Transport.{wrap_stream}
use unverified.Relay.Payloads.{routed}
use unverified.Relay.Complete.{InRange, relays_all_packets}
use unverified.Relay.Packets.{pumped, calls_for}

abbrev first : Bytes
first = 0x45 ∷ 1 ∷ []

abbrev second : Bytes
second = 0x60 ∷ 2 ∷ []

abbrev sending_moves : List Move
sending_moves =
    up_starts 0
    ∷ read_returns first nil
    ∷ send_returns nil
    ∷ up_starts 0
    ∷ read_returns second nil
    ∷ send_returns (new [])
    ∷ []

abbrev receiving_moves : List Move
receiving_moves =
    down_starts
    ∷ receive_returns 0 (some (packet_frame 4 first)) nil
    ∷ write_returns nil
    ∷ down_starts
    ∷ []

-- The stream takes the three writes of the first frame and one byte of the second.
abbrev breaking : Tunnel
breaking = record {
  incoming = reader [] (sentinel eof);
  outgoing = record { sent = []; plan = accepts ∷ accepts ∷ accepts ∷ breaks 1 (new []) ∷ [] };
  closed = false;
}

abbrev two_frames : List Frame
two_frames = packet_frame 4 first ∷ packet_frame 6 second ∷ []

two_sent : reverse (play sending_moves (fresh_runtime 64)).traffic.sent ≡ two_frames
unfolding play turn new_buffer_pool get_buf pool_get put_buf tag_of
two_sent = refl

one_accepted : accepted (relay_calls two_frames 0 []) breaking ≡ packet_frame 4 first ∷ []
unfolding accepted accepted_by step send_frame close write_frame write_by_tag write_packet write
    put_be
one_accepted = refl

one_received :
    frames_in (
      receive_times 1
        (receiver (run (relay_calls two_frames 0 []) breaking).outgoing.sent nil (reliable [])))
    ≡ packet_frame 4 first ∷ []
unfolding receive_times recv_frame run step send_frame close write_frame write_by_tag write_packet
    write put_be read_frame read_body read_packet read_full be_uint
one_received = refl

one_taken :
    reverse (play receiving_moves (fresh_runtime 64)).traffic.received ≡ packet_frame 4 first ∷ []
unfolding play turn new_buffer_pool get_buf pool_get put_buf tag_of
one_taken = refl

packet-IsTyped : (tag : ℕ) (p : Bytes) → All IsByte p → IsTyped (packet_frame tag p)
packet-IsTyped tag p h = record {
  packet = h;
  hello = tt;
  session = tt;
  keepalive = tt;
  rekey = tt;
  close = tt;
}

close_frame-IsTyped : IsTyped (close_frame 0 [])
close_frame-IsTyped = record {
  packet = tt;
  hello = tt;
  session = tt;
  keepalive = tt;
  rekey = tt;
  close = (omega arith, tt);
}

two-IsTypedCall : All IsTypedCall (relay_calls two_frames 0 [])
two-IsTypedCall = (
  packet-IsTyped 4 first (omega arith, (omega arith, tt)),
  (packet-IsTyped 6 second (omega arith, (omega arith, tt)), (close_frame-IsTyped, tt)),
)

-- Both packets over a stream that does not fail.
abbrev receiving_both : List Move
receiving_both =
    down_starts
    ∷ receive_returns 0 (some (packet_frame 4 first)) nil
    ∷ write_returns nil
    ∷ down_starts
    ∷ receive_returns 0 (some (packet_frame 6 second)) nil
    ∷ []

abbrev other_end : Reader
other_end = reader [] (sentinel eof)

both_taken : reverse (pumped 64 receiving_both).traffic.received ≡ two_frames
unfolding play turn new_buffer_pool get_buf pool_get put_buf tag_of
both_taken = refl

both_received :
    frames_in (
      receive_times 2 (
        receiver
          (run (relay_calls two_frames 0 []) (wrap_stream other_end (reliable []))).outgoing.sent
          nil
          (reliable [])))
    ≡ two_frames
unfolding receive_times recv_frame run step send_frame close write_frame write_by_tag write_packet
    write put_be read_frame read_body read_packet read_full be_uint wrap_stream write_close
both_received = refl

two_counted : length (pumped 64 sending_moves).traffic.sent ≡ 2
unfolding play turn new_buffer_pool get_buf pool_get put_buf tag_of
two_counted = refl

both_read : (pumped 64 sending_moves).traffic.read ≡ second ∷ first ∷ []
unfolding play turn new_buffer_pool get_buf pool_get put_buf tag_of
both_read = refl

two_InRange : All InRange (pumped 64 sending_moves).traffic.read
two_InRange = subst (All InRange) (sym both_read) (
  (omega arith, (omega arith, (omega arith, tt))),
  ((omega arith, (omega arith, (omega arith, tt))), tt),
)

none_pending : pending_up (pumped 64 sending_moves).up (pumped 64 sending_moves).memory ≡ []
unfolding play turn new_buffer_pool get_buf pool_get put_buf tag_of send_failure
none_pending = refl

both_answers :
    reverse (pumped 64 receiving_both).traffic.received
    ≡ frames_in (
        receive_times (length (pumped 64 sending_moves).traffic.sent) (
          receiver
            (run
              (calls_for (pumped 64 sending_moves) 0 [])
              (wrap_stream other_end (reliable []))).outgoing.sent
            nil
            (reliable [])))
both_answers =
    both_taken
    ∙ sym both_received
    ∙ ap
        (λ (n : ℕ). frames_in (
          receive_times n (
            receiver
              (run (relay_calls two_frames 0 [])
                (wrap_stream other_end (reliable []))).outgoing.sent
              nil (reliable []))))
        (sym two_counted)
    ∙ ap
        (λ (fs : List Frame). frames_in (
          receive_times (length (pumped 64 sending_moves).traffic.sent) (
            receiver (run (relay_calls fs 0 []) (wrap_stream other_end (reliable []))).outgoing.sent
              nil (reliable []))))
        (sym two_sent)

relays_all_packets_example :
    routed (pumped 64 sending_moves).traffic.read
    ≡ pending_down (pumped 64 receiving_both).down (pumped 64 receiving_both).memory
      ++ (pumped 64 receiving_both).traffic.written
unfolding new_buffer_pool
relays_all_packets_example =
    relays_all_packets 64 64 sending_moves receiving_both 0 [] other_end nil (reliable [])
      (tt, (tt, (tt, (tt, (tt, (tt, tt)))))) (tt, (omega arith, (tt, (tt, (omega arith, tt)))))
      two_InRange none_pending both_answers
