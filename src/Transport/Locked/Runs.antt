-- ===== src/Transport/Locked/Runs.antt =====
-- Two hosts that send to each other over a stream with room for four bytes, and are canceled
-- (internal/transport/grpc/wrapper.go).
use unverified.Common.Words.{Bytes}
use unverified.Common.{◌≡◌, refl, List, [], ◌∷◌, arith, false, map, All}
use unverified.Common.Words.{put_be}
use unverified.Stream.{write, read_full, reader, reliable}
use unverified.TunnelPb.Decode.{read_frame}
use unverified.Errors.{nil}
use unverified.TunnelPb.Wire.{Message, ipv4, keepalive, IsValid, frame_of}
use unverified.Transport.Locked.Passing.{pass_all, received_in, frames_pass}
use unverified.TunnelPb.{Frame}
use unverified.TunnelPb.Encode.{write_frame, write_packet, write_close}
use unverified.Pump.{packet_frame}
use unverified.Transport.Locked.{
  Side, Turn, west_acts, east_acts, asks_close, locks_close, asks_receive, locks_receive, asks_send,
  ends_close, locks_send, ends_send, goes_on_closing, breaks_close, goes_on_reading, act,
  goes_on_writing, not_sending, not_closing, not_receiving, take_turns, bytes_of, take_turn,
}
use unverified.Transport.{close_frame, send, shut, run, wrap_stream}
use unverified.Transport.Locked.Atomic.{MatchesSide}
use unverified.Transport.Locked.Refines.{called_in, steps_refine_calls}
use unverified.Transport.Locked.Whole.{begun_in}
use unverified.Transport.Locked.Streams.{read_in, IsOnStream}
use unverified.Transport.Locked.Blocked.{BothBlocked}
use unverified.Transport.Locked.Deadlock.{IsFree, IsTooMuch, both_send, senders_deadlock}

abbrev quiet : Side
quiet = record {
  sending = not_sending;
  closing = not_closing;
  receiving = not_receiving;
  locked = false;
  closed = false;
  unread = [];
}

abbrev ping : Frame
ping = packet_frame 4 (0x45 ∷ 1 ∷ [])

ping_bytes : bytes_of ping ≡ 0x04 ∷ 0 ∷ 2 ∷ 0x45 ∷ 1 ∷ []
unfolding write_frame write_packet write put_be
ping_bytes = refl

quiet-IsFree : IsFree quiet
quiet-IsFree = record { idle = refl; unlocked = refl; opened = refl; no_close = tt; no_reader = tt }

ping-IsTooMuch : IsTooMuch 4 ping quiet
unfolding write_frame write_packet write put_be
ping-IsTooMuch = (omega arith, omega arith)

-- Both watchers close the tunnel, and both pumps receive.
abbrev afterwards : List Turn
afterwards =
    west_acts (asks_close 0 [])
    ∷ west_acts locks_close
    ∷ east_acts asks_receive
    ∷ east_acts locks_receive
    ∷ east_acts (asks_close 0 [])
    ∷ west_acts (goes_on_writing 1)
    ∷ []

senders_deadlock_example :
    BothBlocked 4 (take_turns 4 afterwards (take_turns 4 (both_send 4 ping ping) (quiet, quiet)))
senders_deadlock_example =
    senders_deadlock 4 ping ping quiet quiet afterwards quiet-IsFree quiet-IsFree ping-IsTooMuch
      ping-IsTooMuch (tt, (tt, (tt, (tt, (tt, (tt, tt))))))

-- A `Close` while a `SendFrame` writes; the stream breaks within the close record.
abbrev busy : List Turn
busy =
    west_acts (asks_send ping)
    ∷ west_acts locks_send
    ∷ west_acts (goes_on_writing 2)
    ∷ west_acts (asks_close 0 [])
    ∷ west_acts locks_close
    ∷ east_acts asks_receive
    ∷ east_acts locks_receive
    ∷ east_acts goes_on_reading
    ∷ west_acts (goes_on_writing 9)
    ∷ west_acts ends_send
    ∷ west_acts locks_close
    ∷ west_acts (goes_on_closing 2)
    ∷ west_acts breaks_close
    ∷ []

busy_begun : begun_in 8 busy (quiet, quiet) ≡ ping ∷ close_frame 0 [] ∷ []
unfolding begun_in take_turn act write_frame write_packet write put_be read_frame read_full
busy_begun = refl

busy_read : read_in 8 busy (quiet, quiet) ≡ 0x04 ∷ []
unfolding read_in take_turn act write_frame write_packet write put_be write_close read_frame
    read_full
busy_read = refl

-- The same calls, with a `SendFrame` in place of the end of the close record.
abbrev overlapping : List Turn
overlapping =
    west_acts (asks_send ping)
    ∷ west_acts locks_send
    ∷ west_acts (asks_close 0 [])
    ∷ west_acts locks_close
    ∷ west_acts (goes_on_writing 2)
    ∷ east_acts asks_receive
    ∷ west_acts (goes_on_writing 9)
    ∷ west_acts ends_send
    ∷ west_acts locks_close
    ∷ west_acts (asks_send ping)
    ∷ west_acts (goes_on_closing 9)
    ∷ west_acts locks_send
    ∷ west_acts ends_close
    ∷ west_acts locks_send
    ∷ []

steps_refine_calls_example :
    (put : Bytes) × IsOnStream 20 overlapping (quiet, quiet) put
    × MatchesSide put
        (take_turns 20 overlapping (quiet, quiet)).0
        (run (called_in 20 overlapping (quiet, quiet)) (wrap_stream (reader [] nil) (reliable [])))
steps_refine_calls_example =
    steps_refine_calls 20 overlapping quiet quiet (reader [] nil) quiet-IsFree
      (tt, (tt, (tt, (tt, (tt, (tt, (tt, (tt, (tt, (tt, (tt, (tt, (tt, (tt, tt))))))))))))))

overlapping_called :
    called_in 20 overlapping (quiet, quiet) ≡ send ping ∷ shut 0 [] ∷ send ping ∷ []
unfolding called_in take_turn act write_frame write_packet write_close write put_be
overlapping_called = refl

-- Two messages through a stream with room for one byte.
abbrev few : List Message
few = ipv4 (0x45 ∷ 1 ∷ []) ∷ keepalive (record { nonce = 7 }) ∷ []

few-IsValid : All IsValid few
few-IsValid = ((omega arith, omega arith, (omega arith, (omega arith, tt))), (omega arith, tt))

frames_pass_example :
    (take_turns 1 (pass_all (map frame_of few)) (quiet, quiet) ≡ (quiet, quiet))
    × (received_in 1 (pass_all (map frame_of few)) (quiet, quiet) ≡ map frame_of few)
frames_pass_example =
    frames_pass 1 few quiet quiet (omega arith) few-IsValid quiet-IsFree quiet-IsFree refl refl
