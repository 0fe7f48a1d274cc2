-- ===== src/Transport/Runs.antt =====
-- Runs of the tunnel of internal/transport/grpc/wrapper.go, and its theorems at them.
use unverified.Common.{
  sym, inr, All, map, length, ◌≡◌, refl, false, none, some, List, [], ◌∷◌, arith,
}
use unverified.Common.Words.{Bytes}
use unverified.Errors.{nil, sentinel, eof, new, transport_closed}
use unverified.Stream.{reader, reliable, Outcome, breaks}
use unverified.TunnelPb.{Frame, blank}
use unverified.TunnelPb.Decode.{read_frame, read_body, read_keepalive}
use unverified.TunnelPb.Encode.{write_frame, write_keepalive}
use unverified.Stream.{read_full, write}
use unverified.Common.Words.{be_uint}
use unverified.TunnelPb.Wire.Carried.{IsTyped}
use unverified.Common.{inl}
use unverified.Transport.Delivery.{receive_times, arrived, receiver, IsFilled, received_in_order}
use unverified.Transport.{
  accepted_by, step, recv_frame, Tunnel, send_frame, close, Call, send, receive, run, accepted,
}
use unverified.Transport.Interleaved.{
  Split, Move, sends, shuts, begins, ends, split_run, calls_of, Agrees, split_run-Agrees,
  split_step, begin_receive, end_receive,
}
use unverified.Transport.Integrity.{CarryAll, Streamed, run-Streamed}
use unverified.Transport.Refused.{refused_by, refused}
use unverified.TunnelPb.Wire.{Message}
use mathlib.Core.Path.{subst}

abbrev ping : Frame
ping = record (blank 0x12) { keepalive = some (record { nonce = 7 }) }

ping-IsTyped : IsTyped ping
ping-IsTyped = record {
  packet = tt;
  hello = tt;
  session = tt;
  keepalive = omega arith;
  rekey = tt;
  close = tt;
}

-- A stream that breaks in the fourth write, behind its first byte: in the second of two pings.
abbrev fragile : Tunnel
fragile = record {
  incoming = reader [] (sentinel eof);
  outgoing = record {
    sent = [];
    plan = Outcome.accepts ∷ Outcome.accepts ∷ Outcome.accepts ∷ breaks 1 (new []) ∷ [];
  };
  closed = false;
}

abbrev calls : List Call
calls = send ping ∷ receive ∷ send ping ∷ []

run-Streamed_example :
    Streamed fragile (run calls fragile) (accepted calls fragile) (refused calls fragile)
run-Streamed_example =
    run-Streamed calls fragile (ping-IsTyped, (tt, (ping-IsTyped, tt))) (tt, (tt, (tt, (refl, tt))))

abbrev ping_bytes : Bytes
ping_bytes = 0x12 ∷ 0 ∷ 0 ∷ 0 ∷ 0 ∷ 0 ∷ 0 ∷ 0 ∷ 7 ∷ []

fragile_accepts : accepted calls fragile ≡ ping ∷ []
unfolding accepted accepted_by step run send_frame recv_frame write_frame write_keepalive write
    read_frame read_full
fragile_accepts = refl

fragile_refuses : refused calls fragile ≡ ping ∷ []
unfolding refused refused_by step run send_frame recv_frame write_frame write_keepalive write
    read_frame read_full
fragile_refuses = refl

ping-IsFilled : IsFilled ping
ping-IsFilled (inl tagged) = absurd (omega arith)
ping-IsFilled (inr tagged) = absurd (omega arith)

received_in_order_example :
    (ms : List Message) × CarryAll (accepted calls fragile) ms
    × (receive_times (length ms) (receiver (run calls fragile).outgoing.sent nil (reliable []))
        ≡ map arrived ms)
received_in_order_example =
    received_in_order calls fragile nil (reliable []) (ping-IsTyped, (tt, (ping-IsTyped, tt)))
      (tt, (tt, (tt, (refl, tt)))) refl
      (subst (All IsFilled) (sym fragile_accepts) (ping-IsFilled, tt))

-- A receiver waits while another goroutine sends and closes.
abbrev waiting_end : Split
waiting_end = record {
  tunnel = record {
    incoming = reader ping_bytes (sentinel eof);
    outgoing = reliable [];
    closed = false;
  };
  waiting = false;
  answers = [];
}

abbrev interleaved : List Move
interleaved = begins ∷ sends ping ∷ shuts 0 [] ∷ ends ∷ begins ∷ []

split_run-Agrees_example :
    Agrees waiting_end (calls_of interleaved waiting_end) (split_run interleaved waiting_end)
split_run-Agrees_example = split_run-Agrees interleaved waiting_end

-- The receiver that waited gets its frame behind the close; the next call answers `ErrClosed`.
received_behind_close :
    (split_run interleaved waiting_end).answers
    ≡ (some ping, nil) ∷ (none, sentinel transport_closed) ∷ []
unfolding split_run split_step begin_receive end_receive send_frame close read_frame read_body
    read_keepalive read_full write_frame write write_keepalive be_uint
received_behind_close = refl
