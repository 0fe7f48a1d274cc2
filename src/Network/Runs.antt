-- ===== src/Network/Runs.antt =====
-- A packet on its way from one host to the other, over a stream that breaks within the next one
-- (internal/tunnel/session/pump_linux.go, internal/transport/grpc/wrapper.go).
use unverified.Common.{true, none, false, ◌≡◌, refl, sym, List, [], ◌∷◌, append-nil, arith, All}
use unverified.Common.Words.{Bytes, IsByte, put_be, be_uint}
use unverified.Errors.{nil, sentinel, eof, new}
use unverified.Stream.{Outcome, accepts, breaks, read_full, write}
use unverified.Stream.Uniform.{IsLawfulOutcome}
use unverified.Pump.{
  cancel, receiving, wait, turn, Move, up_starts, read_returns, down_starts, write_returns,
}
use unverified.Pump.Buffers.{new_buffer_pool, get_buf, put_buf, pool_get}
use unverified.Pump.Taxonomy.{tag_of}
use unverified.TunnelPb.Encode.{write_frame, write_packet}
use unverified.TunnelPb.Decode.{read_frame, read_packet}
use unverified.Transport.{send_frame, close, wrap_stream}
use unverified.Pump.Exclusive.{Exclusive}
use unverified.Relay.Packets.{IsRelay}
use unverified.Network.{
  Host, Network, HostStep, moves, sends, enters, reads, west_steps, east_steps, west_after,
  east_after, fresh_network, Reach, start, later, IsLocal,
}
use unverified.Network.{fresh_host, enter_receive, watch_closes, closes}
use unverified.Network.Waits.{SilentRun, rests, goes_on, canceled_run_waits}
use unverified.Network.Turns.{IsIdle}
use unverified.Network.Delivers.{CanDeliver, all_delivered}
use unverified.Network.Relayed.{reach-IsRelay}

-- The stream of the west takes the three writes of the first frame and one byte of the second.
abbrev west_plan : List Outcome
west_plan = accepts ∷ accepts ∷ accepts ∷ breaks 1 (new []) ∷ []

west_plan-IsLawful : All IsLawfulOutcome west_plan
west_plan-IsLawful = (tt, (tt, (tt, (refl, tt))))

abbrev first : Bytes
first = 0x45 ∷ 1 ∷ []

abbrev second : Bytes
second = 0x60 ∷ 2 ∷ []

-- A state and how it was reached.
record Visit : Type 0 where
  at : Network
  reached : Reach 64 at

abbrev begin : Visit
begin = record {
  at = fresh_network 64 west_plan [];
  reached = start west_plan [] west_plan-IsLawful tt;
}

abbrev west : (h : Host) (v : Visit) → HostStep v.at.west h → Visit
west h v s = record {
  at = west_after h v.at;
  reached = later v.at (west_after h v.at) v.reached (west_steps h s);
}

abbrev east : (h : Host) (v : Visit) → HostStep v.at.east h → Visit
east h v s = record {
  at = east_after h v.at;
  reached = later v.at (east_after h v.at) v.reached (east_steps h s);
}

abbrev west_moves : (m : Move) → IsLocal m → Visit → Visit
west_moves m l v = west _ v (moves m l)

abbrev east_moves : (m : Move) → IsLocal m → Visit → Visit
east_moves m l v = east _ v (moves m l)

abbrev west_sends : Visit → Visit
west_sends v = west _ v sends

abbrev east_enters : Visit → Visit
east_enters v = east _ v (enters 0)

-- All that has arrived is read, and the stream would end behind it.
abbrev east_reads : Visit → Visit
east_reads v = east _ v (
    reads 0 v.at.east.tunnel.incoming.input [] (sentinel eof) refl
      (sym (append-nil v.at.east.tunnel.incoming.input)))

first_typed : All IsByte first
first_typed = (omega arith, (omega arith, tt))

second_typed : All IsByte second
second_typed = (omega arith, (omega arith, tt))

abbrev west_sent : Visit
west_sent = west_sends (
    west_moves (read_returns second nil) second_typed (
      west_moves (up_starts 0) tt (
        west_sends
          (west_moves (read_returns first nil) first_typed (west_moves (up_starts 0) tt begin)))))

abbrev east_received : Visit
east_received =
    east_moves (write_returns nil) tt
      (east_reads (east_enters (east_moves down_starts tt west_sent)))

reach-IsRelay_example :
    IsRelay east_received.at.west.runtime east_received.at.east.runtime
    × IsRelay east_received.at.east.runtime east_received.at.west.runtime
    × Exclusive (new_buffer_pool 64).slice_size east_received.at.west.runtime
    × Exclusive (new_buffer_pool 64).slice_size east_received.at.east.runtime
reach-IsRelay_example = reach-IsRelay 64 east_received.at east_received.reached

-- The first packet has arrived, and the byte of the second is left.
east_written : east_received.at.east.runtime.traffic.written ≡ first ∷ []
unfolding turn wrap_stream read_frame read_full get_buf pool_get new_buffer_pool tag_of send_frame
    write_frame write_packet write put_be put_buf read_packet be_uint
east_written = refl

east_left : east_received.at.east.tunnel.incoming.input ≡ 0x06 ∷ []
unfolding turn wrap_stream read_frame read_full get_buf pool_get new_buffer_pool tag_of send_frame
    write_frame write_packet write put_be put_buf read_packet be_uint
east_left = refl

-- Two packets over a stream that takes everything, and the east has read none of them.
abbrev both_sent : Visit
both_sent = west_sends (
    west_moves (read_returns second nil) second_typed (
      west_moves (up_starts 0) tt (
        west_sends (
          west_moves (read_returns first nil) first_typed (
            west_moves (up_starts 0) tt
              (record { at = fresh_network 64 [] []; reached = start [] [] tt tt }))))))

east_waits : IsIdle both_sent.at.east
unfolding wrap_stream
east_waits = record { going = refl; at_top = refl; opened = refl; not_entered = refl }

west_open : both_sent.at.west.tunnel.closed ≡ false
unfolding turn wrap_stream get_buf pool_get new_buffer_pool tag_of send_frame write_frame
    write_packet write put_be put_buf
west_open = refl

all_delivered_example : CanDeliver 64 both_sent.at
all_delivered_example = all_delivered 64 both_sent.at both_sent.reached east_waits west_open

-- A host whose pump reads, before and behind a cancel and the `Close` of its watcher.
abbrev started : Host
started = let h = fresh_host 64 [] in record h { runtime = turn down_starts h.runtime }

abbrev reading_host : Host
reading_host = enter_receive 0 started.runtime.down started

abbrev canceled_host : Host
canceled_host = record reading_host { runtime = turn cancel reading_host.runtime }

abbrev closed_host : Host
closed_host = watch_closes canceled_host

reading_host-waits : (reading_host.runtime.down ≡ receiving) × (reading_host.entered ≡ true)
unfolding turn wrap_stream
reading_host-waits = (refl, refl)

closed_host-closed : (closed_host.runtime.done ≡ true) × (closed_host.tunnel.closed ≡ true)
unfolding turn wrap_stream close
closed_host-closed = (refl, refl)

cancel_run : SilentRun reading_host closed_host
cancel_run =
    goes_on canceled_host closed_host
      (goes_on reading_host canceled_host rests (moves cancel tt) tt) closes tt

canceled_run_waits_example :
    (wait closed_host.runtime ≡ none)
    × (closed_host.runtime.down ≡ receiving)
    × (closed_host.entered ≡ true)
    × (closed_host.tunnel.incoming ≡ reading_host.tunnel.incoming)
canceled_run_waits_example =
    canceled_run_waits reading_host closed_host reading_host-waits.0 reading_host-waits.1 cancel_run
