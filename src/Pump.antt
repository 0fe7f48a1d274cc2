-- ===== src/Pump.antt =====
-- internal/tunnel/session/pump_linux.go and pump_other.go: the pump between a device and a tunnel.
-- The state is that of one `Run`: the context of the `errgroup`, the watcher, the two loops and the
-- buffers that they share. A move is one step of one of them, or the answer of a call that a loop
-- waits in. The device and the tunnel are interfaces: their answers are arguments of the moves.
pub mod Buffers
pub mod Taxonomy
pub mod Exclusive
pub mod Transfer
pub mod Shutdown
pub mod Outcomes
pub mod Stall
pub mod Oversize
mod Runs
use unverified.Common.{
  ℕ, ◌+◌, ◌/◌, ◌%◌, Bool, true, false, ◌||◌, ◌&&◌, not, Option, none, some, List, [], ◌∷◌, ◌++◌,
  if◌then◌else◌, ltb, leb, ◌==◌, length, take, drop, get_or,
}
use unverified.Common.Words.{Bytes}
use unverified.Errors.{
  Error, nil, new, wrap, pump_error, bytes, is_nil, is_error, eof, canceled, deadline_exceeded,
  tun_closed, transport_closed, unsupported_platform, read_tun_failed, write_tun_failed,
  send_frame_failed, recv_frame_failed,
}
use unverified.TunnelPb.{Frame, Close, blank}
use Taxonomy.{read_failure, send_failure, receive_failure, write_failure, tag_of, unknown_version}
use Buffers.{Buffer, Pool, new_buffer_pool, get_buf, put_buf}

abbrev pub pool_overhead : ℕ
pool_overhead = 32

pub record Options : Type 0 where
  pub buffer_overhead : ℕ

pub record Pump : Type 0 where
  pub buffer_overhead : ℕ

-- `New`: the overhead of the options, with its default.
unfoldable pub new_pump : Options → Pump
new_pump opts = record {
  buffer_overhead = if opts.buffer_overhead == 0 then pool_overhead else opts.buffer_overhead;
}

-- Where the goroutine of `pumpUp` is: at the top of the loop, in `dev.Read(buf)`, in `SendFrame` of
-- the first n bytes of the buffer, or behind its return.
pub data Up : Type 0 where
  up_top : Up
  reading : Buffer → Up
  sending : Buffer → ℕ → ℕ → Up
  up_returned : Error → Up

-- `pumpDown`: at the top, in `RecvFrame`, in `dev.Write` of n bytes, or behind its return.
pub data Down : Type 0 where
  down_top : Down
  receiving : Down
  writing : Buffer → ℕ → Down
  down_returned : Error → Down

-- What went over the two interfaces, the latest first: the packets that `Read` returned, the frames
-- given to `SendFrame`, those that `RecvFrame` returned, and the slices given to `Write`.
pub record Traffic : Type 0 where
  pub read : List Bytes
  pub sent : List Frame
  pub received : List Frame
  pub written : List Bytes

-- `done` and `failure` are the context and the first error of the `errgroup`, `watched` is set when
-- the watcher has closed both ends, and `memory` holds what the buffers' arrays begin with.
pub record Runtime : Type 0 where
  pub done : Bool
  pub failure : Error
  pub watched : Bool
  pub pool : Pool
  pub memory : ℕ → Bytes
  pub up : Up
  pub down : Down
  pub traffic : Traffic

pub data Move : Type 0 where
  cancel : Move
  watch : Move
  wait_ends : Move
  up_starts : ℕ → Move
  read_returns : Bytes → Error → Move
  send_returns : Error → Move
  down_starts : Move
  receive_returns : ℕ → Option Frame → Error → Move
  write_returns : Error → Move

-- `copy` to the array of the buffer i.
abbrev pub filled : ℕ → Bytes → (ℕ → Bytes) → ℕ → Bytes
filled i bs memory j = if i == j then bs ++ drop (length bs) (memory j) else memory j

-- `g.Go(func() error { return ... })`: the first error that is not nil is kept and ends the context.
abbrev pub group_failure : Error → Error → Error
group_failure e failure = if is_nil failure then e else failure

abbrev pub return_up : Error → Runtime → Runtime
return_up e s = record s {
  up = up_returned e;
  failure = group_failure e s.failure;
  done = s.done || not (is_nil e);
}

abbrev pub return_down : Error → Runtime → Runtime
return_down e s = record s {
  down = down_returned e;
  failure = group_failure e s.failure;
  done = s.done || not (is_nil e);
}

abbrev pub give_back : Buffer → Runtime → Runtime
give_back b s = record s { pool = put_buf b s.pool }

-- `&tunnelpb.Frame{Tag: tag, Packet: pkt}`.
abbrev pub packet_frame : ℕ → Bytes → Frame
packet_frame tag packet = record (blank tag) { packet = some packet }

-- `pumpUp`, from the top of the loop to `dev.Read`.
abbrev pub reading_into : Buffer × Pool → Runtime → Runtime
reading_into (b, p) s = record s { up = reading b; pool = p }

abbrev pub start_up : ℕ → Up → Runtime → Runtime
start_up pick up_top s = if s.done then return_up nil s else reading_into (get_buf pick 0 s.pool) s
start_up pick up s = s

-- From the answer of `dev.Read` to `SendFrame`.
abbrev pub send_tagged : Option ℕ → ℕ → Bytes → Buffer → Runtime → Runtime
send_tagged none x packet b s = return_up (unknown_version x) (give_back b s)
send_tagged (some tag) x packet b s = record s {
  up = sending b (length packet) tag;
  memory = filled b.id packet s.memory;
}

abbrev pub send_packet : Bytes → Buffer → Runtime → Runtime
send_packet [] b s = give_back b (record s { up = up_top })
send_packet (x ∷ xs) b s = send_tagged (tag_of x) x (x ∷ xs) b s

abbrev pub log_read : Bytes → Runtime → Runtime
log_read packet s = record s { traffic = record s.traffic { read = packet ∷ s.traffic.read } }

-- `Read` returns at most the length of the buffer: a longer answer is no move.
abbrev pub after_read : Bytes → Error → Up → Runtime → Runtime
after_read packet e (reading b) s =
    if leb (length packet) b.cap
    then if is_nil e
      then send_packet packet b (log_read packet s)
      else return_up (read_failure e) (give_back b s)
    else s
after_read packet e up s = s

-- From the answer of `SendFrame` to the top.
abbrev pub log_send : Frame → Runtime → Runtime
log_send f s = record s { traffic = record s.traffic { sent = f ∷ s.traffic.sent } }

abbrev pub sent_or_failed : Error → Runtime → Runtime
sent_or_failed e s = if is_nil e then record s { up = up_top } else return_up (send_failure e) s

abbrev pub after_send : Error → Up → Runtime → Runtime
after_send e (sending b n tag) s =
    sent_or_failed e (give_back b (log_send (packet_frame tag (take n (s.memory b.id))) s))
after_send e up s = s

-- `pumpDown`, from the top of the loop to `RecvFrame`.
abbrev pub start_down : Down → Runtime → Runtime
start_down down_top s = if s.done then return_down nil s else record s { down = receiving }
start_down down s = s

-- From the answer of `RecvFrame` to `dev.Write`.
abbrev pub copy_packet : Bytes → Buffer × Pool → Runtime → Runtime
copy_packet packet (b, p) s = record s {
  down = writing b (length packet);
  pool = p;
  memory = filled b.id (take b.cap packet) s.memory;
}

abbrev pub write_payload : ℕ → Option Bytes → Runtime → Runtime
write_payload pick none s = record s { down = down_top }
write_payload pick (some packet) s = copy_packet packet (get_buf pick (length packet) s.pool) s

abbrev pub unless_close : ℕ → Option Close → Option Bytes → Runtime → Runtime
unless_close pick (some c) packet s = return_down nil s
unless_close pick none packet s = write_payload pick packet s

abbrev pub log_receive : Frame → Runtime → Runtime
log_receive f s = record s { traffic = record s.traffic { received = f ∷ s.traffic.received } }

abbrev pub deliver : ℕ → Option Frame → Runtime → Runtime
deliver pick none s =
    return_down
      (pump_error recv_frame_failed (bytes "recv frame")
        (new (bytes "pump: nil frame without error")))
      s
deliver pick (some f) s = unless_close pick f.close f.packet (log_receive f s)

abbrev pub after_receive : ℕ → Option Frame → Error → Down → Runtime → Runtime
after_receive pick f e receiving s =
    if is_nil e then deliver pick f s else return_down (receive_failure e) s
after_receive pick f e down s = s

-- From the answer of `dev.Write` to the top: its count is dropped.
abbrev pub log_write : Bytes → Runtime → Runtime
log_write packet s = record s {
  traffic = record s.traffic { written = packet ∷ s.traffic.written };
}

abbrev pub written_or_failed : Error → Runtime → Runtime
written_or_failed e s =
    if is_nil e then record s { down = down_top } else return_down (write_failure e) s

abbrev pub after_write : Error → Down → Runtime → Runtime
after_write e (writing b n) s =
    written_or_failed e (give_back b (log_write (take n (s.memory b.id)) s))
after_write e down s = s

-- Both loops have returned.
abbrev pub both_returned : Up → Down → Bool
both_returned (up_returned e) (down_returned f) = true
both_returned up down = false

-- A move that its goroutine cannot make leaves the state as it is.
unfoldable pub turn : Move → Runtime → Runtime
turn cancel s = record s { done = true }
turn watch s = if s.done then record s { watched = true } else s
turn wait_ends s = if both_returned s.up s.down then record s { done = true } else s
turn (up_starts pick) s = start_up pick s.up s
turn (read_returns packet e) s = after_read packet e s.up s
turn (send_returns e) s = after_send e s.up s
turn down_starts s = start_down s.down s
turn (receive_returns pick f e) s = after_receive pick f e s.down s
turn (write_returns e) s = after_write e s.down s

unfoldable pub play : List Move → Runtime → Runtime
play [] s = s
play (m ∷ ms) s = play ms (turn m s)

-- `Run` up to `g.Wait()`. The device is `none` for nil, or what its `MTU` returns.
pub data Started : Type 0 where
  refused : Error → Started
  running : Runtime → Started

abbrev pub fresh_runtime : ℕ → Runtime
fresh_runtime slice_size = record {
  done = false;
  failure = nil;
  watched = false;
  pool = new_buffer_pool slice_size;
  memory = λ _. [];
  up = up_top;
  down = down_top;
  traffic = record { read = []; sent = []; received = []; written = [] };
}

abbrev pub start_with : ℕ → ℕ → Error → Started
start_with overhead mtu e =
    if is_nil e
    then running (fresh_runtime (mtu + overhead))
    else refused (pump_error read_tun_failed (bytes "mtu") (wrap (bytes "pump: device mtu: ") e []))

unfoldable pub start : Pump → Option (ℕ × Error) → Bool → Started
start p none tunnel =
    refused (pump_error read_tun_failed (bytes "startup") (new (bytes "pump: device is nil")))
start p (some (mtu, e)) false =
    refused (pump_error send_frame_failed (bytes "startup") (new (bytes "pump: tunnel is nil")))
start p (some (mtu, e)) true = start_with p.buffer_overhead mtu e

-- `g.Wait()` answers when both loops have returned; it then ends the context.
unfoldable pub wait : Runtime → Option Error
wait s = if both_returned s.up s.down then some s.failure else none

-- `Run` on a platform that is not Linux.
unfoldable pub run_other : Error
run_other = pump_error unsupported_platform (bytes "startup") nil
