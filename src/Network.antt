-- ===== src/Network.antt =====
-- Two hosts that run the pump against each other: the pump of each
-- (internal/tunnel/session/pump_linux.go), its tunnel (internal/transport/grpc/wrapper.go), and the
-- streams between them. What one tunnel writes is what the other one has still to read, until the
-- stream fails.
pub mod Writes
pub mod Offers
pub mod Flow
pub mod Taken
pub mod Outgoing
pub mod Moves
pub mod Answers
pub mod Hosts
pub mod Receives
pub mod Relayed
pub mod Turns
pub mod Delivers
pub mod Waits
mod Runs
use unverified.Common.{
  ℕ, ◌≡◌, Bool, true, false, Option, none, List, [], ◌++◌, All, length, drop, take, if◌then◌else◌,
}
use unverified.Common.Words.{Bytes, IsByte}
use unverified.Errors.{Error, nil, sentinel, eof, transport_closed, is_nil, bytes}
use unverified.Stream.{Reader, reader, Writer, Outcome}
use unverified.Stream.Uniform.{IsLawfulOutcome}
use unverified.TunnelPb.{Frame}
use unverified.TunnelPb.Decode.{Returned, read_frame}
use unverified.Transport.{Tunnel, wrap_stream, send_frame, close}
use unverified.Pump.{
  Runtime, Move, cancel, watch, wait_ends, up_starts, read_returns, send_returns, down_starts,
  receive_returns, write_returns, Up, sending, Down, receiving, turn, packet_frame, fresh_runtime,
}

-- `entered`: the `RecvFrame` of the pump has passed its test of the flag, and reads the stream. The
-- input of the tunnel is what the peer has written and this host has not read.
pub record Host : Type 0 where
  pub runtime : Runtime
  pub tunnel : Tunnel
  pub entered : Bool

pub record Network : Type 0 where
  pub west : Host
  pub east : Host

-- `SendFrame`, called by `pumpUp`, to its return.
abbrev pub after_send_frame : Host → Error × Tunnel → Host
after_send_frame h (e, t) = record h { runtime = turn (send_returns e) h.runtime; tunnel = t }

abbrev pub send_pending : Up → Host → Host
send_pending (sending b n tag) h =
    after_send_frame h (send_frame (packet_frame tag (take n (h.runtime.memory b.id))) h.tunnel)
send_pending up h = h

-- The watcher: `tun.Close(0, "pump: ctx cancel")` when the context has ended.
abbrev pub watch_message : Bytes
watch_message = bytes "pump: ctx cancel"

abbrev pub watch_closes : Host → Host
watch_closes h =
    if h.runtime.done
    then record h { runtime = turn watch h.runtime; tunnel = (close 0 watch_message h.tunnel).1 }
    else h

-- The part of `RecvFrame` under the mutex, called by `pumpDown`.
abbrev pub enter_receive : ℕ → Down → Host → Host
enter_receive pick receiving h =
    if h.entered
    then h
    else if h.tunnel.closed
    then record h {
      runtime = turn (receive_returns pick none (sentinel transport_closed)) h.runtime;
    }
    else record h { entered = true }
enter_receive pick down h = h

-- Its `ReadFrame`, on the part `front` of the unread bytes, behind which the stream returns `e`.
abbrev pub after_read_frame : ℕ → Bytes → Host → Returned → Host
after_read_frame pick back h ((answer, e), r) = record h {
  runtime = turn (receive_returns pick answer e) h.runtime;
  tunnel = record h.tunnel { incoming = record r { input = r.input ++ back } };
  entered = false;
}

abbrev pub read_arrived : ℕ → Bytes → Bytes → Error → Down → Host → Host
read_arrived pick front back e receiving h =
    if h.entered then after_read_frame pick back h (read_frame (reader front e)) else h
read_arrived pick front back e down h = h

-- The moves of a pump that do not use its tunnel; a packet of the device is bytes.
abbrev pub IsLocal : Move → Type 0
IsLocal watch = ⊥
IsLocal (send_returns e) = ⊥
IsLocal (receive_returns pick f e) = ⊥
IsLocal (read_returns packet e) = All IsByte packet
IsLocal m = Unit {0}

-- One step of a host. A read that finds its bytes goes on without an error of the stream: then `e`
-- is not seen.
pub data HostStep (h : Host) : Host → Type 0 where
  moves : (m : Move) → IsLocal m → HostStep h (record h { runtime = turn m h.runtime })
  sends : HostStep h (send_pending h.runtime.up h)
  closes : HostStep h (watch_closes h)
  enters : (pick : ℕ) → HostStep h (enter_receive pick h.runtime.down h)
  reads :
      (pick : ℕ) (front back : Bytes) (e : Error)
      → is_nil e ≡ false
      → h.tunnel.incoming.input ≡ front ++ back
      → HostStep h (read_arrived pick front back e h.runtime.down h)

-- What a host has written in a step arrives at its peer.
abbrev pub added : Host → Host → Bytes
added before after = drop (length before.tunnel.outgoing.sent) after.tunnel.outgoing.sent

abbrev pub give_input : Bytes → Host → Host
give_input bs h = record h {
  tunnel = record h.tunnel {
    incoming = record h.tunnel.incoming { input = h.tunnel.incoming.input ++ bs };
  };
}

abbrev pub west_after : Host → Network → Network
west_after h n = record { west = h; east = give_input (added n.west h) n.east }

abbrev pub east_after : Host → Network → Network
east_after h n = record { west = give_input (added n.east h) n.west; east = h }

pub data Step (n : Network) : Network → Type 0 where
  west_steps : (h : Host) → HostStep n.west h → Step n (west_after h n)
  east_steps : (h : Host) → HostStep n.east h → Step n (east_after h n)

-- Both pumps start on new tunnels. The outcomes of the writes are given for each stream.
abbrev pub fresh_host : ℕ → List Outcome → Host
fresh_host slice_size plan = record {
  runtime = fresh_runtime slice_size;
  tunnel = wrap_stream (reader [] (sentinel eof)) (record { sent = []; plan = plan });
  entered = false;
}

abbrev pub fresh_network : ℕ → List Outcome → List Outcome → Network
fresh_network slice_size west_plan east_plan = record {
  west = fresh_host slice_size west_plan;
  east = fresh_host slice_size east_plan;
}

pub data Reach (slice_size : ℕ) : Network → Type 0 where
  start :
      (west_plan east_plan : List Outcome)
      → All IsLawfulOutcome west_plan
      → All IsLawfulOutcome east_plan
      → Reach slice_size (fresh_network slice_size west_plan east_plan)
  later : (n m : Network) → Reach slice_size n → Step n m → Reach slice_size m
