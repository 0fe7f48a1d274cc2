-- ===== src/Network/Relayed.antt =====
-- Every state that the two hosts can reach (internal/tunnel/session/pump_linux.go,
-- internal/transport/grpc/wrapper.go).
use unverified.Common.{refl, inl, ℕ, List, [], All}
use unverified.Common.Words.{Bytes}
use unverified.Stream.{Outcome}
use unverified.Stream.Uniform.{IsLawfulOutcome}
use unverified.Transport.{wrap_stream}
use unverified.Pump.Buffers.{new_buffer_pool}
use unverified.Pump.Exclusive.{Exclusive}
use unverified.Pump.Exclusive.Turns.{fresh-Exclusive}
use unverified.Relay.Packets.{IsRelay}
use unverified.Network.{
  Host, Network, HostStep, moves, sends, closes, enters, reads, Step, west_steps, east_steps,
  give_input, added, fresh_host, Reach, start, later,
}
use unverified.Network.Flow.{Flow-IsRelay}
use unverified.Network.Hosts.{
  IsSound, Between, IsPair, IsPairAfter, moves_pair, sends_pair, closes_pair,
}
use unverified.Network.Receives.{enters_pair, reads_pair}

step_pair : (size : ℕ) (h p g : Host) → IsPair size h p → HostStep h g → IsPairAfter size h p g
step_pair size h p _ x (moves m l) = moves_pair size h p m l x
step_pair size h p _ x sends = sends_pair size h.runtime.up h p refl x
step_pair size h p _ x closes = closes_pair size h p x
step_pair size h p _ x (enters pick) = enters_pair size pick h.runtime.down h p refl x
step_pair size h p _ x (reads pick front back e fault arrived) =
    reads_pair size pick front back e h.runtime.down h p refl arrived x

-- The invariant of the two hosts.
pub record IsJoined (size : ℕ) (n : Network) : Type 0 where
  pub west : IsSound size n.west
  pub east : IsSound size n.east
  pub eastwards : Between size n.west n.east
  pub westwards : Between size n.east n.west

given-IsSound : (size : ℕ) (bs : Bytes) (h : Host) → IsSound size h → IsSound size (give_input bs h)
given-IsSound size bs h s = record {
  exclusive = s.exclusive;
  carried = s.carried;
  lawful = s.lawful;
  reads = s.reads;
}

Step-IsJoined : (size : ℕ) (n m : Network) → IsJoined size n → Step n m → IsJoined size m
Step-IsJoined size n _ j (west_steps h s) =
    let (sound, out, into) = step_pair size n.west n.east h (j.west, j.eastwards, j.westwards) s in
    record {
      west = sound;
      east = given-IsSound size (added n.west h) n.east j.east;
      eastwards = out;
      westwards = into;
    }
Step-IsJoined size n _ j (east_steps h s) =
    let (sound, out, into) = step_pair size n.east n.west h (j.east, j.westwards, j.eastwards) s in
    record {
      west = given-IsSound size (added n.east h) n.west j.west;
      east = sound;
      eastwards = into;
      westwards = out;
    }

fresh-IsSound :
    (slice_size : ℕ) (plan : List Outcome)
    → All IsLawfulOutcome plan
    → IsSound (new_buffer_pool slice_size).slice_size (fresh_host slice_size plan)
unfolding wrap_stream
fresh-IsSound slice_size plan l = record {
  exclusive = fresh-Exclusive slice_size;
  carried = record { upwards = refl; downwards = refl };
  lawful = l;
  reads = tt;
}

fresh-Between :
    (slice_size size : ℕ) (plan other : List Outcome)
    → Between size (fresh_host slice_size plan) (fresh_host slice_size other)
unfolding wrap_stream
fresh-Between slice_size size plan other = record {
  rest = [];
  missing = [];
  extra = [];
  offered = refl;
  valid = tt;
  small = tt;
  unread = inl refl;
  open_whole = λ h. (refl, refl, tt);
}

pub reach-IsJoined :
    (slice_size : ℕ) (n : Network)
    → Reach slice_size n
    → IsJoined (new_buffer_pool slice_size).slice_size n
reach-IsJoined slice_size _ (start p q lp lq) = record {
  west = fresh-IsSound slice_size p lp;
  east = fresh-IsSound slice_size q lq;
  eastwards = fresh-Between slice_size (new_buffer_pool slice_size).slice_size p q;
  westwards = fresh-Between slice_size (new_buffer_pool slice_size).slice_size q p;
}
reach-IsJoined slice_size _ (later n m r s) =
    Step-IsJoined (new_buffer_pool slice_size).slice_size n m (reach-IsJoined slice_size n r) s

-- Two hosts run their pumps against each other, with buffers of one size, each over its own tunnel
-- and a stream to the other that may break in any write and end or fail in any read. In every state
-- that they reach, and in both directions at once, the packets given to the device of a host, with
-- the one in progress, are the first of the IPv4 and IPv6 packets that the other host has read from
-- its own device, in order and byte for byte, and no buffer is in two places on either host. The
-- packets of a device are bytes, and a write that takes less than all returns an error.
pub reach-IsRelay :
    (slice_size : ℕ) (n : Network)
    → Reach slice_size n
    → IsRelay n.west.runtime n.east.runtime
      × IsRelay n.east.runtime n.west.runtime
      × Exclusive (new_buffer_pool slice_size).slice_size n.west.runtime
      × Exclusive (new_buffer_pool slice_size).slice_size n.east.runtime
reach-IsRelay slice_size n r =
    let size = (new_buffer_pool slice_size).slice_size in
    let j = reach-IsJoined slice_size n r in
    (
      Flow-IsRelay size n.west.tunnel.closed n.east.tunnel.incoming.input n.west.runtime
          n.east.runtime j.west.carried j.east.carried j.eastwards,
      Flow-IsRelay size n.east.tunnel.closed n.west.tunnel.incoming.input n.east.runtime
          n.west.runtime j.east.carried j.west.carried j.westwards,
      j.west.exclusive,
      j.east.exclusive,
    )
