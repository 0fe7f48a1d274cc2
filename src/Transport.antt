-- ===== src/Transport.antt =====
-- internal/transport/grpc/wrapper.go: the tunnel over a byte stream. `t.mu` makes each call one
-- step, but for the read of `RecvFrame`, which shares no state with the other two calls.
pub mod Laws
pub mod Refused
pub mod Integrity
pub mod Delivery
pub mod Interleaved
pub mod Locked
mod Runs
use unverified.Common.{ℕ, Bool, true, false, Option, none, some, List, [], ◌∷◌, ◌++◌, if◌then◌else◌}
use unverified.Common.Words.{Bytes}
use unverified.Errors.{Error, nil, sentinel, transport_closed, is_nil}
use unverified.Stream.{Reader, Writer}
use unverified.TunnelPb.{Frame, blank, tag_close}
use unverified.TunnelPb.Encode.{write_frame}
use unverified.TunnelPb.Decode.{Returned, read_frame}

-- The stream `s` is its two halves.
pub record Tunnel : Type 0 where
  pub incoming : Reader
  pub outgoing : Writer
  pub closed : Bool

-- `Wrap`.
unfoldable pub wrap_stream : Reader → Writer → Tunnel
wrap_stream r w = record { incoming = r; outgoing = w; closed = false }

-- `if err := WriteFrame(...); err != nil { t.closed = true; return err }`.
abbrev pub after_send : Tunnel → Error × Writer → Error × Tunnel
after_send t (e, w) = (e, record t { outgoing = w; closed = if is_nil e then t.closed else true })

unfoldable pub send_frame : Frame → Tunnel → Error × Tunnel
send_frame f t =
    if t.closed then (sentinel transport_closed, t) else after_send t (write_frame f t.outgoing)

abbrev pub after_receive : Tunnel → Returned → (Option Frame × Error) × Tunnel
after_receive t (answer, r) = (answer, record t { incoming = r })

unfoldable pub recv_frame : Tunnel → (Option Frame × Error) × Tunnel
recv_frame t =
    if t.closed
    then ((none, sentinel transport_closed), t)
    else after_receive t (read_frame t.incoming)

-- `&tunnelpb.Frame{Tag: TagClose, Close: ...}`.
abbrev pub close_frame : ℕ → Bytes → Frame
close_frame code message = record (blank tag_close) {
  close = some (record { code = code; message = message });
}

abbrev pub after_close : Tunnel → Error × Writer → Error × Tunnel
after_close t (e, w) = (e, record t { outgoing = w; closed = true })

unfoldable pub close : ℕ → Bytes → Tunnel → Error × Tunnel
close code message t =
    if t.closed then (nil, t) else after_close t (write_frame (close_frame code message) t.outgoing)

-- What a user of the tunnel calls.
pub data Call : Type 0 where
  send : Frame → Call
  receive : Call
  shut : ℕ → Bytes → Call

unfoldable pub step : Call → Tunnel → Tunnel
unfolding send_frame recv_frame close
step (send f) t = (send_frame f t).1
step receive t = (recv_frame t).1
step (shut code message) t = (close code message t).1

unfoldable pub run : List Call → Tunnel → Tunnel
run [] t = t
run (c ∷ cs) t = run cs (step c t)

-- The frame that a call puts on the stream, if it succeeds on an open tunnel.
abbrev pub written : Frame → Bool → Error → List Frame
written f closed e = if closed then [] else if is_nil e then f ∷ [] else []

unfoldable pub accepted_by : Call → Tunnel → List Frame
accepted_by (send f) t = written f t.closed (send_frame f t).0
accepted_by receive t = []
accepted_by (shut code message) t =
    written (close_frame code message) t.closed (close code message t).0

unfoldable pub accepted : List Call → Tunnel → List Frame
accepted [] t = []
accepted (c ∷ cs) t = accepted_by c t ++ accepted cs (step c t)
