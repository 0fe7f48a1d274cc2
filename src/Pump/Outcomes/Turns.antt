-- ===== src/Pump/Outcomes/Turns.antt =====
-- The moves of the pump, and what `Run` of internal/tunnel/session/pump_linux.go may return.
use unverified.Common.{
  either, ℕ, ◌≡◌, refl, inl, inr, Bool, true, Option, none, some, List, [], ◌∷◌, leb, length,
}
use unverified.Common.Words.{Bytes}
use unverified.Errors.{Error, nil, is_nil}
use unverified.TunnelPb.{Frame, Close}
use unverified.Pump.{
  wait_ends, both_returned, Runtime, Move, cancel, watch, up_starts, read_returns, send_returns,
  down_starts, receive_returns, write_returns, Up, up_top, reading, sending, up_returned, Down,
  down_top, receiving, writing, down_returned, turn, play, start_up, reading_into, return_up,
  return_down, give_back, after_read, send_packet, send_tagged, log_read, after_send, start_down,
  after_receive, deliver, unless_close, after_write, fresh_runtime, log_receive,
}
use unverified.Pump.Taxonomy.{
  tag_of, read_failure, receive_failure, write_failure, send_failure, unknown_version,
}
use unverified.Pump.Buffers.{Buffer, get_buf}
use unverified.Pump.Outcomes.{
  graceful, failed_receive, up_error, down_error, IsKept, Kept, return_up-IsKept,
  return_down-IsKept, read_failure-IsOutcome, send_failure-IsOutcome, receive_failure-IsOutcome,
  write_failure-IsOutcome, unknown_version-IsOutcome,
}

-- A loop that goes on.
up-IsKept :
    {failure : Error} {done : Bool} {up : Up} {down : Down} (u : Up)
    → is_nil (up_error u) ≡ true
    → IsKept failure done up down
    → IsKept failure done u down
up-IsKept u h k = record {
  outcome = k.outcome;
  ended = k.ended;
  up_counted = inl h;
  down_counted = k.down_counted;
}

down-IsKept :
    {failure : Error} {done : Bool} {up : Up} {down : Down} (d : Down)
    → is_nil (down_error d) ≡ true
    → IsKept failure done up down
    → IsKept failure done up d
down-IsKept d h k = record {
  outcome = k.outcome;
  ended = k.ended;
  up_counted = k.up_counted;
  down_counted = inl h;
}

start_up-Kept : (pick : ℕ) (u : Up) (s : Runtime) → Kept s → Kept (start_up pick u s)
start_up-Kept pick up_top s k =
    either Kept s.done (return_up nil s) (reading_into (get_buf pick 0 s.pool) s)
      (return_up-IsKept nil s graceful k) (up-IsKept (reading (get_buf pick 0 s.pool).0) refl k)
start_up-Kept pick (reading b) s k = k
start_up-Kept pick (sending b n tag) s k = k
start_up-Kept pick (up_returned e) s k = k

send_packet-Kept :
    (packet : Bytes) (b : Buffer) (s : Runtime) → Kept s → Kept (send_packet packet b s)
send_packet-Kept [] b s k = up-IsKept up_top refl k
send_packet-Kept (a ∷ rest) b s k = tagged (tag_of a)
  where
    tagged : (tag : Option ℕ) → Kept (send_tagged tag a (a ∷ rest) b s)
    tagged none =
        return_up-IsKept (unknown_version a) (give_back b s) (unknown_version-IsOutcome a) k
    tagged (some tag) = up-IsKept (sending b (length (a ∷ rest)) tag) refl k

after_read-Kept :
    (packet : Bytes) (e : Error) (u : Up) (s : Runtime) → Kept s → Kept (after_read packet e u s)
after_read-Kept packet e up_top s k = k
after_read-Kept packet e (sending b n tag) s k = k
after_read-Kept packet e (up_returned f) s k = k
after_read-Kept packet e (reading b) s k =
    either Kept (leb (length packet) b.cap) _ s
      (either Kept (is_nil e) (send_packet packet b (log_read packet s))
        (return_up (read_failure e) (give_back b s))
        (send_packet-Kept packet b (log_read packet s) k)
        (return_up-IsKept (read_failure e) (give_back b s) (read_failure-IsOutcome e) k))
      k

after_send-Kept : (e : Error) (u : Up) (s : Runtime) → Kept s → Kept (after_send e u s)
after_send-Kept e up_top s k = k
after_send-Kept e (reading b) s k = k
after_send-Kept e (up_returned f) s k = k
after_send-Kept e (sending b n tag) s k =
    either Kept (is_nil e) _ _ (up-IsKept up_top refl k)
      (return_up-IsKept (send_failure e) s (send_failure-IsOutcome e) k)

start_down-Kept : (d : Down) (s : Runtime) → Kept s → Kept (start_down d s)
start_down-Kept down_top s k =
    either Kept s.done (return_down nil s) (record s { down = receiving })
      (return_down-IsKept nil s graceful k) (down-IsKept receiving refl k)
start_down-Kept receiving s k = k
start_down-Kept (writing b n) s k = k
start_down-Kept (down_returned e) s k = k

deliver-Kept : (pick : ℕ) (f : Option Frame) (s : Runtime) → Kept s → Kept (deliver pick f s)
deliver-Kept pick none s k = return_down-IsKept _ s (failed_receive _ _) k
deliver-Kept pick (some f) s k = closing f.close f.packet
  where
    closing :
        (c : Option Close) (packet : Option Bytes)
        → Kept (unless_close pick c packet (log_receive f s))
    closing (some c) packet = return_down-IsKept nil s graceful k
    closing none none = down-IsKept down_top refl k
    closing none (some packet) =
        down-IsKept (writing (get_buf pick (length packet) s.pool).0 (length packet)) refl k

after_receive-Kept :
    (pick : ℕ) (f : Option Frame) (e : Error) (d : Down) (s : Runtime)
    → Kept s
    → Kept (after_receive pick f e d s)
after_receive-Kept pick f e down_top s k = k
after_receive-Kept pick f e (writing b n) s k = k
after_receive-Kept pick f e (down_returned g) s k = k
after_receive-Kept pick f e receiving s k =
    either Kept (is_nil e) (deliver pick f s) (return_down (receive_failure e) s)
      (deliver-Kept pick f s k)
      (return_down-IsKept (receive_failure e) s (receive_failure-IsOutcome e) k)

after_write-Kept : (e : Error) (d : Down) (s : Runtime) → Kept s → Kept (after_write e d s)
after_write-Kept e down_top s k = k
after_write-Kept e receiving s k = k
after_write-Kept e (down_returned f) s k = k
after_write-Kept e (writing b n) s k =
    either Kept (is_nil e) _ _ (down-IsKept down_top refl k)
      (return_down-IsKept (write_failure e) s (write_failure-IsOutcome e) k)

turn-Kept : (m : Move) (s : Runtime) → Kept s → Kept (turn m s)
unfolding turn
turn-Kept cancel s k = record {
  outcome = k.outcome;
  ended = inr refl;
  up_counted = k.up_counted;
  down_counted = k.down_counted;
}
turn-Kept watch s k = either Kept s.done (record s { watched = true }) s k k
turn-Kept wait_ends s k =
    either Kept (both_returned s.up s.down) (record s { done = true }) s
      (record {
        outcome = k.outcome;
        ended = inr refl;
        up_counted = k.up_counted;
        down_counted = k.down_counted;
      })
      k
turn-Kept (up_starts pick) s k = start_up-Kept pick s.up s k
turn-Kept (read_returns packet e) s k = after_read-Kept packet e s.up s k
turn-Kept (send_returns e) s k = after_send-Kept e s.up s k
turn-Kept down_starts s k = start_down-Kept s.down s k
turn-Kept (receive_returns pick f e) s k = after_receive-Kept pick f e s.down s k
turn-Kept (write_returns e) s k = after_write-Kept e s.down s k

play-Kept : (ms : List Move) (s : Runtime) → Kept s → Kept (play ms s)
unfolding play
play-Kept [] s k = k
play-Kept (m ∷ ms) s k = play-Kept ms (turn m s) (turn-Kept m s k)

-- In every interleaving, what `Run` would return is nil or a `PumpError` with one of the four
-- reasons of its directions; an error that is not nil has ended the context, and it is not nil as
-- soon as one of the loops has returned an error.
pub run_outcome : (slice_size : ℕ) (ms : List Move) → Kept (play ms (fresh_runtime slice_size))
run_outcome slice_size ms = play-Kept ms (fresh_runtime slice_size) (record {
  outcome = graceful;
  ended = inl refl;
  up_counted = inl refl;
  down_counted = inl refl;
})
