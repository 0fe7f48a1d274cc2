-- ===== src/Pump/Exclusive/Turns.antt =====
-- The moves of the pump, and who has which buffer (internal/tunnel/session/pump_linux.go).
use unverified.Common.{
  either, ℕ, ◌≡◌, refl, true, Option, none, some, List, [], ◌∷◌, leb, length, All, arith,
}
use mathlib.Core.Path.{subst}
use unverified.Common.Words.{Bytes}
use unverified.Errors.{Error, nil, is_nil}
use unverified.TunnelPb.{Frame, Close}
use unverified.Pump.{
  wait_ends, both_returned, Runtime, Move, cancel, watch, up_starts, read_returns, send_returns,
  down_starts, receive_returns, write_returns, Up, up_top, reading, sending, up_returned, Down,
  down_top, receiving, writing, down_returned, turn, play, start_up, reading_into, return_up,
  return_down, give_back, after_read, send_packet, send_tagged, log_read, after_send, start_down,
  after_receive, deliver, unless_close, after_write, fresh_runtime, log_receive,
}
use unverified.Pump.Taxonomy.{tag_of, read_failure, receive_failure, write_failure, send_failure}
use unverified.Pump.Buffers.{Buffer, new_buffer_pool, get_buf}
use unverified.Pump.Exclusive.{
  IsExclusive, Exclusive, IsFitting, up_takes, down_takes, up_gives, down_gives, down_moves,
}

at_up :
    (size : ℕ) (s : Runtime) (u : Up)
    → s.up ≡ u
    → Exclusive size s
    → IsExclusive size u s.down s.pool
at_up size s u e x = subst (λ (v : Up). IsExclusive size v s.down s.pool) e x

at_down :
    (size : ℕ) (s : Runtime) (d : Down)
    → s.down ≡ d
    → Exclusive size s
    → IsExclusive size s.up d s.pool
at_down size s d e x = subst (λ (v : Down). IsExclusive size s.up v s.pool) e x

start_up-Exclusive :
    (size pick : ℕ) (u : Up) (s : Runtime)
    → s.up ≡ u
    → Exclusive size s
    → Exclusive size (start_up pick u s)
start_up-Exclusive size pick up_top s e x =
    let y = at_up size s up_top e x in
    either (Exclusive size) s.done (return_up nil s) (reading_into (get_buf pick 0 s.pool) s)
      (record { shared = y.shared; up_sized = tt; down_sized = y.down_sized })
      (up_takes size pick s.down s.pool y)
start_up-Exclusive size pick (reading b) s e x = x
start_up-Exclusive size pick (sending b n tag) s e x = x
start_up-Exclusive size pick (up_returned f) s e x = x

send_packet-Exclusive :
    (size : ℕ) (packet : Bytes) (b : Buffer) (s : Runtime)
    → IsExclusive size (reading b) s.down s.pool
    → Exclusive size (send_packet packet b s)
send_packet-Exclusive size [] b s x = up_gives size b up_top s.down s.pool x (λ i. refl) tt
send_packet-Exclusive size (a ∷ rest) b s x = tagged (tag_of a)
  where
    tagged : (tag : Option ℕ) → Exclusive size (send_tagged tag a (a ∷ rest) b s)
    tagged none = up_gives size b _ s.down s.pool x (λ i. refl) tt
    tagged (some tag) = record {
      shared = x.shared;
      up_sized = x.up_sized;
      down_sized = x.down_sized;
    }

after_read-Exclusive :
    (size : ℕ) (packet : Bytes) (f : Error) (u : Up) (s : Runtime)
    → s.up ≡ u
    → Exclusive size s
    → Exclusive size (after_read packet f u s)
after_read-Exclusive size packet f up_top s e x = x
after_read-Exclusive size packet f (sending b n tag) s e x = x
after_read-Exclusive size packet f (up_returned g) s e x = x
after_read-Exclusive size packet f (reading b) s e x =
    let y = at_up size s (reading b) e x in
    either (Exclusive size) (leb (length packet) b.cap) _ s
      (either (Exclusive size) (is_nil f) (send_packet packet b (log_read packet s))
        (return_up (read_failure f) (give_back b s))
        (send_packet-Exclusive size packet b (log_read packet s) y)
        (up_gives size b _ s.down s.pool y (λ i. refl) tt))
      x

after_send-Exclusive :
    (size : ℕ) (f : Error) (u : Up) (s : Runtime)
    → s.up ≡ u
    → Exclusive size s
    → Exclusive size (after_send f u s)
after_send-Exclusive size f up_top s e x = x
after_send-Exclusive size f (reading b) s e x = x
after_send-Exclusive size f (up_returned g) s e x = x
after_send-Exclusive size f (sending b n tag) s e x =
    let y = at_up size s (sending b n tag) e x in
    let z : IsExclusive size (reading b) s.down s.pool = record {
      shared = y.shared;
      up_sized = y.up_sized;
      down_sized = y.down_sized;
    } in
    either (Exclusive size) (is_nil f) _ _ (up_gives size b up_top s.down s.pool z (λ i. refl) tt)
      (up_gives size b (up_returned (send_failure f)) s.down s.pool z (λ i. refl) tt)

start_down-Exclusive :
    (size : ℕ) (d : Down) (s : Runtime)
    → s.down ≡ d
    → Exclusive size s
    → Exclusive size (start_down d s)
start_down-Exclusive size down_top s e x =
    let y = at_down size s down_top e x in
    either (Exclusive size) s.done (return_down nil s) (record s { down = receiving })
      (record { shared = y.shared; up_sized = y.up_sized; down_sized = tt })
      (record { shared = y.shared; up_sized = y.up_sized; down_sized = tt })
start_down-Exclusive size receiving s e x = x
start_down-Exclusive size (writing b n) s e x = x
start_down-Exclusive size (down_returned f) s e x = x

pub deliver-Exclusive :
    (size pick : ℕ) (f : Option Frame) (s : Runtime)
    → IsFitting size (receive_returns pick f nil)
    → IsExclusive size s.up receiving s.pool
    → Exclusive size (deliver pick f s)
deliver-Exclusive size pick none s fits x = down_moves size s.up _ s.pool x (λ i. refl) tt
deliver-Exclusive size pick (some f) s fits x = closing f.close f.packet fits
  where
    closing :
        (c : Option Close) (packet : Option Bytes)
        → IsFitting size (receive_returns pick (some (record f { packet = packet })) nil)
        → Exclusive size (unless_close pick c packet (log_receive f s))
    closing (some c) packet fit = down_moves size s.up _ s.pool x (λ i. refl) tt
    closing none none fit = down_moves size s.up down_top s.pool x (λ i. refl) tt
    closing none (some packet) fit =
        down_takes size pick (length packet) (length packet) s.up s.pool fit x

after_receive-Exclusive :
    (size pick : ℕ) (f : Option Frame) (g : Error) (d : Down) (s : Runtime)
    → s.down ≡ d
    → IsFitting size (receive_returns pick f nil)
    → Exclusive size s
    → Exclusive size (after_receive pick f g d s)
after_receive-Exclusive size pick f g down_top s e fits x = x
after_receive-Exclusive size pick f g (writing b n) s e fits x = x
after_receive-Exclusive size pick f g (down_returned h) s e fits x = x
after_receive-Exclusive size pick f g receiving s e fits x =
    let y = at_down size s receiving e x in
    either (Exclusive size) (is_nil g) (deliver pick f s) (return_down (receive_failure g) s)
      (deliver-Exclusive size pick f s fits y) (down_moves size s.up _ s.pool y (λ i. refl) tt)

after_write-Exclusive :
    (size : ℕ) (f : Error) (d : Down) (s : Runtime)
    → s.down ≡ d
    → Exclusive size s
    → Exclusive size (after_write f d s)
after_write-Exclusive size f down_top s e x = x
after_write-Exclusive size f receiving s e x = x
after_write-Exclusive size f (down_returned g) s e x = x
after_write-Exclusive size f (writing b n) s e x =
    let y = at_down size s (writing b n) e x in
    either (Exclusive size) (is_nil f) _ _
      (down_gives size n b s.up down_top s.pool y (λ i. refl) tt)
      (down_gives size n b s.up (down_returned (write_failure f)) s.pool y (λ i. refl) tt)

pub IsFitting-any :
    (size pick : ℕ) (f : Option Frame) (e : Error)
    → IsFitting size (receive_returns pick f e)
    → IsFitting size (receive_returns pick f nil)
IsFitting-any size pick none e h = tt
IsFitting-any size pick (some f) e h = h

pub turn-Exclusive :
    (size : ℕ) (m : Move) (s : Runtime)
    → IsFitting size m
    → Exclusive size s
    → Exclusive size (turn m s)
unfolding turn
turn-Exclusive size cancel s fits x = x
turn-Exclusive size watch s fits x =
    either (Exclusive size) s.done (record s { watched = true }) s x x
turn-Exclusive size wait_ends s fits x =
    either (Exclusive size) (both_returned s.up s.down) (record s { done = true }) s x x
turn-Exclusive size (up_starts pick) s fits x = start_up-Exclusive size pick s.up s refl x
turn-Exclusive size (read_returns packet e) s fits x =
    after_read-Exclusive size packet e s.up s refl x
turn-Exclusive size (send_returns e) s fits x = after_send-Exclusive size e s.up s refl x
turn-Exclusive size down_starts s fits x = start_down-Exclusive size s.down s refl x
turn-Exclusive size (receive_returns pick f e) s fits x =
    after_receive-Exclusive size pick f e s.down s refl (IsFitting-any size pick f e fits) x
turn-Exclusive size (write_returns e) s fits x = after_write-Exclusive size e s.down s refl x

pub fresh-Exclusive : (size : ℕ) → Exclusive (new_buffer_pool size).slice_size (fresh_runtime size)
unfolding new_buffer_pool
fresh-Exclusive size = record {
  shared = record {
    size_kept = refl;
    once = λ i. omega arith;
    unmade = λ i h. omega arith;
    caps = tt;
  };
  up_sized = tt;
  down_sized = tt;
}

-- In every interleaving in which no packet of the peer is longer than the pool's buffers, if each
-- buffer is at first with one loop or once in the pool and has the pool's size, then this stays so.
pub play-Exclusive :
    (size : ℕ) (ms : List Move) (s : Runtime)
    → All (IsFitting size) ms
    → Exclusive size s
    → Exclusive size (play ms s)
unfolding play
play-Exclusive size [] s fits x = x
play-Exclusive size (m ∷ ms) s (fit, fits) x =
    play-Exclusive size ms (turn m s) fits (turn-Exclusive size m s fit x)
