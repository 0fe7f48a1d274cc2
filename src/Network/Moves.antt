-- ===== src/Network/Moves.antt =====
-- The moves of a pump that do not use its tunnel, and what they leave alone
-- (internal/tunnel/session/pump_linux.go).
use unverified.Common.{
  ◌≡◌, refl, ap, sym, ℕ, ◌≤◌, true, Option, none, some, [], ◌∷◌, All, length, leb, leb→le, by_test,
  either,
}
use mathlib.Core.Path.{subst}
use unverified.Common.Words.{Bytes, IsByte}
use unverified.Errors.{Error, nil, is_nil}
use unverified.Pump.{
  Runtime, Traffic, Move, cancel, watch, wait_ends, both_returned, up_starts, read_returns,
  send_returns, down_starts, receive_returns, write_returns, Up, up_top, reading, sending,
  up_returned, Down, down_top, receiving, writing, down_returned, turn, start_up, reading_into,
  return_up, return_down, give_back, after_read, send_packet, send_tagged, log_read, start_down,
  after_write,
}
use unverified.Pump.Taxonomy.{tag_of, read_failure}
use unverified.Pump.Buffers.{Buffer, get_buf}
use unverified.Pump.Exclusive.{IsExclusive, Exclusive}
use unverified.Network.{IsLocal}
use unverified.Network.Offers.{IsRead}
use unverified.Network.Flow.{Gone}

-- A step from `s` to `t` that uses no tunnel.
pub record IsQuiet (size : ℕ) (s t : Runtime) : Type 0 where
  pub sent : t.traffic.sent ≡ s.traffic.sent
  pub received : t.traffic.received ≡ s.traffic.received
  pub gone : Gone s.down → Gone t.down
  pub reads : All (IsRead size) s.traffic.read → All (IsRead size) t.traffic.read

quiet : {size : ℕ} {s : Runtime} → IsQuiet size s s
quiet = record { sent = refl; received = refl; gone = λ g. g; reads = λ r. r }

untouched :
    {size : ℕ} {s t : Runtime}
    → t.traffic ≡ s.traffic
    → (Gone s.down → Gone t.down)
    → IsQuiet size s t
untouched {size} e still = record {
  sent = ap (λ (x : Traffic). x.sent) e;
  received = ap (λ (x : Traffic). x.received) e;
  gone = still;
  reads = λ r. subst (λ (x : Traffic). All (IsRead size) x.read) (sym e) r;
}

start_up-IsQuiet : (size pick : ℕ) (u : Up) (s : Runtime) → IsQuiet size s (start_up pick u s)
start_up-IsQuiet size pick up_top s =
    either (IsQuiet size s) s.done (return_up nil s) (reading_into (get_buf pick 0 s.pool) s)
      (untouched refl (λ g. g)) (untouched refl (λ g. g))
start_up-IsQuiet size pick (reading b) s = quiet
start_up-IsQuiet size pick (sending b n tag) s = quiet
start_up-IsQuiet size pick (up_returned f) s = quiet

send_packet-IsQuiet :
    (size : ℕ) (packet : Bytes) (b : Buffer) (s : Runtime)
    → IsRead size packet
    → IsQuiet size s (send_packet packet b (log_read packet s))
send_packet-IsQuiet size [] b s h = record {
  sent = refl;
  received = refl;
  gone = λ g. g;
  reads = λ r. (h, r);
}
send_packet-IsQuiet size (x ∷ xs) b s h = tagged (tag_of x)
  where
    tagged : (t : Option ℕ) → IsQuiet size s (send_tagged t x (x ∷ xs) b (log_read (x ∷ xs) s))
    tagged none = record { sent = refl; received = refl; gone = λ g. g; reads = λ r. (h, r) }
    tagged (some tag) = record { sent = refl; received = refl; gone = λ g. g; reads = λ r. (h, r) }

after_read-IsQuiet :
    (size : ℕ) (packet : Bytes) (e : Error) (u : Up) (s : Runtime)
    → s.up ≡ u
    → Exclusive size s
    → All IsByte packet
    → IsQuiet size s (after_read packet e u s)
after_read-IsQuiet size packet e up_top s same x typed = quiet
after_read-IsQuiet size packet e (sending b n tag) s same x typed = quiet
after_read-IsQuiet size packet e (up_returned f) s same x typed = quiet
after_read-IsQuiet size packet e (reading b) s same x typed =
    by_test (IsQuiet size s) (leb (length packet) b.cap) _ s
      (λ short.
        either (IsQuiet size s) (is_nil e) (send_packet packet b (log_read packet s))
          (return_up (read_failure e) (give_back b s))
          (send_packet-IsQuiet size packet b s (fits short, typed)) (untouched refl (λ g. g)))
      (λ _. quiet)
  where
    fits : leb (length packet) b.cap ≡ true → length packet ≤ size
    fits short =
        subst (λ (n : ℕ). length packet ≤ n)
          (subst (λ (v : Up). IsExclusive size v s.down s.pool) same x).up_sized
          (leb→le (length packet) b.cap short)

start_down-IsQuiet :
    (size : ℕ) (d : Down) (s : Runtime) → s.down ≡ d → IsQuiet size s (start_down d s)
start_down-IsQuiet size down_top s same =
    either (IsQuiet size s) s.done (return_down nil s) (record s { down = receiving })
      (untouched refl (λ g. tt)) (untouched refl (λ g. absurd (subst Gone same g)))
start_down-IsQuiet size receiving s same = quiet
start_down-IsQuiet size (writing b n) s same = quiet
start_down-IsQuiet size (down_returned f) s same = quiet

after_write-IsQuiet :
    (size : ℕ) (e : Error) (d : Down) (s : Runtime)
    → s.down ≡ d
    → IsQuiet size s (after_write e d s)
after_write-IsQuiet size e down_top s same = quiet
after_write-IsQuiet size e receiving s same = quiet
after_write-IsQuiet size e (down_returned f) s same = quiet
after_write-IsQuiet size e (writing b n) s same =
    either (IsQuiet size s) (is_nil e) _ _
      (record {
        sent = refl;
        received = refl;
        gone = λ g. absurd (subst Gone same g);
        reads = λ r. r;
      })
      (record { sent = refl; received = refl; gone = λ g. tt; reads = λ r. r })

pub turn-IsQuiet :
    (size : ℕ) (m : Move) (s : Runtime) → IsLocal m → Exclusive size s → IsQuiet size s (turn m s)
unfolding turn
turn-IsQuiet size cancel s l x = untouched refl (λ g. g)
turn-IsQuiet size watch s l x = absurd l
turn-IsQuiet size wait_ends s l x =
    either (IsQuiet size s) (both_returned s.up s.down) (record s { done = true }) s
      (untouched refl (λ g. g)) quiet
turn-IsQuiet size (up_starts pick) s l x = start_up-IsQuiet size pick s.up s
turn-IsQuiet size (read_returns packet e) s l x = after_read-IsQuiet size packet e s.up s refl x l
turn-IsQuiet size (send_returns e) s l x = absurd l
turn-IsQuiet size down_starts s l x = start_down-IsQuiet size s.down s refl
turn-IsQuiet size (receive_returns pick f e) s l x = absurd l
turn-IsQuiet size (write_returns e) s l x = after_write-IsQuiet size e s.down s refl
