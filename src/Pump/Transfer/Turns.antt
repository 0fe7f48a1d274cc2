-- ===== src/Pump/Transfer/Turns.antt =====
-- The moves of the pump, and what it has carried (internal/tunnel/session/pump_linux.go).
use unverified.Common.{
  either, ℕ, ◌≤◌, ◌≡◌, refl, sym, ap, ◌∙◌, true, Option, none, some, List, [], ◌∷◌, ◌++◌, leb,
  length, take, All,
}
use mathlib.Core.Path.{subst}
use unverified.Common.Words.{Bytes}
use unverified.Errors.{Error, nil, is_nil}
use unverified.TunnelPb.{Frame, Close}
use unverified.Pump.{
  wait_ends, both_returned, Runtime, Move, cancel, watch, up_starts, read_returns, send_returns,
  down_starts, receive_returns, write_returns, Up, up_top, reading, sending, up_returned, Down,
  down_top, receiving, writing, down_returned, turn, play, filled, packet_frame, start_up,
  reading_into, return_up, return_down, give_back, after_read, send_packet, send_tagged, log_read,
  after_send, start_down, after_receive, deliver, unless_close, copy_packet, after_write,
  fresh_runtime, log_receive,
}
use unverified.Pump.Taxonomy.{tag_of, read_failure, receive_failure}
use unverified.Pump.Buffers.{Buffer, get_buf, new_buffer_pool}
use unverified.Pump.Exclusive.{IsExclusive, Exclusive, IsFitting}
use unverified.Pump.Exclusive.Turns.{
  turn-Exclusive, deliver-Exclusive, fresh-Exclusive, IsFitting-any,
}
use unverified.Pump.Transfer.{
  framed_as, frames_for, brought, payloads, IsCarried, Carried, filled_same, pending_up-filled,
  pending_down-filled, down_apart, up_apart, take_all, at_up, at_down,
}

start_up-Carried :
    (pick : ℕ) (u : Up) (s : Runtime) → s.up ≡ u → Carried s → Carried (start_up pick u s)
start_up-Carried pick up_top s e c =
    let d = at_up s up_top e c in
    either Carried s.done (return_up nil s) (reading_into (get_buf pick 0 s.pool) s)
      (record { upwards = d.upwards; downwards = d.downwards })
      (record { upwards = d.upwards; downwards = d.downwards })
start_up-Carried pick (reading b) s e c = c
start_up-Carried pick (sending b n tag) s e c = c
start_up-Carried pick (up_returned f) s e c = c

send_packet-Carried :
    (size : ℕ) (packet : Bytes) (b : Buffer) (s : Runtime)
    → IsExclusive size (reading b) s.down s.pool
    → IsCarried (reading b) s.down s.memory s.traffic
    → Carried (send_packet packet b (log_read packet s))
send_packet-Carried size [] b s x c = record { upwards = c.upwards; downwards = c.downwards }
send_packet-Carried size (a ∷ rest) b s x c = tagged (tag_of a) refl
  where
    tagged :
        (tag : Option ℕ)
        → tag_of a ≡ tag
        → Carried (send_tagged tag a (a ∷ rest) b (log_read (a ∷ rest) s))
    tagged none e = record {
      upwards =
          c.upwards
          ∙ ap (λ (t : Option ℕ). framed_as t (a ∷ rest) ++ frames_for s.traffic.read) (sym e);
      downwards = c.downwards;
    }
    tagged (some tag) e = record {
      upwards =
          ap (λ (p : Bytes). packet_frame tag p ∷ s.traffic.sent)
            (filled_same b.id (a ∷ rest) s.memory)
          ∙ ap (λ (fs : List Frame). packet_frame tag (a ∷ rest) ∷ fs) c.upwards
          ∙ ap (λ (t : Option ℕ). framed_as t (a ∷ rest) ++ frames_for s.traffic.read) (sym e);
      downwards =
          ap (λ (ps : List Bytes). ps ++ s.traffic.written)
            (pending_down-filled b s.down (a ∷ rest) s.memory (down_apart size b s x))
          ∙ c.downwards;
    }

after_read-Carried :
    (size : ℕ) (packet : Bytes) (f : Error) (u : Up) (s : Runtime)
    → s.up ≡ u
    → Exclusive size s
    → Carried s
    → Carried (after_read packet f u s)
after_read-Carried size packet f up_top s e x c = c
after_read-Carried size packet f (sending b n tag) s e x c = c
after_read-Carried size packet f (up_returned g) s e x c = c
after_read-Carried size packet f (reading b) s e x c =
    let d = at_up s (reading b) e c in
    let y = subst (λ (v : Up). IsExclusive size v s.down s.pool) e x in
    either Carried (leb (length packet) b.cap) _ s
      (either Carried (is_nil f) (send_packet packet b (log_read packet s))
        (return_up (read_failure f) (give_back b s)) (send_packet-Carried size packet b s y d)
        (record { upwards = d.upwards; downwards = d.downwards }))
      c

after_send-Carried :
    (f : Error) (u : Up) (s : Runtime) → s.up ≡ u → Carried s → Carried (after_send f u s)
after_send-Carried f up_top s e c = c
after_send-Carried f (reading b) s e c = c
after_send-Carried f (up_returned g) s e c = c
after_send-Carried f (sending b n tag) s e c =
    let d = at_up s (sending b n tag) e c in
    either Carried (is_nil f) _ _ (record { upwards = d.upwards; downwards = d.downwards })
      (record { upwards = d.upwards; downwards = d.downwards })

start_down-Carried : (d : Down) (s : Runtime) → s.down ≡ d → Carried s → Carried (start_down d s)
start_down-Carried down_top s e c =
    let d = at_down s down_top e c in
    either Carried s.done (return_down nil s) (record s { down = receiving })
      (record { upwards = d.upwards; downwards = d.downwards })
      (record { upwards = d.upwards; downwards = d.downwards })
start_down-Carried receiving s e c = c
start_down-Carried (writing b n) s e c = c
start_down-Carried (down_returned f) s e c = c

-- The copy of a packet to a buffer that nobody else has.
copy_packet-Carried :
    (size pick : ℕ) (f : Frame) (packet : Bytes) (s : Runtime)
    → length packet ≤ size
    → Exclusive size (copy_packet packet (get_buf pick (length packet) s.pool) (log_receive f s))
    → brought f.close f.packet ≡ packet ∷ []
    → IsCarried s.up receiving s.memory s.traffic
    → Carried (copy_packet packet (get_buf pick (length packet) s.pool) (log_receive f s))
copy_packet-Carried size pick f packet s small x e c =
    let b = (get_buf pick (length packet) s.pool).0 in
    let after = copy_packet packet (get_buf pick (length packet) s.pool) (log_receive f s) in
    let whole : take b.cap packet ≡ packet =
      take_all b.cap packet (subst (λ (n : ℕ). length packet ≤ n) (sym x.down_sized) small) in
    record {
      upwards =
          ap (λ (fs : List Frame). fs ++ s.traffic.sent)
            (pending_up-filled b s.up (take b.cap packet) s.memory
              (up_apart size (length packet) b after refl x))
          ∙ c.upwards;
      downwards =
          ap (λ (p : Bytes). take (length packet) (filled b.id p s.memory b.id) ∷ s.traffic.written)
            whole
          ∙ ap (λ (p : Bytes). p ∷ s.traffic.written) (filled_same b.id packet s.memory)
          ∙ ap (λ (ps : List Bytes). packet ∷ ps) c.downwards
          ∙ ap (λ (ps : List Bytes). ps ++ payloads s.traffic.received) (sym e);
    }

deliver-Carried :
    (size pick : ℕ) (f : Option Frame) (s : Runtime)
    → IsFitting size (receive_returns pick f nil)
    → IsExclusive size s.up receiving s.pool
    → IsCarried s.up receiving s.memory s.traffic
    → Carried (deliver pick f s)
deliver-Carried size pick none s fits x c = record { upwards = c.upwards; downwards = c.downwards }
deliver-Carried size pick (some f) s fits x c =
    closing f.close f.packet refl refl fits (deliver-Exclusive size pick (some f) s fits x)
  where
    more :
        (cl : Option Close) (packet : Option Bytes)
        → f.close ≡ cl
        → f.packet ≡ packet
        → brought f.close f.packet ≡ brought cl packet
    more cl packet e g = ap (λ (k : Option Close). brought k f.packet) e ∙ ap (brought cl) g

    closing :
        (cl : Option Close) (packet : Option Bytes)
        → f.close ≡ cl
        → f.packet ≡ packet
        → IsFitting size (receive_returns pick (some (record f { packet = packet })) nil)
        → Exclusive size (unless_close pick cl packet (log_receive f s))
        → Carried (unless_close pick cl packet (log_receive f s))
    closing (some k) packet e g fit y = record {
      upwards = c.upwards;
      downwards =
          c.downwards
          ∙ ap (λ (ps : List Bytes). ps ++ payloads s.traffic.received)
              (sym (more (some k) packet e g));
    }
    closing none none e g fit y = record {
      upwards = c.upwards;
      downwards =
          c.downwards
          ∙ ap (λ (ps : List Bytes). ps ++ payloads s.traffic.received) (sym (more none none e g));
    }
    closing none (some packet) e g fit y =
        copy_packet-Carried size pick f packet s fit y (more none (some packet) e g) c

after_receive-Carried :
    (size pick : ℕ) (f : Option Frame) (g : Error) (d : Down) (s : Runtime)
    → s.down ≡ d
    → IsFitting size (receive_returns pick f nil)
    → Exclusive size s
    → Carried s
    → Carried (after_receive pick f g d s)
after_receive-Carried size pick f g down_top s e fits x c = c
after_receive-Carried size pick f g (writing b n) s e fits x c = c
after_receive-Carried size pick f g (down_returned h) s e fits x c = c
after_receive-Carried size pick f g receiving s e fits x c =
    let d = at_down s receiving e c in
    let y = subst (λ (v : Down). IsExclusive size s.up v s.pool) e x in
    either Carried (is_nil g) (deliver pick f s) (return_down (receive_failure g) s)
      (deliver-Carried size pick f s fits y d)
      (record { upwards = d.upwards; downwards = d.downwards })

after_write-Carried :
    (f : Error) (d : Down) (s : Runtime) → s.down ≡ d → Carried s → Carried (after_write f d s)
after_write-Carried f down_top s e c = c
after_write-Carried f receiving s e c = c
after_write-Carried f (down_returned g) s e c = c
after_write-Carried f (writing b n) s e c =
    let d = at_down s (writing b n) e c in
    either Carried (is_nil f) _ _ (record { upwards = d.upwards; downwards = d.downwards })
      (record { upwards = d.upwards; downwards = d.downwards })

pub turn-Carried :
    (size : ℕ) (m : Move) (s : Runtime)
    → IsFitting size m
    → Exclusive size s
    → Carried s
    → Carried (turn m s)
unfolding turn
turn-Carried size cancel s fits x c = c
turn-Carried size watch s fits x c = either Carried s.done (record s { watched = true }) s c c
turn-Carried size wait_ends s fits x c =
    either Carried (both_returned s.up s.down) (record s { done = true }) s c c
turn-Carried size (up_starts pick) s fits x c = start_up-Carried pick s.up s refl c
turn-Carried size (read_returns packet e) s fits x c =
    after_read-Carried size packet e s.up s refl x c
turn-Carried size (send_returns e) s fits x c = after_send-Carried e s.up s refl c
turn-Carried size down_starts s fits x c = start_down-Carried s.down s refl c
turn-Carried size (receive_returns pick f e) s fits x c =
    after_receive-Carried size pick f e s.down s refl (IsFitting-any size pick f e fits) x c
turn-Carried size (write_returns e) s fits x c = after_write-Carried e s.down s refl c

play-Carried :
    (size : ℕ) (ms : List Move) (s : Runtime)
    → All (IsFitting size) ms
    → Exclusive size s
    → Carried s
    → Carried (play ms s)
unfolding play
play-Carried size [] s fits x c = c
play-Carried size (m ∷ ms) s (fit, fits) x c =
    play-Carried size ms (turn m s) fits (turn-Exclusive size m s fit x)
      (turn-Carried size m s fit x c)

-- From the start of `Run`, in every interleaving in which no packet of the peer is longer than the
-- pool's buffers: the frames given to `SendFrame` are those for the packets read, and the slices
-- given to `Write` are the packets of the frames received, in order and byte for byte, with at most
-- the one of a call in progress still to come.
pub run_carries :
    (slice_size : ℕ) (ms : List Move)
    → All (IsFitting (new_buffer_pool slice_size).slice_size) ms
    → Carried (play ms (fresh_runtime slice_size))
run_carries slice_size ms fits =
    play-Carried (new_buffer_pool slice_size).slice_size ms (fresh_runtime slice_size) fits
      (fresh-Exclusive slice_size) (record { upwards = refl; downwards = refl })
