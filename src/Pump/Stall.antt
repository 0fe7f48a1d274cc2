-- ===== src/Pump/Stall.antt =====
-- The loops of internal/tunnel/session/pump_linux.go that wait: after the peer has closed the stream, and
-- in `RecvFrame` after the context has ended.
use unverified.Common.{
  sym, ◌||◌, Bool-cases, inl, inr, either, ℕ, Option, leb, length, ◌≡◌, refl, ap, ◌∙◌, Bool, true,
  false, none, some, List, [], ◌∷◌, if◌then◌else◌, All,
}
use unverified.Common.Words.{Bytes}
use mathlib.Core.Path.{subst}
use unverified.Errors.{
  Error, nil, eof, transport_closed, pump_error, recv_frame_failed, bytes, is_nil, is_error,
}
use unverified.Stream.Uniform.{nil_of}
use unverified.TunnelPb.{Frame, Close}
use unverified.Pump.{
  up_top, sending, up_returned, receiving, after_read, send_packet, send_tagged, log_read,
  wait_ends, Runtime, Move, cancel, watch, up_starts, read_returns, send_returns, down_starts,
  receive_returns, write_returns, Up, reading, Down, down_returned, turn, play, both_returned, wait,
  deliver, unless_close, return_down, log_receive, start_up, after_send, start_down, after_receive,
  after_write,
}
use unverified.Pump.Taxonomy.{tag_of, receive_failure, is_canceled}
use unverified.Pump.Buffers.{Buffer}

-- Every move but an end of the caller's context and an answer of the device.
abbrev pub IsQuiet : Move → Type 0
IsQuiet cancel = ⊥
IsQuiet (read_returns packet e) = ⊥
IsQuiet m = Unit {0}

-- The loop downwards has returned nil, and the other waits for a packet of the device.
pub record IsStalled (b : Buffer) (s : Runtime) : Type 0 where
  pub open_context : s.done ≡ false
  pub up_reads : s.up ≡ reading b
  pub down_gone : s.down ≡ down_returned nil

turn_stalled : (m : Move) (b : Buffer) (s : Runtime) → IsQuiet m → IsStalled b s → turn m s ≡ s
unfolding turn
turn_stalled cancel b s q h = absurd q
turn_stalled watch b s q h =
    ap (λ (c : Bool). if c then record s { watched = true } else s) h.open_context
turn_stalled wait_ends b s q h =
    ap (λ (u : Up). if both_returned u s.down then record s { done = true } else s) h.up_reads
turn_stalled (up_starts pick) b s q h = ap (λ (u : Up). start_up pick u s) h.up_reads
turn_stalled (read_returns packet e) b s q h = absurd q
turn_stalled (send_returns e) b s q h = ap (λ (u : Up). after_send e u s) h.up_reads
turn_stalled down_starts b s q h = ap (λ (d : Down). start_down d s) h.down_gone
turn_stalled (receive_returns pick f e) b s q h =
    ap (λ (d : Down). after_receive pick f e d s) h.down_gone
turn_stalled (write_returns e) b s q h = ap (λ (d : Down). after_write e d s) h.down_gone

play_stalled :
    (ms : List Move) (b : Buffer) (s : Runtime) → All IsQuiet ms → IsStalled b s → play ms s ≡ s
unfolding play
play_stalled [] b s q h = refl
play_stalled (m ∷ ms) b s (q, qs) h =
    ap (play ms) (turn_stalled m b s q h) ∙ play_stalled ms b s qs h

stalled_waits :
    (ms : List Move) (b : Buffer) (s : Runtime)
    → All IsQuiet ms
    → IsStalled b s
    → (play ms s ≡ s) × (wait (play ms s) ≡ none)
unfolding wait
stalled_waits ms b s quiet h =
    let same = play_stalled ms b s quiet h in
    (
      same,
      ap wait same
          ∙ ap (λ (u : Up). if both_returned u s.down then some s.failure else none) h.up_reads,
    )

-- The answers of `RecvFrame` that say that the peer has ended the stream: an error with `io.EOF` in
-- its chain, or a `Close` frame.
abbrev pub IsPeerEnd : Option Frame → Error → Type 0
IsPeerEnd none e = is_error e eof ≡ true
IsPeerEnd (some f) e = ((c : Close) × (f.close ≡ some c)) × (e ≡ nil)

eof-failed : (e : Error) → is_error e eof ≡ true → is_nil e ≡ false
unfolding is_error
eof-failed e h = elim (Bool-cases (is_nil e)) [
  | inl clean ↦ let clash = ap (λ (f : Error). is_error f eof) (nil_of e clean) in absurd cc
  | inr failed ↦ failed
]

-- The loop downwards returns nil, and does not end the context.
returned-IsStalled :
    (b : Buffer) (s : Runtime) → s.done ≡ false → s.up ≡ reading b → IsStalled b (return_down nil s)
returned-IsStalled b s opened waits = record {
  open_context = ap (λ (d : Bool). d || false) opened;
  up_reads = waits;
  down_gone = refl;
}

ended-IsStalled :
    (pick : ℕ) (b : Buffer) (s : Runtime) (f : Option Frame) (e : Error)
    → IsPeerEnd f e
    → s.done ≡ false
    → s.up ≡ reading b
    → IsStalled b (after_receive pick f e receiving s)
unfolding receive_failure
ended-IsStalled pick b s none e ended opened waits =
    subst (IsStalled b)
      (sym (
        ap (λ (c : Bool). if c then deliver pick none s else return_down (receive_failure e) s)
          (eof-failed e ended)
        ∙ ap
            (λ (c : Bool).
              return_down
                (if (c || is_error e transport_closed) || is_canceled e
                  then nil
                  else pump_error recv_frame_failed (bytes "recv frame") e)
                s)
            ended))
      (returned-IsStalled b s opened waits)
ended-IsStalled pick b s (some f) e ((c, closes), clean) opened waits =
    subst (IsStalled b)
      (sym (
        ap
          (λ (g : Error).
            if is_nil g then deliver pick (some f) s else return_down (receive_failure g) s)
          clean
        ∙ ap (λ (o : Option Close). unless_close pick o f.packet (log_receive f s)) closes))
      (returned-IsStalled b (log_receive f s) opened waits)

-- When the peer ends the stream while the loop upwards waits in `dev.Read`, the pump stalls: the context
-- is open and `RecvFrame`, for which the loop downwards waits, returns `io.EOF` or a `Close` frame;
-- then that loop returns nil, and the context does not end. From then on no move of the pump changes
-- its state, `Run` does not return, and the watcher closes nothing, until the device answers or the
-- caller ends the context.
pub peer_end_stalls :
    (ms : List Move) (pick : ℕ) (b : Buffer) (s : Runtime) (f : Option Frame) (e : Error)
    → s.done ≡ false
    → s.up ≡ reading b
    → s.down ≡ receiving
    → IsPeerEnd f e
    → All IsQuiet ms
    → (let after = turn (receive_returns pick f e) s in
        IsStalled b after × (play ms after ≡ after) × (wait (play ms after) ≡ none))
unfolding turn
peer_end_stalls ms pick b s f e opened waits receives ended quiet =
    let h =
      subst (λ (d : Down). IsStalled b (after_receive pick f e d s)) (sym receives)
        (ended-IsStalled pick b s f e ended opened waits) in
    let (same, none_returned) = stalled_waits ms b (after_receive pick f e s.down s) quiet h in
    (h, same, none_returned)

-- Every move but an answer of `RecvFrame`.
abbrev pub IsUnanswered : Move → Type 0
IsUnanswered (receive_returns pick f e) = ⊥
IsUnanswered m = Unit {0}

abbrev pub Waits : Runtime → Type 0
Waits s = s.down ≡ receiving

start_up-Waits : (pick : ℕ) (u : Up) (s : Runtime) → Waits s → Waits (start_up pick u s)
start_up-Waits pick up_top s h = either Waits s.done _ _ h h
start_up-Waits pick (reading b) s h = h
start_up-Waits pick (sending b n tag) s h = h
start_up-Waits pick (up_returned e) s h = h

send_tagged-Waits :
    (tag : Option ℕ) (x : ℕ) (packet : Bytes) (b : Buffer) (s : Runtime)
    → Waits s
    → Waits (send_tagged tag x packet b s)
send_tagged-Waits none x packet b s h = h
send_tagged-Waits (some tag) x packet b s h = h

send_packet-Waits :
    (packet : Bytes) (b : Buffer) (s : Runtime) → Waits s → Waits (send_packet packet b s)
send_packet-Waits [] b s h = h
send_packet-Waits (x ∷ xs) b s h = send_tagged-Waits (tag_of x) x (x ∷ xs) b s h

after_read-Waits :
    (packet : Bytes) (e : Error) (u : Up) (s : Runtime) → Waits s → Waits (after_read packet e u s)
after_read-Waits packet e up_top s h = h
after_read-Waits packet e (reading b) s h =
    either Waits (leb (length packet) b.cap) _ _
      (either Waits (is_nil e) _ _ (send_packet-Waits packet b (log_read packet s) h) h) h
after_read-Waits packet e (sending b n tag) s h = h
after_read-Waits packet e (up_returned f) s h = h

after_send-Waits : (e : Error) (u : Up) (s : Runtime) → Waits s → Waits (after_send e u s)
after_send-Waits e up_top s h = h
after_send-Waits e (reading b) s h = h
after_send-Waits e (sending b n tag) s h = either Waits (is_nil e) _ _ h h
after_send-Waits e (up_returned f) s h = h

pub turn-Waits : (m : Move) (s : Runtime) → IsUnanswered m → Waits s → Waits (turn m s)
unfolding turn
turn-Waits cancel s q h = h
turn-Waits watch s q h = either Waits s.done _ _ h h
turn-Waits wait_ends s q h = either Waits (both_returned s.up s.down) _ _ h h
turn-Waits (up_starts pick) s q h = start_up-Waits pick s.up s h
turn-Waits (read_returns packet e) s q h = after_read-Waits packet e s.up s h
turn-Waits (send_returns e) s q h = after_send-Waits e s.up s h
turn-Waits down_starts s q h = ap (λ (d : Down). (start_down d s).down) h ∙ h
turn-Waits (receive_returns pick f e) s q h = absurd q
turn-Waits (write_returns e) s q h = ap (λ (d : Down). (after_write e d s).down) h ∙ h

pub not_both : (u : Up) → both_returned u receiving ≡ false
not_both up_top = refl
not_both (reading b) = refl
not_both (sending b n tag) = refl
not_both (up_returned e) = refl
