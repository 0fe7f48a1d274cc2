-- ===== src/Network/Waits.antt =====
-- A host whose pump waits in `ReadFrame` while nothing comes over the stream
-- (internal/transport/grpc/wrapper.go, internal/tunnel/session/pump_linux.go).
use unverified.Common.{some, ◌≡◌, refl, ap, sym, ◌∙◌, ℕ, Bool, true, none, if◌then◌else◌, either}
use mathlib.Core.Path.{subst}
use unverified.Common.Words.{Bytes}
use unverified.Errors.{Error, sentinel, transport_closed}
use unverified.Stream.{Reader}
use unverified.TunnelPb.{Frame}
use unverified.Transport.{Tunnel, send_frame, close}
use unverified.Pump.{
  Move, watch, send_returns, receive_returns, Up, up_top, reading, sending, up_returned, Down,
  receiving, turn, both_returned, wait,
}
use unverified.Pump.Stall.{IsUnanswered, turn-Waits, not_both}
use unverified.Network.{
  Host, HostStep, moves, sends, closes, enters, reads, IsLocal, send_pending, watch_message,
  watch_closes, enter_receive,
}

-- Every step but a read of the stream.
abbrev pub IsSilent : {h k : Host} → HostStep h k → Type 0
IsSilent (reads pick front back e failed split) = ⊥
IsSilent s = Unit {0}

pub data SilentRun (h : Host) : Host → Type 0 where
  rests : SilentRun h h
  goes_on : (k l : Host) → SilentRun h k → (s : HostStep k l) → IsSilent s → SilentRun h l

-- `pumpDown` waits in `RecvFrame`, which is behind its test of the flag, with this to read.
abbrev IsReading : Reader → Host → Type 0
IsReading r h = (h.runtime.down ≡ receiving) × (h.entered ≡ true) × (h.tunnel.incoming ≡ r)

local-IsUnanswered : (m : Move) → IsLocal m → IsUnanswered m
local-IsUnanswered (receive_returns pick f e) l = absurd l
local-IsUnanswered m l = tt

send_frame-incoming : (f : Frame) (t : Tunnel) → (send_frame f t).1.incoming ≡ t.incoming
unfolding send_frame
send_frame-incoming f t =
    either (λ (x : Error × Tunnel). x.1.incoming ≡ t.incoming) t.closed _ _ refl refl

close-incoming :
    (code : ℕ) (message : Bytes) (t : Tunnel) → (close code message t).1.incoming ≡ t.incoming
unfolding close
close-incoming code message t =
    either (λ (x : Error × Tunnel). x.1.incoming ≡ t.incoming) t.closed _ _ refl refl

module _ (r : Reader) where
  send_pending-IsReading : (u : Up) (h : Host) → IsReading r h → IsReading r (send_pending u h)
  send_pending-IsReading up_top h i = i
  send_pending-IsReading (reading b) h i = i
  send_pending-IsReading (sending b n tag) h (down, entered, unread) = (
    turn-Waits (send_returns _) h.runtime tt down,
    entered,
    send_frame-incoming _ h.tunnel ∙ unread,
  )
  send_pending-IsReading (up_returned e) h i = i

  watch_closes-IsReading : (h : Host) → IsReading r h → IsReading r (watch_closes h)
  watch_closes-IsReading h (down, entered, unread) =
      either (IsReading r) h.runtime.done _ _
        (
          turn-Waits watch h.runtime tt down,
          entered,
          close-incoming 0 watch_message h.tunnel ∙ unread,
        )
        (down, entered, unread)

  enter_receive-IsReading :
      (pick : ℕ) (d : Down) (h : Host) → IsReading r h → IsReading r (enter_receive pick d h)
  enter_receive-IsReading pick receiving h (down, entered, unread) =
      subst (IsReading r)
        (sym (
          ap
            (λ (b : Bool).
              if b
              then h
              else if h.tunnel.closed
              then record h {
                runtime = turn (receive_returns pick none (sentinel transport_closed)) h.runtime;
              }
              else record h { entered = true })
            entered))
        (down, entered, unread)
  enter_receive-IsReading pick d h i = i

  step-IsReading : (h k : Host) (s : HostStep h k) → IsSilent s → IsReading r h → IsReading r k
  step-IsReading h _ (moves m l) silent (down, entered, unread) =
      (turn-Waits m h.runtime (local-IsUnanswered m l) down, entered, unread)
  step-IsReading h _ sends silent i = send_pending-IsReading h.runtime.up h i
  step-IsReading h _ closes silent i = watch_closes-IsReading h i
  step-IsReading h _ (enters pick) silent i = enter_receive-IsReading pick h.runtime.down h i
  step-IsReading h _ (reads pick front back e failed split) silent i = absurd silent

  run-IsReading : (h k : Host) → SilentRun h k → IsReading r h → IsReading r k
  run-IsReading h _ rests i = i
  run-IsReading h _ (goes_on k l run s silent) i =
      step-IsReading k l s silent (run-IsReading h k run i)

-- `Close` does not end a `RecvFrame` that reads. While `pumpDown` is in `ReadFrame`, behind the test of
-- the flag, and the stream neither delivers nor fails, whatever the host does leaves it there: the
-- end of the caller's context, the watcher's `Close` of the tunnel, an error of the device or of
-- `SendFrame`. `Run` does not return, and the `Close` has left the reading end of the stream alone.
pub canceled_run_waits :
    (h k : Host)
    → h.runtime.down ≡ receiving
    → h.entered ≡ true
    → SilentRun h k
    → (wait k.runtime ≡ none)
      × (k.runtime.down ≡ receiving)
      × (k.entered ≡ true)
      × (k.tunnel.incoming ≡ h.tunnel.incoming)
unfolding wait
canceled_run_waits h k down entered run =
    let i = run-IsReading h.tunnel.incoming h k run (down, entered, refl) in
    let s = k.runtime in
    (
      ap (λ (b : Bool). if b then some s.failure else none)
          (ap (both_returned s.up) i.0 ∙ not_both s.up),
      i.0,
      i.1,
      i.2,
    )
