-- ===== src/Network/Answers.antt =====
-- What the answers of `SendFrame` and `RecvFrame` make of the state of a pump
-- (internal/tunnel/session/pump_linux.go).
use unverified.Common.{
  ◌≡◌, refl, ap, sym, ◌∙◌, ℕ, false, Option, none, some, List, [], ◌∷◌, ◌++◌, either, take,
  if◌then◌else◌, Bool,
}
use mathlib.Core.Path.{subst}
use unverified.Common.Words.{Bytes}
use unverified.Errors.{Error, nil, is_nil}
use unverified.TunnelPb.{Frame, Close}
use unverified.Pump.{
  Runtime, send_returns, receive_returns, Up, sending, Down, receiving, turn, after_send,
  after_receive, deliver, unless_close, return_down, packet_frame, log_receive,
}
use unverified.Pump.Taxonomy.{receive_failure}
use unverified.Pump.Buffers.{Buffer}
use unverified.Network.Flow.{Gone}

-- From `s` to `t`, the pump has got the answer for the frame f that it had given to its tunnel.
pub record IsSent (s t : Runtime) (f : Frame) : Type 0 where
  pub sent : t.traffic.sent ≡ f ∷ s.traffic.sent
  pub received : t.traffic.received ≡ s.traffic.received
  pub read : t.traffic.read ≡ s.traffic.read
  pub down : t.down ≡ s.down

pub turn-IsSent :
    (e : Error) (b : Buffer) (n tag : ℕ) (s : Runtime)
    → s.up ≡ sending b n tag
    → IsSent s (turn (send_returns e) s) (packet_frame tag (take n (s.memory b.id)))
unfolding turn
turn-IsSent e b n tag s same =
    let f = packet_frame tag (take n (s.memory b.id)) in
    subst (λ (u : Up). IsSent s (after_send e u s) f) (sym same)
      (either (λ (t : Runtime). IsSent s t f) (is_nil e) _ _
        (record { sent = refl; received = refl; read = refl; down = refl })
        (record { sent = refl; received = refl; read = refl; down = refl }))

-- The pump has got an answer of `RecvFrame`, and these frames with it.
pub record IsAnswered (s t : Runtime) (fs : List Frame) : Type 0 where
  pub sent : t.traffic.sent ≡ s.traffic.sent
  pub received : t.traffic.received ≡ fs ++ s.traffic.received
  pub read : t.traffic.read ≡ s.traffic.read

-- Without a frame, or with an error, the loop ends; what is not a frame is as good as none.
failed_receive :
    (pick : ℕ) (answer : Option Frame) (e : Error) (s : Runtime)
    → s.down ≡ receiving
    → is_nil e ≡ false
    → turn (receive_returns pick answer e) s ≡ return_down (receive_failure e) s
unfolding turn
failed_receive pick answer e s here failed =
    ap (λ (d : Down). after_receive pick answer e d s) here
    ∙ ap (λ (b : Bool). if b then deliver pick answer s else return_down (receive_failure e) s)
        failed

pub turn-Gone :
    (pick : ℕ) (e : Error) (s : Runtime)
    → s.down ≡ receiving
    → (let t = turn (receive_returns pick none e) s in IsAnswered s t [] × Gone t.down)
unfolding turn
turn-Gone pick e s here =
    subst (λ (d : Down). let t = after_receive pick none e d s in IsAnswered s t [] × Gone t.down)
      (sym here)
      (either (λ (t : Runtime). IsAnswered s t [] × Gone t.down) (is_nil e) _ _
        (record { sent = refl; received = refl; read = refl }, tt)
        (record { sent = refl; received = refl; read = refl }, tt))

-- An answer with an error is as good as one without a frame.
pub failed_as_none :
    (pick : ℕ) (f : Option Frame) (e : Error) (s : Runtime)
    → s.down ≡ receiving
    → is_nil e ≡ false
    → turn (receive_returns pick f e) s ≡ turn (receive_returns pick none e) s
failed_as_none pick f e s here failed =
    failed_receive pick f e s here failed ∙ sym (failed_receive pick none e s here failed)

unless_close-IsAnswered :
    (pick : ℕ) (f : Frame) (c : Option Close) (p : Option Bytes) (s : Runtime)
    → IsAnswered s (unless_close pick c p (log_receive f s)) (f ∷ [])
unless_close-IsAnswered pick f (some c) p s = record { sent = refl; received = refl; read = refl }
unless_close-IsAnswered pick f none none s = record { sent = refl; received = refl; read = refl }
unless_close-IsAnswered pick f none (some p) s = record {
  sent = refl;
  received = refl;
  read = refl;
}

pub turn-IsAnswered :
    (pick : ℕ) (f : Frame) (s : Runtime)
    → s.down ≡ receiving
    → IsAnswered s (turn (receive_returns pick (some f) nil) s) (f ∷ [])
unfolding turn
turn-IsAnswered pick f s here =
    subst (λ (d : Down). IsAnswered s (after_receive pick (some f) nil d s) (f ∷ [])) (sym here)
      (unless_close-IsAnswered pick f f.close f.packet s)
