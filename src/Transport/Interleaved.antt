-- ===== src/Transport/Interleaved.antt =====
-- `RecvFrame` of internal/transport/grpc/wrapper.go in its two parts, since it lets go of `t.mu` before
-- it reads: another goroutine may send or close in between. One goroutine receives.
use unverified.Common.{
  ◌≡◌, refl, ap, ◌∙◌, sym, ℕ, Bool, true, false, Option, none, List, [], ◌∷◌, ◌++◌, append_assoc,
  append-nil, if◌then◌else◌,
}
use unverified.Common.Words.{Bytes}
use unverified.Errors.{Error, sentinel, transport_closed}
use unverified.Stream.{Reader, Writer}
use unverified.TunnelPb.{Frame}
use unverified.TunnelPb.Decode.{Returned, read_frame}
use unverified.Transport.{
  Tunnel, send_frame, recv_frame, close, Call, send, receive, shut, step, run,
}

-- `waiting`: the receiver has passed the test of the flag and has not read yet. `answers` is what
-- the calls of `RecvFrame` have returned.
pub record Split : Type 0 where
  pub tunnel : Tunnel
  pub waiting : Bool
  pub answers : List (Option Frame × Error)

pub data Move : Type 0 where
  sends : Frame → Move
  shuts : ℕ → Bytes → Move
  begins ends : Move

-- The part of `RecvFrame` under the mutex.
unfoldable pub begin_receive : Split → Split
begin_receive s =
    if s.waiting
    then s
    else if s.tunnel.closed
    then record s { answers = s.answers ++ ((none, sentinel transport_closed) ∷ []) }
    else record s { waiting = true }

abbrev pub answered : Split → Returned → Split
answered s (answer, r) = record {
  tunnel = record s.tunnel { incoming = r };
  waiting = false;
  answers = s.answers ++ (answer ∷ []);
}

-- Its `return t.codec.ReadFrame(t.s)`.
unfoldable pub end_receive : Split → Split
end_receive s = if s.waiting then answered s (read_frame s.tunnel.incoming) else s

unfoldable pub split_step : Move → Split → Split
split_step (sends f) s = record s { tunnel = (send_frame f s.tunnel).1 }
split_step (shuts code message) s = record s { tunnel = (close code message s.tunnel).1 }
split_step begins s = begin_receive s
split_step ends s = end_receive s

unfoldable pub split_run : List Move → Split → Split
split_run [] s = s
split_run (m ∷ ms) s = split_run ms (split_step m s)

-- The whole calls that a move stands for: a `RecvFrame` counts where it tests the flag.
abbrev pub whole_calls : Move → Split → List Call
whole_calls (sends f) s = send f ∷ []
whole_calls (shuts code message) s = shut code message ∷ []
whole_calls begins s = if s.waiting then [] else receive ∷ []
whole_calls ends s = []

unfoldable pub calls_of : List Move → Split → List Call
calls_of [] s = []
calls_of (m ∷ ms) s = whole_calls m s ++ calls_of ms (split_step m s)

-- What the whole calls of `RecvFrame` return.
abbrev pub answer_of : Call → Tunnel → List (Option Frame × Error)
answer_of (send f) t = []
answer_of receive t = (recv_frame t).0 ∷ []
answer_of (shut code message) t = []

unfoldable pub answers_of : List Call → Tunnel → List (Option Frame × Error)
answers_of [] t = []
answers_of (c ∷ cs) t = answer_of c t ++ answers_of cs (step c t)

pub run-append : (cs ds : List Call) (t : Tunnel) → run (cs ++ ds) t ≡ run ds (run cs t)
unfolding run
run-append [] ds t = refl
run-append (c ∷ cs) ds t = run-append cs ds (step c t)

answers_of-append :
    (cs ds : List Call) (t : Tunnel)
    → answers_of (cs ++ ds) t ≡ answers_of cs t ++ answers_of ds (run cs t)
unfolding answers_of run
answers_of-append [] ds t = refl
answers_of-append (c ∷ cs) ds t =
    ap (λ (xs : List (Option Frame × Error)). answer_of c t ++ xs)
      (answers_of-append cs ds (step c t))
    ∙ sym (
        append_assoc (answer_of c t) (answers_of cs (step c t)) (answers_of ds (run cs (step c t))))

-- From `s`, when its receiver has returned, these calls lead to `u`, when its receiver has.
abbrev pub Agrees : Split → List Call → Split → Type 0
Agrees s cs u =
    ((end_receive u).tunnel ≡ run cs (end_receive s).tunnel)
    × ((end_receive u).answers ≡ (end_receive s).answers ++ answers_of cs (end_receive s).tunnel)

abbrev split : Reader → Writer → Bool → Bool → List (Option Frame × Error) → Split
split r w closed waiting answers = record {
  tunnel = record { incoming = r; outgoing = w; closed = closed };
  waiting = waiting;
  answers = answers;
}

move-Agrees :
    (m : Move) (r : Reader) (w : Writer) (closed waiting : Bool)
    (answers : List (Option Frame × Error))
    → (let s = split r w closed waiting answers in Agrees s (whole_calls m s) (split_step m s))
unfolding split_step begin_receive end_receive run step answers_of send_frame recv_frame close
move-Agrees (sends f) r w true true old = (refl, sym (append-nil _))
move-Agrees (sends f) r w true false old = (refl, sym (append-nil old))
move-Agrees (sends f) r w false true old = (refl, sym (append-nil _))
move-Agrees (sends f) r w false false old = (refl, sym (append-nil old))
move-Agrees (shuts code message) r w true true old = (refl, sym (append-nil _))
move-Agrees (shuts code message) r w true false old = (refl, sym (append-nil old))
move-Agrees (shuts code message) r w false true old = (refl, sym (append-nil _))
move-Agrees (shuts code message) r w false false old = (refl, sym (append-nil old))
move-Agrees begins r w closed true old = (refl, sym (append-nil _))
move-Agrees begins r w true false old = (refl, refl)
move-Agrees begins r w false false old = (refl, refl)
move-Agrees ends r w closed true old = (refl, sym (append-nil _))
move-Agrees ends r w closed false old = (refl, sym (append-nil old))

Agrees-none : (s : Split) → Agrees s [] s
unfolding run answers_of
Agrees-none s = (refl, sym (append-nil (end_receive s).answers))

Agrees-append :
    (s u v : Split) (cs ds : List Call) → Agrees s cs u → Agrees u ds v → Agrees s (cs ++ ds) v
Agrees-append s u v cs ds (t1, a1) (t2, a2) = (
  t2 ∙ ap (run ds) t1 ∙ sym (run-append cs ds (end_receive s).tunnel),
  a2
      ∙ rw (a1, t1, answers_of-append cs ds (end_receive s).tunnel)
          (append_assoc (end_receive s).answers (answers_of cs (end_receive s).tunnel)
            (answers_of ds (run cs (end_receive s).tunnel))),
)

-- Calls of `RecvFrame` in their two parts, between sends and a close of other goroutines, are as
-- good as whole calls in one order: once a receiver that waits has returned, the tunnel, the stream
-- and all answers are those of the whole calls, each `RecvFrame` at the place where it tests the flag.
pub split_run-Agrees : (ms : List Move) (s : Split) → Agrees s (calls_of ms s) (split_run ms s)
unfolding split_run calls_of
split_run-Agrees [] s = Agrees-none s
split_run-Agrees (m ∷ ms) s =
    Agrees-append s (split_step m s) (split_run ms (split_step m s)) (whole_calls m s)
      (calls_of ms (split_step m s))
      (move-Agrees m s.tunnel.incoming s.tunnel.outgoing s.tunnel.closed s.waiting s.answers)
      (split_run-Agrees ms (split_step m s))
