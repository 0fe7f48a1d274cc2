-- ===== src/Transport/Laws.antt =====
-- Each call of the tunnel on its own (internal/transport/grpc/wrapper.go): what closes it, and a
-- closed tunnel.
use unverified.Common.{
  ℕ, ◌≡◌, refl, true, false, none, List, [], ◌∷◌, ◌++◌, arith, length, lt→ltb, ◌<◌, ap, ◌∙◌, not,
}
use unverified.Common.Words.{Bytes}
use unverified.Errors.{
  nil, sentinel, transport_closed, field_too_long, wrap, bytes, is_nil, is_error,
}
use unverified.Stream.{reliable, write}
use unverified.TunnelPb.{Frame}
use unverified.TunnelPb.Encode.{write_frame, write_close}
use unverified.Transport.{
  Tunnel, send_frame, recv_frame, close, Call, send, receive, shut, step, run, close_frame,
}

pub step-closed : (c : Call) (t : Tunnel) → t.closed ≡ true → step c t ≡ t
unfolding step
step-closed (send f) t h = rw h
step-closed receive t h = rw h
step-closed (shut code message) t h = rw h

pub run-closed : (cs : List Call) (t : Tunnel) → t.closed ≡ true → run cs t ≡ t
unfolding run
run-closed [] t h = refl
run-closed (c ∷ cs) t h = ap (run cs) (step-closed c t h) ∙ run-closed cs t h

-- A closed tunnel never changes again: no call writes to the stream or reads from it. `SendFrame`
-- and `RecvFrame` answer `ErrClosed`, and `Close` answers nil.
closed_absorbs :
    (cs : List Call) (t : Tunnel) (f : Frame) (code : ℕ) (message : Bytes)
    → t.closed ≡ true
    → (run cs t ≡ t)
      × ((send_frame f t).0 ≡ sentinel transport_closed)
      × ((recv_frame t).0 ≡ (none, sentinel transport_closed))
      × ((close code message t).0 ≡ nil)
unfolding send_frame recv_frame close
closed_absorbs cs t f code message h = (run-closed cs t h, rw h, rw h, rw h)

-- `SendFrame` closes an open tunnel exactly when it returns an error; `Close` always does.
pub send_frame_closes :
    (f : Frame) (t : Tunnel) (code : ℕ) (message : Bytes)
    → t.closed ≡ false
    → ((send_frame f t).1.closed ≡ not (is_nil (send_frame f t).0))
      × ((close code message t).1.closed ≡ true)
unfolding send_frame close
send_frame_closes f t code message h = ground arith

write_close_long :
    (code : ℕ) (message sent : Bytes)
    → 255 < length message
    → write_frame (close_frame code message) (reliable sent) ≡ (
      wrap (bytes "tunnelpb: Close.Message %d > %d: ") (sentinel field_too_long) [],
      reliable (sent ++ (0x14 ∷ [])),
    )
unfolding write_frame write_close write
write_close_long code message sent long = rw (lt→ltb 255 (length message) long)

-- A message over 255 bytes is an error of `Close`, but the tag byte is already on the stream.
close_too_long :
    (code : ℕ) (message sent : Bytes) (t : Tunnel)
    → t.closed ≡ false
    → t.outgoing ≡ reliable sent
    → 255 < length message
    → (is_error (close code message t).0 field_too_long ≡ true)
      × ((close code message t).1.outgoing ≡ reliable (sent ++ (0x14 ∷ [])))
      × ((close code message t).1.closed ≡ true)
unfolding close
close_too_long code message sent t opened w long =
    let e =
      ap (write_frame (close_frame code message)) w ∙ write_close_long code message sent long in
    (rw (opened, e) (unfold is_error in refl), rw (opened, e), rw opened)
