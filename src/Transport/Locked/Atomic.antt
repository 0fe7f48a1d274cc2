-- ===== src/Transport/Locked/Atomic.antt =====
-- The calls of internal/transport/grpc/wrapper.go in their steps, against the same calls made one
-- after the other.
use unverified.Common.{
  ◌≡◌, refl, ap, sym, ◌∙◌, inl, inr, ℕ, Bool, true, false, not, List, [], ◌∷◌, ◌++◌, append_assoc,
  append-nil, take, drop, take-append-drop, if◌then◌else◌, Bool-cases,
}
use mathlib.Core.Path.{subst}
use unverified.Common.Words.{Bytes}
use unverified.Errors.{Error, nil, sentinel, transport_closed, is_nil}
use unverified.Stream.{Writer, reliable}
use unverified.TunnelPb.{Frame}
use unverified.TunnelPb.Encode.{write_frame}
use unverified.TunnelPb.Encode.Uniform.{write_frame-IsUniform}
use unverified.Transport.{
  Tunnel, Call, send, shut, step, send_frame, close, close_frame, after_send, after_close,
}
use unverified.Transport.Laws.{step-closed}
use unverified.Transport.Locked.{
  Sending, wants_to_send, writes, Closing, wants_to_close, writes_close, Side, Act, locks_send,
  breaks_send, locks_close, breaks_close, bytes_of, error_of,
}
use unverified.Transport.Locked.Serial.{left}

-- The flag that the tunnel has behind the call that writes.
abbrev pub closed_of : Sending → Closing → Bool → Bool
closed_of (writes bs e) c closed = not (is_nil e)
closed_of s (writes_close bs e) closed = true
closed_of s c closed = closed

-- The tunnel whose calls are made in one step each: it has these bytes on its stream, with those
-- that are left, and this flag.
pub record Matches (put rest : Bytes) (closed : Bool) (t : Tunnel) : Type 0 where
  pub out : t.outgoing ≡ reliable (put ++ rest)
  pub flag : t.closed ≡ closed

abbrev pub MatchesSide : Bytes → Side → Tunnel → Type 0
MatchesSide put s t = Matches put (left s) (closed_of s.sending s.closing s.closed) t

-- The call that gets the mutex in a step of a side, or finds the tunnel closed.
abbrev pub called_send : Sending → Bool → List Call
called_send (wants_to_send f) locked = if locked then [] else send f ∷ []
called_send s locked = []

abbrev pub called_close : Closing → Bool → List Call
called_close (wants_to_close code message) locked = if locked then [] else shut code message ∷ []
called_close c locked = []

abbrev pub called_by : Act → Side → List Call
called_by locks_send s = called_send s.sending s.locked
called_by locks_close s = called_close s.closing s.locked
called_by a s = []

-- A step in which the stream does not break under a write.
abbrev pub IsWhole : Act → Type 0
IsWhole breaks_send = ⊥
IsWhole breaks_close = ⊥
IsWhole a = Unit {0}

pub keeps :
    {put rest : Bytes} {closed : Bool} {t : Tunnel}
    → Matches put rest closed t
    → Matches (put ++ []) rest closed t
keeps {put} {rest} m = record {
  out = m.out ∙ ap (λ (bs : Bytes). reliable (bs ++ rest)) (sym (append-nil put));
  flag = m.flag;
}

pub moves_on :
    {put : Bytes} {closed : Bool} {t : Tunnel} (k : ℕ) (bs : Bytes)
    → Matches put bs closed t
    → Matches (put ++ take k bs) (drop k bs) closed t
moves_on {put} k bs m = record {
  out =
      m.out
      ∙ ap (λ (cs : Bytes). reliable (put ++ cs)) (sym (take-append-drop k bs))
      ∙ ap reliable (sym (append_assoc put (take k bs) (drop k bs)));
  flag = m.flag;
}

reliable_write :
    (f : Frame) (put : Bytes) (w : Writer)
    → w ≡ reliable (put ++ [])
    → write_frame f w ≡ (error_of f, reliable ((put ++ []) ++ bytes_of f))
reliable_write f put w e = ap (write_frame f) e ∙ (write_frame-IsUniform f).shifts (put ++ [])

flag_set : (e : Error) (b : Bool) → b ≡ false → (if is_nil e then b else true) ≡ not (is_nil e)
flag_set e b h = elim (Bool-cases (is_nil e)) [
  | inl clean ↦ rw (clean, h) refl
  | inr failed ↦ rw failed refl
]

-- A `SendFrame` on an open tunnel, and one on a closed tunnel.
pub sends_at_once :
    {put : Bytes} {t : Tunnel} (f : Frame)
    → Matches put [] false t
    → Matches (put ++ []) (bytes_of f) (not (is_nil (error_of f))) (step (send f) t)
unfolding step send_frame
sends_at_once {put} {t} f m =
    let ran = reliable_write f put t.outgoing m.out in
    let goes : send_frame f t ≡ after_send t (write_frame f t.outgoing) =
      ap
        (λ (b : Bool).
          if b then (sentinel transport_closed, t) else after_send t (write_frame f t.outgoing))
        m.flag in
    record {
      out = ap (λ (x : Error × Tunnel). x.1.outgoing) goes ∙ ap (λ (x : Error × Writer). x.1) ran;
      flag =
          ap (λ (x : Error × Tunnel). x.1.closed) goes
          ∙ ap (λ (x : Error × Writer). if is_nil x.0 then t.closed else true) ran
          ∙ flag_set (error_of f) t.closed m.flag;
    }

pub closes_at_once :
    {put : Bytes} {t : Tunnel} (code : ℕ) (message : Bytes)
    → Matches put [] false t
    → Matches (put ++ []) (bytes_of (close_frame code message)) true (step (shut code message) t)
unfolding step close
closes_at_once {put} {t} code message m =
    let f = close_frame code message in
    let ran = reliable_write f put t.outgoing m.out in
    let goes : close code message t ≡ after_close t (write_frame f t.outgoing) =
      ap (λ (b : Bool). if b then (nil, t) else after_close t (write_frame f t.outgoing)) m.flag in
    record {
      out = ap (λ (x : Error × Tunnel). x.1.outgoing) goes ∙ ap (λ (x : Error × Writer). x.1) ran;
      flag = ap (λ (x : Error × Tunnel). x.1.closed) goes;
    }

pub refused_at_once :
    {put : Bytes} {t : Tunnel} (c : Call)
    → Matches put [] true t
    → Matches (put ++ []) [] true (step c t)
refused_at_once {put} {t} c m =
    subst (Matches (put ++ []) [] true) (sym (step-closed c t m.flag)) (keeps m)
