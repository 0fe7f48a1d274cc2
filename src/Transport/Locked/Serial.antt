-- ===== src/Transport/Locked/Serial.antt =====
-- What the mutex of internal/transport/grpc/wrapper.go is for: the bytes of one call at a time.
use unverified.Common.{
  ◌≡◌, refl, ap, sym, ◌∙◌, ◌⊎◌, inl, ℕ, Bool, true, false, List, [], ◌∷◌, ◌++◌, append-nil, take,
  drop, take-append-drop, if◌then◌else◌,
}
use unverified.Common.Words.{Bytes}
use unverified.TunnelPb.{Frame}
use unverified.Transport.{close_frame}
use unverified.Transport.Locked.{
  Sending, wants_to_send, writes, Closing, wants_to_close, writes_close, Receiving, Side, Act,
  locks_send, goes_on_writing, locks_close, goes_on_closing, moved, bytes_of,
}

-- At most one call writes, and then it has the mutex and the tunnel is open; else nobody has it.
abbrev pub IsHeldOnce : Sending → Closing → Bool → Bool → Type 0
IsHeldOnce (writes bs e) (writes_close cs f) locked closed = ⊥
IsHeldOnce (writes bs e) c locked closed = (locked ≡ true) × (closed ≡ false)
IsHeldOnce s (writes_close cs f) locked closed = (locked ≡ true) × (closed ≡ false)
IsHeldOnce s c locked closed = locked ≡ false

abbrev pub IsSerial : Side → Type 0
IsSerial s = IsHeldOnce s.sending s.closing s.locked s.closed

-- What the call that writes has left.
abbrev pub left_of : Sending → Closing → Bytes
left_of (writes bs e) c = bs
left_of s (writes_close bs e) = bs
left_of s c = []

abbrev pub left : Side → Bytes
left s = left_of s.sending s.closing

-- The frame whose bytes a step of this side begins to write.
abbrev pub begun_send : Sending → Bool → Bool → List Frame
begun_send (wants_to_send f) locked closed = if locked then [] else if closed then [] else f ∷ []
begun_send s locked closed = []

abbrev pub begun_close : Closing → Bool → Bool → List Frame
begun_close (wants_to_close code message) locked closed =
    if locked then [] else if closed then [] else close_frame code message ∷ []
begun_close c locked closed = []

abbrev pub begun_by : Act → Side → List Frame
begun_by locks_send s = begun_send s.sending s.locked s.closed
begun_by locks_close s = begun_close s.closing s.locked s.closed
begun_by a s = []

-- The bytes that a step of this side puts on its stream.
abbrev pub put_send : ℕ → ℕ → Sending → Bytes → Bytes
put_send capacity n (writes bs e) unread = take (moved capacity n bs unread) bs
put_send capacity n s unread = []

abbrev pub put_close : ℕ → ℕ → Closing → Bytes → Bytes
put_close capacity n (writes_close bs e) unread = take (moved capacity n bs unread) bs
put_close capacity n c unread = []

abbrev pub put_by : ℕ → Act → Side → Bytes
put_by capacity (goes_on_writing n) s = put_send capacity n s.sending s.unread
put_by capacity (goes_on_closing n) s = put_close capacity n s.closing s.unread
put_by capacity a s = []

-- The bytes of frames, one after the other.
abbrev pub all_bytes : List Frame → Bytes
all_bytes [] = []
all_bytes (f ∷ fs) = bytes_of f ++ all_bytes fs

-- Steps from `s` to `t` that have begun these frames and put these bytes on the stream: `lost` are
-- those of a call that the stream has broken.
pub record IsWritten (s t : Side) (begun : List Frame) (put : Bytes) : Type 0 where
  pub lost : Bytes
  pub serial : IsSerial t
  pub balance : left s ++ all_bytes begun ≡ put ++ (left t ++ lost)
  pub broken : (lost ≡ []) ⊎ (t.closed ≡ true)
  pub shut : s.closed ≡ true → (t.closed ≡ true) × (begun ≡ []) × (put ≡ [])

abbrev pub side : Sending → Closing → Receiving → Bool → Bool → Bytes → Side
side x c r locked closed unread = record {
  sending = x;
  closing = c;
  receiving = r;
  locked = locked;
  closed = closed;
  unread = unread;
}

-- A step that leaves the mutex, the flag and what is to be written alone.
pub same_left :
    {x y : Sending} {c d : Closing} {r q : Receiving} {locked closed : Bool} {unread rest : Bytes}
    → IsHeldOnce y d locked closed
    → left_of x c ≡ left_of y d
    → IsWritten (side x c r locked closed unread) (side y d q locked closed rest) [] []
same_left {x} {y} {c} {d} h e = record {
  lost = [];
  serial = h;
  balance = ap (λ (bs : Bytes). bs ++ []) e;
  broken = inl refl;
  shut = λ s. (s, refl, refl);
}

-- A call that has the mutex begins to write the bytes of its frame.
pub begins :
    {x y : Sending} {c d : Closing} {r : Receiving} {unread : Bytes} (f : Frame)
    → IsHeldOnce y d true false
    → left_of x c ≡ []
    → left_of y d ≡ bytes_of f
    → IsWritten (side x c r false false unread) (side y d r true false unread) (f ∷ []) []
begins {x} {y} {c} {d} f h nothing all = record {
  lost = [];
  serial = h;
  balance =
      ap (λ (bs : Bytes). bs ++ (bytes_of f ++ [])) nothing
      ∙ ap (λ (bs : Bytes). bs ++ []) (sym all);
  broken = inl refl;
  shut = λ s. absurd cc;
}

-- It puts some of them on the stream.
pub puts :
    {x y : Sending} {c d : Closing} {r : Receiving} {locked closed : Bool} {unread rest : Bytes}
    (k : ℕ) (bs : Bytes)
    → IsHeldOnce y d locked closed
    → closed ≡ false
    → left_of x c ≡ bs
    → left_of y d ≡ drop k bs
    → IsWritten (side x c r locked closed unread) (side y d r locked closed rest) [] (take k bs)
puts {x} {y} {c} {d} k bs h opened before after = record {
  lost = [];
  serial = h;
  balance =
      append-nil (left_of x c)
      ∙ before
      ∙ sym (take-append-drop k bs)
      ∙ ap (λ (cs : Bytes). take k bs ++ cs) (sym after ∙ sym (append-nil (left_of y d)));
  broken = inl refl;
  shut = λ s. absurd cc;
}

-- It lets go of the mutex, with these bytes lost.
pub ends :
    {x y : Sending} {c d : Closing} {r : Receiving} {locked closed after : Bool} {unread : Bytes}
    (lost : Bytes)
    → IsHeldOnce y d false after
    → closed ≡ false
    → left_of x c ≡ lost
    → left_of y d ≡ []
    → (lost ≡ []) ⊎ (after ≡ true)
    → IsWritten (side x c r locked closed unread) (side y d r false after unread) [] []
ends {x} {y} {c} {d} lost h opened before nothing broken = record {
  lost = lost;
  serial = h;
  balance = append-nil (left_of x c) ∙ before ∙ ap (λ (bs : Bytes). bs ++ lost) (sym nothing);
  broken = broken;
  shut = λ s. absurd cc;
}
