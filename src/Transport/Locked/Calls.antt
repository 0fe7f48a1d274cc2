-- ===== src/Transport/Locked/Calls.antt =====
-- The steps of `SendFrame` and of `Close` in internal/transport/grpc/wrapper.go, one by one.
use unverified.Common.{refl, inl, inr, ℕ, Bool, true, false, [], ◌∷◌}
use unverified.Common.Words.{Bytes}
use unverified.TunnelPb.{Frame}
use unverified.Transport.{close_frame}
use unverified.Transport.Locked.{
  Sending, not_sending, wants_to_send, writes, Closing, not_closing, wants_to_close, writes_close,
  Receiving, ask_send, lock_send, go_on_writing, end_send, break_send, ask_close, lock_close,
  go_on_closing, end_close, break_close, moved,
}
use unverified.Transport.Locked.Serial.{
  IsHeldOnce, IsWritten, side, same_left, begins, puts, ends, begun_send, begun_close, put_send,
  put_close,
}

pub asks_send-IsWritten :
    (f : Frame) (x : Sending) (c : Closing) (r : Receiving) (locked closed : Bool) (unread : Bytes)
    → IsHeldOnce x c locked closed
    → (let s = side x c r locked closed unread in IsWritten s (ask_send f x s) [] [])
asks_send-IsWritten f not_sending not_closing r locked closed unread h = same_left h refl
asks_send-IsWritten f not_sending (wants_to_close code message) r locked closed unread h =
    same_left h refl
asks_send-IsWritten f not_sending (writes_close cs g) r locked closed unread h = same_left h refl
asks_send-IsWritten f (wants_to_send g) c r locked closed unread h = same_left h refl
asks_send-IsWritten f (writes bs e) c r locked closed unread h = same_left h refl

pub locks_send-IsWritten :
    (x : Sending) (c : Closing) (r : Receiving) (locked closed : Bool) (unread : Bytes)
    → IsHeldOnce x c locked closed
    → (let s = side x c r locked closed unread in
        IsWritten s (lock_send x s) (begun_send x locked closed) [])
locks_send-IsWritten not_sending c r locked closed unread h = same_left h refl
locks_send-IsWritten (writes bs e) c r locked closed unread h = same_left h refl
locks_send-IsWritten (wants_to_send f) c r true closed unread h = same_left h refl
locks_send-IsWritten (wants_to_send f) not_closing r false true unread h = same_left h refl
locks_send-IsWritten (wants_to_send f) (wants_to_close code message) r false true unread h =
    same_left h refl
locks_send-IsWritten (wants_to_send f) (writes_close cs g) r false true unread h = same_left h refl
locks_send-IsWritten (wants_to_send f) not_closing r false false unread h =
    begins f (refl, refl) refl refl
locks_send-IsWritten (wants_to_send f) (wants_to_close code message) r false false unread h =
    begins f (refl, refl) refl refl
locks_send-IsWritten (wants_to_send f) (writes_close cs g) r false false unread (held, opened) =
    absurd cc

pub goes_on_writing-IsWritten :
    (capacity n : ℕ) (x : Sending) (c : Closing) (r : Receiving) (locked closed : Bool)
    (unread : Bytes)
    → IsHeldOnce x c locked closed
    → (let s = side x c r locked closed unread in
        IsWritten s (go_on_writing capacity n x s) [] (put_send capacity n x unread))
goes_on_writing-IsWritten capacity n not_sending c r locked closed unread h = same_left h refl
goes_on_writing-IsWritten capacity n (wants_to_send f) c r locked closed unread h = same_left h refl
goes_on_writing-IsWritten capacity n (writes bs e) not_closing r locked closed unread h =
    puts (moved capacity n bs unread) bs h h.1 refl refl
goes_on_writing-IsWritten capacity n (writes bs e) (wants_to_close code message) r locked closed
      unread h =
    puts (moved capacity n bs unread) bs h h.1 refl refl
goes_on_writing-IsWritten capacity n (writes bs e) (writes_close cs g) r locked closed unread h =
    absurd h

pub ends_send-IsWritten :
    (x : Sending) (c : Closing) (r : Receiving) (locked closed : Bool) (unread : Bytes)
    → IsHeldOnce x c locked closed
    → (let s = side x c r locked closed unread in IsWritten s (end_send x s) [] [])
ends_send-IsWritten not_sending c r locked closed unread h = same_left h refl
ends_send-IsWritten (wants_to_send f) c r locked closed unread h = same_left h refl
ends_send-IsWritten (writes (b ∷ bs) e) c r locked closed unread h = same_left h refl
ends_send-IsWritten (writes [] e) not_closing r locked closed unread h =
    ends [] refl h.1 refl refl (inl refl)
ends_send-IsWritten (writes [] e) (wants_to_close code message) r locked closed unread h =
    ends [] refl h.1 refl refl (inl refl)
ends_send-IsWritten (writes [] e) (writes_close cs g) r locked closed unread h = absurd h

pub breaks_send-IsWritten :
    (x : Sending) (c : Closing) (r : Receiving) (locked closed : Bool) (unread : Bytes)
    → IsHeldOnce x c locked closed
    → (let s = side x c r locked closed unread in IsWritten s (break_send x s) [] [])
breaks_send-IsWritten not_sending c r locked closed unread h = same_left h refl
breaks_send-IsWritten (wants_to_send f) c r locked closed unread h = same_left h refl
breaks_send-IsWritten (writes [] e) c r locked closed unread h = same_left h refl
breaks_send-IsWritten (writes (b ∷ bs) e) not_closing r locked closed unread h =
    ends (b ∷ bs) refl h.1 refl refl (inr refl)
breaks_send-IsWritten (writes (b ∷ bs) e) (wants_to_close code message) r locked closed unread h =
    ends (b ∷ bs) refl h.1 refl refl (inr refl)
breaks_send-IsWritten (writes (b ∷ bs) e) (writes_close cs g) r locked closed unread h = absurd h

pub asks_close-IsWritten :
    (k : ℕ) (m : Bytes) (x : Sending) (c : Closing) (r : Receiving) (locked closed : Bool)
    (unread : Bytes)
    → IsHeldOnce x c locked closed
    → (let s = side x c r locked closed unread in IsWritten s (ask_close k m c s) [] [])
asks_close-IsWritten k m not_sending not_closing r locked closed unread h = same_left h refl
asks_close-IsWritten k m (wants_to_send f) not_closing r locked closed unread h = same_left h refl
asks_close-IsWritten k m (writes bs e) not_closing r locked closed unread h = same_left h refl
asks_close-IsWritten k m x (wants_to_close code message) r locked closed unread h = same_left h refl
asks_close-IsWritten k m x (writes_close cs g) r locked closed unread h = same_left h refl

pub locks_close-IsWritten :
    (x : Sending) (c : Closing) (r : Receiving) (locked closed : Bool) (unread : Bytes)
    → IsHeldOnce x c locked closed
    → (let s = side x c r locked closed unread in
        IsWritten s (lock_close c s) (begun_close c locked closed) [])
locks_close-IsWritten x not_closing r locked closed unread h = same_left h refl
locks_close-IsWritten x (writes_close cs g) r locked closed unread h = same_left h refl
locks_close-IsWritten x (wants_to_close code message) r true closed unread h = same_left h refl
locks_close-IsWritten not_sending (wants_to_close code message) r false true unread h =
    same_left h refl
locks_close-IsWritten (wants_to_send f) (wants_to_close code message) r false true unread h =
    same_left h refl
locks_close-IsWritten (writes bs e) (wants_to_close code message) r false true unread h =
    same_left h refl
locks_close-IsWritten not_sending (wants_to_close code message) r false false unread h =
    begins (close_frame code message) (refl, refl) refl refl
locks_close-IsWritten (wants_to_send f) (wants_to_close code message) r false false unread h =
    begins (close_frame code message) (refl, refl) refl refl
locks_close-IsWritten (writes bs e) (wants_to_close code message) r false false unread
      (held, opened) =
    absurd cc

pub goes_on_closing-IsWritten :
    (capacity n : ℕ) (x : Sending) (c : Closing) (r : Receiving) (locked closed : Bool)
    (unread : Bytes)
    → IsHeldOnce x c locked closed
    → (let s = side x c r locked closed unread in
        IsWritten s (go_on_closing capacity n c s) [] (put_close capacity n c unread))
goes_on_closing-IsWritten capacity n x not_closing r locked closed unread h = same_left h refl
goes_on_closing-IsWritten capacity n x (wants_to_close code message) r locked closed unread h =
    same_left h refl
goes_on_closing-IsWritten capacity n not_sending (writes_close bs e) r locked closed unread h =
    puts (moved capacity n bs unread) bs h h.1 refl refl
goes_on_closing-IsWritten capacity n (wants_to_send f) (writes_close bs e) r locked closed unread
      h =
    puts (moved capacity n bs unread) bs h h.1 refl refl
goes_on_closing-IsWritten capacity n (writes cs g) (writes_close bs e) r locked closed unread h =
    absurd h

pub ends_close-IsWritten :
    (x : Sending) (c : Closing) (r : Receiving) (locked closed : Bool) (unread : Bytes)
    → IsHeldOnce x c locked closed
    → (let s = side x c r locked closed unread in IsWritten s (end_close c s) [] [])
ends_close-IsWritten x not_closing r locked closed unread h = same_left h refl
ends_close-IsWritten x (wants_to_close code message) r locked closed unread h = same_left h refl
ends_close-IsWritten x (writes_close (b ∷ bs) e) r locked closed unread h = same_left h refl
ends_close-IsWritten not_sending (writes_close [] e) r locked closed unread h =
    ends [] refl h.1 refl refl (inl refl)
ends_close-IsWritten (wants_to_send f) (writes_close [] e) r locked closed unread h =
    ends [] refl h.1 refl refl (inl refl)
ends_close-IsWritten (writes cs g) (writes_close [] e) r locked closed unread h = absurd h

pub breaks_close-IsWritten :
    (x : Sending) (c : Closing) (r : Receiving) (locked closed : Bool) (unread : Bytes)
    → IsHeldOnce x c locked closed
    → (let s = side x c r locked closed unread in IsWritten s (break_close c s) [] [])
breaks_close-IsWritten x not_closing r locked closed unread h = same_left h refl
breaks_close-IsWritten x (wants_to_close code message) r locked closed unread h = same_left h refl
breaks_close-IsWritten x (writes_close [] e) r locked closed unread h = same_left h refl
breaks_close-IsWritten not_sending (writes_close (b ∷ bs) e) r locked closed unread h =
    ends (b ∷ bs) refl h.1 refl refl (inr refl)
breaks_close-IsWritten (wants_to_send f) (writes_close (b ∷ bs) e) r locked closed unread h =
    ends (b ∷ bs) refl h.1 refl refl (inr refl)
breaks_close-IsWritten (writes cs g) (writes_close (b ∷ bs) e) r locked closed unread h = absurd h
