-- ===== src/Transport/Locked/Whole.antt =====
-- The steps of both ends together, and what they put on the stream of one
-- (internal/transport/grpc/wrapper.go).
use unverified.Common.{
  ◌≡◌, refl, ap, sym, ◌∙◌, inl, inr, ℕ, Bool, true, List, [], ◌∷◌, ◌++◌, append_assoc, append-nil,
  either,
}
use unverified.Common.Words.{Bytes}
use unverified.TunnelPb.{Frame}
use unverified.Transport.Locked.{
  Sending, not_sending, wants_to_send, writes, Closing, not_closing, wants_to_close, writes_close,
  Receiving, not_receiving, wants_to_receive, has_read, Side, Act, asks_send, locks_send,
  goes_on_writing, ends_send, breaks_send, asks_close, locks_close, goes_on_closing, ends_close,
  breaks_close, asks_receive, locks_receive, goes_on_reading, ends_receive, breaks_receive, act,
  ask_receive, lock_receive, go_on_reading, end_receive, break_receive, is_frame, Turn, west_acts,
  east_acts, take_turn, take_turns, bytes_of,
}
use unverified.Transport.Locked.Serial.{
  IsHeldOnce, IsSerial, left_of, left, begun_by, put_by, all_bytes, IsWritten, same_left,
}
use unverified.Transport.Locked.Calls.{
  asks_send-IsWritten, locks_send-IsWritten, goes_on_writing-IsWritten, ends_send-IsWritten,
  breaks_send-IsWritten, asks_close-IsWritten, locks_close-IsWritten, goes_on_closing-IsWritten,
  ends_close-IsWritten, breaks_close-IsWritten,
}

-- `RecvFrame` does not write, and its test of the flag leaves the mutex as it was.
asks_receive-IsWritten :
    (r : Receiving) (s : Side) → IsSerial s → IsWritten s (ask_receive r s) [] []
asks_receive-IsWritten not_receiving s h = same_left h refl
asks_receive-IsWritten wants_to_receive s h = same_left h refl
asks_receive-IsWritten (has_read bs) s h = same_left h refl

locks_receive-IsWritten :
    (r : Receiving) (s : Side) → IsSerial s → IsWritten s (lock_receive r s) [] []
locks_receive-IsWritten not_receiving s h = same_left h refl
locks_receive-IsWritten wants_to_receive s h =
    either (λ (t : Side). IsWritten s t [] []) s.locked s _ (same_left h refl)
      (either (λ (t : Side). IsWritten s t [] []) s.closed _ _ (same_left h refl)
        (same_left h refl))
locks_receive-IsWritten (has_read bs) s h = same_left h refl

goes_on_reading-IsWritten :
    (r : Receiving) (s peer : Side) → IsSerial s → IsWritten s (go_on_reading r s peer).0 [] []
goes_on_reading-IsWritten not_receiving s peer h = same_left h refl
goes_on_reading-IsWritten wants_to_receive s peer h = same_left h refl
goes_on_reading-IsWritten (has_read bs) s peer h =
    either (λ (x : Side × Side). IsWritten s x.0 [] []) (is_frame bs) (s, peer) _ (same_left h refl)
      (same_left h refl)

ends_receive-IsWritten :
    (r : Receiving) (s : Side) → IsSerial s → IsWritten s (end_receive r s) [] []
ends_receive-IsWritten not_receiving s h = same_left h refl
ends_receive-IsWritten wants_to_receive s h = same_left h refl
ends_receive-IsWritten (has_read bs) s h =
    either (λ (t : Side). IsWritten s t [] []) (is_frame bs) _ s (same_left h refl)
      (same_left h refl)

breaks_receive-IsWritten :
    (r : Receiving) (s : Side) → IsSerial s → IsWritten s (break_receive r s) [] []
breaks_receive-IsWritten not_receiving s h = same_left h refl
breaks_receive-IsWritten wants_to_receive s h = same_left h refl
breaks_receive-IsWritten (has_read bs) s h = same_left h refl

-- Each step of a side.
pub act-IsWritten :
    (capacity : ℕ) (a : Act) (s peer : Side)
    → IsSerial s
    → IsWritten s (act capacity a s peer).0 (begun_by a s) (put_by capacity a s)
unfolding act
act-IsWritten capacity (asks_send f) s peer =
    asks_send-IsWritten f s.sending s.closing s.receiving s.locked s.closed s.unread
act-IsWritten capacity locks_send s peer =
    locks_send-IsWritten s.sending s.closing s.receiving s.locked s.closed s.unread
act-IsWritten capacity (goes_on_writing n) s peer =
    goes_on_writing-IsWritten capacity n s.sending s.closing s.receiving s.locked s.closed s.unread
act-IsWritten capacity ends_send s peer =
    ends_send-IsWritten s.sending s.closing s.receiving s.locked s.closed s.unread
act-IsWritten capacity breaks_send s peer =
    breaks_send-IsWritten s.sending s.closing s.receiving s.locked s.closed s.unread
act-IsWritten capacity (asks_close k m) s peer =
    asks_close-IsWritten k m s.sending s.closing s.receiving s.locked s.closed s.unread
act-IsWritten capacity locks_close s peer =
    locks_close-IsWritten s.sending s.closing s.receiving s.locked s.closed s.unread
act-IsWritten capacity (goes_on_closing n) s peer =
    goes_on_closing-IsWritten capacity n s.sending s.closing s.receiving s.locked s.closed s.unread
act-IsWritten capacity ends_close s peer =
    ends_close-IsWritten s.sending s.closing s.receiving s.locked s.closed s.unread
act-IsWritten capacity breaks_close s peer =
    breaks_close-IsWritten s.sending s.closing s.receiving s.locked s.closed s.unread
act-IsWritten capacity asks_receive s peer = asks_receive-IsWritten s.receiving s
act-IsWritten capacity locks_receive s peer = locks_receive-IsWritten s.receiving s
act-IsWritten capacity goes_on_reading s peer = goes_on_reading-IsWritten s.receiving s peer
act-IsWritten capacity ends_receive s peer = ends_receive-IsWritten s.receiving s
act-IsWritten capacity breaks_receive s peer = breaks_receive-IsWritten s.receiving s

-- A step of the peer at most takes bytes from the stream.
reading_leaves :
    (r : Receiving) (s peer : Side)
    → IsSerial peer
    → IsWritten peer (go_on_reading r s peer).1 [] []
reading_leaves not_receiving s peer h = same_left h refl
reading_leaves wants_to_receive s peer h = same_left h refl
reading_leaves (has_read bs) s peer h =
    either (λ (x : Side × Side). IsWritten peer x.1 [] []) (is_frame bs) (s, peer) _
      (same_left h refl) (same_left h refl)

pub peer_leaves :
    (capacity : ℕ) (a : Act) (s peer : Side)
    → IsSerial peer
    → IsWritten peer (act capacity a s peer).1 [] []
unfolding act
peer_leaves capacity goes_on_reading s peer h = reading_leaves s.receiving s peer h
peer_leaves capacity a s peer h = same_left h refl

-- A closed side has nothing left to write.
closed_left :
    (x : Sending) (c : Closing) (l k : Bool) → IsHeldOnce x c l k → k ≡ true → left_of x c ≡ []
closed_left (writes bs e) (writes_close cs f) l k h shut = absurd h
closed_left (writes bs e) not_closing l k (held, opened) shut = absurd cc
closed_left (writes bs e) (wants_to_close code message) l k (held, opened) shut = absurd cc
closed_left not_sending (writes_close cs f) l k (held, opened) shut = absurd cc
closed_left (wants_to_send f) (writes_close cs g) l k (held, opened) shut = absurd cc
closed_left not_sending not_closing l k h shut = refl
closed_left not_sending (wants_to_close code message) l k h shut = refl
closed_left (wants_to_send f) not_closing l k h shut = refl
closed_left (wants_to_send f) (wants_to_close code message) l k h shut = refl

all_bytes-append : (fs gs : List Frame) → all_bytes (fs ++ gs) ≡ all_bytes fs ++ all_bytes gs
all_bytes-append [] gs = refl
all_bytes-append (f ∷ fs) gs =
    ap (λ (bs : Bytes). bytes_of f ++ bs) (all_bytes-append fs gs)
    ∙ sym (append_assoc (bytes_of f) (all_bytes fs) (all_bytes gs))

-- Steps that follow each other.
module _ (s t u : Side) (b c : List Frame) (p q : Bytes) (x : IsWritten s t b p)
    (y : IsWritten t u c q) where
  shut_behind : s.closed ≡ true → (u.closed ≡ true) × (b ++ c ≡ []) × (p ++ q ≡ [])
  shut_behind h =
      let (ht, eb, ep) = x.shut h in
      let (hu, ec, eq) = y.shut ht in (hu, rw (eb, ec) refl, rw (ep, eq) refl)

  went_on : x.lost ≡ [] → IsWritten s u (b ++ c) (p ++ q)
  went_on none_lost = record {
    lost = y.lost;
    serial = y.serial;
    balance =
        ap (λ (bs : Bytes). left s ++ bs) (all_bytes-append b c)
        ∙ sym (append_assoc (left s) (all_bytes b) (all_bytes c))
        ∙ ap (λ (bs : Bytes). bs ++ all_bytes c)
            (x.balance
              ∙ ap (λ (bs : Bytes). p ++ (left t ++ bs)) none_lost
              ∙ ap (λ (bs : Bytes). p ++ bs) (append-nil (left t)))
        ∙ append_assoc p (left t) (all_bytes c)
        ∙ ap (λ (bs : Bytes). p ++ bs) y.balance
        ∙ sym (append_assoc p q (left u ++ y.lost));
    broken = y.broken;
    shut = shut_behind;
  }

  ended : t.closed ≡ true → IsWritten s u (b ++ c) (p ++ q)
  ended h =
      let (hu, ec, eq) = y.shut h in
      let nothing_then = closed_left t.sending t.closing t.locked t.closed x.serial h in
      let nothing_now = closed_left u.sending u.closing u.locked u.closed y.serial hu in
      record {
        lost = x.lost;
        serial = y.serial;
        balance =
            ap (λ (fs : List Frame). left s ++ all_bytes (b ++ fs)) ec
            ∙ ap (λ (fs : List Frame). left s ++ all_bytes fs) (append-nil b)
            ∙ x.balance
            ∙ ap (λ (bs : Bytes). p ++ (bs ++ x.lost)) (nothing_then ∙ sym nothing_now)
            ∙ ap (λ (bs : Bytes). bs ++ (left u ++ x.lost))
                (sym (append-nil p) ∙ ap (λ (bs : Bytes). p ++ bs) (sym eq));
        broken = inr hu;
        shut = shut_behind;
      }

  IsWritten-then : IsWritten s u (b ++ c) (p ++ q)
  IsWritten-then = elim x.broken [ inl none_lost ↦ went_on none_lost | inr shut ↦ ended shut ]

-- The frames that the west begins to write in a run, in the order in which its calls got the mutex,
-- and the bytes that it puts on its stream.
unfoldable pub begun_in : ℕ → List Turn → Side × Side → List Frame
begun_in capacity [] x = []
begun_in capacity (west_acts a ∷ ts) (w, e) =
    begun_by a w ++ begun_in capacity ts (take_turn capacity (west_acts a) (w, e))
begun_in capacity (east_acts a ∷ ts) x = begun_in capacity ts (take_turn capacity (east_acts a) x)

unfoldable pub put_in : ℕ → List Turn → Side × Side → Bytes
put_in capacity [] x = []
put_in capacity (west_acts a ∷ ts) (w, e) =
    put_by capacity a w ++ put_in capacity ts (take_turn capacity (west_acts a) (w, e))
put_in capacity (east_acts a ∷ ts) x = put_in capacity ts (take_turn capacity (east_acts a) x)

-- A run, from a side that is as a step leaves it.
pub take_turns-IsWritten :
    (capacity : ℕ) (ts : List Turn) (w e : Side)
    → IsSerial w
    → IsWritten w
        (take_turns capacity ts (w, e)).0
        (begun_in capacity ts (w, e))
        (put_in capacity ts (w, e))
unfolding take_turns take_turn begun_in put_in
take_turns-IsWritten capacity [] w e h = same_left h refl
take_turns-IsWritten capacity (west_acts a ∷ ts) w e h =
    let next = act capacity a w e in
    let x = act-IsWritten capacity a w e h in
    IsWritten-then w next.0 (take_turns capacity ts next).0 (begun_by a w)
      (begun_in capacity ts next) (put_by capacity a w) (put_in capacity ts next) x
      (take_turns-IsWritten capacity ts next.0 next.1 x.serial)
take_turns-IsWritten capacity (east_acts a ∷ ts) w e h =
    let next = act capacity a e w in
    let x = peer_leaves capacity a e w h in
    IsWritten-then w next.1 (take_turns capacity ts (next.1, next.0)).0 []
      (begun_in capacity ts (next.1, next.0)) [] (put_in capacity ts (next.1, next.0)) x
      (take_turns-IsWritten capacity ts next.1 next.0 x.serial)
