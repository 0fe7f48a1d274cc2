-- ===== src/Transport/Locked/Matching.antt =====
-- The steps of `SendFrame` and `Close` (internal/transport/grpc/wrapper.go), each against the call that
-- is made in one step.
use unverified.Common.{ℕ, Bool, true, false, [], ◌∷◌, ◌++◌}
use unverified.Common.Words.{Bytes}
use unverified.TunnelPb.{Frame}
use unverified.Transport.{Tunnel, send, shut, run}
use unverified.Transport.Locked.{
  Sending, not_sending, wants_to_send, writes, Closing, not_closing, wants_to_close, writes_close,
  Receiving, ask_send, lock_send, go_on_writing, end_send, ask_close, lock_close, go_on_closing,
  end_close, moved,
}
use unverified.Transport.Locked.Serial.{IsHeldOnce, put_send, put_close, side}
use unverified.Transport.Locked.Atomic.{
  MatchesSide, called_send, called_close, keeps, moves_on, sends_at_once, closes_at_once,
  refused_at_once,
}

pub asks_send-Matches :
    (f : Frame) (x : Sending) (c : Closing) (r : Receiving) (locked closed : Bool)
    (unread done : Bytes) (t : Tunnel)
    → IsHeldOnce x c locked closed
    → (let s = side x c r locked closed unread in
        MatchesSide done s t → MatchesSide (done ++ []) (ask_send f x s) (run [] t))
unfolding run
asks_send-Matches k not_sending not_closing r locked closed unread done t h m = keeps m
asks_send-Matches k not_sending (wants_to_close code message) r locked closed unread done t h m =
    keeps m
asks_send-Matches k not_sending (writes_close cs g) r locked closed unread done t h m = keeps m
asks_send-Matches k (wants_to_send f) c r locked closed unread done t h m = keeps m
asks_send-Matches k (writes bs e) c r locked closed unread done t h m = keeps m

pub locks_send-Matches :
    (x : Sending) (c : Closing) (r : Receiving) (locked closed : Bool) (unread done : Bytes)
    (t : Tunnel)
    → IsHeldOnce x c locked closed
    → (let s = side x c r locked closed unread in
        MatchesSide done s t
        → MatchesSide (done ++ []) (lock_send x s) (run (called_send x locked) t))
unfolding run
locks_send-Matches not_sending c r locked closed unread done t h m = keeps m
locks_send-Matches (writes bs e) c r locked closed unread done t h m = keeps m
locks_send-Matches (wants_to_send f) c r true closed unread done t h m = keeps m
locks_send-Matches (wants_to_send f) not_closing r false true unread done t h m =
    refused_at_once (send f) m
locks_send-Matches (wants_to_send f) (wants_to_close code message) r false true unread done t h m =
    refused_at_once (send f) m
locks_send-Matches (wants_to_send f) (writes_close cs g) r false closed unread done t (held, opened)
      m =
    absurd cc
locks_send-Matches (wants_to_send f) not_closing r false false unread done t h m = sends_at_once f m
locks_send-Matches (wants_to_send f) (wants_to_close code message) r false false unread done t h m =
    sends_at_once f m

pub goes_on_writing-Matches :
    (capacity n : ℕ) (x : Sending) (c : Closing) (r : Receiving) (locked closed : Bool)
    (unread done : Bytes) (t : Tunnel)
    → IsHeldOnce x c locked closed
    → (let s = side x c r locked closed unread in
        MatchesSide done s t
        → MatchesSide
            (done ++ put_send capacity n x unread)
            (go_on_writing capacity n x s)
            (run [] t))
unfolding run
goes_on_writing-Matches capacity n not_sending c r locked closed unread done t h m = keeps m
goes_on_writing-Matches capacity n (wants_to_send f) c r locked closed unread done t h m = keeps m
goes_on_writing-Matches capacity n (writes bs e) c r locked closed unread done t h m =
    moves_on (moved capacity n bs unread) bs m

pub ends_send-Matches :
    (x : Sending) (c : Closing) (r : Receiving) (locked closed : Bool) (unread done : Bytes)
    (t : Tunnel)
    → IsHeldOnce x c locked closed
    → (let s = side x c r locked closed unread in
        MatchesSide done s t → MatchesSide (done ++ []) (end_send x s) (run [] t))
unfolding run
ends_send-Matches not_sending c r locked closed unread done t h m = keeps m
ends_send-Matches (wants_to_send f) c r locked closed unread done t h m = keeps m
ends_send-Matches (writes (b ∷ bs) e) c r locked closed unread done t h m = keeps m
ends_send-Matches (writes [] e) not_closing r locked false unread done t h m = keeps m
ends_send-Matches (writes [] e) (wants_to_close code message) r locked false unread done t h m =
    keeps m
ends_send-Matches (writes [] e) not_closing r locked true unread done t h m = absurd cc
ends_send-Matches (writes [] e) (wants_to_close code message) r locked true unread done t h m =
    absurd cc
ends_send-Matches (writes [] e) (writes_close cs g) r locked closed unread done t h m = absurd h

pub asks_close-Matches :
    (k : ℕ) (text : Bytes) (x : Sending) (c : Closing) (r : Receiving) (locked closed : Bool)
    (unread done : Bytes) (t : Tunnel)
    → IsHeldOnce x c locked closed
    → (let s = side x c r locked closed unread in
        MatchesSide done s t → MatchesSide (done ++ []) (ask_close k text c s) (run [] t))
unfolding run
asks_close-Matches k text not_sending not_closing r locked closed unread done t h m = keeps m
asks_close-Matches k text (wants_to_send f) not_closing r locked closed unread done t h m = keeps m
asks_close-Matches k text (writes bs e) not_closing r locked closed unread done t h m = keeps m
asks_close-Matches k text x (wants_to_close code message) r locked closed unread done t h m =
    keeps m
asks_close-Matches k text x (writes_close cs g) r locked closed unread done t h m = keeps m

pub locks_close-Matches :
    (x : Sending) (c : Closing) (r : Receiving) (locked closed : Bool) (unread done : Bytes)
    (t : Tunnel)
    → IsHeldOnce x c locked closed
    → (let s = side x c r locked closed unread in
        MatchesSide done s t
        → MatchesSide (done ++ []) (lock_close c s) (run (called_close c locked) t))
unfolding run
locks_close-Matches x not_closing r locked closed unread done t h m = keeps m
locks_close-Matches x (writes_close cs g) r locked closed unread done t h m = keeps m
locks_close-Matches x (wants_to_close code message) r true closed unread done t h m = keeps m
locks_close-Matches not_sending (wants_to_close code message) r false true unread done t h m =
    refused_at_once (shut code message) m
locks_close-Matches (wants_to_send f) (wants_to_close code message) r false true unread done t h m =
    refused_at_once (shut code message) m
locks_close-Matches not_sending (wants_to_close code message) r false false unread done t h m =
    closes_at_once code message m
locks_close-Matches (wants_to_send f) (wants_to_close code message) r false false unread done t h
      m =
    closes_at_once code message m
locks_close-Matches (writes bs e) (wants_to_close code message) r false closed unread done t
      (held, opened) m =
    absurd cc

pub goes_on_closing-Matches :
    (capacity n : ℕ) (x : Sending) (c : Closing) (r : Receiving) (locked closed : Bool)
    (unread done : Bytes) (t : Tunnel)
    → IsHeldOnce x c locked closed
    → (let s = side x c r locked closed unread in
        MatchesSide done s t
        → MatchesSide
            (done ++ put_close capacity n c unread)
            (go_on_closing capacity n c s)
            (run [] t))
unfolding run
goes_on_closing-Matches capacity n x not_closing r locked closed unread done t h m = keeps m
goes_on_closing-Matches capacity n x (wants_to_close code message) r locked closed unread done t h
      m =
    keeps m
goes_on_closing-Matches capacity n not_sending (writes_close bs e) r locked closed unread done t h
      m =
    moves_on (moved capacity n bs unread) bs m
goes_on_closing-Matches capacity n (wants_to_send f) (writes_close bs e) r locked closed unread done
      t h m =
    moves_on (moved capacity n bs unread) bs m
goes_on_closing-Matches capacity n (writes cs g) (writes_close bs e) r locked closed unread done t h
      m =
    absurd h

pub ends_close-Matches :
    (x : Sending) (c : Closing) (r : Receiving) (locked closed : Bool) (unread done : Bytes)
    (t : Tunnel)
    → IsHeldOnce x c locked closed
    → (let s = side x c r locked closed unread in
        MatchesSide done s t → MatchesSide (done ++ []) (end_close c s) (run [] t))
unfolding run
ends_close-Matches x not_closing r locked closed unread done t h m = keeps m
ends_close-Matches x (wants_to_close code message) r locked closed unread done t h m = keeps m
ends_close-Matches x (writes_close (b ∷ bs) e) r locked closed unread done t h m = keeps m
ends_close-Matches not_sending (writes_close [] e) r locked closed unread done t h m = keeps m
ends_close-Matches (wants_to_send f) (writes_close [] e) r locked closed unread done t h m = keeps m
ends_close-Matches (writes cs g) (writes_close [] e) r locked closed unread done t h m = absurd h
