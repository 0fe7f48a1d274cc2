-- ===== src/Transport/Locked/Flow.antt =====
-- What a step of the calls of internal/transport/grpc/wrapper.go puts on the stream of an end, and what
-- it takes from that of the other.
use unverified.Common.{
  ◌≡◌, refl, ap, sym, ◌∙◌, ℕ, [], ◌∷◌, ◌++◌, append-nil, length, take, drop, take-append-drop,
  either,
}
use unverified.Common.Words.{Bytes}
use unverified.Transport.Locked.{
  Sending, not_sending, wants_to_send, writes, Closing, not_closing, wants_to_close, writes_close,
  Receiving, not_receiving, wants_to_receive, has_read, Side, Act, asks_send, locks_send,
  goes_on_writing, ends_send, breaks_send, asks_close, locks_close, goes_on_closing, ends_close,
  breaks_close, asks_receive, locks_receive, goes_on_reading, ends_receive, breaks_receive, act,
  ask_send, lock_send, go_on_writing, end_send, break_send, ask_close, lock_close, go_on_closing,
  end_close, break_close, ask_receive, lock_receive, go_on_reading, end_receive, break_receive,
  is_frame,
}
use unverified.TunnelPb.{Frame}
use unverified.Transport.Locked.Serial.{put_send, put_close, put_by}

-- The bytes that a `RecvFrame` has read in a step, by what it had read before and has read behind it.
abbrev pub grown : Receiving → Receiving → Bytes
grown (has_read old) (has_read new) = drop (length old) new
grown r q = []

drop_read : (bs more : Bytes) → drop (length bs) (bs ++ more) ≡ more
drop_read [] more = refl
drop_read (b ∷ bs) more = drop_read bs more

grown_same : (r : Receiving) → grown r r ≡ []
grown_same not_receiving = refl
grown_same wants_to_receive = refl
grown_same (has_read bs) = ap (drop (length bs)) (sym (append-nil bs)) ∙ drop_read bs []

-- A step that writes nothing and reads nothing.
abbrev IsStill : Side → Side → Type 0
IsStill s t = (t.unread ≡ s.unread) × (grown s.receiving t.receiving ≡ [])

unmoved : (s : Side) → IsStill s s
unmoved s = (refl, grown_same s.receiving)

module _ (s : Side) where
  ask_send-IsStill : (k : Frame) (x : Sending) → IsStill s (ask_send k x s)
  ask_send-IsStill k not_sending = unmoved s
  ask_send-IsStill k x = unmoved s

  lock_send-IsStill : (x : Sending) → IsStill s (lock_send x s)
  lock_send-IsStill (wants_to_send f) =
      either (IsStill s) s.locked _ _ (unmoved s)
        (either (IsStill s) s.closed _ _ (unmoved s) (unmoved s))
  lock_send-IsStill x = unmoved s

  end_send-IsStill : (x : Sending) → IsStill s (end_send x s)
  end_send-IsStill (writes [] e) = unmoved s
  end_send-IsStill x = unmoved s

  break_send-IsStill : (x : Sending) → IsStill s (break_send x s)
  break_send-IsStill (writes (b ∷ bs) e) = unmoved s
  break_send-IsStill x = unmoved s

  ask_close-IsStill : (k : ℕ) (m : Bytes) (c : Closing) → IsStill s (ask_close k m c s)
  ask_close-IsStill k m not_closing = unmoved s
  ask_close-IsStill k m c = unmoved s

  lock_close-IsStill : (c : Closing) → IsStill s (lock_close c s)
  lock_close-IsStill (wants_to_close k m) =
      either (IsStill s) s.locked _ _ (unmoved s)
        (either (IsStill s) s.closed _ _ (unmoved s) (unmoved s))
  lock_close-IsStill c = unmoved s

  end_close-IsStill : (c : Closing) → IsStill s (end_close c s)
  end_close-IsStill (writes_close [] e) = unmoved s
  end_close-IsStill c = unmoved s

  break_close-IsStill : (c : Closing) → IsStill s (break_close c s)
  break_close-IsStill (writes_close (b ∷ bs) e) = unmoved s
  break_close-IsStill c = unmoved s

-- A side whose `RecvFrame` is there.
abbrev at : Receiving → Side → Side
at r s = record s { receiving = r }

module _ (s : Side) where
  ask_receive-IsStill : (r : Receiving) → IsStill (at r s) (ask_receive r (at r s))
  ask_receive-IsStill not_receiving = (refl, refl)
  ask_receive-IsStill r = unmoved (at r s)

  lock_receive-IsStill : (r : Receiving) → IsStill (at r s) (lock_receive r (at r s))
  lock_receive-IsStill wants_to_receive =
      either (IsStill (at wants_to_receive s)) s.locked _ _ (refl, refl)
        (either (IsStill (at wants_to_receive s)) s.closed _ _ (refl, refl) (refl, refl))
  lock_receive-IsStill r = unmoved (at r s)

  end_receive-IsStill : (r : Receiving) → IsStill (at r s) (end_receive r (at r s))
  end_receive-IsStill (has_read bs) =
      either (IsStill (at (has_read bs) s)) (is_frame bs) _ _ (refl, refl)
        (unmoved (at (has_read bs) s))
  end_receive-IsStill r = unmoved (at r s)

  break_receive-IsStill : (r : Receiving) → IsStill (at r s) (break_receive r (at r s))
  break_receive-IsStill (has_read bs) = (refl, refl)
  break_receive-IsStill r = unmoved (at r s)

-- What a reader takes from the stream is what it has read.
abbrev pub Takes : Side → Side → Side × Side → Type 0
Takes s peer x = (peer.unread ≡ grown s.receiving x.0.receiving ++ x.1.unread)

go_on_reading-Takes :
    (r : Receiving) (s peer : Side) → Takes (at r s) peer (go_on_reading r (at r s) peer)
go_on_reading-Takes (has_read bs) s peer =
    either (Takes (at (has_read bs) s) peer) (is_frame bs) _ _
      (sym (ap (λ (cs : Bytes). cs ++ peer.unread) (grown_same (has_read bs))))
      (sym (
        ap (λ (cs : Bytes). cs ++ drop 1 peer.unread) (drop_read bs (take 1 peer.unread))
        ∙ take-append-drop 1 peer.unread))
go_on_reading-Takes not_receiving s peer = refl
go_on_reading-Takes wants_to_receive s peer = refl

nothing_read : {got : Bytes} (bs : Bytes) → got ≡ [] → bs ≡ got ++ bs
nothing_read bs h = sym (ap (λ (cs : Bytes). cs ++ bs) h)

nothing_put : {before after : Bytes} → after ≡ before → before ++ [] ≡ after
nothing_put {before} h = append-nil before ∙ sym h

go_on_writing-reads :
    (capacity n : ℕ) (x : Sending) (s : Side)
    → (go_on_writing capacity n x s).receiving ≡ s.receiving
go_on_writing-reads capacity n (writes bs e) s = refl
go_on_writing-reads capacity n x s = refl

go_on_closing-reads :
    (capacity n : ℕ) (c : Closing) (s : Side)
    → (go_on_closing capacity n c s).receiving ≡ s.receiving
go_on_closing-reads capacity n (writes_close bs e) s = refl
go_on_closing-reads capacity n c s = refl

reads_same : (r q : Receiving) → q ≡ r → grown r q ≡ []
reads_same r q h = ap (grown r) h ∙ grown_same r

-- Each step of the peer.
pub act-Takes : (capacity : ℕ) (a : Act) (s peer : Side) → Takes s peer (act capacity a s peer)
unfolding act
act-Takes capacity (asks_send f) s peer =
    nothing_read peer.unread (ask_send-IsStill s f s.sending).1
act-Takes capacity locks_send s peer = nothing_read peer.unread (lock_send-IsStill s s.sending).1
act-Takes capacity (goes_on_writing n) s peer =
    nothing_read peer.unread (reads_same s.receiving _ (go_on_writing-reads capacity n s.sending s))
act-Takes capacity ends_send s peer = nothing_read peer.unread (end_send-IsStill s s.sending).1
act-Takes capacity breaks_send s peer = nothing_read peer.unread (break_send-IsStill s s.sending).1
act-Takes capacity (asks_close k m) s peer =
    nothing_read peer.unread (ask_close-IsStill s k m s.closing).1
act-Takes capacity locks_close s peer = nothing_read peer.unread (lock_close-IsStill s s.closing).1
act-Takes capacity (goes_on_closing n) s peer =
    nothing_read peer.unread (reads_same s.receiving _ (go_on_closing-reads capacity n s.closing s))
act-Takes capacity ends_close s peer = nothing_read peer.unread (end_close-IsStill s s.closing).1
act-Takes capacity breaks_close s peer =
    nothing_read peer.unread (break_close-IsStill s s.closing).1
act-Takes capacity asks_receive s peer =
    nothing_read peer.unread (ask_receive-IsStill s s.receiving).1
act-Takes capacity locks_receive s peer =
    nothing_read peer.unread (lock_receive-IsStill s s.receiving).1
act-Takes capacity goes_on_reading s peer = go_on_reading-Takes s.receiving s peer
act-Takes capacity ends_receive s peer =
    nothing_read peer.unread (end_receive-IsStill s s.receiving).1
act-Takes capacity breaks_receive s peer =
    nothing_read peer.unread (break_receive-IsStill s s.receiving).1

-- What an end has put on its stream in a step is behind what was there, and the peer reads nothing.
abbrev pub Puts : Bytes → Side → Side → Side × Side → Type 0
Puts put s peer x = (s.unread ++ put ≡ x.0.unread) × (grown peer.receiving x.1.receiving ≡ [])

go_on_writing-Puts :
    (capacity n : ℕ) (x : Sending) (s peer : Side)
    → Puts (put_send capacity n x s.unread) s peer (go_on_writing capacity n x s, peer)
go_on_writing-Puts capacity n (writes bs e) s peer = (refl, grown_same peer.receiving)
go_on_writing-Puts capacity n x s peer = (nothing_put refl, grown_same peer.receiving)

go_on_closing-Puts :
    (capacity n : ℕ) (c : Closing) (s peer : Side)
    → Puts (put_close capacity n c s.unread) s peer (go_on_closing capacity n c s, peer)
go_on_closing-Puts capacity n (writes_close bs e) s peer = (refl, grown_same peer.receiving)
go_on_closing-Puts capacity n c s peer = (nothing_put refl, grown_same peer.receiving)

go_on_reading-Puts : (r : Receiving) (s peer : Side) → Puts [] s peer (go_on_reading r s peer)
go_on_reading-Puts (has_read bs) s peer =
    either (Puts [] s peer) (is_frame bs) _ _ ((nothing_put refl, grown_same peer.receiving))
      ((nothing_put refl, grown_same peer.receiving))
go_on_reading-Puts r s peer = (nothing_put refl, grown_same peer.receiving)

-- Each step of the end.
pub act-Puts :
    (capacity : ℕ) (a : Act) (s peer : Side)
    → Puts (put_by capacity a s) s peer (act capacity a s peer)
unfolding act
act-Puts capacity (asks_send f) s peer =
    (nothing_put (ask_send-IsStill s f s.sending).0, grown_same peer.receiving)
act-Puts capacity locks_send s peer =
    (nothing_put (lock_send-IsStill s s.sending).0, grown_same peer.receiving)
act-Puts capacity (goes_on_writing n) s peer = go_on_writing-Puts capacity n s.sending s peer
act-Puts capacity ends_send s peer =
    (nothing_put (end_send-IsStill s s.sending).0, grown_same peer.receiving)
act-Puts capacity breaks_send s peer =
    (nothing_put (break_send-IsStill s s.sending).0, grown_same peer.receiving)
act-Puts capacity (asks_close k m) s peer =
    (nothing_put (ask_close-IsStill s k m s.closing).0, grown_same peer.receiving)
act-Puts capacity locks_close s peer =
    (nothing_put (lock_close-IsStill s s.closing).0, grown_same peer.receiving)
act-Puts capacity (goes_on_closing n) s peer = go_on_closing-Puts capacity n s.closing s peer
act-Puts capacity ends_close s peer =
    (nothing_put (end_close-IsStill s s.closing).0, grown_same peer.receiving)
act-Puts capacity breaks_close s peer =
    (nothing_put (break_close-IsStill s s.closing).0, grown_same peer.receiving)
act-Puts capacity asks_receive s peer =
    (nothing_put (ask_receive-IsStill s s.receiving).0, grown_same peer.receiving)
act-Puts capacity locks_receive s peer =
    (nothing_put (lock_receive-IsStill s s.receiving).0, grown_same peer.receiving)
act-Puts capacity goes_on_reading s peer = go_on_reading-Puts s.receiving s peer
act-Puts capacity ends_receive s peer =
    (nothing_put (end_receive-IsStill s s.receiving).0, grown_same peer.receiving)
act-Puts capacity breaks_receive s peer =
    (nothing_put (break_receive-IsStill s s.receiving).0, grown_same peer.receiving)
