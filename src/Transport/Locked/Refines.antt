-- ===== src/Transport/Locked/Refines.antt =====
-- Runs of the calls of internal/transport/grpc/wrapper.go in their steps, against the calls made one after
-- the other in the order in which they get the mutex.
use unverified.Common.{◌≡◌, refl, sym, ℕ, false, List, [], ◌∷◌, ◌++◌, append_assoc, All, either}
use mathlib.Core.Path.{subst}
use unverified.Common.Words.{Bytes}
use unverified.Stream.{Reader, reliable}
use unverified.Transport.{Tunnel, Call, run, wrap_stream}
use unverified.Transport.Interleaved.{run-append}
use unverified.Transport.Locked.{
  Closing, not_closing, wants_to_close, writes_close, Receiving, not_receiving, wants_to_receive,
  has_read, Side, Act, asks_send, locks_send, goes_on_writing, ends_send, breaks_send, asks_close,
  locks_close, goes_on_closing, ends_close, breaks_close, asks_receive, locks_receive,
  goes_on_reading, ends_receive, breaks_receive, act, ask_receive, lock_receive, go_on_reading,
  end_receive, break_receive, is_frame, Turn, west_acts, east_acts, take_turn, take_turns,
}
use unverified.Transport.Locked.Blocked.{HasNoClose}
use unverified.Transport.Locked.Serial.{IsSerial, put_by}
use unverified.Transport.Locked.Deadlock.{IsFree, free, free_side}
use unverified.Transport.Locked.Whole.{act-IsWritten, peer_leaves, put_in}
use unverified.Transport.Locked.Streams.{IsOnStream, take_turns-carries}
use unverified.Transport.Locked.Atomic.{MatchesSide, called_by, IsWhole, keeps}
use unverified.Transport.Locked.Matching.{
  asks_send-Matches, locks_send-Matches, goes_on_writing-Matches, ends_send-Matches,
  asks_close-Matches, locks_close-Matches, goes_on_closing-Matches, ends_close-Matches,
}

-- `RecvFrame` leaves what is sent alone.
asks_receive-Matches :
    (r : Receiving) (s : Side) (done : Bytes) (t : Tunnel)
    → MatchesSide done s t
    → MatchesSide done (ask_receive r s) t
asks_receive-Matches not_receiving s done t m = m
asks_receive-Matches wants_to_receive s done t m = m
asks_receive-Matches (has_read bs) s done t m = m

locks_receive-Matches :
    (r : Receiving) (s : Side) (done : Bytes) (t : Tunnel)
    → MatchesSide done s t
    → MatchesSide done (lock_receive r s) t
locks_receive-Matches not_receiving s done t m = m
locks_receive-Matches (has_read bs) s done t m = m
locks_receive-Matches wants_to_receive s done t m =
    either (λ (v : Side). MatchesSide done v t) s.locked s _ m
      (either (λ (v : Side). MatchesSide done v t) s.closed _ _ m m)

goes_on_reading-Matches :
    (r : Receiving) (s peer : Side) (done : Bytes) (t : Tunnel)
    → MatchesSide done s t
    → MatchesSide done (go_on_reading r s peer).0 t
goes_on_reading-Matches not_receiving s peer done t m = m
goes_on_reading-Matches wants_to_receive s peer done t m = m
goes_on_reading-Matches (has_read bs) s peer done t m =
    either (λ (x : Side × Side). MatchesSide done x.0 t) (is_frame bs) (s, peer) _ m m

peer_reads-Matches :
    (r : Receiving) (s peer : Side) (done : Bytes) (t : Tunnel)
    → MatchesSide done peer t
    → MatchesSide done (go_on_reading r s peer).1 t
peer_reads-Matches not_receiving s peer done t m = m
peer_reads-Matches wants_to_receive s peer done t m = m
peer_reads-Matches (has_read bs) s peer done t m =
    either (λ (x : Side × Side). MatchesSide done x.1 t) (is_frame bs) (s, peer) _ m m

ends_receive-Matches :
    (r : Receiving) (s : Side) (done : Bytes) (t : Tunnel)
    → MatchesSide done s t
    → MatchesSide done (end_receive r s) t
ends_receive-Matches not_receiving s done t m = m
ends_receive-Matches wants_to_receive s done t m = m
ends_receive-Matches (has_read bs) s done t m =
    either (λ (v : Side). MatchesSide done v t) (is_frame bs) _ s m m

breaks_receive-Matches :
    (r : Receiving) (s : Side) (done : Bytes) (t : Tunnel)
    → MatchesSide done s t
    → MatchesSide done (break_receive r s) t
breaks_receive-Matches not_receiving s done t m = m
breaks_receive-Matches wants_to_receive s done t m = m
breaks_receive-Matches (has_read bs) s done t m = m

-- Each step of a side, and what it is for the tunnel whose calls are made in one step.
module _ (capacity : ℕ) (s peer : Side) (done : Bytes) (t : Tunnel) (h : IsSerial s)
    (m : MatchesSide done s t) where
  act-Matches :
      (a : Act)
      → IsWhole a
      → MatchesSide (done ++ put_by capacity a s) (act capacity a s peer).0 (run (called_by a s) t)
  unfolding act run
  act-Matches (asks_send f) w =
      asks_send-Matches f s.sending s.closing s.receiving s.locked s.closed s.unread done t h m
  act-Matches locks_send w =
      locks_send-Matches s.sending s.closing s.receiving s.locked s.closed s.unread done t h m
  act-Matches (goes_on_writing n) w =
      goes_on_writing-Matches capacity n s.sending s.closing s.receiving s.locked s.closed s.unread
        done t h m
  act-Matches ends_send w =
      ends_send-Matches s.sending s.closing s.receiving s.locked s.closed s.unread done t h m
  act-Matches breaks_send w = absurd w
  act-Matches (asks_close code message) w =
      asks_close-Matches code message s.sending s.closing s.receiving s.locked s.closed s.unread
        done t h m
  act-Matches locks_close w =
      locks_close-Matches s.sending s.closing s.receiving s.locked s.closed s.unread done t h m
  act-Matches (goes_on_closing n) w =
      goes_on_closing-Matches capacity n s.sending s.closing s.receiving s.locked s.closed s.unread
        done t h m
  act-Matches ends_close w =
      ends_close-Matches s.sending s.closing s.receiving s.locked s.closed s.unread done t h m
  act-Matches breaks_close w = absurd w
  act-Matches asks_receive w = keeps (asks_receive-Matches s.receiving s done t m)
  act-Matches locks_receive w = keeps (locks_receive-Matches s.receiving s done t m)
  act-Matches goes_on_reading w = keeps (goes_on_reading-Matches s.receiving s peer done t m)
  act-Matches ends_receive w = keeps (ends_receive-Matches s.receiving s done t m)
  act-Matches breaks_receive w = keeps (breaks_receive-Matches s.receiving s done t m)

-- A step of the peer.
peer-Matches :
    (capacity : ℕ) (a : Act) (s peer : Side) (done : Bytes) (t : Tunnel)
    → MatchesSide done peer t
    → MatchesSide done (act capacity a s peer).1 t
unfolding act
peer-Matches capacity goes_on_reading s peer done t m =
    peer_reads-Matches s.receiving s peer done t m
peer-Matches capacity a s peer done t m = m

abbrev pub IsWholeTurn : Turn → Type 0
IsWholeTurn (west_acts a) = IsWhole a
IsWholeTurn (east_acts a) = Unit {0}

-- The calls of the west in a run, in the order in which they get the mutex.
unfoldable pub called_in : ℕ → List Turn → Side × Side → List Call
called_in capacity [] x = []
called_in capacity (west_acts a ∷ ts) (w, e) =
    called_by a w ++ called_in capacity ts (take_turn capacity (west_acts a) (w, e))
called_in capacity (east_acts a ∷ ts) x = called_in capacity ts (take_turn capacity (east_acts a) x)

take_turns-Matches :
    (capacity : ℕ) (ts : List Turn) (w e : Side) (done : Bytes) (t : Tunnel)
    → All IsWholeTurn ts
    → IsSerial w
    → MatchesSide done w t
    → MatchesSide
        (done ++ put_in capacity ts (w, e))
        (take_turns capacity ts (w, e)).0
        (run (called_in capacity ts (w, e)) t)
unfolding take_turns take_turn put_in called_in run
take_turns-Matches capacity [] w e done t whole h m = keeps m
take_turns-Matches capacity (west_acts a ∷ ts) w e done t (u, us) h m =
    let next = act capacity a w e in
    let later =
      take_turns-Matches capacity ts next.0 next.1 (done ++ put_by capacity a w)
        (run (called_by a w) t) us (act-IsWritten capacity a w e h).serial
        (act-Matches capacity w e done t h m a u) in
    subst
      (λ (bs : Bytes).
        MatchesSide bs (take_turns capacity ts next).0
          (run (called_by a w ++ called_in capacity ts next) t))
      (append_assoc done (put_by capacity a w) (put_in capacity ts next))
      (subst
        (λ (v : Tunnel).
          MatchesSide ((done ++ put_by capacity a w) ++ put_in capacity ts next)
            (take_turns capacity ts next).0 v)
        (sym (run-append (called_by a w) (called_in capacity ts next) t)) later)
take_turns-Matches capacity (east_acts a ∷ ts) w e done t (u, us) h m =
    let next = act capacity a e w in
    take_turns-Matches capacity ts next.1 next.0 done t us (peer_leaves capacity a e w h).serial
      (peer-Matches capacity a e w done t m)

-- An open tunnel between two calls.
free_starts :
    (c : Closing) (r : Receiving) (unread : Bytes) (t : Tunnel)
    → HasNoClose c
    → t.outgoing ≡ reliable []
    → t.closed ≡ false
    → IsSerial (free c r unread) × MatchesSide [] (free c r unread) t
free_starts not_closing r unread t none_writes empty opened =
    (refl, record { out = empty; flag = opened })
free_starts (wants_to_close code message) r unread t none_writes empty opened =
    (refl, record { out = empty; flag = opened })
free_starts (writes_close bs e) r unread t none_writes empty opened = absurd none_writes

starts :
    (s : Side) (t : Tunnel)
    → IsFree s
    → t.outgoing ≡ reliable []
    → t.closed ≡ false
    → IsSerial s × MatchesSide [] s t
starts s t f empty opened =
    subst (λ (v : Side). IsSerial v × MatchesSide [] v t) (sym (free_side s f))
      (free_starts s.closing s.receiving s.unread t f.no_close empty opened)

-- `t.mu` makes each call one step: whatever the interleaving of the calls of both ends is, what the
-- peer has read of an end's stream and what is still unread on it, behind what was unread at the
-- start, is the stream of the tunnel whose `SendFrame` and `Close` are made one after the other, in
-- the order in which they get the mutex, and the flag of the end is that of this tunnel. While a
-- call still writes, its bytes that are left are already on the stream of that tunnel, and its flag
-- is set as it will be. The end starts open with no call that writes or reads,
-- and its stream does not break under a write.
pub steps_refine_calls :
    (capacity : ℕ) (ts : List Turn) (w e : Side) (r : Reader)
    → IsFree w
    → All IsWholeTurn ts
    → (put : Bytes) × IsOnStream capacity ts (w, e) put
      × MatchesSide put
          (take_turns capacity ts (w, e)).0
          (run (called_in capacity ts (w, e)) (wrap_stream r (reliable [])))
unfolding wrap_stream
steps_refine_calls capacity ts w e r f whole =
    let t = wrap_stream r (reliable []) in
    let start = starts w t f refl refl in
    (
      put_in capacity ts (w, e),
      take_turns-carries capacity ts w e,
      take_turns-Matches capacity ts w e [] t whole start.0 start.1,
    )
