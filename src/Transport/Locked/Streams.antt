-- ===== src/Transport/Locked/Streams.antt =====
-- What is on the stream of an end after a run of the calls of internal/transport/grpc/wrapper.go: what the
-- peer has read of it, and what it has not.
use unverified.Common.{◌≡◌, ap, sym, ◌∙◌, ℕ, List, [], ◌∷◌, ◌++◌, append_assoc, append-nil}
use unverified.Common.Words.{Bytes}
use unverified.Transport.Locked.{Side, act, Turn, west_acts, east_acts, take_turn, take_turns}
use unverified.Transport.Locked.Serial.{put_by}
use unverified.Transport.Locked.Whole.{put_in}
use unverified.Transport.Locked.Flow.{grown, act-Takes, act-Puts}

-- The bytes that the east reads in a run, of the stream that the west writes.
unfoldable pub read_in : ℕ → List Turn → Side × Side → Bytes
read_in capacity [] x = []
read_in capacity (t ∷ ts) (w, e) =
    grown e.receiving (take_turn capacity t (w, e)).1.receiving
    ++ read_in capacity ts (take_turn capacity t (w, e))

-- What an end puts on its stream in a run is what its peer reads then and what is unread behind it.
pub take_turns-carries :
    (capacity : ℕ) (ts : List Turn) (w e : Side)
    → w.unread ++ put_in capacity ts (w, e)
      ≡ read_in capacity ts (w, e) ++ (take_turns capacity ts (w, e)).0.unread
unfolding take_turns take_turn put_in read_in
take_turns-carries capacity [] w e = append-nil w.unread
take_turns-carries capacity (west_acts a ∷ ts) w e =
    let next = act capacity a w e in
    let (put, silent) = act-Puts capacity a w e in
    sym (append_assoc w.unread (put_by capacity a w) (put_in capacity ts next))
    ∙ ap (λ (bs : Bytes). bs ++ put_in capacity ts next) put
    ∙ take_turns-carries capacity ts next.0 next.1
    ∙ ap
        (λ (bs : Bytes). (bs ++ read_in capacity ts next) ++ (take_turns capacity ts next).0.unread)
        (sym silent)
take_turns-carries capacity (east_acts a ∷ ts) w e =
    let next = act capacity a e w in
    let turned : Side × Side = (next.1, next.0) in
    let got = grown e.receiving next.0.receiving in
    ap (λ (bs : Bytes). bs ++ put_in capacity ts turned) (act-Takes capacity a e w)
    ∙ append_assoc got next.1.unread (put_in capacity ts turned)
    ∙ ap (λ (bs : Bytes). got ++ bs) (take_turns-carries capacity ts next.1 next.0)
    ∙ sym (append_assoc got (read_in capacity ts turned) (take_turns capacity ts turned).0.unread)

-- The stream of the west, behind what was unread at the start: `put`, which the east has read or has
-- still to read.
abbrev pub IsOnStream : ℕ → List Turn → Side × Side → Bytes → Type 0
IsOnStream capacity ts x put =
    x.0.unread ++ put ≡ read_in capacity ts x ++ (take_turns capacity ts x).0.unread
