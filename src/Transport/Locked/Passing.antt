-- ===== src/Transport/Locked/Passing.antt =====
-- One end that sends and one that receives (internal/transport/grpc/wrapper.go), over a stream that
-- may have room for a single byte.
use unverified.Common.{
  ◌≡◌, refl, ap, sym, ◌∙◌, inl, inr, ℕ, zero, suc, ◌<◌, true, false, none, some, List, [], ◌∷◌,
  ◌++◌, map, append_assoc, append-nil, All, length, if◌then◌else◌, Bool-cases, arith,
}
use unverified.Common.Words.{Bytes}
use unverified.Errors.{Error, nil, sentinel, eof, is_nil}
use unverified.Stream.{Reader, reader, Writer, reliable}
use unverified.TunnelPb.{Frame}
use unverified.TunnelPb.Decode.{Returned, read_frame}
use unverified.TunnelPb.Encode.{write_frame}
use unverified.TunnelPb.Encode.Frames.{write_frame-encoding}
use unverified.TunnelPb.Wire.{Message, IsValid, encoding, frame_of}
use unverified.TunnelPb.Wire.RoundTrip.{read_frame-encoding}
use unverified.TunnelPb.Wire.Framing.{read_frame_truncated}
use unverified.Stream.Uniform.{nil_of}
use unverified.Transport.Locked.{
  not_sending, writes, Closing, Receiving, not_receiving, has_read, Side, asks_send, locks_send,
  goes_on_writing, ends_send, asks_receive, locks_receive, goes_on_reading, ends_receive, act, Turn,
  west_acts, east_acts, take_turn, take_turns, moved, bytes_of, is_whole, is_frame,
}
use unverified.Transport.Locked.Deadlock.{IsFree, free, free_side}

-- The frame that a `RecvFrame` returns when it ends.
abbrev frame_in : Returned → List Frame
frame_in ((none, e), r) = []
frame_in ((some f, e), r) = if is_nil e then f ∷ [] else []

abbrev received_at : Receiving → List Frame
received_at (has_read bs) = frame_in (read_frame (reader bs (sentinel eof)))
received_at r = []

abbrev received_by : Turn → Side × Side → List Frame
received_by (east_acts ends_receive) (w, e) = received_at e.receiving
received_by t x = []

-- The frames that the east receives in a run.
unfoldable pub received_in : ℕ → List Turn → Side × Side → List Frame
received_in capacity [] x = []
received_in capacity (t ∷ ts) x =
    received_by t x ++ received_in capacity ts (take_turn capacity t x)

-- The west writes a byte and the east reads it, so many times.
abbrev pub hand_over : ℕ → List Turn → List Turn
hand_over zero ts = ts
hand_over (suc n) ts = west_acts (goes_on_writing 1) ∷ east_acts goes_on_reading ∷ hand_over n ts

-- A `SendFrame` and a `RecvFrame`, to their ends.
abbrev pub pass : Frame → List Turn → List Turn
pass f ts =
    west_acts (asks_send f)
    ∷ west_acts locks_send
    ∷ east_acts asks_receive
    ∷ east_acts locks_receive
    ∷ hand_over (length (bytes_of f)) (west_acts ends_send ∷ east_acts ends_receive ∷ ts)

abbrev pub pass_all : List Frame → List Turn
pass_all [] = []
pass_all (f ∷ fs) = pass f (pass_all fs)

-- What a run leaves, and what it brings.
abbrev result : ℕ → List Turn → Side × Side → (Side × Side) × List Frame
result capacity ts x = (take_turns capacity ts x, received_in capacity ts x)

abbrev writer_side : Closing → Receiving → Bytes → Error → Side
writer_side c r bs e = record {
  sending = writes bs e;
  closing = c;
  receiving = r;
  locked = true;
  closed = false;
  unread = [];
}

abbrev reader_side : Closing → Bytes → Bytes → Side
reader_side c bs unread = record {
  sending = not_sending;
  closing = c;
  receiving = has_read bs;
  locked = false;
  closed = false;
  unread = unread;
}

moved_one : (capacity b : ℕ) (rest : Bytes) → 0 < capacity → moved capacity 1 (b ∷ rest) [] ≡ 1
moved_one capacity b rest h = ground arith

-- `ReadFrame` does not end before the whole frame is there.
whole_frame :
    (x : Returned) → is_whole x ≡ true → (f : Frame) × (r : Reader) × (x ≡ ((some f, nil), r))
whole_frame ((none, e), r) h = absurd cc
whole_frame ((some f, e), r) h = (f, r, ap (λ (g : Error). ((some f, g), r)) (nil_of e h))

waits_for_more :
    (m : Message) (front rest : Bytes) (b : ℕ)
    → IsValid m
    → encoding m ≡ front ++ (b ∷ rest)
    → is_frame front ≡ false
waits_for_more m front rest b v cut = elim (Bool-cases (is_frame front)) [
  | inl whole ↦
      let (f, r, here) = whole_frame (read_frame (reader front (sentinel eof))) whole in
      absurd (read_frame_truncated m front rest b (sentinel eof) f r v cut here)
  | inr more ↦ more
]

one_byte :
    (capacity : ℕ) (c d : Closing) (r : Receiving) (front rest unread : Bytes) (b : ℕ) (e : Error)
    (ts : List Turn)
    → 0 < capacity
    → is_frame front ≡ false
    → result capacity
        (west_acts (goes_on_writing 1) ∷ east_acts goes_on_reading ∷ ts)
        (writer_side c r (b ∷ rest) e, reader_side d front unread)
      ≡ result capacity ts (writer_side c r rest e, reader_side d (front ++ (b ∷ [])) unread)
unfolding take_turns take_turn received_in act
one_byte capacity c d r front rest unread b e ts room more =
    rw (moved_one capacity b rest room, more) refl

-- All the bytes.
handed_over :
    (capacity : ℕ) (c d : Closing) (r : Receiving) (m : Message) (front rest unread : Bytes)
    (e : Error) (ts : List Turn)
    → 0 < capacity
    → IsValid m
    → encoding m ≡ front ++ rest
    → result capacity
        (hand_over (length rest) ts)
        (writer_side c r rest e, reader_side d front unread)
      ≡ result capacity ts (writer_side c r [] e, reader_side d (encoding m) unread)
handed_over capacity c d r m front [] unread e ts room v cut =
    ap (λ (bs : Bytes). result capacity ts (writer_side c r [] e, reader_side d bs unread))
      (sym (append-nil front) ∙ sym cut)
handed_over capacity c d r m front (b ∷ rest) unread e ts room v cut =
    one_byte capacity c d r front rest unread b e (hand_over (length rest) ts) room
      (waits_for_more m front rest b v cut)
    ∙ handed_over capacity c d r m (front ++ (b ∷ [])) rest unread e ts room v
        (cut ∙ sym (append_assoc front (b ∷ []) rest))

-- Both calls end.
ends :
    (capacity : ℕ) (c d : Closing) (r : Receiving) (m : Message) (unread : Bytes) (ts : List Turn)
    → IsValid m
    → result capacity
        (west_acts ends_send ∷ east_acts ends_receive ∷ ts)
        (writer_side c r [] nil, reader_side d (encoding m) unread)
      ≡ (
        take_turns capacity ts (free c r [], free d not_receiving unread),
        frame_of m ∷ received_in capacity ts (free c r [], free d not_receiving unread),
      )
unfolding take_turns take_turn received_in act
ends capacity c d r m unread ts v =
    let whole =
      ap (λ (bs : Bytes). read_frame (reader bs (sentinel eof))) (sym (append-nil (encoding m)))
      ∙ read_frame-encoding m [] (sentinel eof) v in
    rw whole refl

-- `WriteFrame` of the message.
wrote :
    (m : Message)
    → IsValid m
    → write_frame (frame_of m) (reliable []) ≡ (nil, reliable (encoding m))
wrote m v = write_frame-encoding m [] v

passed :
    (capacity : ℕ) (c d : Closing) (r : Receiving) (m : Message) (unread : Bytes) (ts : List Turn)
    → 0 < capacity
    → IsValid m
    → result capacity (pass (frame_of m) ts) (free c r [], free d not_receiving unread) ≡ (
      take_turns capacity ts (free c r [], free d not_receiving unread),
      frame_of m ∷ received_in capacity ts (free c r [], free d not_receiving unread),
    )
unfolding take_turns take_turn received_in act
passed capacity c d r m unread ts room v =
    let last = west_acts ends_send ∷ east_acts ends_receive ∷ ts in
    ap
      (λ (x : Error × Writer).
        result capacity (hand_over (length x.1.sent) last)
          (writer_side c r x.1.sent x.0, reader_side d [] unread))
      (wrote m v)
    ∙ handed_over capacity c d r m [] (encoding m) unread nil last room v refl
    ∙ ends capacity c d r m unread ts v

all_passed :
    (capacity : ℕ) (c d : Closing) (r : Receiving) (ms : List Message) (unread : Bytes)
    → 0 < capacity
    → All IsValid ms
    → result capacity (pass_all (map frame_of ms)) (free c r [], free d not_receiving unread)
      ≡ ((free c r [], free d not_receiving unread), map frame_of ms)
unfolding take_turns received_in
all_passed capacity c d r [] unread room v = refl
all_passed capacity c d r (m ∷ ms) unread room (v, vs) =
    passed capacity c d r m unread (pass_all (map frame_of ms)) room v
    ∙ ap (λ (x : (Side × Side) × List Frame). (x.0, frame_of m ∷ x.1))
        (all_passed capacity c d r ms unread room vs)

-- A free side written out, with what is known of it.
written_out :
    (s : Side) (r : Receiving) (unread : Bytes)
    → IsFree s
    → s.receiving ≡ r
    → s.unread ≡ unread
    → s ≡ free s.closing r unread
written_out s r unread f reads holds =
    free_side s f
    ∙ ap (λ (q : Receiving). free s.closing q s.unread) reads
    ∙ ap (free s.closing r) holds

-- An end that sends and one that receives do not wait for each other, however small the stream is:
-- where it has room for a single byte, there is a run in which the west sends the frames of any valid
-- messages, one `SendFrame` after the other, the `RecvFrame` calls of the east return just these
-- frames in this order, and both ends are then as they were at the start. At the start both are open
-- with no call that holds a mutex or reads, and nothing is on the stream.
pub frames_pass :
    (capacity : ℕ) (ms : List Message) (w e : Side)
    → 0 < capacity
    → All IsValid ms
    → IsFree w
    → IsFree e
    → w.unread ≡ []
    → e.receiving ≡ not_receiving
    → (take_turns capacity (pass_all (map frame_of ms)) (w, e) ≡ (w, e))
      × (received_in capacity (pass_all (map frame_of ms)) (w, e) ≡ map frame_of ms)
frames_pass capacity ms w e room v fw fe empty quiet =
    let whole = all_passed capacity w.closing e.closing w.receiving ms e.unread room v in
    let start : (w, e) ≡ (free w.closing w.receiving [], free e.closing not_receiving e.unread) =
      ap (λ (s : Side). (s, e)) (written_out w w.receiving [] fw refl empty)
      ∙ ap (λ (s : Side). (free w.closing w.receiving [], s))
          (written_out e not_receiving e.unread fe quiet refl) in
    let run =
      ap (result capacity (pass_all (map frame_of ms))) start
      ∙ whole
      ∙ ap (λ (x : Side × Side). (x, map frame_of ms)) (sym start) in
    (
      ap (λ (x : (Side × Side) × List Frame). x.0) run,
      ap (λ (x : (Side × Side) × List Frame). x.1) run,
    )
