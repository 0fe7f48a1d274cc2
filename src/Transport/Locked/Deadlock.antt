-- ===== src/Transport/Locked/Deadlock.antt =====
-- Two tunnels that send to each other (internal/transport/grpc/wrapper.go).
use unverified.Common.{
  ◌≡◌, refl, ap, sym, ◌∙◌, ℕ, zero, suc, ◌+◌, ◌-◌, ◌≤◌, ◌<◌, true, false, List, [], ◌∷◌, ◌++◌, All,
  length, length-append, length-take, take, drop, arith,
}
use mathlib.Core.Path.{subst}
use unverified.Common.Words.{Bytes}
use unverified.TunnelPb.{Frame}
use unverified.Transport.Locked.{
  not_sending, writes, Closing, Receiving, Side, asks_send, locks_send, goes_on_writing, act, Turn,
  west_acts, east_acts, take_turn, take_turns, moved, bytes_of, error_of,
}
use unverified.Transport.Locked.Blocked.{
  HasNoClose, HasNoReader, IsBlocked, BothBlocked, IsUnbrokenTurn, take_turns-BothBlocked,
}

-- An open tunnel between two calls: nobody has its mutex, and no `RecvFrame` reads.
pub record IsFree (s : Side) : Type 0 where
  pub idle : s.sending ≡ not_sending
  pub unlocked : s.locked ≡ false
  pub opened : s.closed ≡ false
  pub no_close : HasNoClose s.closing
  pub no_reader : HasNoReader s.receiving

-- The frame has more bytes than the stream has room.
abbrev pub IsTooMuch : ℕ → Frame → Side → Type 0
IsTooMuch capacity f s =
    (length s.unread ≤ capacity) × (capacity < length s.unread + length (bytes_of f))

-- A `SendFrame` of each side, up to where the stream is full.
abbrev pub both_send : ℕ → Frame → Frame → List Turn
both_send capacity f g =
    west_acts (asks_send f)
    ∷ west_acts locks_send
    ∷ west_acts (goes_on_writing capacity)
    ∷ east_acts (asks_send g)
    ∷ east_acts locks_send
    ∷ east_acts (goes_on_writing capacity)
    ∷ []

abbrev pub free : Closing → Receiving → Bytes → Side
free c r unread = record {
  sending = not_sending;
  closing = c;
  receiving = r;
  locked = false;
  closed = false;
  unread = unread;
}

pub free_side : (s : Side) → IsFree s → s ≡ free s.closing s.receiving s.unread
free_side s x i = record {
  sending = x.idle i;
  closing = s.closing;
  receiving = s.receiving;
  locked = x.unlocked i;
  closed = x.opened i;
  unread = s.unread;
}

-- The side behind its `SendFrame` has filled the stream.
abbrev filling : ℕ → Frame → Closing → Receiving → Bytes → Side
filling capacity f c r unread =
    let k = moved capacity capacity (bytes_of f) unread in
    record {
      sending = writes (drop k (bytes_of f)) (error_of f);
      closing = c;
      receiving = r;
      locked = true;
      closed = false;
      unread = unread ++ take k (bytes_of f);
    }

room :
    (capacity : ℕ) (bs unread : Bytes)
    → length unread ≤ capacity
    → capacity < length unread + length bs
    → moved capacity capacity bs unread ≡ capacity - length unread
room capacity bs unread fits more = ground arith

drop-filled :
    (k : ℕ) (bs : Bytes) → k < length bs → (b : ℕ) × (rest : Bytes) × (drop k bs ≡ b ∷ rest)
drop-filled k [] h = absurd (omega arith)
drop-filled zero (b ∷ bs) h = (b, bs, refl)
drop-filled (suc k) (b ∷ bs) h = drop-filled k bs (omega arith)

filling-IsBlocked :
    (capacity : ℕ) (f : Frame) (c : Closing) (r : Receiving) (unread : Bytes)
    → HasNoClose c
    → HasNoReader r
    → (length unread ≤ capacity) × (capacity < length unread + length (bytes_of f))
    → IsBlocked capacity (filling capacity f c r unread)
filling-IsBlocked capacity f c r unread hc hr (fits, more) =
    let bs = bytes_of f in
    let k = moved capacity capacity bs unread in
    let k_is = room capacity bs unread fits more in
    let (b, rest, left) = drop-filled k bs (omega arith) in
    record {
      first = b;
      rest = rest;
      error = error_of f;
      waits = ap (λ (cs : Bytes). writes cs (error_of f)) left;
      held = refl;
      full =
          let put = length-take k bs (omega arith) in
          let all = length-append unread (take k bs) in omega arith;
      no_close = hc;
      no_reader = hr;
    }

-- Both sends, on sides that are written out.
both_send_free :
    (capacity : ℕ) (f g : Frame) (c d : Closing) (r q : Receiving) (unread others : Bytes)
    → take_turns capacity (both_send capacity f g) (free c r unread, free d q others)
      ≡ (filling capacity f c r unread, filling capacity g d q others)
unfolding take_turns take_turn act
both_send_free capacity f g c d r q unread others = refl

both_send-BothBlocked :
    (capacity : ℕ) (f g : Frame) (w e : Side)
    → IsFree w
    → IsFree e
    → IsTooMuch capacity f w
    → IsTooMuch capacity g e
    → BothBlocked capacity (take_turns capacity (both_send capacity f g) (w, e))
both_send-BothBlocked capacity f g w e fw fe mw me =
    subst (BothBlocked capacity)
      (sym (
        ap (λ (s : Side). take_turns capacity (both_send capacity f g) (s, e)) (free_side w fw)
        ∙ ap
            (λ (s : Side).
              take_turns capacity (both_send capacity f g) (free w.closing w.receiving w.unread, s))
            (free_side e fe)
        ∙ both_send_free capacity f g w.closing e.closing w.receiving e.receiving w.unread
            e.unread))
      (
        filling-IsBlocked capacity f w.closing w.receiving w.unread fw.no_close fw.no_reader mw,
        filling-IsBlocked capacity g e.closing e.receiving e.unread fe.no_close fe.no_reader me,
      )

-- Two hosts that send to each other can wait for ever. When no `RecvFrame` reads on either side, and
-- each begins a `SendFrame` with more bytes than its stream has room for, then whatever calls are
-- made afterwards, also of `Close`, and in whatever order they go on: both `SendFrame` have their
-- mutex and bytes left to write, both streams are full, and no `RecvFrame` and no `Close` gets
-- further than to the mutex, until a stream fails.
pub senders_deadlock :
    (capacity : ℕ) (f g : Frame) (w e : Side) (ts : List Turn)
    → IsFree w
    → IsFree e
    → IsTooMuch capacity f w
    → IsTooMuch capacity g e
    → All IsUnbrokenTurn ts
    → BothBlocked capacity
        (take_turns capacity ts (take_turns capacity (both_send capacity f g) (w, e)))
senders_deadlock capacity f g w e ts fw fe mw me unbroken =
    take_turns-BothBlocked capacity ts (take_turns capacity (both_send capacity f g) (w, e))
      unbroken (both_send-BothBlocked capacity f g w e fw fe mw me)
