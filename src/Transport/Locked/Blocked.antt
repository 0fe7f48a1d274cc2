-- ===== src/Transport/Locked/Blocked.antt =====
-- Two ends that write at the same time, and no end that reads (internal/transport/grpc/wrapper.go).
use unverified.Common.{
  ◌≡◌, refl, ap, sym, ◌∙◌, ℕ, ◌≤◌, Bool, true, List, [], ◌∷◌, ◌++◌, append-nil, All, length, take,
  drop, arith,
}
use mathlib.Core.Path.{subst}
use unverified.Common.Words.{Bytes}
use unverified.Errors.{Error}
use unverified.Transport.Locked.{
  writes, Closing, not_closing, wants_to_close, writes_close, Receiving, not_receiving,
  wants_to_receive, has_read, Side, Act, asks_send, locks_send, goes_on_writing, ends_send,
  breaks_send, asks_close, locks_close, goes_on_closing, ends_close, breaks_close, asks_receive,
  locks_receive, goes_on_reading, ends_receive, breaks_receive, act, Turn, west_acts, east_acts,
  take_turn, take_turns, moved,
}

-- No `Close` has the mutex, and no `RecvFrame` reads.
abbrev pub HasNoClose : Closing → Type 0
HasNoClose (writes_close bs e) = ⊥
HasNoClose c = Unit {0}

abbrev pub HasNoReader : Receiving → Type 0
HasNoReader (has_read bs) = ⊥
HasNoReader r = Unit {0}

-- `SendFrame` has the mutex and bytes left, and the stream has no room.
pub record IsBlocked (capacity : ℕ) (s : Side) : Type 0 where
  pub first : ℕ
  pub rest : Bytes
  pub error : Error
  pub waits : s.sending ≡ writes (first ∷ rest) error
  pub held : s.locked ≡ true
  pub full : capacity ≤ length s.unread
  pub no_close : HasNoClose s.closing
  pub no_reader : HasNoReader s.receiving

-- A step that is not a failure of the stream under a write.
abbrev pub IsUnbroken : Act → Type 0
IsUnbroken breaks_send = ⊥
IsUnbroken a = Unit {0}

-- Such a side, written out.
abbrev blocked : Bytes → Error → Closing → Receiving → Bool → Bytes → Side
blocked bs e c r closed unread = record {
  sending = writes bs e;
  closing = c;
  receiving = r;
  locked = true;
  closed = closed;
  unread = unread;
}

no_room :
    (n : ℕ) (bs : Bytes) (capacity : ℕ) (unread : Bytes)
    → capacity ≤ length unread
    → moved capacity n bs unread ≡ 0
no_room n bs capacity unread h = ground arith

-- What a side and its peer are behind a step: the peer as it was, the side with its write and its
-- stream as they were.
record IsStill (bs : Bytes) (e : Error) (closed : Bool) (unread : Bytes) (peer : Side)
    (x : Side × Side) : Type 0 where
  closing : Closing
  receiving : Receiving
  no_close : HasNoClose closing
  no_reader : HasNoReader receiving
  side : x.0 ≡ blocked bs e closing receiving closed unread
  peer_same : x.1 ≡ peer

outside-IsStill :
    {bs : Bytes} {e : Error} {closed : Bool} {unread : Bytes} {peer : Side} (c : Closing)
    (r : Receiving)
    → HasNoClose c
    → HasNoReader r
    → IsStill bs e closed unread peer (blocked bs e c r closed unread, peer)
outside-IsStill c r hc hr = record {
  closing = c;
  receiving = r;
  no_close = hc;
  no_reader = hr;
  side = refl;
  peer_same = refl;
}

act-IsStill :
    (capacity : ℕ) (a : Act) (b : ℕ) (bs : Bytes) (e : Error) (c : Closing) (r : Receiving)
    (closed : Bool) (unread : Bytes) (peer : Side)
    → IsUnbroken a
    → capacity ≤ length unread
    → HasNoClose c
    → HasNoReader r
    → IsStill
        (b ∷ bs)
        e
        closed
        unread
        peer
        (act capacity a (blocked (b ∷ bs) e c r closed unread) peer)
unfolding act
act-IsStill capacity a b bs e (writes_close cs f) r closed unread peer u full hc hr = absurd hc
act-IsStill capacity a b bs e c (has_read cs) closed unread peer u full hc hr = absurd hr
act-IsStill capacity (asks_send f) b bs e c r closed unread peer u full hc hr =
    outside-IsStill c r hc hr
act-IsStill capacity locks_send b bs e c r closed unread peer u full hc hr =
    outside-IsStill c r hc hr
act-IsStill capacity ends_send b bs e c r closed unread peer u full hc hr =
    outside-IsStill c r hc hr
act-IsStill capacity (goes_on_writing n) b bs e c r closed unread peer u full hc hr = record {
  closing = c;
  receiving = r;
  no_close = hc;
  no_reader = hr;
  side =
      ap (λ (k : ℕ). blocked (drop k (b ∷ bs)) e c r closed (unread ++ take k (b ∷ bs)))
        (no_room n (b ∷ bs) capacity unread full)
      ∙ ap (blocked (b ∷ bs) e c r closed) (append-nil unread);
  peer_same = refl;
}
act-IsStill capacity breaks_send b bs e c r closed unread peer u full hc hr = absurd u
act-IsStill capacity (asks_close code message) b bs e not_closing r closed unread peer u full hc
      hr =
    outside-IsStill (wants_to_close code message) r hc hr
act-IsStill capacity (asks_close code message) b bs e (wants_to_close k m) r closed unread peer u
      full hc hr =
    outside-IsStill (wants_to_close k m) r hc hr
act-IsStill capacity locks_close b bs e not_closing r closed unread peer u full hc hr =
    outside-IsStill not_closing r hc hr
act-IsStill capacity locks_close b bs e (wants_to_close code message) r closed unread peer u full hc
      hr =
    outside-IsStill (wants_to_close code message) r hc hr
act-IsStill capacity (goes_on_closing n) b bs e not_closing r closed unread peer u full hc hr =
    outside-IsStill not_closing r hc hr
act-IsStill capacity (goes_on_closing n) b bs e (wants_to_close code message) r closed unread peer u
      full hc hr =
    outside-IsStill (wants_to_close code message) r hc hr
act-IsStill capacity ends_close b bs e not_closing r closed unread peer u full hc hr =
    outside-IsStill not_closing r hc hr
act-IsStill capacity ends_close b bs e (wants_to_close code message) r closed unread peer u full hc
      hr =
    outside-IsStill (wants_to_close code message) r hc hr
act-IsStill capacity breaks_close b bs e not_closing r closed unread peer u full hc hr =
    outside-IsStill not_closing r hc hr
act-IsStill capacity breaks_close b bs e (wants_to_close code message) r closed unread peer u full
      hc hr =
    outside-IsStill (wants_to_close code message) r hc hr
act-IsStill capacity asks_receive b bs e c not_receiving closed unread peer u full hc hr =
    outside-IsStill c wants_to_receive hc hr
act-IsStill capacity asks_receive b bs e c wants_to_receive closed unread peer u full hc hr =
    outside-IsStill c wants_to_receive hc hr
act-IsStill capacity locks_receive b bs e c not_receiving closed unread peer u full hc hr =
    outside-IsStill c not_receiving hc hr
act-IsStill capacity locks_receive b bs e c wants_to_receive closed unread peer u full hc hr =
    outside-IsStill c wants_to_receive hc hr
act-IsStill capacity goes_on_reading b bs e c not_receiving closed unread peer u full hc hr =
    outside-IsStill c not_receiving hc hr
act-IsStill capacity goes_on_reading b bs e c wants_to_receive closed unread peer u full hc hr =
    outside-IsStill c wants_to_receive hc hr
act-IsStill capacity ends_receive b bs e c not_receiving closed unread peer u full hc hr =
    outside-IsStill c not_receiving hc hr
act-IsStill capacity ends_receive b bs e c wants_to_receive closed unread peer u full hc hr =
    outside-IsStill c wants_to_receive hc hr
act-IsStill capacity breaks_receive b bs e c not_receiving closed unread peer u full hc hr =
    outside-IsStill c not_receiving hc hr
act-IsStill capacity breaks_receive b bs e c wants_to_receive closed unread peer u full hc hr =
    outside-IsStill c wants_to_receive hc hr

blocked_side :
    (capacity : ℕ) (s : Side) (x : IsBlocked capacity s)
    → s ≡ blocked (x.first ∷ x.rest) x.error s.closing s.receiving s.closed s.unread
blocked_side capacity s x i = record {
  sending = x.waits i;
  closing = s.closing;
  receiving = s.receiving;
  locked = x.held i;
  closed = s.closed;
  unread = s.unread;
}

-- A side that is blocked stays so in a step of its own, and its peer is as it was.
abbrev StaysBlocked : ℕ → Side → Side × Side → Type 0
StaysBlocked capacity peer x = IsBlocked capacity x.0 × (x.1 ≡ peer)

still_blocked :
    (capacity b : ℕ) (bs : Bytes) (e : Error) (closed : Bool) (unread : Bytes) (peer : Side)
    (x : Side × Side)
    → capacity ≤ length unread
    → IsStill (b ∷ bs) e closed unread peer x
    → StaysBlocked capacity peer x
still_blocked capacity b bs e closed unread peer x full s = (
  subst (IsBlocked capacity) (sym s.side) (record {
    first = b;
    rest = bs;
    error = e;
    waits = refl;
    held = refl;
    full = full;
    no_close = s.no_close;
    no_reader = s.no_reader;
  }),
  s.peer_same,
)

act_blocked :
    (capacity : ℕ) (a : Act) (s peer : Side)
    → IsUnbroken a
    → IsBlocked capacity s
    → StaysBlocked capacity peer (act capacity a s peer)
act_blocked capacity a s peer u x =
    subst (λ (v : Side). StaysBlocked capacity peer (act capacity a v peer))
      (sym (blocked_side capacity s x))
      (still_blocked capacity x.first x.rest x.error s.closed s.unread peer _ x.full (
        act-IsStill capacity a x.first x.rest x.error s.closing s.receiving s.closed s.unread peer u
          x.full x.no_close x.no_reader))

-- The same of a step of either side.
abbrev pub IsUnbrokenTurn : Turn → Type 0
IsUnbrokenTurn (west_acts a) = IsUnbroken a
IsUnbrokenTurn (east_acts a) = IsUnbroken a

abbrev pub BothBlocked : ℕ → Side × Side → Type 0
BothBlocked capacity x = IsBlocked capacity x.0 × IsBlocked capacity x.1

take_turn-BothBlocked :
    (capacity : ℕ) (t : Turn) (x : Side × Side)
    → IsUnbrokenTurn t
    → BothBlocked capacity x
    → BothBlocked capacity (take_turn capacity t x)
unfolding take_turn
take_turn-BothBlocked capacity (west_acts a) (w, e) u (bw, be) =
    let (own, same) = act_blocked capacity a w e u bw in
    (own, subst (IsBlocked capacity) (sym same) be)
take_turn-BothBlocked capacity (east_acts a) (w, e) u (bw, be) =
    let (own, same) = act_blocked capacity a e w u be in
    (subst (IsBlocked capacity) (sym same) bw, own)

pub take_turns-BothBlocked :
    (capacity : ℕ) (ts : List Turn) (x : Side × Side)
    → All IsUnbrokenTurn ts
    → BothBlocked capacity x
    → BothBlocked capacity (take_turns capacity ts x)
unfolding take_turns
take_turns-BothBlocked capacity [] x u b = b
take_turns-BothBlocked capacity (t ∷ ts) x (u, us) b =
    take_turns-BothBlocked capacity ts (take_turn capacity t x) us
      (take_turn-BothBlocked capacity t x u b)
