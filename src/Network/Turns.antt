-- ===== src/Network/Turns.antt =====
-- One turn of the loop `pumpDown` of a host, on what has arrived
-- (internal/tunnel/session/pump_linux.go, internal/transport/grpc/wrapper.go).
use unverified.Common.{◌≡◌, refl, sym, ℕ, true, false, some, List, [], ◌∷◌, ◌++◌, append-nil}
use mathlib.Core.Path.{subst}
use unverified.Common.Words.{Bytes}
use unverified.Errors.{nil, sentinel, eof}
use unverified.Stream.{reader}
use unverified.TunnelPb.{Frame}
use unverified.TunnelPb.Decode.{Returned}
use unverified.TunnelPb.Wire.{
  Message, ipv4, ipv6, hello, session, keepalive, rekey, close, IsValid, encoding, frame_of,
}
use unverified.TunnelPb.Wire.RoundTrip.{read_frame-encoding}
use unverified.Pump.{down_starts, write_returns, down_top, receiving, turn}
use unverified.Network.{
  Host, Network, moves, enters, reads, east_steps, east_after, enter_receive, read_arrived,
  after_read_frame, Reach, later,
}
use unverified.Network.Offers.{IsData}

-- `pumpDown` of the host is at the top of its loop, and neither its context nor its tunnel has ended.
pub record IsIdle (h : Host) : Type 0 where
  pub going : h.runtime.done ≡ false
  pub at_top : h.runtime.down ≡ down_top
  pub opened : h.tunnel.closed ≡ false
  pub not_entered : h.entered ≡ false

-- Such a host, with these bytes to read.
abbrev idle : Host → Bytes → Host
idle h bs = record {
  runtime = record h.runtime { done = false; down = down_top };
  tunnel = record h.tunnel { incoming = record h.tunnel.incoming { input = bs }; closed = false };
  entered = false;
}

idle_host : (h : Host) (bs : Bytes) → IsIdle h → h.tunnel.incoming.input ≡ bs → h ≡ idle h bs
idle_host h bs d e i = record {
  runtime = record h.runtime { done = d.going i; down = d.at_top i };
  tunnel = record h.tunnel {
    incoming = record h.tunnel.incoming { input = e i };
    closed = d.opened i;
  };
  entered = d.not_entered i;
}

-- A state that can be reached from `n`, where the east has taken these frames more, the west's
-- pump is as it was, and these bytes are left.
pub record Goes (slice_size : ℕ) (n : Network) (bs : Bytes) (fs : List Frame) : Type 0 where
  pub next : Network
  pub reached : Reach slice_size n → Reach slice_size next
  pub still : IsIdle next.east
  pub left : next.east.tunnel.incoming.input ≡ bs
  pub taken : next.east.runtime.traffic.received ≡ fs ++ n.east.runtime.traffic.received
  pub same_west : next.west.runtime ≡ n.west.runtime

-- The four states of one turn of the loop.
module _ (slice_size : ℕ) (w h : Host) (m : Message) (bs : Bytes) where
  abbrev before : Network
  before = record { west = w; east = idle h (encoding m ++ bs) }

  abbrev started : Host
  started = record before.east { runtime = turn down_starts before.east.runtime }

  abbrev begun : Network
  begun = east_after started before

  abbrev inside : Host
  inside = enter_receive 0 started.runtime.down started

  abbrev called : Network
  called = east_after inside begun

  abbrev answered : Host
  answered = read_arrived 0 (encoding m ++ bs) [] (sentinel eof) inside.runtime.down inside

  abbrev got : Network
  got = east_after answered called

  abbrev written : Host
  written = record answered { runtime = turn (write_returns nil) answered.runtime }

  pub turn_reached : Reach slice_size before → Reach slice_size (east_after written got)
  unfolding turn
  turn_reached r =
      later got _
        (later called _
          (later begun _ (later before _ r (east_steps _ (moves down_starts tt)))
            (east_steps _ (enters 0)))
          (east_steps _ (
            reads 0 (encoding m ++ bs) [] (sentinel eof) refl
              (sym (append-nil (encoding m ++ bs))))))
        (east_steps _ (moves (write_returns nil) tt))

-- The host behind the turn, from what `ReadFrame` returns to it.
abbrev behind : Host → Bytes → Returned → Host
behind h bs y =
    let g =
      after_read_frame 0 []
        (record (idle h bs) {
          runtime = record h.runtime { done = false; down = receiving };
          entered = true;
        })
        y in
    record g { runtime = turn (write_returns nil) g.runtime }

abbrev HasTaken : Host → Message → Bytes → Host → Type 0
HasTaken h m bs g =
    IsIdle g
    × (g.tunnel.incoming.input ≡ bs)
    × (g.runtime.traffic.received ≡ frame_of m ∷ h.runtime.traffic.received)

behind-HasTaken :
    (h : Host) (m : Message) (bs : Bytes)
    → IsData m
    → HasTaken h m bs
        (behind h (encoding m ++ bs) ((some (frame_of m), nil), reader bs (sentinel eof)))
unfolding turn frame_of
behind-HasTaken h (ipv4 p) bs d =
    (record { going = refl; at_top = refl; opened = refl; not_entered = refl }, append-nil bs, refl)
behind-HasTaken h (ipv6 p) bs d =
    (record { going = refl; at_top = refl; opened = refl; not_entered = refl }, append-nil bs, refl)
behind-HasTaken h (hello x) bs d = absurd d
behind-HasTaken h (session x) bs d = absurd d
behind-HasTaken h (keepalive x) bs d = absurd d
behind-HasTaken h (rekey x) bs d = absurd d
behind-HasTaken h (close x) bs d = absurd d

written-HasTaken :
    (slice_size : ℕ) (w h : Host) (m : Message) (bs : Bytes)
    → IsData m
    → IsValid m
    → HasTaken h m bs (written slice_size w h m bs)
unfolding turn
written-HasTaken slice_size w h m bs d v =
    subst (λ (y : Returned). HasTaken h m bs (behind h (encoding m ++ bs) y))
      (sym (read_frame-encoding m bs (sentinel eof) v)) (behind-HasTaken h m bs d)

-- One turn of the loop takes the message that stands first.
pub turn-Goes :
    (slice_size : ℕ) (n : Network) (m : Message) (bs : Bytes)
    → IsIdle n.east
    → n.east.tunnel.incoming.input ≡ encoding m ++ bs
    → IsData m
    → IsValid m
    → Goes slice_size n bs (frame_of m ∷ [])
turn-Goes slice_size n m bs idle_east unread d v =
    let (still, left, taken) = written-HasTaken slice_size n.west n.east m bs d v in
    subst (λ (h : Host). Goes slice_size (record { west = n.west; east = h }) bs (frame_of m ∷ []))
      (sym (idle_host n.east (encoding m ++ bs) idle_east unread))
      (record {
        next =
            east_after (written slice_size n.west n.east m bs) (got slice_size n.west n.east m bs);
        reached = turn_reached slice_size n.west n.east m bs;
        still = still;
        left = left;
        taken = taken;
        same_west = refl;
      })
