-- ===== src/Network/Delivers.antt =====
-- What is on the way between two hosts can always be delivered
-- (internal/tunnel/session/pump_linux.go, internal/transport/grpc/wrapper.go).
use unverified.Common.{
  ◌≡◌, refl, ap, sym, ◌∙◌, ◌⊎◌, inl, inr, ℕ, false, List, [], ◌∷◌, ◌++◌, append-nil, append_assoc,
  All,
}
use mathlib.Core.Path.{subst}
use unverified.Common.Words.{Bytes}
use unverified.TunnelPb.{Frame}
use unverified.TunnelPb.Wire.{Message, IsValid, frame_of}
use unverified.Transport.Integrity.{encodings}
use unverified.Pump.{Down}
use unverified.Network.{Host, Network, Reach}
use unverified.Network.Offers.{IsData, carries, queue}
use unverified.Network.Relayed.{reach-IsJoined}
use unverified.Pump.Transfer.{payloads, pending_up, pending_down}
use unverified.Relay.Payloads.{routed, payloads-append, routed-payloads}
use unverified.Network.Flow.{Gone}
use unverified.Network.Turns.{IsIdle, Goes, turn-Goes}

-- All the messages on the stream are taken.
all_go :
    (slice_size : ℕ) (ms : List Message) (n : Network)
    → IsIdle n.east
    → n.east.tunnel.incoming.input ≡ encodings ms
    → All IsData ms
    → All IsValid ms
    → (fs : List Frame) × Goes slice_size n [] fs × (payloads fs ≡ queue ms)
all_go slice_size [] n idle_east unread d v = (
  [],
  record {
    next = n;
    reached = λ r. r;
    still = idle_east;
    left = unread;
    taken = refl;
    same_west = refl;
  },
  refl,
)
all_go slice_size (m ∷ ms) n idle_east unread (d, ds) (v, vs) =
    let first = turn-Goes slice_size n m (encodings ms) idle_east unread d v in
    let (fs, more, same) = all_go slice_size ms first.next first.still first.left ds vs in
    (
      fs ++ (frame_of m ∷ []),
      record {
        next = more.next;
        reached = λ r. more.reached (first.reached r);
        still = more.still;
        left = more.left;
        taken =
            more.taken
            ∙ ap (λ (gs : List Frame). fs ++ gs) first.taken
            ∙ sym (append_assoc fs (frame_of m ∷ []) n.east.runtime.traffic.received);
        same_west = more.same_west ∙ first.same_west;
      },
      payloads-append fs (frame_of m ∷ [])
          ∙ ap (λ (ps : List Bytes). ps ++ (carries m ++ [])) same
          ∙ ap (λ (ps : List Bytes). queue ms ++ ps) (append-nil (carries m)),
    )

unread_whole :
    (missing : Bytes) (ms : List Message) (h : Host)
    → missing ≡ []
    → IsIdle h
    → (h.tunnel.incoming.input ++ missing ≡ encodings ms) ⊎ Gone h.runtime.down
    → h.tunnel.incoming.input ≡ encodings ms
unread_whole missing ms h nothing idle_host (inl unread) =
    sym (append-nil h.tunnel.incoming.input)
    ∙ ap (λ (bs : Bytes). h.tunnel.incoming.input ++ bs) (sym nothing)
    ∙ unread
unread_whole missing ms h nothing idle_host (inr gone) = absurd (subst Gone idle_host.at_top gone)

-- A state that can be reached from here, in which the west's pump is as it is and the device of the
-- east has got all that the west has read, but for the packet that waits in `SendFrame`.
abbrev pub CanDeliver : ℕ → Network → Type 0
CanDeliver slice_size n =
    (m : Network) × Reach slice_size m
    × (m.west.runtime ≡ n.west.runtime)
    × IsIdle m.east
    × (routed n.west.runtime.traffic.read
        ≡ payloads (pending_up n.west.runtime.up n.west.runtime.memory)
          ++ m.east.runtime.traffic.written)

-- Two hosts that run their pumps against each other lose nothing: in whatever state they are, when
-- the east waits at the top of its loop, and neither its context nor one of the two tunnels has
-- ended, they can reach a state in which its device has got all the IPv4 and IPv6 packets that the
-- west has read so far, in order and byte for byte, but for the one that waits in `SendFrame`; the
-- west's pump is as it was, and the east is again at the top of its loop.
pub all_delivered :
    (slice_size : ℕ) (n : Network)
    → Reach slice_size n
    → IsIdle n.east
    → n.west.tunnel.closed ≡ false
    → CanDeliver slice_size n
all_delivered slice_size n r idle_east opened =
    let j = reach-IsJoined slice_size n r in
    let f = j.eastwards in
    let (nothing, none_refused, packets) = f.open_whole opened in
    let (fs, goes, same) =
      all_go slice_size f.rest n idle_east
        (unread_whole f.missing f.rest n.east nothing idle_east f.unread) packets f.valid in
    let k = reach-IsJoined slice_size goes.next (goes.reached r) in
    let s = n.west.runtime in
    let waits = payloads (pending_up s.up s.memory) in
    (
      goes.next,
      goes.reached r,
      goes.same_west,
      goes.still,
      routed-payloads s j.west.carried
          ∙ ap (λ (ps : List Bytes). waits ++ ps)
              (f.offered
                ∙ ap
                    (λ (ps : List Bytes).
                      ps ++ (queue f.rest ++ payloads n.east.runtime.traffic.received))
                    none_refused
                ∙ ap (λ (ps : List Bytes). ps ++ payloads n.east.runtime.traffic.received)
                    (sym same)
                ∙ sym (payloads-append fs n.east.runtime.traffic.received)
                ∙ ap payloads (sym goes.taken)
                ∙ sym k.east.carried.downwards
                ∙ ap
                    (λ (d : Down).
                      pending_down d goes.next.east.runtime.memory
                      ++ goes.next.east.runtime.traffic.written)
                    goes.still.at_top),
    )
