-- ===== src/Network/Hosts.antt =====
-- A step of one host, and the two directions between it and its peer
-- (internal/tunnel/session/pump_linux.go, internal/transport/grpc/wrapper.go).
use unverified.Common.{
  ◌≡◌, refl, ap, sym, ◌∙◌, inl, ℕ, Bool, List, [], ◌∷◌, ◌++◌, append-nil, All, length, take, drop,
  drop-append, either, arith,
}
use mathlib.Core.Path.{subst}
use unverified.Common.Words.{Bytes, are_bytes-IsByte}
use unverified.Errors.{Error, nil, sentinel, transport_closed, is_nil}
use unverified.Stream.{Reader}
use unverified.Stream.Uniform.{IsLawful}
use unverified.TunnelPb.{Frame}
use unverified.Transport.{Tunnel, send_frame}
use unverified.TunnelPb.Wire.{IsValid, close}
use unverified.Pump.{
  Runtime, Traffic, Move, cancel, watch, wait_ends, up_starts, read_returns, send_returns,
  down_starts, receive_returns, write_returns, Up, up_top, reading, sending, up_returned, turn,
  packet_frame,
}
use unverified.Pump.Exclusive.{Exclusive, IsFitting}
use unverified.Pump.Exclusive.Turns.{turn-Exclusive}
use unverified.Pump.Transfer.{payloads, pending_up, Carried}
use unverified.Pump.Transfer.Turns.{turn-Carried}
use unverified.Network.{Host, send_pending, watch_closes, watch_message, added, give_input, IsLocal}
use unverified.Network.Offers.{IsRead, IsOffer, pending-IsOffer}
use unverified.Network.Flow.{Flow, Gone, Flow-refusal, Flow-waits}
use unverified.Network.Outgoing.{IsOut, send_frame-IsOut, close-IsOut, IsOut-Flow}
use unverified.Network.Moves.{turn-IsQuiet}
use unverified.Network.Answers.{turn-IsSent}

-- The state of one host.
pub record IsSound (size : ℕ) (h : Host) : Type 0 where
  pub exclusive : Exclusive size h.runtime
  pub carried : Carried h.runtime
  pub lawful : IsLawful h.tunnel.outgoing
  pub reads : All (IsRead size) h.runtime.traffic.read

-- The direction from one host to another.
abbrev pub Between : ℕ → Host → Host → Type 0
Between size a b =
    Flow size a.tunnel.closed a.runtime.traffic.sent b.tunnel.incoming.input b.runtime.down
      b.runtime.traffic.received

-- The host `h` with its peer `p`, and a state `g` that it may step to.
abbrev pub IsPair : ℕ → Host → Host → Type 0
IsPair size h p = IsSound size h × Between size h p × Between size p h

abbrev pub IsPairAfter : ℕ → Host → Host → Host → Type 0
IsPairAfter size h p g = IsPair size g (give_input (added h g) p)

-- A step that writes nothing.
pub out_same :
    (size : ℕ) (h p : Host) (t : Runtime) (r : Reader) (entered : Bool)
    → t.traffic.sent ≡ h.runtime.traffic.sent
    → Between size h p
    → (let g = record h {
      runtime = t;
      tunnel = record h.tunnel { incoming = r };
      entered = entered;
    } in
        Between size g (give_input (added h g) p))
out_same size h p t r entered same f =
    let sent = h.tunnel.outgoing.sent in
    subst
      (λ (bs : Bytes).
        Flow size h.tunnel.closed t.traffic.sent (p.tunnel.incoming.input ++ bs) p.runtime.down
          p.runtime.traffic.received)
      (sym
        (ap (λ (bs : Bytes). drop (length sent) bs) (sym (append-nil sent)) ∙ drop-append sent []))
      (subst
        (λ (bs : Bytes).
          Flow size h.tunnel.closed t.traffic.sent bs p.runtime.down p.runtime.traffic.received)
        (sym (append-nil p.tunnel.incoming.input))
        (Flow-refusal size h.tunnel.closed h.tunnel.closed h.runtime.traffic.sent t.traffic.sent
          p.tunnel.incoming.input p.runtime.down p.runtime.traffic.received [] f (ap payloads same)
          (λ opened. (opened, refl))))

-- A step that does nothing at all.
pub pair_same : (size : ℕ) (h p : Host) → IsPair size h p → IsPairAfter size h p h
pair_same size h p (s, out, into) =
    (s, out_same size h p h.runtime h.tunnel.incoming h.entered refl out, into)

-- A step that takes no frame.
into_same :
    (size : ℕ) (h p g : Host)
    → g.tunnel.incoming.input ≡ h.tunnel.incoming.input
    → (Gone h.runtime.down → Gone g.runtime.down)
    → g.runtime.traffic.received ≡ h.runtime.traffic.received
    → Between size p h
    → Between size p g
into_same size h p g unread gone same f =
    subst
      (λ (fs : List Frame).
        Flow size p.tunnel.closed p.runtime.traffic.sent g.tunnel.incoming.input g.runtime.down fs)
      (sym same)
      (Flow-waits size p.tunnel.closed p.runtime.traffic.sent h.tunnel.incoming.input
        g.tunnel.incoming.input h.runtime.down g.runtime.down h.runtime.traffic.received f
        (inl (unread, gone)))

local-IsFitting : (size : ℕ) (m : Move) → IsLocal m → IsFitting size m
local-IsFitting size cancel l = tt
local-IsFitting size watch l = tt
local-IsFitting size wait_ends l = tt
local-IsFitting size (up_starts pick) l = tt
local-IsFitting size (read_returns packet e) l = tt
local-IsFitting size (send_returns e) l = tt
local-IsFitting size down_starts l = tt
local-IsFitting size (receive_returns pick f e) l = absurd l
local-IsFitting size (write_returns e) l = tt

pub moves_pair :
    (size : ℕ) (h p : Host) (m : Move)
    → IsLocal m
    → IsPair size h p
    → IsPairAfter size h p (record h { runtime = turn m h.runtime })
moves_pair size h p m l (s, out, into) =
    let t = turn m h.runtime in
    let q = turn-IsQuiet size m h.runtime l s.exclusive in
    let fit = local-IsFitting size m l in
    (
      record {
        exclusive = turn-Exclusive size m h.runtime fit s.exclusive;
        carried = turn-Carried size m h.runtime fit s.exclusive s.carried;
        lawful = s.lawful;
        reads = q.reads s.reads;
      },
      out_same size h p t h.tunnel.incoming h.entered q.sent out,
      into_same size h p (record h { runtime = t }) refl q.gone q.received into,
    )

-- A step in which the tunnel has written or refused something, for these packets of the pump.
tunnel_pair :
    (size : ℕ) (h p : Host) (t : Runtime) (u : Tunnel) (ps : List Bytes)
    → Exclusive size t
    → Carried t
    → t.traffic.read ≡ h.runtime.traffic.read
    → t.traffic.received ≡ h.runtime.traffic.received
    → t.down ≡ h.runtime.down
    → payloads t.traffic.sent ≡ ps ++ payloads h.runtime.traffic.sent
    → IsOut size ps h.tunnel u
    → IsPair size h p
    → IsPairAfter size h p (record h { runtime = t; tunnel = u })
tunnel_pair size h p t u ps exclusive carried read received down brings o (s, out, into) = (
  record {
    exclusive = exclusive;
    carried = carried;
    lawful = o.lawful;
    reads = subst (All (IsRead size)) (sym read) s.reads;
  },
  IsOut-Flow size ps h.tunnel u h.runtime.traffic.sent t.traffic.sent p.tunnel.incoming.input
      p.runtime.down p.runtime.traffic.received o brings out,
  into_same size h p (record h { runtime = t; tunnel = u })
      (ap (λ (r : Reader). r.input) o.incoming) (subst Gone (sym down)) received into,
)

pub sends_pair :
    (size : ℕ) (u : Up) (h p : Host)
    → h.runtime.up ≡ u
    → IsPair size h p
    → IsPairAfter size h p (send_pending u h)
sends_pair size up_top h p same x = pair_same size h p x
sends_pair size (reading b) h p same x = pair_same size h p x
sends_pair size (up_returned e) h p same x = pair_same size h p x
sends_pair size (sending b n tag) h p same (s, out, into) =
    let f = packet_frame tag (take n (h.runtime.memory b.id)) in
    let e = (send_frame f h.tunnel).0 in
    let t = turn (send_returns e) h.runtime in
    let (offer, _) =
      subst (λ (v : Up). All (IsOffer size) (pending_up v h.runtime.memory)) same
        (pending-IsOffer size h.runtime s.carried s.reads) in
    let i = turn-IsSent e b n tag h.runtime same in
    tunnel_pair size h p t (send_frame f h.tunnel).1 (take n (h.runtime.memory b.id) ∷ [])
      (turn-Exclusive size (send_returns e) h.runtime tt s.exclusive)
      (turn-Carried size (send_returns e) h.runtime tt s.exclusive s.carried) i.read i.received
      i.down (ap payloads i.sent) (send_frame-IsOut size f h.tunnel s.lawful offer) (s, out, into)

watch_leaves : (s : Runtime) → ((turn watch s).traffic ≡ s.traffic) × ((turn watch s).down ≡ s.down)
unfolding turn
watch_leaves s =
    either (λ (t : Runtime). (t.traffic ≡ s.traffic) × (t.down ≡ s.down)) s.done _ s (refl, refl)
      (refl, refl)

watch_message-IsValid : IsValid (close (record { code = 0; message = watch_message }))
unfolding unverified.Errors.bytes
watch_message-IsValid = (omega arith, (omega arith, are_bytes-IsByte watch_message refl))

pub closes_pair : (size : ℕ) (h p : Host) → IsPair size h p → IsPairAfter size h p (watch_closes h)
closes_pair size h p x =
    either (IsPairAfter size h p) h.runtime.done _ h (closed x) (pair_same size h p x)
  where
    closed :
        IsPair size h p
        → IsPairAfter size h p (record h {
          runtime = turn watch h.runtime;
          tunnel = (unverified.Transport.close 0 watch_message h.tunnel).1;
        })
    closed (s, out, into) =
        let (traffic, down) = watch_leaves h.runtime in
        tunnel_pair size h p (turn watch h.runtime)
          (unverified.Transport.close 0 watch_message h.tunnel).1 []
          (turn-Exclusive size watch h.runtime tt s.exclusive)
          (turn-Carried size watch h.runtime tt s.exclusive s.carried)
          (ap (λ (x : Traffic). x.read) traffic) (ap (λ (x : Traffic). x.received) traffic) down
          (ap (λ (x : Traffic). payloads x.sent) traffic)
          (close-IsOut size 0 watch_message h.tunnel s.lawful watch_message-IsValid) (s, out, into)
