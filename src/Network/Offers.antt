-- ===== src/Network/Offers.antt =====
-- The frames that the pump of internal/tunnel/session/pump_linux.go gives to its tunnel, and the packets that
-- they bring.
use Prim.Native.Nat.{bit_and}
use unverified.Common.{
  ◌≡◌, refl, ap, sym, ◌∙◌, ◌⊎◌, inl, inr, ℕ, ◌≤◌, ◌<◌, Option, some, List, [], ◌∷◌, ◌++◌, All,
  All-append, All-append_left, length, by_test, ◌==◌, arith, append_assoc, append-nil,
}
use mathlib.Core.Path.{subst}
use unverified.Common.Words.{Bytes, IsByte}
use unverified.Errors.{Error}
use unverified.TunnelPb.{Frame}
use unverified.TunnelPb.Wire.{
  Message, ipv4, ipv6, hello, session, keepalive, rekey, close, frame_of,
}
use unverified.Pump.{Runtime, receive_returns}
use unverified.Pump.Taxonomy.{tag_of}
use unverified.Pump.Transfer.{framed_as, framed, frames_for, brought, Carried, pending_up}
use unverified.Pump.Exclusive.{IsFitting}

-- A packet that a device with buffers of this size reads.
abbrev pub IsRead : ℕ → Bytes → Type 0
IsRead size p = (length p ≤ size) × All IsByte p

-- A frame of such a packet: that of an IPv4 or of an IPv6 message, whose packet may be too long.
pub record IsOffer (size : ℕ) (f : Frame) : Type 0 where
  pub packet : Bytes
  pub filled : 0 < length packet
  pub fits : length packet ≤ size
  pub typed : All IsByte packet
  pub version : (f ≡ frame_of (ipv4 packet)) ⊎ (f ≡ frame_of (ipv6 packet))

framed-IsOffer : (size : ℕ) (p : Bytes) → IsRead size p → All (IsOffer size) (framed p)
unfolding tag_of frame_of
framed-IsOffer size [] h = tt
framed-IsOffer size (x ∷ xs) (fits, typed) =
    by_test (λ (t : Option ℕ). All (IsOffer size) (framed_as t (x ∷ xs))) (bit_and x 0xf0 == 0x40) _
      _ (λ _. (offer (inl refl), tt))
      (λ _.
        by_test (λ (t : Option ℕ). All (IsOffer size) (framed_as t (x ∷ xs)))
          (bit_and x 0xf0 == 0x60) _ _ (λ _. (offer (inr refl), tt)) (λ _. tt))
  where
    offer :
        {f : Frame}
        → (f ≡ frame_of (ipv4 (x ∷ xs))) ⊎ (f ≡ frame_of (ipv6 (x ∷ xs)))
        → IsOffer size f
    offer v = record {
      packet = x ∷ xs;
      filled = omega arith;
      fits = fits;
      typed = typed;
      version = v;
    }

frames_for-IsOffer :
    (size : ℕ) (ps : List Bytes) → All (IsRead size) ps → All (IsOffer size) (frames_for ps)
frames_for-IsOffer size [] h = tt
frames_for-IsOffer size (p ∷ ps) (h, hs) =
    All-append (IsOffer size) (framed p) (frames_for ps) (framed-IsOffer size p h)
      (frames_for-IsOffer size ps hs)

-- What waits in `SendFrame` is the frame of a packet that was read.
pub pending-IsOffer :
    (size : ℕ) (s : Runtime)
    → Carried s
    → All (IsRead size) s.traffic.read
    → All (IsOffer size) (pending_up s.up s.memory)
pending-IsOffer size s c h =
    All-append_left (IsOffer size) (pending_up s.up s.memory) s.traffic.sent
      (subst (All (IsOffer size)) (sym c.upwards) (frames_for-IsOffer size s.traffic.read h))

-- The packets that a message brings, and those of several messages, the latest first.
abbrev pub carries : Message → List Bytes
carries m = brought (frame_of m).close (frame_of m).packet

abbrev pub queue : List Message → List Bytes
queue [] = []
queue (m ∷ ms) = queue ms ++ carries m

pub queue-append :
    (ms : List Message) (m : Message) → queue (ms ++ (m ∷ [])) ≡ carries m ++ queue ms
queue-append [] m = sym (append-nil (carries m))
queue-append (n ∷ ms) m =
    ap (λ (ps : List Bytes). ps ++ carries n) (queue-append ms m)
    ∙ append_assoc (carries m) (queue ms) (carries n)

-- The messages of packets.
abbrev pub IsData : Message → Type 0
IsData (ipv4 p) = Unit {0}
IsData (ipv6 p) = Unit {0}
IsData m = ⊥

-- The packet of a message fits the buffers of this size.
abbrev pub IsSmall : ℕ → Message → Type 0
IsSmall size (ipv4 p) = length p ≤ size
IsSmall size (ipv6 p) = length p ≤ size
IsSmall size m = Unit {0}

pub small-IsFitting :
    (size pick : ℕ) (m : Message) (e : Error)
    → IsSmall size m
    → IsFitting size (receive_returns pick (some (frame_of m)) e)
unfolding frame_of
small-IsFitting size pick (ipv4 p) e h = h
small-IsFitting size pick (ipv6 p) e h = h
small-IsFitting size pick (hello x) e h = tt
small-IsFitting size pick (session x) e h = tt
small-IsFitting size pick (keepalive x) e h = tt
small-IsFitting size pick (rekey x) e h = tt
small-IsFitting size pick (close x) e h = tt
