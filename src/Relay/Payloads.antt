-- ===== src/Relay/Payloads.antt =====
-- The packets of the frames that the pump sends (internal/tunnel/session/pump_linux.go), and of the
-- messages that carry them on the stream.
use unverified.Common.{
  ◌≡◌, refl, ap, sym, ◌∙◌, ◌⊎◌, inl, inr, ℕ, Option, none, some, List, [], ◌∷◌, ◌++◌, map,
  append_assoc, All, All-append, arith,
}
use mathlib.Core.List.{reverse, reverse-cons, reverse-append}
use mathlib.Core.Path.{subst}
use unverified.Common.Words.{Bytes}
use unverified.TunnelPb.{Frame, Close}
use unverified.TunnelPb.Wire.{
  Message, ipv4, ipv6, hello, session, keepalive, rekey, close, IsValid, frame_of,
}
use unverified.TunnelPb.Wire.Carried.{Carries, IsEmptyPacket}
use unverified.Transport.{close_frame}
use unverified.Transport.Integrity.{CarryAll}
use unverified.Pump.{packet_frame, Runtime}
use unverified.Pump.Taxonomy.{tag_of}
use unverified.Pump.Transfer.{framed_as, framed, frames_for, brought, payloads, pending_up, Carried}

-- The packets with a version that the pump knows.
abbrev pub kept_as : Option ℕ → Bytes → List Bytes
kept_as none packet = []
kept_as (some tag) packet = packet ∷ []

abbrev pub versioned : Bytes → List Bytes
versioned [] = []
versioned (x ∷ xs) = kept_as (tag_of x) (x ∷ xs)

abbrev pub routed : List Bytes → List Bytes
routed [] = []
routed (p ∷ ps) = versioned p ++ routed ps

pub payloads-append : (fs gs : List Frame) → payloads (fs ++ gs) ≡ payloads fs ++ payloads gs
payloads-append [] gs = refl
payloads-append (f ∷ fs) gs =
    ap (λ (ps : List Bytes). brought f.close f.packet ++ ps) (payloads-append fs gs)
    ∙ sym (append_assoc (brought f.close f.packet) (payloads fs) (payloads gs))

brought-reverse : (c : Option Close) (p : Option Bytes) → brought c p ++ [] ≡ reverse (brought c p)
brought-reverse (some c) p = refl
brought-reverse none none = refl
brought-reverse none (some p) = refl

pub payloads-reverse : (fs : List Frame) → payloads (reverse fs) ≡ reverse (payloads fs)
payloads-reverse [] = refl
payloads-reverse (f ∷ fs) =
    ap payloads (reverse-cons f fs)
    ∙ payloads-append (reverse fs) (f ∷ [])
    ∙ ap (λ (ps : List Bytes). ps ++ (brought f.close f.packet ++ [])) (payloads-reverse fs)
    ∙ ap (λ (ps : List Bytes). reverse (payloads fs) ++ ps) (brought-reverse f.close f.packet)
    ∙ sym (reverse-append (brought f.close f.packet) (payloads fs))

payloads-framed_as : (t : Option ℕ) (p : Bytes) → payloads (framed_as t p) ≡ kept_as t p
payloads-framed_as none p = refl
payloads-framed_as (some tag) p = refl

payloads-framed : (p : Bytes) → payloads (framed p) ≡ versioned p
payloads-framed [] = refl
payloads-framed (x ∷ xs) = payloads-framed_as (tag_of x) (x ∷ xs)

pub payloads-frames_for : (ps : List Bytes) → payloads (frames_for ps) ≡ routed ps
payloads-frames_for [] = refl
payloads-frames_for (p ∷ ps) =
    rw (payloads-append (framed p) (frames_for ps), payloads-framed p, payloads-frames_for ps)

-- What a pump has read, from what it has given to its tunnel.
pub routed-payloads :
    (s : Runtime)
    → Carried s
    → routed s.traffic.read ≡ payloads (pending_up s.up s.memory) ++ payloads s.traffic.sent
routed-payloads s c =
    sym (payloads-frames_for s.traffic.read)
    ∙ ap payloads (sym c.upwards)
    ∙ payloads-append (pending_up s.up s.memory) s.traffic.sent

-- A frame of the pump: a packet of some bytes, or the one that closes the tunnel.
abbrev pub IsRelayed : Frame → Type 0
IsRelayed f =
    ((tag x : ℕ) × (xs : Bytes) × (f ≡ packet_frame tag (x ∷ xs)))
    ⊎ ((code : ℕ) × (message : Bytes) × (f ≡ close_frame code message))

framed_as-IsRelayed : (t : Option ℕ) (x : ℕ) (xs : Bytes) → All IsRelayed (framed_as t (x ∷ xs))
framed_as-IsRelayed none x xs = tt
framed_as-IsRelayed (some tag) x xs = (inl (tag, x, xs, refl), tt)

framed-IsRelayed : (p : Bytes) → All IsRelayed (framed p)
framed-IsRelayed [] = tt
framed-IsRelayed (x ∷ xs) = framed_as-IsRelayed (tag_of x) x xs

pub frames_for-IsRelayed : (ps : List Bytes) → All IsRelayed (frames_for ps)
frames_for-IsRelayed [] = tt
frames_for-IsRelayed (p ∷ ps) =
    All-append IsRelayed (framed p) (frames_for ps) (framed-IsRelayed p) (frames_for-IsRelayed ps)

-- The message that carries such a frame is valid and brings the same packet.
abbrev SameBrought : Frame → Message → Type 0
SameBrought f m = brought (frame_of m).close (frame_of m).packet ≡ brought f.close f.packet

packet-SameBrought :
    (tag x : ℕ) (xs : Bytes) (m : Message)
    → Carries (packet_frame tag (x ∷ xs)) m
    → SameBrought (packet_frame tag (x ∷ xs)) m
unfolding frame_of
packet-SameBrought tag x xs (ipv4 p) (t, e) = ap (λ (q : Bytes). q ∷ []) (sym e)
packet-SameBrought tag x xs (ipv6 p) (t, e) = ap (λ (q : Bytes). q ∷ []) (sym e)
packet-SameBrought tag x xs (hello h) (t, e) = absurd cc
packet-SameBrought tag x xs (session s) (t, (u, e, n)) = absurd cc
packet-SameBrought tag x xs (keepalive k) (t, e) = absurd cc
packet-SameBrought tag x xs (rekey k) (t, e) = absurd cc
packet-SameBrought tag x xs (close c) (t, e) = absurd cc

close-SameBrought :
    (code : ℕ) (message : Bytes) (m : Message)
    → Carries (close_frame code message) m
    → SameBrought (close_frame code message) m
unfolding frame_of
close-SameBrought code message (ipv4 p) (t, e) = absurd (omega arith)
close-SameBrought code message (ipv6 p) (t, e) = absurd (omega arith)
close-SameBrought code message (hello h) (t, e) = absurd cc
close-SameBrought code message (session s) (t, (u, e, n)) = absurd cc
close-SameBrought code message (keepalive k) (t, e) = absurd cc
close-SameBrought code message (rekey k) (t, e) = absurd cc
close-SameBrought code message (close c) (t, e) = refl

packet-filled :
    (tag x : ℕ) (xs : Bytes) (m : Message)
    → Carries (packet_frame tag (x ∷ xs)) m
    → IsEmptyPacket m
    → ⊥
packet-filled tag x xs m c (inl e) =
    let (t, p) = subst (Carries (packet_frame tag (x ∷ xs))) e c in cc
packet-filled tag x xs m c (inr e) =
    let (t, p) = subst (Carries (packet_frame tag (x ∷ xs))) e c in cc

close-filled :
    (code : ℕ) (message : Bytes) (m : Message)
    → Carries (close_frame code message) m
    → IsEmptyPacket m
    → ⊥
close-filled code message m c (inl e) =
    let (t, p) = subst (Carries (close_frame code message)) e c in omega arith
close-filled code message m c (inr e) =
    let (t, p) = subst (Carries (close_frame code message)) e c in omega arith

filled-IsValid : (m : Message) → (IsEmptyPacket m → ⊥) → IsValid m ⊎ IsEmptyPacket m → IsValid m
filled-IsValid m filled (inl v) = v
filled-IsValid m filled (inr e) = absurd (filled e)

relayed-IsValid :
    (f : Frame) (m : Message)
    → IsRelayed f
    → Carries f m
    → IsValid m ⊎ IsEmptyPacket m
    → IsValid m × SameBrought f m
relayed-IsValid f m (inl (tag, x, xs, e)) c v =
    let d = subst (λ (g : Frame). Carries g m) e c in
    (
      filled-IsValid m (packet-filled tag x xs m d) v,
      subst (λ (g : Frame). SameBrought g m) (sym e) (packet-SameBrought tag x xs m d),
    )
relayed-IsValid f m (inr (code, message, e)) c v =
    let d = subst (λ (g : Frame). Carries g m) e c in
    (
      filled-IsValid m (close-filled code message m d) v,
      subst (λ (g : Frame). SameBrought g m) (sym e) (close-SameBrought code message m d),
    )

pub carried_payloads :
    (fs : List Frame) (ms : List Message)
    → All IsRelayed fs
    → CarryAll fs ms
    → All IsValid ms × (payloads (map frame_of ms) ≡ payloads fs)
carried_payloads [] [] r c = (tt, refl)
carried_payloads [] (m ∷ ms) r c = absurd c
carried_payloads (f ∷ fs) [] r c = absurd c
carried_payloads (f ∷ fs) (m ∷ ms) (r, rs) ((c, v), cs) =
    let (valid, same) = relayed-IsValid f m r c v in
    let (valids, sames) = carried_payloads fs ms rs cs in ((valid, valids), rw (same, sames) refl)
