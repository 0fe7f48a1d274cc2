-- ===== src/Network/Outgoing.antt =====
-- What `SendFrame` and `Close` of internal/transport/grpc/wrapper.go do with the frames of a pump, on
-- a stream that may break.
use unverified.Common.{
  ◌≡◌, refl, ap, sym, ◌∙◌, ◌⊎◌, inl, inr, ℕ, ◌≤◌, ◌<◌, Bool, true, false, List, [], ◌++◌,
  append-nil, All, length, drop, drop-append, Bool-cases, if◌then◌else◌, ltb, ltb→lt, ltb→le,
  by_test,
}
use mathlib.Core.Path.{subst}
use unverified.Common.Words.{Bytes, IsByte}
use unverified.Errors.{Error, nil, sentinel, transport_closed, is_nil}
use unverified.Stream.{Writer}
use unverified.Stream.Uniform.{IsLawful}
use unverified.TunnelPb.{Frame}
use unverified.TunnelPb.Encode.{write_frame}
use unverified.TunnelPb.Wire.{Message, ipv4, ipv6, close, IsValid, encoding, frame_of}
use unverified.Transport.{Tunnel, send_frame, close_frame, after_send, after_close}
use unverified.Pump.{Down}
use unverified.Pump.Transfer.{payloads, brought}
use unverified.Network.Writes.{Cut, IsPumped, write_frame-Cuts, write_packet-refuses}
use unverified.Network.Offers.{carries, IsSmall, IsData, IsOffer}
use unverified.Network.Flow.{Flow, Flow-message, Flow-refusal}

-- From `t` to `u`, the tunnel has put the first part of a message with these packets on the stream.
pub record IsPut (size : ℕ) (ps : List Bytes) (t u : Tunnel) : Type 0 where
  pub message : Message
  pub tail : Bytes
  pub missing : Bytes
  pub opened : t.closed ≡ false
  pub sent : u.outgoing.sent ≡ t.outgoing.sent ++ tail
  pub whole : tail ++ missing ≡ encoding message
  pub valid : IsValid message
  pub small : IsSmall size message
  pub brings : carries message ≡ ps
  pub clean : u.closed ≡ false → (missing ≡ []) × IsData message

-- It has refused a frame, and is closed.
abbrev pub IsRefused : Tunnel → Tunnel → Type 0
IsRefused t u = (u.outgoing.sent ≡ t.outgoing.sent) × (u.closed ≡ true)

pub record IsOut (size : ℕ) (ps : List Bytes) (t u : Tunnel) : Type 0 where
  pub lawful : IsLawful u.outgoing
  pub incoming : u.incoming ≡ t.incoming
  pub written : IsPut size ps t u ⊎ IsRefused t u

Cut-IsOut :
    (size : ℕ) (m : Message) (t : Tunnel) (closed : Bool) (x : Error × Writer)
    → IsValid m
    → IsSmall size m
    → t.closed ≡ false
    → (closed ≡ false → (is_nil x.0 ≡ true) × IsData m)
    → Cut (encoding m) t.outgoing x
    → IsOut size (carries m) t (record t { outgoing = x.1; closed = closed })
Cut-IsOut size m t closed x v s opened shuts c = record {
  lawful = c.lawful;
  incoming = refl;
  written = inl (record {
    message = m;
    tail = c.tail;
    missing = c.missing;
    opened = opened;
    sent = c.sent;
    whole = c.whole;
    valid = v;
    small = s;
    brings = refl;
    clean = λ h. let (clean, packet) = shuts h in (c.clean clean, packet);
  });
}

-- What an open tunnel does, from what it does with the writer.
stays_open :
    (t : Tunnel) (e : Error) → (if is_nil e then t.closed else true) ≡ false → is_nil e ≡ true
stays_open t e h = elim (Bool-cases (is_nil e)) [ inl clean ↦ clean | inr failed ↦ absurd cc ]

-- A frame that the codec refuses leaves the stream alone.
abbrev IsTooLong : Frame → Writer → Type 0
IsTooLong f w = ((write_frame f w).1 ≡ w) × (is_nil (write_frame f w).0 ≡ false)

send_message :
    (size : ℕ) (m : Message) (t : Tunnel)
    → IsLawful t.outgoing
    → t.closed ≡ false
    → IsPumped m
    → IsData m
    → IsSmall size m
    → IsValid m ⊎ IsTooLong (frame_of m) t.outgoing
    → IsOut size (carries m) t (after_send t (write_frame (frame_of m) t.outgoing)).1
send_message size m t l opened p d s (inl v) =
    let x = write_frame (frame_of m) t.outgoing in
    Cut-IsOut size m t (if is_nil x.0 then t.closed else true) x v s opened
      (λ h. (stays_open t x.0 h, d)) (write_frame-Cuts m p v t.outgoing l)
send_message size m t l opened p d s (inr (same, failed)) = record {
  lawful = subst IsLawful (sym same) l;
  incoming = refl;
  written =
      inr
        (ap (λ (w : Writer). w.sent) same, ap (λ (b : Bool). if b then t.closed else true) failed);
}

length-cases : (p : Bytes) → (length p ≤ 65535) ⊎ (65535 < length p)
length-cases p = elim (Bool-cases (ltb 65535 (length p))) [
  | inl long ↦ inr (ltb→lt 65535 (length p) long)
  | inr short ↦ inl (ltb→le 65535 (length p) short)
]

ipv4_written :
    (p : Bytes) (w : Writer)
    → 0 < length p
    → All IsByte p
    → IsValid (ipv4 p) ⊎ IsTooLong (frame_of (ipv4 p)) w
unfolding write_frame frame_of
ipv4_written p w filled typed = elim (length-cases p) [
  | inl short ↦ inl (filled, short, typed)
  | inr long ↦ inr (write_packet-refuses 4 p w long)
]

ipv6_written :
    (p : Bytes) (w : Writer)
    → 0 < length p
    → All IsByte p
    → IsValid (ipv6 p) ⊎ IsTooLong (frame_of (ipv6 p)) w
unfolding write_frame frame_of
ipv6_written p w filled typed = elim (length-cases p) [
  | inl short ↦ inl (filled, short, typed)
  | inr long ↦ inr (write_packet-refuses 6 p w long)
]

send_open :
    (size : ℕ) (f : Frame) (t : Tunnel)
    → IsLawful t.outgoing
    → t.closed ≡ false
    → IsOffer size f
    → IsOut size (brought f.close f.packet) t (after_send t (write_frame f t.outgoing)).1
send_open size f t l opened o = versions o.version
  where
    Goal : Frame → Type 0
    Goal g = IsOut size (brought g.close g.packet) t (after_send t (write_frame g t.outgoing)).1

    versions : (f ≡ frame_of (ipv4 o.packet)) ⊎ (f ≡ frame_of (ipv6 o.packet)) → Goal f
    versions (inl e) = subst Goal (sym e) (
        send_message size (ipv4 o.packet) t l opened tt tt o.fits
          (ipv4_written o.packet t.outgoing o.filled o.typed))
    versions (inr e) = subst Goal (sym e) (
        send_message size (ipv6 o.packet) t l opened tt tt o.fits
          (ipv6_written o.packet t.outgoing o.filled o.typed))

closed-IsOut :
    (size : ℕ) (ps : List Bytes) (t : Tunnel)
    → IsLawful t.outgoing
    → t.closed ≡ true
    → IsOut size ps t t
closed-IsOut size ps t l closed = record {
  lawful = l;
  incoming = refl;
  written = inr (refl, closed);
}

-- `SendFrame` of a frame of the pump, on an open tunnel or on a closed one.
pub send_frame-IsOut :
    (size : ℕ) (f : Frame) (t : Tunnel)
    → IsLawful t.outgoing
    → IsOffer size f
    → IsOut size (brought f.close f.packet) t (send_frame f t).1
unfolding send_frame
send_frame-IsOut size f t l o =
    by_test (λ (x : Error × Tunnel). IsOut size (brought f.close f.packet) t x.1) t.closed
      (sentinel transport_closed, t) (after_send t (write_frame f t.outgoing))
      (closed-IsOut size (brought f.close f.packet) t l) (λ opened. send_open size f t l opened o)

-- The `Close` of the watcher.
pub close-IsOut :
    (size code : ℕ) (message : Bytes) (t : Tunnel)
    → IsLawful t.outgoing
    → IsValid (close (record { code = code; message = message }))
    → IsOut size [] t (unverified.Transport.close code message t).1
unfolding unverified.Transport.close frame_of
close-IsOut size code message t l v =
    let m = close (record { code = code; message = message }) in
    let x = write_frame (frame_of m) t.outgoing in
    by_test (λ (y : Error × Tunnel). IsOut size [] t y.1) t.closed (nil, t) (after_close t x)
      (closed-IsOut size [] t l)
      (λ opened.
        Cut-IsOut size m t true x v tt opened (λ h. absurd cc)
          (write_frame-Cuts m tt v t.outgoing l))

-- The direction goes on with what the step has written.
pub IsOut-Flow :
    (size : ℕ) (ps : List Bytes) (t u : Tunnel) (sent more : List Frame) (input : Bytes)
    (down : Down) (received : List Frame)
    → IsOut size ps t u
    → payloads more ≡ ps ++ payloads sent
    → Flow size t.closed sent input down received
    → Flow size u.closed more (input ++ drop (length t.outgoing.sent) u.outgoing.sent) down received
IsOut-Flow size ps t u sent more input down received o brings f = written o.written
  where
    After : Bytes → Type 0
    After tail = Flow size u.closed more (input ++ tail) down received

    written :
        IsPut size ps t u ⊎ IsRefused t u → After (drop (length t.outgoing.sent) u.outgoing.sent)
    written (inl p) =
        subst After
          (sym (
            ap (λ (bs : Bytes). drop (length t.outgoing.sent) bs) p.sent
            ∙ drop-append t.outgoing.sent p.tail))
          (Flow-message size t.closed u.closed sent more input down received p.message p.tail
            p.missing f p.opened p.valid p.small
            (brings ∙ ap (λ (qs : List Bytes). qs ++ payloads sent) (sym p.brings)) p.whole p.clean)
    written (inr (same, closed)) =
        subst After
          (sym (
            ap (λ (bs : Bytes). drop (length t.outgoing.sent) bs)
              (same ∙ sym (append-nil t.outgoing.sent))
            ∙ drop-append t.outgoing.sent []))
          (subst (λ (bs : Bytes). Flow size u.closed more bs down received) (sym (append-nil input))
            (Flow-refusal size t.closed u.closed sent more input down received ps f brings
              (λ h. absurd cc)))
