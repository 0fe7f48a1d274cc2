-- ===== src/Network/Writes.antt =====
-- What `WriteFrame` of internal/transport/grpc/tunnelpb/codec.go leaves of a packet or a `Close` on a
-- stream that may break: a first part of its bytes.
use unverified.Common.{
  ◌≡◌, refl, ap, sym, ◌∙◌, ℕ, ◌≤◌, ◌<◌, true, false, some, List, [], ◌∷◌, ◌++◌, append_assoc,
  append-nil, All, length, take, drop, take-append-drop, le→ltb, lt→ltb, Bool-cases, inl, inr,
  arith, ◌%◌,
}
use mathlib.Core.Path.{subst}
use unverified.Common.Words.{Bytes, put_be}
use unverified.Errors.{Error, nil, is_nil}
use unverified.Stream.{Writer, Outcome, accepts, breaks, Action, ◌>>◌, unless_failed, write}
use unverified.Stream.Uniform.{IsLawfulOutcome, IsLawful}
use unverified.TunnelPb.{Close}
use unverified.TunnelPb.Encode.{write_frame, write_packet, write_close}
use unverified.TunnelPb.Wire.{
  Message, ipv4, ipv6, hello, session, keepalive, rekey, close, IsValid, encoding, frame_of,
  close_head,
}
use unverified.Stream.Uniform.{nil_of}

-- A run that has put the first part of these bytes on the writer, and all of them without an error.
pub record Cut (bs : Bytes) (w : Writer) (x : Error × Writer) : Type 0 where
  pub tail : Bytes
  pub missing : Bytes
  pub sent : x.1.sent ≡ w.sent ++ tail
  pub whole : tail ++ missing ≡ bs
  pub clean : is_nil x.0 ≡ true → missing ≡ []
  pub lawful : IsLawful x.1

abbrev Cuts : Action → Bytes → Type 0
Cuts m bs = (w : Writer) → IsLawful w → Cut bs w (m w)

Cut-write :
    (bs sent : Bytes) (plan : List Outcome)
    → All IsLawfulOutcome plan
    → Cut bs (record { sent = sent; plan = plan }) (write bs (record { sent = sent; plan = plan }))
unfolding write
Cut-write bs sent [] l = record {
  tail = bs;
  missing = [];
  sent = refl;
  whole = append-nil bs;
  clean = λ h. refl;
  lawful = tt;
}
Cut-write bs sent (accepts ∷ plan) (_, l) = record {
  tail = bs;
  missing = [];
  sent = refl;
  whole = append-nil bs;
  clean = λ h. refl;
  lawful = l;
}
Cut-write bs sent (breaks n e ∷ plan) (fails, l) = record {
  tail = take n bs;
  missing = drop n bs;
  sent = refl;
  whole = take-append-drop n bs;
  clean = λ h. absurd cc;
  lawful = l;
}

Cuts-write : (bs : Bytes) → Cuts (write bs) bs
Cuts-write bs w l = Cut-write bs w.sent w.plan l

-- Behind a first part that succeeded, and behind one that failed.
Cut-on :
    (a b : Bytes) (w v : Writer) (x : Error × Writer) (c : Cut a w (nil, v))
    → Cut b v x
    → Cut (a ++ b) w x
Cut-on a b w v x c d = record {
  tail = c.tail ++ d.tail;
  missing = d.missing;
  sent = d.sent ∙ rw (c.sent, append_assoc w.sent c.tail d.tail);
  whole =
      append_assoc c.tail d.tail d.missing
      ∙ ap (λ (bs : Bytes). c.tail ++ bs) d.whole
      ∙ ap (λ (bs : Bytes). bs ++ b)
          (sym (append-nil c.tail)
            ∙ ap (λ (bs : Bytes). c.tail ++ bs) (sym (c.clean refl))
            ∙ c.whole);
  clean = d.clean;
  lawful = d.lawful;
}

Cut-short :
    (a b : Bytes) (w : Writer) (x : Error × Writer)
    → is_nil x.0 ≡ false
    → Cut a w x
    → Cut (a ++ b) w x
Cut-short a b w x failed c = record {
  tail = c.tail;
  missing = c.missing ++ b;
  sent = c.sent;
  whole = sym (append_assoc c.tail c.missing b) ∙ ap (λ (bs : Bytes). bs ++ b) c.whole;
  clean = λ h. absurd cc;
  lawful = c.lawful;
}

Cuts->> : (m k : Action) (a b : Bytes) → Cuts m a → Cuts k b → Cuts (m >> k) (a ++ b)
Cuts->> m k a b cm ck w l = joined (m w) (cm w l)
  where
    joined : (x : Error × Writer) → Cut a w x → Cut (a ++ b) w (unless_failed x k)
    joined (e, v) c = elim (Bool-cases (is_nil e)) [
      | inl clean ↦ rw clean (
          Cut-on a b w v (k v) (subst (λ (f : Error). Cut a w (f, v)) (nil_of e clean) c)
            (ck v c.lawful))
      | inr failed ↦ rw failed (Cut-short a b w (e, v) failed c)
    ]

write_packet-Cuts :
    (tag : ℕ) (p : Bytes)
    → length p ≤ 65535
    → Cuts (write_packet tag p) (tag ∷ (put_be 2 (length p) ++ p))
unfolding write_packet
write_packet-Cuts tag p short =
    rw (le→ltb 65535 (length p) short, u16_len)
      (Cuts->> (write (tag ∷ [])) (write (put_be 2 (length p)) >> write p) (tag ∷ [])
        (put_be 2 (length p) ++ p) (Cuts-write (tag ∷ []))
        (Cuts->> (write (put_be 2 (length p))) (write p) (put_be 2 (length p)) p
          (Cuts-write (put_be 2 (length p))) (Cuts-write p)))
  where
    u16_len : length p % 65536 ≡ length p
    u16_len = omega arith

-- A longer packet is refused, and nothing is written.
pub write_packet-refuses :
    (tag : ℕ) (p : Bytes) (w : Writer)
    → 65535 < length p
    → ((write_packet tag p w).1 ≡ w) × (is_nil (write_packet tag p w).0 ≡ false)
unfolding write_packet
write_packet-refuses tag p w long =
    (rw (lt→ltb 65535 (length p) long), rw (lt→ltb 65535 (length p) long))

-- The messages that a pump's tunnel writes.
abbrev pub IsPumped : Message → Type 0
IsPumped (ipv4 p) = Unit {0}
IsPumped (ipv6 p) = Unit {0}
IsPumped (close c) = Unit {0}
IsPumped m = ⊥

write_close-Cuts :
    (c : Close) → length c.message ≤ 255 → Cuts (write_close (some c)) (close_head c ++ c.message)
unfolding write_close
write_close-Cuts c short =
    rw (le→ltb 255 (length c.message) short, byte_len)
      (Cuts->> (write (close_head c)) (write c.message) (close_head c) c.message
        (Cuts-write (close_head c)) (Cuts-write c.message))
  where
    byte_len : length c.message % 256 ≡ length c.message
    byte_len = omega arith

pub write_frame-Cuts :
    (m : Message)
    → IsPumped m
    → IsValid m
    → (w : Writer) → IsLawful w
    → Cut (encoding m) w (write_frame (frame_of m) w)
unfolding write_frame frame_of encoding
write_frame-Cuts (ipv4 p) h v = write_packet-Cuts 4 p v.1
write_frame-Cuts (ipv6 p) h v = write_packet-Cuts 6 p v.1
write_frame-Cuts (close c) h v =
    Cuts->> (write (0x14 ∷ [])) (write_close (some c)) (0x14 ∷ []) (close_head c ++ c.message)
      (Cuts-write (0x14 ∷ [])) (write_close-Cuts c v.1.0)
write_frame-Cuts (hello h) p v = absurd p
write_frame-Cuts (session s) p v = absurd p
write_frame-Cuts (keepalive k) p v = absurd p
write_frame-Cuts (rekey k) p v = absurd p
