-- ===== src/Network/Taken.antt =====
-- What `RecvFrame` takes from the stream between two pumps
-- (internal/transport/grpc/tunnelpb/codec.go, internal/transport/grpc/wrapper.go).
use unverified.Common.{
  ◌≡◌, ◌≢◌, ap, sym, ◌∙◌, ◌⊎◌, inl, inr, ℕ, Bool, false, Option, none, some, List, [], ◌∷◌, ◌++◌,
  All, All-append, All-append_left, append_assoc,
}
use mathlib.Core.Path.{subst}
use unverified.Common.Words.{Bytes, IsByte}
use unverified.Errors.{Error, nil}
use unverified.Stream.{Reader, reader}
use unverified.TunnelPb.{Frame, blank}
use unverified.TunnelPb.Decode.{Returned, read_frame}
use unverified.TunnelPb.Decode.Frames.{read_frame-Decoded}
use unverified.TunnelPb.Wire.{
  Message, ipv4, ipv6, hello, session, keepalive, rekey, close, IsValid, encoding, frame_of,
}
use unverified.TunnelPb.Wire.RoundTrip.{read_frame-encoding}
use unverified.TunnelPb.Wire.Framing.{encoding-IsByte}
use unverified.Transport.Integrity.{encodings}
use unverified.Pump.{Down, receive_returns}
use unverified.Pump.Exclusive.{IsFitting}
use unverified.Pump.Transfer.{payloads, brought}
use unverified.Network.Offers.{carries, queue, IsSmall, IsData, small-IsFitting}
use unverified.Network.Flow.{Flow, Gone}

encodings-IsByte : (ms : List Message) → All IsValid ms → All IsByte (encodings ms)
encodings-IsByte [] v = tt
encodings-IsByte (m ∷ ms) (v, vs) =
    All-append IsByte (encoding m) (encodings ms) (encoding-IsByte m v) (encodings-IsByte ms vs)

encoding-filled : (m : Message) (bs : Bytes) → [] ≢ encoding m ++ bs
unfolding encoding
encoding-filled (ipv4 p) bs h = absurd cc
encoding-filled (ipv6 p) bs h = absurd cc
encoding-filled (hello x) bs h = absurd cc
encoding-filled (session s) bs h = absurd cc
encoding-filled (keepalive k) bs h = absurd cc
encoding-filled (rekey k) bs h = absurd cc
encoding-filled (close c) bs h = absurd cc

abbrev frame_or_blank : Option Frame → Frame
frame_or_blank none = blank 0
frame_or_blank (some f) = f

-- Streams that begin with two messages and are equal begin with the same one.
encodings_agree :
    (m n : Message) (bs cs : Bytes)
    → IsValid m
    → IsValid n
    → encoding m ++ bs ≡ encoding n ++ cs
    → (frame_of m ≡ frame_of n) × (bs ≡ cs)
encodings_agree m n bs cs v w same =
    let e : ◌≡◌ {A = Returned} ((some (frame_of m), nil), reader bs nil)
        ((some (frame_of n), nil), reader cs nil) =
      sym (read_frame-encoding m bs nil v)
      ∙ ap (λ (ds : Bytes). read_frame (reader ds nil)) same
      ∙ read_frame-encoding n cs nil w in
    (ap (λ (x : Returned). frame_or_blank x.0.0) e, ap (λ (x : Returned). x.1.input) e)

-- A frame that was read on a part of the unread bytes is the next one.
pub record IsNext (size : ℕ) (closed : Bool) (sent : List Frame) (input : Bytes)
    (received : List Frame) (f : Frame) : Type 0 where
  pub fits : (pick : ℕ) (e : Error) → IsFitting size (receive_returns pick (some f) e)
  pub flow : (down : Down) → Flow size closed sent input down (f ∷ received)

message-IsNext :
    (size : ℕ) (closed : Bool) (sent received : List Frame) (m : Message) (left missing : Bytes)
    (extra : List Bytes) (rest : List Message)
    → payloads sent ≡ extra ++ (queue rest ++ payloads received)
    → All IsValid rest
    → All (IsSmall size) rest
    → (closed ≡ false → (missing ≡ []) × (extra ≡ []) × All IsData rest)
    → IsValid m
    → encodings rest ≡ encoding m ++ (left ++ missing)
    → IsNext size closed sent left received (frame_of m)
message-IsNext size closed sent received m left missing extra [] offered valid small whole v same =
    absurd (encoding-filled m (left ++ missing) same)
message-IsNext size closed sent received m left missing extra (n ∷ rest) offered (w, valid)
      (s, small) whole v same =
    let (frames, bytes_left) =
      encodings_agree m n (left ++ missing) (encodings rest) v w (sym same) in
    record {
      fits = λ pick e.
          subst (λ (f : Frame). IsFitting size (receive_returns pick (some f) e)) (sym frames)
            (small-IsFitting size pick n e s);
      flow = λ down. record {
        rest = rest;
        missing = missing;
        extra = extra;
        offered =
            offered
            ∙ ap (λ (ps : List Bytes). extra ++ ps)
                (append_assoc (queue rest) (carries n) (payloads received)
                  ∙ ap
                      (λ (f : Frame). queue rest ++ (brought f.close f.packet ++ payloads received))
                      (sym frames));
        valid = valid;
        small = small;
        unread = inl bytes_left;
        open_whole = λ h.
            let (nothing, none_refused, packets) = whole h in (nothing, none_refused, packets.1);
      };
    }

pub Flow-receives :
    (size : ℕ) (closed : Bool) (sent received : List Frame) (front back : Bytes) (down : Down)
    (e : Error) (f : Frame) (r : Reader)
    → Flow size closed sent (front ++ back) down received
    → (Gone down → ⊥)
    → read_frame (reader front e) ≡ ((some f, nil), r)
    → IsNext size closed sent (r.input ++ back) received f
Flow-receives size closed sent received front back down e f r flow here h = next flow.unread
  where
    next :
        ((front ++ back) ++ flow.missing ≡ encodings flow.rest) ⊎ Gone down
        → IsNext size closed sent (r.input ++ back) received f
    next (inr gone) = absurd (here gone)
    next (inl unread) =
        let typed = All-append_left IsByte front back (
          All-append_left IsByte (front ++ back) flow.missing
            (subst (All IsByte) (sym unread) (encodings-IsByte flow.rest flow.valid))) in
        let d = read_frame-Decoded (reader front e) f r typed h in
        subst (IsNext size closed sent (r.input ++ back) received) (sym d.frame) (
          message-IsNext size closed sent received d.message (r.input ++ back) flow.missing
            flow.extra flow.rest flow.offered flow.valid flow.small flow.open_whole d.valid
            (sym unread
              ∙ ap (λ (bs : Bytes). (bs ++ back) ++ flow.missing) d.split
              ∙ rw (
                append_assoc (encoding d.message) r.input back,
                append_assoc (encoding d.message) (r.input ++ back) flow.missing,
              )))
