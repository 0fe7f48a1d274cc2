-- ===== src/TunnelPb/Decode/Frames.antt =====
-- What `ReadFrame` of internal/transport/grpc/tunnelpb/codec.go has consumed when it
-- succeeds.
use unverified.Common.{ℕ, ◌≡◌, refl, ◌++◌, ◌∷◌, ◌∙◌, ap, ◌⊎◌, inl, inr, arith, All, get_or, some}
use mathlib.Core.Path.{subst}
use unverified.Common.Words.{Bytes, IsByte}
use unverified.Errors.{Error, nil}
use unverified.Stream.{Reader, Result, ok, fail, read_full}
use unverified.Stream.Laws.{read_full-ok}
use unverified.TunnelPb.{Frame, blank}
use unverified.TunnelPb.Decode.{
  Returned, control, packet_frame, read_body, read_tagged, read_frame, read_hello, read_session,
  read_keepalive, read_rekey, read_close, read_packet,
}
use unverified.TunnelPb.Decode.Pieces.{
  Took, read_hello-Took, read_keepalive-Took, read_rekey-Took, read_close-Took, read_packet-Took,
}
use unverified.TunnelPb.Decode.Sessions.{read_session-Took, one_byte}
use unverified.TunnelPb.Decode.Failures.{
  NotNil, read_hello-IsShort, read_keepalive-IsShort, read_rekey-IsShort, read_close-IsShort,
  read_session-NotNil,
}
use unverified.TunnelPb.Wire.{
  Message, ipv4, ipv6, hello, session, keepalive, rekey, close, IsValid, encoding, frame_of,
}

-- The frame `f` is that of a valid message, whose bytes stood at the front of `r`.
pub record Decoded (r : Reader) (f : Frame) (r' : Reader) : Type 0 where
  pub message : Message
  pub frame : f ≡ frame_of message
  pub valid : IsValid message
  pub split : r.input ≡ encoding message ++ r'.input
  pub same_last : r'.last ≡ r.last

-- A control record returns a frame with no error only if its payload was read.
control-ok :
    {A : Type 0} (b : Frame) (put : A → Frame) (x : Result A × Reader) (f : Frame) (r' : Reader)
    → ((e : Error) (t : Reader) → x ≡ (fail e, t) → NotNil e)
    → control b put x ≡ ((some f, nil), r')
    → (a : A) × (x ≡ (ok a, r')) × (f ≡ put a)
control-ok {A} b put (ok a, t) f r' never h =
    (a, ap {B = Result A × Reader} (λ (p : Returned). (ok a, p.1)) h, cc)
control-ok b put (fail e, t) f r' never h = cc (never e t refl)

packet_frame-ok :
    (tag : ℕ) (x : Result Bytes × Reader) (f : Frame) (r' : Reader)
    → packet_frame tag x ≡ ((some f, nil), r')
    → (p : Bytes) × (x ≡ (ok p, r')) × (f ≡ record (blank tag) { packet = some p })
packet_frame-ok tag (ok p, t) f r' h =
    (p, ap {B = Result Bytes × Reader} (λ (x : Returned). (ok p, x.1)) h, cc)
packet_frame-ok tag (fail e, t) f r' h = cc

-- The reader behind the tag byte.
record Tagged (r t : Reader) (tag : ℕ) : Type 0 where
  front : r.input ≡ tag ∷ t.input
  typed : All IsByte t.input
  last : t.last ≡ r.last

-- A payload that was taken behind the tag byte makes a message.
decoded :
    (r t r' : Reader) (tag : ℕ) (f : Frame) (m : Message) (body : Bytes)
    → Tagged r t tag
    → f ≡ frame_of m
    → IsValid m
    → Took t r' body
    → encoding m ≡ tag ∷ body
    → Decoded r f r'
decoded r t r' tag f m body tagged frame valid took e = record {
  message = m;
  frame = frame;
  valid = valid;
  split = tagged.front ∙ rw e (ap (λ (bs : Bytes). tag ∷ bs) took.split);
  same_last = took.same_last ∙ tagged.last;
}

module _ (r t r' : Reader) (f : Frame) where
  body_hello : Tagged r t 0x10 → read_body 0x10 t ≡ ((some f, nil), r') → Decoded r f r'
  unfolding read_body encoding frame_of
  body_hello tagged h =
      let (x, e, frame) =
        control-ok _ _ (read_hello t) f r' (λ d u q. (read_hello-IsShort t d u q).2) h in
      let (valid, took) = read_hello-Took t x r' tagged.typed e in
      decoded r t r' 0x10 f (hello x) _ tagged frame valid took refl

  body_session : Tagged r t 0x11 → read_body 0x11 t ≡ ((some f, nil), r') → Decoded r f r'
  unfolding read_body encoding frame_of
  body_session tagged h =
      let (x, e, frame) =
        control-ok _ _ (read_session t) f r' (λ d u q. read_session-NotNil t d u q) h in
      let (valid, took) = read_session-Took t x r' tagged.typed e in
      decoded r t r' 0x11 f (session x) _ tagged frame valid took refl

  body_keepalive : Tagged r t 0x12 → read_body 0x12 t ≡ ((some f, nil), r') → Decoded r f r'
  unfolding read_body encoding frame_of
  body_keepalive tagged h =
      let (x, e, frame) =
        control-ok _ _ (read_keepalive t) f r' (λ d u q. (read_keepalive-IsShort t d u q).2) h in
      let (valid, took) = read_keepalive-Took t x r' tagged.typed e in
      decoded r t r' 0x12 f (keepalive x) _ tagged frame valid took refl

  body_rekey : Tagged r t 0x13 → read_body 0x13 t ≡ ((some f, nil), r') → Decoded r f r'
  unfolding read_body encoding frame_of
  body_rekey tagged h =
      let (x, e, frame) =
        control-ok _ _ (read_rekey t) f r' (λ d u q. (read_rekey-IsShort t d u q).2) h in
      let (valid, took) = read_rekey-Took t x r' tagged.typed e in
      decoded r t r' 0x13 f (rekey x) _ tagged frame valid took refl

  body_close : Tagged r t 0x14 → read_body 0x14 t ≡ ((some f, nil), r') → Decoded r f r'
  unfolding read_body encoding frame_of
  body_close tagged h =
      let (x, e, frame) =
        control-ok _ _ (read_close t) f r' (λ d u q. (read_close-IsShort t d u q).2) h in
      let (valid, took) = read_close-Took t x r' tagged.typed e in
      decoded r t r' 0x14 f (close x) _ tagged frame valid took refl

  body_ipv4 : Tagged r t 0x04 → read_body 0x04 t ≡ ((some f, nil), r') → Decoded r f r'
  unfolding read_body encoding frame_of
  body_ipv4 tagged h =
      let (p, e, frame) = packet_frame-ok 0x04 (read_packet t) f r' h in
      let (valid, took) = read_packet-Took t p r' tagged.typed e in
      decoded r t r' 0x04 f (ipv4 p) _ tagged frame valid took refl

  body_ipv6 : Tagged r t 0x06 → read_body 0x06 t ≡ ((some f, nil), r') → Decoded r f r'
  unfolding read_body encoding frame_of
  body_ipv6 tagged h =
      let (p, e, frame) = packet_frame-ok 0x06 (read_packet t) f r' h in
      let (valid, took) = read_packet-Took t p r' tagged.typed e in
      decoded r t r' 0x06 f (ipv6 p) _ tagged frame valid took refl

-- Any other tag is refused, with no frame.
known_body :
    (tag : ℕ) (t : Reader) (f : Frame) (r' : Reader)
    → read_body tag t ≡ ((some f, nil), r')
    → (tag ≡ 0x04)
      ⊎ (tag ≡ 0x06)
      ⊎ (tag ≡ 0x10)
      ⊎ (tag ≡ 0x11)
      ⊎ (tag ≡ 0x12)
      ⊎ (tag ≡ 0x13)
      ⊎ (tag ≡ 0x14)
unfolding read_body
known_body tag t f r' h = ground arith

read_tagged-ok :
    (x : Result Bytes × Reader) (f : Frame) (r' : Reader)
    → read_tagged x ≡ ((some f, nil), r')
    → (b : Bytes) × (t : Reader) × (x ≡ (ok b, t))
      × (read_body (get_or b 0 0) t ≡ ((some f, nil), r'))
read_tagged-ok (ok b, t) f r' h = (b, t, refl, h)
read_tagged-ok (fail e, t) f r' h = cc

read_tag :
    (r t : Reader) (b : Bytes)
    → All IsByte r.input
    → read_full 1 r ≡ (ok b, t)
    → Tagged r t (get_or b 0 0)
read_tag r t b typed h =
    let (len, split, last) = read_full-ok 1 r b t h in
    let front = split ∙ ap (λ (bs : Bytes). bs ++ t.input) (one_byte b len) in
    record { front = front; typed = (subst (All IsByte) front typed).1; last = last }

-- If `ReadFrame` returns a frame and no error on a stream of bytes, then the frame is that of a
-- valid message, and what it consumed is exactly that message's bytes.
pub read_frame-Decoded :
    (r : Reader) (f : Frame) (r' : Reader)
    → All IsByte r.input
    → read_frame r ≡ ((some f, nil), r')
    → Decoded r f r'
unfolding read_frame
read_frame-Decoded r f r' typed h =
    let (b, t, first, body) = read_tagged-ok (read_full 1 r) f r' h in
    let tagged = read_tag r t b typed first in
    by_tag t (get_or b 0 0) tagged body (known_body (get_or b 0 0) t f r' body)
  where
    by_tag :
        (t : Reader) (tag : ℕ)
        → Tagged r t tag
        → read_body tag t ≡ ((some f, nil), r')
        → (tag ≡ 0x04)
          ⊎ (tag ≡ 0x06)
          ⊎ (tag ≡ 0x10)
          ⊎ (tag ≡ 0x11)
          ⊎ (tag ≡ 0x12)
          ⊎ (tag ≡ 0x13)
          ⊎ (tag ≡ 0x14)
        → Decoded r f r'
    by_tag t tag tagged body (inl e) = body_ipv4 r t r' f (rw e at tagged) (rw e at body)
    by_tag t tag tagged body (inr (inl e)) = body_ipv6 r t r' f (rw e at tagged) (rw e at body)
    by_tag t tag tagged body (inr (inr (inl e))) =
        body_hello r t r' f (rw e at tagged) (rw e at body)
    by_tag t tag tagged body (inr (inr (inr (inl e)))) =
        body_session r t r' f (rw e at tagged) (rw e at body)
    by_tag t tag tagged body (inr (inr (inr (inr (inl e))))) =
        body_keepalive r t r' f (rw e at tagged) (rw e at body)
    by_tag t tag tagged body (inr (inr (inr (inr (inr (inl e)))))) =
        body_rekey r t r' f (rw e at tagged) (rw e at body)
    by_tag t tag tagged body (inr (inr (inr (inr (inr (inr e)))))) =
        body_close r t r' f (rw e at tagged) (rw e at body)
