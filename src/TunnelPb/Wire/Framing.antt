-- ===== src/TunnelPb/Wire/Framing.antt =====
-- Streams of internal/transport/grpc/tunnelpb/codec.go: messages that are cut, that follow
-- one another, and that are written and read back.
use unverified.Common.{
  ℕ, ◌≡◌, ◌≢◌, ◌<◌, ◌++◌, [], ◌∷◌, List, ◌∙◌, ap, sym, ◌⊎◌, inl, inr, length, arith, All,
  All-append, All-append_left, some, append_assoc, append-nil,
}
use mathlib.Core.Path.{subst}
use unverified.Common.Words.{Bytes, IsByte, put_be, put_be-IsByte}
use unverified.Errors.{Error, nil}
use unverified.Stream.{Reader, reader, reliable, Writer}
use unverified.TunnelPb.{Frame}
use unverified.TunnelPb.Encode.{write_frame}
use unverified.TunnelPb.Encode.Written.{write_frame-IsWritten}
use unverified.TunnelPb.Decode.{Returned, read_frame}
use unverified.TunnelPb.Decode.Frames.{read_frame-Decoded}
use unverified.TunnelPb.Wire.{
  Message, ipv4, ipv6, hello, session, keepalive, rekey, close, IsValid, IsDns, IsAddress, address,
  hello_head, session_head, close_head, joined, encoding, frame_of,
}
use unverified.TunnelPb.Wire.Carried.{IsTyped, Carries, IsEmptyPacket}
use unverified.TunnelPb.Wire.RoundTrip.{read_frame-encoding}

joined-IsByte : (ips : List Bytes) → All IsDns ips → All IsByte (joined ips)
joined-IsByte [] h = tt
joined-IsByte (ip ∷ ips) ((_, b), more) =
    All-append IsByte ip (joined ips) b (joined-IsByte ips more)

address-IsByte : (n : ℕ) (ip : Bytes) → n < 256 → IsAddress n ip → All IsByte (address ip)
address-IsByte n ip small (inl unset, b) = (rw unset (omega arith), b)
address-IsByte n ip small (inr len, b) = (omega (arith, len), b)

two : (xs ys : Bytes) → All IsByte xs → All IsByte ys → All IsByte (xs ++ ys)
two xs ys = All-append IsByte xs ys

pub encoding-IsByte : (m : Message) → IsValid m → All IsByte (encoding m)
unfolding encoding
encoding-IsByte (ipv4 p) v = (omega arith, two _ p (put_be-IsByte 2 _) v.2)
encoding-IsByte (ipv6 p) v = (omega arith, two _ p (put_be-IsByte 2 _) v.2)
encoding-IsByte (hello h) (_, (len, text), _) =
    let tail : All IsByte (length h.client_id ∷ put_be 4 h.cipher_suite) =
      (omega arith, put_be-IsByte 4 _) in
    (
      omega arith,
      two (hello_head h) h.client_id (two (put_be 4 h.protocol_version) _ (put_be-IsByte 4 _) tail)
          text,
    )
encoding-IsByte (session s) (v4, v6, few, dns, mtu) =
    let head : All IsByte (session_head s) = (omega arith, put_be-IsByte 4 _) in
    let addresses =
      two (address s.assigned_ipv6) (joined s.dns_servers)
        (address-IsByte 16 s.assigned_ipv6 (omega arith) v6) (joined-IsByte s.dns_servers dns) in
    (
      omega arith,
      two (session_head s) _ head (
          two (address s.assigned_ipv4) _ (address-IsByte 4 s.assigned_ipv4 (omega arith) v4)
            addresses),
    )
encoding-IsByte (keepalive k) v = (omega arith, put_be-IsByte 8 _)
encoding-IsByte (rekey rk) (x, m, seq) =
    (omega arith, two _ _ x.1 (two _ _ m.1 (put_be-IsByte 8 _)))
encoding-IsByte (close c) (_, (len, text)) =
    let tail : All IsByte (length c.message ∷ []) = (omega arith, tt) in
    (
      omega arith,
      two (close_head c) c.message (two (put_be 4 c.code) _ (put_be-IsByte 4 _) tail) text,
    )

not_prefix : (xs : Bytes) (x : ℕ) (ys : Bytes) → [] ≢ xs ++ (x ∷ ys)
not_prefix [] x ys e = cc
not_prefix (b ∷ bs) x ys e = cc

-- No proper prefix of a valid message's bytes is accepted, whatever error the stream ends with.
pub read_frame_truncated :
    (m : Message) (front back : Bytes) (x : ℕ) (e : Error) (f : Frame) (r : Reader)
    → IsValid m
    → encoding m ≡ front ++ (x ∷ back)
    → read_frame (reader front e) ≢ ((some f, nil), r)
read_frame_truncated m front back x e f r v cut h =
    let typed =
      All-append_left IsByte front (x ∷ back) (subst (All IsByte) cut (encoding-IsByte m v)) in
    let d = read_frame-Decoded (reader front e) f r typed h in
    let whole = read_frame-encoding m [] e v in
    let again = read_frame-encoding d.message (r.input ++ (x ∷ back)) e d.valid in
    let same : encoding m ++ [] ≡ encoding d.message ++ (r.input ++ (x ∷ back)) =
      append-nil (encoding m)
      ∙ cut
      ∙ ap (λ (bs : Bytes). bs ++ (x ∷ back)) d.split
      ∙ append_assoc (encoding d.message) r.input (x ∷ back) in
    not_prefix r.input x back (
      ap (λ (y : Returned). y.1.input)
        (sym whole ∙ ap (λ (bs : Bytes). read_frame (reader bs e)) same ∙ again))

-- The format is prefix-free: if one stream starts with two valid messages, they are one message.
encoding-injective :
    (m n : Message) (xs ys : Bytes)
    → IsValid m
    → IsValid n
    → encoding m ++ xs ≡ encoding n ++ ys
    → (frame_of m ≡ frame_of n) × (xs ≡ ys)
encoding-injective m n xs ys vm vn same =
    let e =
      sym (read_frame-encoding m xs nil vm)
      ∙ ap (λ (bs : Bytes). read_frame (reader bs nil)) same
      ∙ read_frame-encoding n ys nil vn in
    let frames = ap (λ (y : Returned). y.0.0) e in (cc, ap (λ (y : Returned). y.1.input) e)

-- A frame that `WriteFrame` accepts is carried over the stream: unless it is a packet of no bytes,
-- the peer's `ReadFrame` returns a frame of the same message, and what is written next stays.
read_frame-write_frame :
    (f : Frame) (w : Writer) (rest : Bytes) (e : Error)
    → IsTyped f
    → write_frame f (reliable []) ≡ (nil, w)
    → (m : Message) × Carries f m
      × (IsEmptyPacket m
          ⊎ (read_frame (reader (w.sent ++ rest) e) ≡ ((some (frame_of m), nil), reader rest e)))
read_frame-write_frame f w rest e typed h =
    let (m, carried, valid, end) = write_frame-IsWritten f [] w typed h in
    (
      m,
      carried,
      elim valid [ inr empty ↦ inl empty | inl v ↦ inr (rw end (read_frame-encoding m rest e v)) ],
    )
