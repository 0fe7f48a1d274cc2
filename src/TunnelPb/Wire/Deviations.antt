-- ===== src/TunnelPb/Wire/Deviations.antt =====
-- Where internal/transport/grpc/tunnelpb/codec.go departs from its comments: empty packets,
-- sessions that are cut at an address, and addresses that are no IPv4 address.
use unverified.Common.{
  ℕ, ◌≡◌, ◌≢◌, refl, ◌++◌, [], ◌∷◌, ap, suc, ◌∙◌, ◌≤◌, length, arith, some, none, true, false,
  length, le→ltb, ◌⊎◌, inl, inr,
}
use unverified.Common.Words.{Bytes, put_be, be_uint, length-put_be}
use unverified.Errors.{Error, nil, sentinel, wrap, bytes, is_error, eof, short_read, length_invalid}
use unverified.Stream.{reader, reliable, Writer, write}
use unverified.Stream.Laws.{read_full-append, read_full_all, read_full_short}
use unverified.TunnelPb.{Frame, Session, blank}
use unverified.TunnelPb.Ip.{to4, read_ip}
use unverified.TunnelPb.Encode.{write_frame, write_by_tag, write_packet, write_session}
use unverified.TunnelPb.Encode.Pieces.{normal}
use unverified.TunnelPb.Encode.Sessions.{IsWritable, write_session-Appends}
use unverified.TunnelPb.Decode.{Returned, read_frame, read_packet, read_session, read_addresses}
use unverified.TunnelPb.Wire.{session_body}

-- A session record that ends where its IPv4 field should begin, behind a complete head: the error
-- has `io.EOF` in its chain, which stands for a clean end of the stream, and not `ErrShortRead`.
pub session_cut_eof :
    (count mtu : ℕ)
    → count ≤ 4
    → let answer = read_frame (reader (0x11 ∷ count ∷ put_be 4 mtu) (sentinel eof)) in
      (answer.0.0 ≡ some (blank 0x11))
      × (is_error answer.0.1 eof ≡ true)
      × (is_error answer.0.1 short_read ≡ false)
unfolding read_frame read_session read_addresses read_ip is_error
session_cut_eof count mtu few =
    rw
      (
        read_full-append 1 (0x11 ∷ []) (count ∷ put_be 4 mtu) (sentinel eof) refl,
        read_full_all 5 (count ∷ put_be 4 mtu) (sentinel eof) (ap suc (length-put_be 4 mtu)),
        le→ltb 4 count few,
        read_full_short 1 [] (sentinel eof) (omega arith),
      )
      (refl, refl, refl)

empty_refused :
    (tag : ℕ) (rest : Bytes) (e : Error)
    → (tag ≡ 0x04) ⊎ (tag ≡ 0x06)
    → read_frame (reader (tag ∷ 0 ∷ 0 ∷ rest) e)
      ≡ ((none, wrap [] (sentinel length_invalid) (bytes ": zero-length packet")), reader rest e)
unfolding read_frame read_packet
empty_refused tag rest e (inl t) =
    rw
      (
        t,
        read_full-append 1 (0x04 ∷ []) (0 ∷ 0 ∷ rest) e refl,
        read_full-append 2 (0 ∷ 0 ∷ []) rest e refl,
      )
      (unfold be_uint in refl)
empty_refused tag rest e (inr t) =
    rw
      (
        t,
        read_full-append 1 (0x06 ∷ []) (0 ∷ 0 ∷ rest) e refl,
        read_full-append 2 (0 ∷ 0 ∷ []) rest e refl,
      )
      (unfold be_uint in refl)

empty_written :
    (tag : ℕ) (f : Frame)
    → (tag ≡ 0x04) ⊎ (tag ≡ 0x06)
    → f.packet ≡ none
    → write_by_tag tag f (reliable []) ≡ (nil, reliable (tag ∷ 0 ∷ 0 ∷ []))
unfolding write_by_tag write_packet write put_be
empty_written tag f (inl t) p = rw (t, p)
empty_written tag f (inr t) p = rw (t, p)

-- A packet frame with no payload is written without an error, and what was written is refused by
-- `ReadFrame` with `ErrLengthInvalid` and no frame, whatever follows it.
pub write_frame_empty :
    (f : Frame) (rest : Bytes) (e : Error)
    → (f.tag ≡ 0x04) ⊎ (f.tag ≡ 0x06)
    → f.packet ≡ none
    → (write_frame f (reliable []) ≡ (nil, reliable (f.tag ∷ 0 ∷ 0 ∷ [])))
      × ((read_frame (reader (f.tag ∷ 0 ∷ 0 ∷ rest) e)).0.0 ≡ none)
      × (is_error (read_frame (reader (f.tag ∷ 0 ∷ 0 ∷ rest) e)).0.1 length_invalid ≡ true)
unfolding write_frame is_error
write_frame_empty f rest e t p =
    let refused = empty_refused f.tag rest e t in
    (
      empty_written f.tag f t p,
      ap (λ (y : Returned). y.0.0) refused,
      ap (λ (y : Returned). is_error y.0.1 length_invalid) refused,
    )

not_v4 : (ip : Bytes) → length ip ≢ 4 → length ip ≢ 16 → to4 ip ≡ []
unfolding to4
not_v4 ip a b = ground arith

-- An assigned IPv4 address of neither 4 nor 16 bytes is no error: the session is sent as one that
-- has no IPv4 address.
pub write_session_drops_ipv4 :
    (s : Session) (sent : Bytes)
    → IsWritable s
    → length s.assigned_ipv4 ≢ 4
    → length s.assigned_ipv4 ≢ 16
    → write_session (some s) (reliable sent)
      ≡ (nil, reliable (sent ++ session_body (record (normal s) { assigned_ipv4 = [] })))
unfolding normal
write_session_drops_ipv4 s sent v a b =
    write_session-Appends s v sent
    ∙ ap {B = Error × Writer}
        (λ (ip : Bytes).
          (nil, reliable (sent ++ session_body (record (normal s) { assigned_ipv4 = ip }))))
        (not_v4 s.assigned_ipv4 a b)
