-- ===== src/TunnelPb/Encode/Written.antt =====
-- What `WriteFrame` of internal/transport/grpc/tunnelpb/codec.go has written when it
-- succeeds.
use unverified.Common.{
  ℕ, ◌≡◌, refl, ◌++◌, [], ◌∷◌, List, ◌≤◌, ◌∙◌, ap, sym, ◌⊎◌, inl, inr, length, arith, Bool-cases,
  ltb, ltb→le, ◌==◌, Option, none, some, map, All, ==_iff, length-map,
}
use mathlib.Core.Path.{subst}
use unverified.Common.Words.{Bytes, IsByte, IsU32}
use unverified.Errors.{Error, nil}
use unverified.Stream.{Writer, reliable, write, Action, ◌>>◌}
use unverified.TunnelPb.{Frame, Session, Hello, Keepalive, Rekey, Close}
use unverified.TunnelPb.Ip.{to16}
use unverified.TunnelPb.Ip.Laws.{to4-form, to16-form, to4-IsByte, to16-IsByte}
use unverified.TunnelPb.Encode.{
  write_frame, write_by_tag, write_hello, write_session, write_keepalive, write_rekey, write_close,
  write_packet, packet_bytes,
}
use unverified.TunnelPb.Encode.Pieces.{
  Appends, write_hello-Appends, write_close-Appends, write_keepalive-Appends, write_rekey-Appends,
  write_packet-Appends, normal, IsWritableDns,
}
use unverified.TunnelPb.Encode.Frames.{tagged}
use unverified.TunnelPb.Encode.Sessions.{IsWritable, write_session-Appends, write_session-ok}
use unverified.TunnelPb.Wire.{
  Message, ipv4, ipv6, hello, session, keepalive, rekey, close, IsValid, encoding, IsDns, IsPacket,
}
use unverified.TunnelPb.Wire.Carried.{IsTyped, Carries, IsEmptyPacket}

-- An action that appends `bs` ends in that writer.
ends :
    (m : Action) (bs sent : Bytes) (w : Writer)
    → Appends m bs
    → m (reliable sent) ≡ (nil, w)
    → w ≡ reliable (sent ++ bs)
ends m bs sent w a h = ap (λ (x : Error × Writer). x.1) (sym h ∙ a sent)

write_packet-ok :
    (tag : ℕ) (p sent : Bytes) (w : Writer)
    → write_packet tag p (reliable sent) ≡ (nil, w)
    → length p ≤ 65535
unfolding write_packet
write_packet-ok tag p sent w h = elim (Bool-cases (ltb 65535 (length p))) [
  | inl long ↦ cc (rw long at h)
  | inr fits ↦ ltb→le 65535 (length p) fits
]

write_hello-ok :
    (o : Option Hello) (sent : Bytes) (w : Writer)
    → write_hello o (reliable sent) ≡ (nil, w)
    → (h : Hello) × (o ≡ some h) × (length h.client_id ≤ 255)
unfolding write_hello
write_hello-ok none sent w h = cc
write_hello-ok (some p) sent w h = elim (Bool-cases (ltb 255 (length p.client_id))) [
  | inl long ↦ cc (rw long at h)
  | inr fits ↦ (p, refl, ltb→le 255 (length p.client_id) fits)
]

write_close-ok :
    (o : Option Close) (sent : Bytes) (w : Writer)
    → write_close o (reliable sent) ≡ (nil, w)
    → (c : Close) × (o ≡ some c) × (length c.message ≤ 255)
unfolding write_close
write_close-ok none sent w h = cc
write_close-ok (some c) sent w h = elim (Bool-cases (ltb 255 (length c.message))) [
  | inl long ↦ cc (rw long at h)
  | inr fits ↦ (c, refl, ltb→le 255 (length c.message) fits)
]

write_keepalive-ok :
    (o : Option Keepalive) (sent : Bytes) (w : Writer)
    → write_keepalive o (reliable sent) ≡ (nil, w)
    → (k : Keepalive) × (o ≡ some k)
unfolding write_keepalive
write_keepalive-ok none sent w h = cc
write_keepalive-ok (some k) sent w h = (k, refl)

write_rekey-ok :
    (o : Option Rekey) (sent : Bytes) (w : Writer)
    → write_rekey o (reliable sent) ≡ (nil, w)
    → (rk : Rekey) × (o ≡ some rk)
      × (length rk.x25519_public ≡ 32)
      × (length rk.mlkem_public ≡ 1184)
unfolding write_rekey
write_rekey-ok none sent w h = cc
write_rekey-ok (some rk) sent w h = elim (Bool-cases (length rk.x25519_public == 32)) [
  | inr short ↦ cc (rw short at h)
  | inl x ↦ elim (Bool-cases (length rk.mlkem_public == 1184)) [
    | inr short ↦ cc (rw (x, short) at h)
    | inl m ↦ (rk, refl, (==_iff _ 32).0 x, (==_iff _ 1184).0 m)
  ]
]

-- `f` was written as the message `m`: the one that it carries, valid or an empty packet.
abbrev pub IsWritten : Frame → Bytes → Writer → Type 0
IsWritten f sent w =
    (m : Message) × Carries f m
    × (IsValid m ⊎ IsEmptyPacket m)
    × (w ≡ reliable (sent ++ encoding m))

IsPacket-cases : (p : Bytes) → All IsByte p → length p ≤ 65535 → IsPacket p ⊎ (p ≡ [])
IsPacket-cases [] typed fits = inr refl
IsPacket-cases (b ∷ p) typed fits = inl (omega arith, fits, typed)

module _ (f : Frame) (sent : Bytes) (w : Writer) (typed : IsTyped f) where
  IsWritten-ipv4 :
      f.tag ≡ 0x04 → write_by_tag 0x04 f (reliable sent) ≡ (nil, w) → IsWritten f sent w
  unfolding write_by_tag encoding
  IsWritten-ipv4 t h =
      let p = packet_bytes f.packet in
      let fits = write_packet-ok 0x04 p sent w h in
      let end = ends (write_packet 0x04 p) _ sent w (write_packet-Appends 0x04 p fits) h in
      elim (IsPacket-cases p typed.packet fits) [
        | inl valid ↦ (ipv4 p, (t, refl), inl valid, end)
        | inr empty ↦ (ipv4 p, (t, refl), inr (inl (ap ipv4 empty)), end)
      ]

  IsWritten-ipv6 :
      f.tag ≡ 0x06 → write_by_tag 0x06 f (reliable sent) ≡ (nil, w) → IsWritten f sent w
  unfolding write_by_tag encoding
  IsWritten-ipv6 t h =
      let p = packet_bytes f.packet in
      let fits = write_packet-ok 0x06 p sent w h in
      let end = ends (write_packet 0x06 p) _ sent w (write_packet-Appends 0x06 p fits) h in
      elim (IsPacket-cases p typed.packet fits) [
        | inl valid ↦ (ipv6 p, (t, refl), inl valid, end)
        | inr empty ↦ (ipv6 p, (t, refl), inr (inr (ap ipv6 empty)), end)
      ]

  IsWritten-hello :
      f.tag ≡ 0x10 → write_by_tag 0x10 f (reliable sent) ≡ (nil, w) → IsWritten f sent w
  unfolding write_by_tag encoding write
  IsWritten-hello t h =
      let (p, e, fits) = write_hello-ok f.hello (sent ++ (0x10 ∷ [])) w h in
      let (version, text, suite) = rw e at typed.hello in
      let end =
        ends (write (0x10 ∷ []) >> write_hello (some p)) _ sent w
          (tagged 0x10 (write_hello (some p)) _ (write_hello-Appends p fits)) (rw e at h) in
      (hello p, (t, e), inl (version, (fits, text), suite), end)

  IsWritten-keepalive :
      f.tag ≡ 0x12 → write_by_tag 0x12 f (reliable sent) ≡ (nil, w) → IsWritten f sent w
  unfolding write_by_tag encoding write
  IsWritten-keepalive t h =
      let (k, e) = write_keepalive-ok f.keepalive (sent ++ (0x12 ∷ [])) w h in
      let end =
        ends (write (0x12 ∷ []) >> write_keepalive (some k)) _ sent w
          (tagged 0x12 (write_keepalive (some k)) _ (write_keepalive-Appends k)) (rw e at h) in
      (keepalive k, (t, e), inl (rw e at typed.keepalive), end)

  IsWritten-rekey :
      f.tag ≡ 0x13 → write_by_tag 0x13 f (reliable sent) ≡ (nil, w) → IsWritten f sent w
  unfolding write_by_tag encoding write
  IsWritten-rekey t h =
      let (rk, e, x_len, m_len) = write_rekey-ok f.rekey (sent ++ (0x13 ∷ [])) w h in
      let (x, m, seq) = rw e at typed.rekey in
      let end =
        ends (write (0x13 ∷ []) >> write_rekey (some rk)) _ sent w
          (tagged 0x13 (write_rekey (some rk)) _ (write_rekey-Appends rk x_len m_len))
          (rw e at h) in
      (rekey rk, (t, e), inl ((x_len, x), (m_len, m), seq), end)

  IsWritten-close :
      f.tag ≡ 0x14 → write_by_tag 0x14 f (reliable sent) ≡ (nil, w) → IsWritten f sent w
  unfolding write_by_tag encoding write
  IsWritten-close t h =
      let (c, e, fits) = write_close-ok f.close (sent ++ (0x14 ∷ [])) w h in
      let (code, text) = rw e at typed.close in
      let end =
        ends (write (0x14 ∷ []) >> write_close (some c)) _ sent w
          (tagged 0x14 (write_close (some c)) _ (write_close-Appends c fits)) (rw e at h) in
      (close c, (t, e), inl (code, (fits, text)), end)

IsDns-forms :
    (ips : List Bytes) → All (All IsByte) ips → IsWritableDns ips → All IsDns (map to16 ips)
IsDns-forms [] typed h = tt
IsDns-forms (ip ∷ ips) (b, more) (len, rest) = ((len, to16-IsByte ip b), IsDns-forms ips more rest)

normal-IsValid :
    (s : Session)
    → All IsByte s.assigned_ipv4
      × All IsByte s.assigned_ipv6
      × All (All IsByte) s.dns_servers
      × IsU32 s.mtu
    → IsWritable s
    → IsValid (session (normal s))
unfolding normal
normal-IsValid s (v4, v6, dns, mtu) h = (
  (to4-form s.assigned_ipv4, to4-IsByte s.assigned_ipv4 v4),
  (to16-form s.assigned_ipv6, to16-IsByte s.assigned_ipv6 v6),
  rw (length-map to16 s.dns_servers) h.few,
  IsDns-forms s.dns_servers dns h.dns,
  mtu,
)

IsWritten-session :
    (f : Frame) (sent : Bytes) (w : Writer)
    → IsTyped f
    → f.tag ≡ 0x11
    → write_by_tag 0x11 f (reliable sent) ≡ (nil, w)
    → IsWritten f sent w
unfolding write_by_tag encoding write
IsWritten-session f sent w typed t h =
    let (s, e, ok) = write_session-ok f.session (sent ++ (0x11 ∷ [])) w h in
    let end =
      ends (write (0x11 ∷ []) >> write_session (some s)) _ sent w
        (tagged 0x11 (write_session (some s)) _ (write_session-Appends s ok)) (rw e at h) in
    (session (normal s), (t, (s, e, refl)), inl (normal-IsValid s (rw e at typed.session) ok), end)

-- Any tag but the seven is an error.
known_tag :
    (tag : ℕ) (f : Frame) (sent : Bytes) (w : Writer)
    → write_by_tag tag f (reliable sent) ≡ (nil, w)
    → (tag ≡ 0x04)
      ⊎ (tag ≡ 0x06)
      ⊎ (tag ≡ 0x10)
      ⊎ (tag ≡ 0x11)
      ⊎ (tag ≡ 0x12)
      ⊎ (tag ≡ 0x13)
      ⊎ (tag ≡ 0x14)
unfolding write_by_tag
known_tag tag f sent w h = ground arith

-- If `WriteFrame` returns no error, then the frame carries a message, that message is valid or a
-- packet of no bytes, and exactly its bytes were appended.
pub write_frame-IsWritten :
    (f : Frame) (sent : Bytes) (w : Writer)
    → IsTyped f
    → write_frame f (reliable sent) ≡ (nil, w)
    → IsWritten f sent w
unfolding write_frame
write_frame-IsWritten f sent w typed h = elim (known_tag f.tag f sent w h) [
  | inl t ↦ IsWritten-ipv4 f sent w typed t (at t)
  | inr (inl t) ↦ IsWritten-ipv6 f sent w typed t (at t)
  | inr (inr (inl t)) ↦ IsWritten-hello f sent w typed t (at t)
  | inr (inr (inr (inl t))) ↦ IsWritten-session f sent w typed t (at t)
  | inr (inr (inr (inr (inl t)))) ↦ IsWritten-keepalive f sent w typed t (at t)
  | inr (inr (inr (inr (inr (inl t))))) ↦ IsWritten-rekey f sent w typed t (at t)
  | inr (inr (inr (inr (inr (inr t))))) ↦ IsWritten-close f sent w typed t (at t)
]
  where
    at : {tag : ℕ} → f.tag ≡ tag → write_by_tag tag f (reliable sent) ≡ (nil, w)
    at t = subst (λ (k : ℕ). write_by_tag k f (reliable sent) ≡ (nil, w)) t h
