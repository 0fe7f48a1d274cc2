-- ===== src/TunnelPb/Wire/Carried.antt =====
-- Which frames carry which message: the Go types of a `Frame`'s fields, and the payload that the
-- tag selects (`Frame` of internal/transport/grpc/tunnelpb/codec.go).
use unverified.Common.{Option, none, some, [], ◌≡◌, ◌⊎◌, All}
use unverified.Common.Words.{IsByte, IsU32, IsU64}
use unverified.TunnelPb.{
  Frame, Session, tag_ipv4, tag_ipv6, tag_hello, tag_session, tag_keepalive, tag_rekey, tag_close,
}
use unverified.TunnelPb.Encode.{packet_bytes}
use unverified.TunnelPb.Encode.Pieces.{normal}
use unverified.TunnelPb.Wire.{Message, ipv4, ipv6, hello, session, keepalive, rekey, close}

abbrev pub Each : {A : Type 0} → (A → Type 0) → Option A → Type 0
Each P none = Unit {0}
Each P (some a) = P a

-- The ranges that Go's types give: bytes, uint32 and uint64.
pub record IsTyped (f : Frame) : Type 0 where
  pub packet : All IsByte (packet_bytes f.packet)
  pub hello :
      Each (λ h. IsU32 h.protocol_version × All IsByte h.client_id × IsU32 h.cipher_suite) f.hello
  pub session :
      Each
        (λ s.
          All IsByte s.assigned_ipv4
          × All IsByte s.assigned_ipv6
          × All (All IsByte) s.dns_servers
          × IsU32 s.mtu)
        f.session
  pub keepalive : Each (λ k. IsU64 k.nonce) f.keepalive
  pub rekey :
      Each
        (λ rk. All IsByte rk.x25519_public × All IsByte rk.mlkem_public × IsU64 rk.activate_at_seq)
        f.rekey
  pub close : Each (λ c. IsU32 c.code × All IsByte c.message) f.close

-- The message that the tag selects among the payloads. A session is carried in the form that its
-- addresses have on the wire.
abbrev pub Carries : Frame → Message → Type 0
Carries f (ipv4 p) = (f.tag ≡ tag_ipv4) × (packet_bytes f.packet ≡ p)
Carries f (ipv6 p) = (f.tag ≡ tag_ipv6) × (packet_bytes f.packet ≡ p)
Carries f (hello h) = (f.tag ≡ tag_hello) × (f.hello ≡ some h)
Carries f (session s) =
    (f.tag ≡ tag_session) × ((t : Session) × (f.session ≡ some t) × (s ≡ normal t))
Carries f (keepalive k) = (f.tag ≡ tag_keepalive) × (f.keepalive ≡ some k)
Carries f (rekey rk) = (f.tag ≡ tag_rekey) × (f.rekey ≡ some rk)
Carries f (close c) = (f.tag ≡ tag_close) × (f.close ≡ some c)

-- A packet of no bytes, which the format forbids.
abbrev pub IsEmptyPacket : Message → Type 0
IsEmptyPacket m = (m ≡ ipv4 []) ⊎ (m ≡ ipv6 [])
