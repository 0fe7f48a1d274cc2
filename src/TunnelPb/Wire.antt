-- ===== src/TunnelPb/Wire.antt =====
-- The wire format as proto/tunnel.proto and the package comment of
-- internal/transport/grpc/tunnelpb/codec.go describe it, independent of the code: the messages, the
-- limits on their fields, and their bytes.
pub mod Pieces
pub mod Addresses
pub mod Carried
pub mod RoundTrip
pub mod Framing
pub mod Canonical
pub mod Deviations
use unverified.Common.{ℕ, Option, none, some, List, [], ◌∷◌, ◌++◌, ◌≡◌, ◌⊎◌, ◌≤◌, ◌<◌, length, All}
use unverified.Common.Words.{Bytes, IsByte, IsU32, IsU64, put_be}
use unverified.TunnelPb.{
  Frame, blank, Hello, Session, Keepalive, Rekey, Close, tag_ipv4, tag_ipv6, tag_hello, tag_session,
  tag_keepalive, tag_rekey, tag_close,
}

-- A record of the stream, with what its tag calls for and nothing else.
pub data Message : Type 0 where
  ipv4 : Bytes → Message
  ipv6 : Bytes → Message
  hello : Hello → Message
  session : Session → Message
  keepalive : Keepalive → Message
  rekey : Rekey → Message
  close : Close → Message

-- An address field: absent, or of its one length.
abbrev pub IsAddress : ℕ → Bytes → Type 0
IsAddress n ip = ((ip ≡ []) ⊎ (length ip ≡ n)) × All IsByte ip

abbrev pub IsText : Bytes → Type 0
IsText t = (length t ≤ 255) × All IsByte t

abbrev pub IsPacket : Bytes → Type 0
IsPacket p = (0 < length p) × (length p ≤ 65535) × All IsByte p

abbrev pub IsDns : Bytes → Type 0
IsDns ip = (length ip ≡ 16) × All IsByte ip

-- The limits of the format.
abbrev pub IsValid : Message → Type 0
IsValid (ipv4 p) = IsPacket p
IsValid (ipv6 p) = IsPacket p
IsValid (hello h) = IsU32 h.protocol_version × IsText h.client_id × IsU32 h.cipher_suite
IsValid (session s) =
    IsAddress 4 s.assigned_ipv4
    × IsAddress 16 s.assigned_ipv6
    × (length s.dns_servers ≤ 4)
    × All IsDns s.dns_servers
    × IsU32 s.mtu
IsValid (keepalive k) = IsU64 k.nonce
IsValid (rekey rk) =
    ((length rk.x25519_public ≡ 32) × All IsByte rk.x25519_public)
    × ((length rk.mlkem_public ≡ 1184) × All IsByte rk.mlkem_public)
    × IsU64 rk.activate_at_seq
IsValid (close c) = IsU32 c.code × IsText c.message

abbrev pub packet_body : Bytes → Bytes
packet_body p = put_be 2 (length p) ++ p

abbrev pub hello_head : Hello → Bytes
hello_head h = put_be 4 h.protocol_version ++ (length h.client_id ∷ put_be 4 h.cipher_suite)

-- A length byte before an address; 0 says that there is none.
abbrev pub address : Bytes → Bytes
address ip = length ip ∷ ip

abbrev pub joined : List Bytes → Bytes
joined [] = []
joined (ip ∷ more) = ip ++ joined more

abbrev pub session_head : Session → Bytes
session_head s = length s.dns_servers ∷ put_be 4 s.mtu

abbrev pub session_body : Session → Bytes
session_body s =
    session_head s ++ (address s.assigned_ipv4 ++ (address s.assigned_ipv6 ++ joined s.dns_servers))

abbrev pub close_head : Close → Bytes
close_head c = put_be 4 c.code ++ (length c.message ∷ [])

abbrev pub rekey_body : Rekey → Bytes
rekey_body rk = rk.x25519_public ++ (rk.mlkem_public ++ put_be 8 rk.activate_at_seq)

unfoldable pub encoding : Message → Bytes
encoding (ipv4 p) = tag_ipv4 ∷ packet_body p
encoding (ipv6 p) = tag_ipv6 ∷ packet_body p
encoding (hello h) = tag_hello ∷ (hello_head h ++ h.client_id)
encoding (session s) = tag_session ∷ session_body s
encoding (keepalive k) = tag_keepalive ∷ put_be 8 k.nonce
encoding (rekey rk) = tag_rekey ∷ rekey_body rk
encoding (close c) = tag_close ∷ (close_head c ++ c.message)

-- The frame that carries a message.
unfoldable pub frame_of : Message → Frame
frame_of (ipv4 p) = record (blank tag_ipv4) { packet = some p }
frame_of (ipv6 p) = record (blank tag_ipv6) { packet = some p }
frame_of (hello h) = record (blank tag_hello) { hello = some h }
frame_of (session s) = record (blank tag_session) { session = some s }
frame_of (keepalive k) = record (blank tag_keepalive) { keepalive = some k }
frame_of (rekey rk) = record (blank tag_rekey) { rekey = some rk }
frame_of (close c) = record (blank tag_close) { close = some c }
