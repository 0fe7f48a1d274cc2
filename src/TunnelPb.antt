-- ===== src/TunnelPb.antt =====
-- The records of internal/transport/grpc/tunnelpb/codec.go: constants, `Frame` and its payloads.
-- A pointer or a packet slice that may be nil is an option. A `net.IP` is its bytes, `[]` for nil:
-- the code asks only for its length.
pub mod Ip
pub mod Encode
pub mod Decode
pub mod Wire
mod Runs
use unverified.Common.{ℕ, Option, none, List}
use unverified.Common.Words.{Bytes}

abbrev pub tag_ipv4 : ℕ
tag_ipv4 = 0x04

abbrev pub tag_ipv6 : ℕ
tag_ipv6 = 0x06

abbrev pub tag_hello : ℕ
tag_hello = 0x10

abbrev pub tag_session : ℕ
tag_session = 0x11

abbrev pub tag_keepalive : ℕ
tag_keepalive = 0x12

abbrev pub tag_rekey : ℕ
tag_rekey = 0x13

abbrev pub tag_close : ℕ
tag_close = 0x14

abbrev pub max_ip_packet : ℕ
max_ip_packet = 65535

abbrev pub max_string_len : ℕ
max_string_len = 255

abbrev pub max_dns_entries : ℕ
max_dns_entries = 4

abbrev pub x25519_len : ℕ
x25519_len = 32

abbrev pub mlkem_len : ℕ
mlkem_len = 1184

pub record Hello : Type 0 where
  pub protocol_version : ℕ  -- uint32
  pub client_id : Bytes
  pub cipher_suite : ℕ  -- uint32

pub record Session : Type 0 where
  pub assigned_ipv4 : Bytes
  pub assigned_ipv6 : Bytes
  pub dns_servers : List Bytes
  pub mtu : ℕ  -- uint32

pub record Keepalive : Type 0 where
  pub nonce : ℕ  -- uint64

pub record Rekey : Type 0 where
  pub x25519_public : Bytes
  pub mlkem_public : Bytes
  pub activate_at_seq : ℕ  -- uint64

pub record Close : Type 0 where
  pub code : ℕ  -- uint32
  pub message : Bytes

pub record Frame : Type 0 where
  pub tag : ℕ
  pub packet : Option Bytes
  pub hello : Option Hello
  pub session : Option Session
  pub keepalive : Option Keepalive
  pub rekey : Option Rekey
  pub close : Option Close

-- `&Frame{Tag: tag}`: every payload is nil.
abbrev pub blank : ℕ → Frame
blank t = record {
  tag = t;
  packet = none;
  hello = none;
  session = none;
  keepalive = none;
  rekey = none;
  close = none;
}
