-- ===== src/TunnelPb/Encode/Pieces.antt =====
-- What each `write...` function puts on a writer that does not fail, when it succeeds.
use unverified.Common.{
  ℕ, ◌≡◌, refl, ◌++◌, [], ◌∷◌, List, ◌≤◌, length, arith, append_assoc, append-nil, All, le→ltb,
  some, map, ◌%◌,
}
use unverified.Common.Words.{Bytes, put_be}
use unverified.Errors.{nil}
use unverified.Stream.{reliable, write, Action, done, ◌>>◌}
use unverified.TunnelPb.{Hello, Session, Keepalive, Rekey, Close}
use unverified.TunnelPb.Ip.{to4, to16}
use unverified.TunnelPb.Encode.{
  write_hello, write_dns, write_keepalive, write_rekey, write_close, write_packet,
}
use unverified.TunnelPb.Wire.{packet_body, hello_head, joined, close_head, rekey_body}

-- The action succeeds and appends exactly these bytes.
abbrev pub Appends : Action → Bytes → Type 0
Appends m bs = (sent : Bytes) → m (reliable sent) ≡ (nil, reliable (sent ++ bs))

pub Appends-write : (bs : Bytes) → Appends (write bs) bs
unfolding write
Appends-write bs sent = refl

pub Appends-done : Appends done []
Appends-done sent = rw append-nil

pub Appends->> :
    (m k : Action) (a b : Bytes) → Appends m a → Appends k b → Appends (m >> k) (a ++ b)
Appends->> m k a b hm hk sent = rw (hm sent, ← append_assoc sent a b) (hk (sent ++ a))

pub Appends-two : (a b : Bytes) → Appends (write a >> write b) (a ++ b)
Appends-two a b = Appends->> (write a) (write b) a b (Appends-write a) (Appends-write b)

pub Appends-three : (a b c : Bytes) → Appends (write a >> (write b >> write c)) (a ++ (b ++ c))
Appends-three a b c =
    Appends->> (write a) (write b >> write c) a (b ++ c) (Appends-write a) (Appends-two b c)

byte_len : (n : ℕ) → n ≤ 255 → n % 256 ≡ n
byte_len n h = omega arith

-- Each function on a payload within the limits.
pub write_hello-Appends :
    (h : Hello)
    → length h.client_id ≤ 255
    → Appends (write_hello (some h)) (hello_head h ++ h.client_id)
unfolding write_hello
write_hello-Appends h fits sent =
    rw (le→ltb 255 (length h.client_id) fits, byte_len (length h.client_id) fits)
      (Appends-two (hello_head h) h.client_id sent)

pub write_close-Appends :
    (c : Close)
    → length c.message ≤ 255
    → Appends (write_close (some c)) (close_head c ++ c.message)
unfolding write_close
write_close-Appends c fits sent =
    rw (le→ltb 255 (length c.message) fits, byte_len (length c.message) fits)
      (Appends-two (close_head c) c.message sent)

pub write_keepalive-Appends :
    (k : Keepalive) → Appends (write_keepalive (some k)) (put_be 8 k.nonce)
unfolding write_keepalive
write_keepalive-Appends k = Appends-write (put_be 8 k.nonce)

pub write_rekey-Appends :
    (rk : Rekey)
    → length rk.x25519_public ≡ 32
    → length rk.mlkem_public ≡ 1184
    → Appends (write_rekey (some rk)) (rekey_body rk)
unfolding write_rekey
write_rekey-Appends rk x m sent =
    rw (x, m) (Appends-three rk.x25519_public rk.mlkem_public (put_be 8 rk.activate_at_seq) sent)

pub write_packet-Appends :
    (tag : ℕ) (p : Bytes) → length p ≤ 65535 → Appends (write_packet tag p) (tag ∷ packet_body p)
unfolding write_packet
write_packet-Appends tag p fits sent =
    rw (le→ltb 65535 (length p) fits, u16_len)
      (Appends-three (tag ∷ []) (put_be 2 (length p)) p sent)
  where
    u16_len : length p % 65536 ≡ length p
    u16_len = omega arith

-- Every server has a 16-byte form.
abbrev pub IsWritableDns : List Bytes → Type 0
IsWritableDns = All (λ ip. length (to16 ip) ≡ 16)

pub write_dns-Appends :
    (ips : List Bytes) → IsWritableDns ips → Appends (write_dns ips) (joined (map to16 ips))
unfolding write_dns
write_dns-Appends [] h sent = Appends-done sent
write_dns-Appends (ip ∷ ips) (len, more) sent = rw len (
    Appends->> (write (to16 ip)) (write_dns ips) (to16 ip) (joined (map to16 ips))
      (Appends-write (to16 ip)) (write_dns-Appends ips more) sent)

-- The session that a peer reads: every address in the form that is written.
unfoldable pub normal : Session → Session
normal s = record s {
  assigned_ipv4 = to4 s.assigned_ipv4;
  assigned_ipv6 = to16 s.assigned_ipv6;
  dns_servers = map to16 s.dns_servers;
}
