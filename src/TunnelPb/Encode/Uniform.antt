-- ===== src/TunnelPb/Encode/Uniform.antt =====
-- `WriteFrame` and its parts on writers that may fail at any call.
use unverified.Common.{ℕ, refl, [], ◌∷◌, List, length, ltb, ◌==◌, ◌||◌, not, Option, none, some}
use unverified.Common.Words.{Bytes}
use unverified.Stream.{Action, write, ◌>>◌}
use unverified.Stream.Uniform.{
  IsUniform, IsUniform-write, IsUniform-done, IsUniform-give_up, IsUniform-if, IsUniform->>,
  IsUniform-relabel,
}
use unverified.TunnelPb.{Frame, Hello, Session, Keepalive, Rekey, Close}
use unverified.TunnelPb.Ip.{to16, write_ip, write_ip16}
use unverified.TunnelPb.Encode.{
  write_hello, write_dns, write_session, write_keepalive, write_rekey, write_close, write_packet,
  write_frame,
}

two_writes : (a b : Bytes) → IsUniform (write a >> write b)
two_writes a b = IsUniform->> (write a) (write b) (IsUniform-write a) (IsUniform-write b)

three_writes : (a b c : Bytes) → IsUniform (write a >> (write b >> write c))
three_writes a b c =
    IsUniform->> (write a) (write b >> write c) (IsUniform-write a) (two_writes b c)

write_hello-IsUniform : (o : Option Hello) → IsUniform (write_hello o)
unfolding write_hello
write_hello-IsUniform none = IsUniform-give_up _ refl
write_hello-IsUniform (some h) =
    IsUniform-if (ltb 255 (length h.client_id)) _ _ (IsUniform-give_up _ refl) (two_writes _ _)

write_close-IsUniform : (o : Option Close) → IsUniform (write_close o)
unfolding write_close
write_close-IsUniform none = IsUniform-give_up _ refl
write_close-IsUniform (some c) =
    IsUniform-if (ltb 255 (length c.message)) _ _ (IsUniform-give_up _ refl) (two_writes _ _)

write_keepalive-IsUniform : (o : Option Keepalive) → IsUniform (write_keepalive o)
unfolding write_keepalive
write_keepalive-IsUniform none = IsUniform-give_up _ refl
write_keepalive-IsUniform (some k) = IsUniform-write _

write_rekey-IsUniform : (o : Option Rekey) → IsUniform (write_rekey o)
unfolding write_rekey
write_rekey-IsUniform none = IsUniform-give_up _ refl
write_rekey-IsUniform (some rk) =
    IsUniform-if (not (length rk.x25519_public == 32)) _ _ (IsUniform-give_up _ refl) (
      IsUniform-if (not (length rk.mlkem_public == 1184)) _ _ (IsUniform-give_up _ refl)
        (three_writes _ _ _))

write_ip-IsUniform : (ip : Bytes) (n : ℕ) → IsUniform (write_ip ip n)
unfolding write_ip
write_ip-IsUniform ip n =
    IsUniform-if (length ip == 0) _ _ (IsUniform-write _)
      (IsUniform-if (length ip == n) _ _ (two_writes _ _) (IsUniform-give_up _ refl))

write_ip16-IsUniform : (ip : Bytes) (n : ℕ) → IsUniform (write_ip16 ip n)
unfolding write_ip16
write_ip16-IsUniform ip n = IsUniform-if (length ip == 0) _ _ (IsUniform-write _) (
    IsUniform-if (length (to16 ip) == 0) _ _ (IsUniform-give_up _ refl)
      (IsUniform-if (length (to16 ip) == n) _ _ (two_writes _ _) (IsUniform-give_up _ refl)))

write_dns-IsUniform : (ips : List Bytes) → IsUniform (write_dns ips)
unfolding write_dns
write_dns-IsUniform [] = IsUniform-done
write_dns-IsUniform (ip ∷ ips) =
    IsUniform-if (length (to16 ip) == 0) _ _ (IsUniform-give_up _ refl)
      (IsUniform->> (write _) (write_dns ips) (IsUniform-write _) (write_dns-IsUniform ips))

write_session-IsUniform : (o : Option Session) → IsUniform (write_session o)
unfolding write_session
write_session-IsUniform none = IsUniform-give_up _ refl
write_session-IsUniform (some s) =
    IsUniform-if (ltb 4 (length s.dns_servers)) _ _ (IsUniform-give_up _ refl) (
      IsUniform->> _ _ (IsUniform-write _) (
        IsUniform->> _ _ (IsUniform-relabel _ _ (write_ip _ 4) (write_ip-IsUniform _ 4)) (
          IsUniform->> _ _ (IsUniform-relabel _ _ (write_ip16 _ 16) (write_ip16-IsUniform _ 16))
            (write_dns-IsUniform s.dns_servers))))

write_packet-IsUniform : (tag : ℕ) (p : Bytes) → IsUniform (write_packet tag p)
unfolding write_packet
write_packet-IsUniform tag p =
    IsUniform-if (ltb 65535 (length p)) _ _ (IsUniform-give_up _ refl) (three_writes _ _ _)

with_tag : (tag : ℕ) (m : Action) → IsUniform m → IsUniform (write (tag ∷ []) >> m)
with_tag tag m u = IsUniform->> (write (tag ∷ [])) m (IsUniform-write _) u

-- Whatever frame it is given and wherever the writer fails, `WriteFrame` only appends, and on every
-- writer on which it succeeds it appends the same bytes.
pub write_frame-IsUniform : (f : Frame) → IsUniform (write_frame f)
unfolding write_frame
write_frame-IsUniform f =
    IsUniform-if (f.tag == 0x04 || f.tag == 0x06) _ _ (write_packet-IsUniform f.tag _) (
      IsUniform-if (f.tag == 0x10) _ _ (with_tag f.tag _ (write_hello-IsUniform f.hello)) (
        IsUniform-if (f.tag == 0x11) _ _ (with_tag f.tag _ (write_session-IsUniform f.session)) (
          IsUniform-if (f.tag == 0x12) _ _
            (with_tag f.tag _ (write_keepalive-IsUniform f.keepalive))
            (IsUniform-if (f.tag == 0x13) _ _ (with_tag f.tag _ (write_rekey-IsUniform f.rekey)) (
              IsUniform-if (f.tag == 0x14) _ _ (with_tag f.tag _ (write_close-IsUniform f.close))
                (IsUniform-give_up _ refl))))))
