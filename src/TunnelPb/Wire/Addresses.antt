-- ===== src/TunnelPb/Wire/Addresses.antt =====
-- Reading back addresses, the list of DNS servers, and the session record that holds them.
use unverified.Common.{
  ℕ, ◌≡◌, refl, ◌++◌, [], ◌∷◌, List, ◌<◌, ◌∙◌, inl, inr, length, arith, append_assoc, All, drop,
  get_or, le→ltb, self_test, pos_test,
}
use unverified.Common.Words.{Bytes, put_be, be_uint-put_be}
use unverified.Errors.{Error}
use unverified.Stream.{reader, ok, read_full}
use unverified.Stream.Laws.{read_full-append}
use unverified.TunnelPb.{Session}
use unverified.TunnelPb.Ip.{read_ip, read_ip16}
use unverified.TunnelPb.Decode.{read_dns, read_addresses, read_session}
use unverified.TunnelPb.Wire.{
  IsValid, session, address, joined, session_head, session_body, IsAddress, IsDns,
}

-- Reading one byte.
read_byte :
    (b : ℕ) (rest : Bytes) (e : Error)
    → read_full 1 (reader (b ∷ rest) e) ≡ (ok (b ∷ []), reader rest e)
read_byte b rest e = read_full-append 1 (b ∷ []) rest e refl

pub read_ip-address :
    (n : ℕ) (ip rest : Bytes) (e : Error)
    → 0 < n
    → IsAddress n ip
    → read_ip n (reader (address ip ++ rest) e) ≡ (ok ip, reader rest e)
unfolding read_ip
read_ip-address n [] rest e pos v = rw (read_byte 0 rest e)
read_ip-address n (b ∷ ip) rest e pos (inl none, _) = cc
read_ip-address n (b ∷ ip) rest e pos (inr len, _) = rw (
  read_byte (length (b ∷ ip)) ((b ∷ ip) ++ rest) e,
  len,
  pos_test n pos,
  self_test n,
  read_full-append n (b ∷ ip) rest e len,
)

pub read_ip16-eq-read_ip : (n : ℕ) → read_ip16 n ≡ read_ip n
unfolding read_ip read_ip16
read_ip16-eq-read_ip n = refl

pub read_dns-joined :
    (ips : List Bytes) (rest : Bytes) (e : Error)
    → All IsDns ips
    → read_dns (length ips) (reader (joined ips ++ rest) e) ≡ (ok ips, reader rest e)
unfolding read_dns
read_dns-joined [] rest e v = refl
read_dns-joined (ip ∷ ips) rest e ((len, _), more) = rw (
  append_assoc ip (joined ips) rest,
  read_full-append 16 ip (joined ips ++ rest) e len,
  read_dns-joined ips rest e more,
)

pub read_addresses-body :
    (s : Session) (rest : Bytes) (e : Error)
    → IsValid (session s)
    → read_addresses (length s.dns_servers) s.mtu (
        reader
          (address s.assigned_ipv4 ++ (address s.assigned_ipv6 ++ (joined s.dns_servers ++ rest)))
          e)
      ≡ (ok s, reader rest e)
unfolding read_addresses
read_addresses-body s rest e (v4, v6, count, dns, mtu) = rw (
  read_ip-address 4 s.assigned_ipv4 _ e (omega arith) v4,
  read_ip16-eq-read_ip 16,
  read_ip-address 16 s.assigned_ipv6 _ e (omega arith) v6,
  read_dns-joined s.dns_servers rest e dns,
)

session_fields :
    (s : Session)
    → (length (session_head s) ≡ 5)
      × (get_or (session_head s) 0 0 ≡ length s.dns_servers)
      × (drop 1 (session_head s) ≡ put_be 4 s.mtu)
unfolding put_be
session_fields s = (refl, refl, refl)

session_body_regroup :
    (s : Session) (rest : Bytes)
    → session_body s ++ rest
      ≡ session_head s
        ++ (address s.assigned_ipv4 ++ (address s.assigned_ipv6 ++ (joined s.dns_servers ++ rest)))
session_body_regroup s rest =
    append_assoc (session_head s) _ rest
    ∙ rw (
      append_assoc (address s.assigned_ipv4) (address s.assigned_ipv6 ++ joined s.dns_servers) rest,
      append_assoc (address s.assigned_ipv6) (joined s.dns_servers) rest,
    )

pub read_session-body :
    (s : Session) (rest : Bytes) (e : Error)
    → IsValid (session s)
    → read_session (reader (session_body s ++ rest) e) ≡ (ok s, reader rest e)
unfolding read_session
read_session-body s rest e v =
    let (width, count, mtu) = session_fields s in
    rw
      (
        session_body_regroup s rest,
        read_full-append 5 (session_head s) _ e width,
        count,
        mtu,
        be_uint-put_be 4 s.mtu v.4,
        le→ltb 4 (length s.dns_servers) v.2,
      )
      (read_addresses-body s rest e v)
