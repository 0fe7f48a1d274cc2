-- ===== src/TunnelPb/Encode/Sessions.antt =====
-- `writeSession`: when it succeeds, and what it appends.
use unverified.Common.{
  ◌≡◌, refl, ◌++◌, [], ◌∷◌, List, ◌≤◌, ◌∙◌, ap, sym, ◌⊎◌, length, arith, Bool-cases, ltb, le→ltb,
  ltb→le, Option, none, some, map, inl, inr, length-map, ◌%◌,
}
use unverified.Common.Words.{Bytes}
use unverified.Errors.{Error, nil, bytes, wrap}
use unverified.Stream.{Writer, reliable, write, Action, ◌>>◌, relabel_failure, unless_failed}
use unverified.Stream.Sequence.{seq-ok, wrapped-ok}
use unverified.TunnelPb.{Session}
use unverified.TunnelPb.Ip.{to4, to16, write_ip, write_ip16}
use unverified.TunnelPb.Ip.Laws.{
  to4-form, to16-form, write_ip-address, write_ip16-address, write_ip16-ok,
}
use unverified.TunnelPb.Encode.{write_dns, write_session}
use unverified.TunnelPb.Encode.Pieces.{
  Appends, Appends-write, Appends->>, write_dns-Appends, IsWritableDns, normal,
}
use unverified.TunnelPb.Wire.{address, joined, session_head, session_body}

-- What `writeSession` insists on.
pub record IsWritable (s : Session) : Type 0 where
  pub few : length s.dns_servers ≤ 4
  pub v6 : (s.assigned_ipv6 ≡ []) ⊎ (length (to16 s.assigned_ipv6) ≡ 16)
  pub dns : IsWritableDns s.dns_servers

abbrev v4_part : Session → Action
v4_part s w =
    relabel_failure (λ e. wrap (bytes "tunnelpb: Session.AssignedIPv4: ") e [])
      (write_ip (to4 s.assigned_ipv4) 4 w)

abbrev v6_part : Session → Action
v6_part s w =
    relabel_failure (λ e. wrap (bytes "tunnelpb: Session.AssignedIPv6: ") e [])
      (write_ip16 s.assigned_ipv6 16 w)

v4_part-Appends : (s : Session) → Appends (v4_part s) (address (to4 s.assigned_ipv4))
v4_part-Appends s sent = rw (
    write_ip-address 4 (to4 s.assigned_ipv4) sent (omega arith) (omega arith)
      (to4-form s.assigned_ipv4))

v6_part-Appends :
    (s : Session)
    → (s.assigned_ipv6 ≡ []) ⊎ (length (to16 s.assigned_ipv6) ≡ 16)
    → Appends (v6_part s) (address (to16 s.assigned_ipv6))
v6_part-Appends s h sent = rw (write_ip16-address s.assigned_ipv6 sent h)

-- The bytes of the session that the peer reads, by the addresses of the one that is written.
normal_body :
    (s : Session)
    → session_body (normal s)
      ≡ session_head s
        ++ (address (to4 s.assigned_ipv4)
            ++ (address (to16 s.assigned_ipv6) ++ joined (map to16 s.dns_servers)))
unfolding normal
normal_body s = rw (length-map to16 s.dns_servers)

parts-Appends :
    (s : Session)
    → IsWritable s
    → Appends
        (write (session_head s) >> (v4_part s >> (v6_part s >> write_dns s.dns_servers)))
        (session_body (normal s))
parts-Appends s v sent =
    let servers = write_dns-Appends s.dns_servers v.dns in
    let v6 =
      Appends->> (v6_part s) (write_dns s.dns_servers) _ _ (v6_part-Appends s v.v6) servers in
    let v4 =
      Appends->> (v4_part s) (v6_part s >> write_dns s.dns_servers) _ _ (v4_part-Appends s) v6 in
    rw (normal_body s) (
      Appends->> (write (session_head s)) (v4_part s >> (v6_part s >> write_dns s.dns_servers)) _ _
        (Appends-write (session_head s)) v4 sent)

pub write_session-Appends :
    (s : Session) → IsWritable s → Appends (write_session (some s)) (session_body (normal s))
unfolding write_session
write_session-Appends s v sent =
    rw (le→ltb 4 (length s.dns_servers) v.few, count) (parts-Appends s v sent)
  where
    count : length s.dns_servers % 256 ≡ length s.dns_servers
    count = omega (arith, v.few)

write_dns-ok :
    (ips : List Bytes) (sent : Bytes) (w : Writer)
    → write_dns ips (reliable sent) ≡ (nil, w)
    → IsWritableDns ips
unfolding write_dns write
write_dns-ok [] sent w h = tt
write_dns-ok (ip ∷ ips) sent w h = elim (to16-form ip) [
  | inl unset ↦ cc (rw unset at h)
  | inr long ↦ (long, write_dns-ok ips (sent ++ to16 ip) w (rw long at h))
]

-- Behind the head: the parts succeed only if the addresses can be written.
parts-ok :
    (s : Session) (sent : Bytes) (w : Writer)
    → length s.dns_servers ≤ 4
    → (v4_part s >> (v6_part s >> write_dns s.dns_servers)) (reliable sent) ≡ (nil, w)
    → IsWritable s
parts-ok s sent w few h =
    let mid = sent ++ address (to4 s.assigned_ipv4) in
    let later =
      sym (
        ap (λ (x : Error × Writer). unless_failed x (v6_part s >> write_dns s.dns_servers))
          (v4_part-Appends s sent))
      ∙ h in
    let (first, second) = seq-ok (v6_part s (reliable mid)) (write_dns s.dns_servers) w later in
    let v6 =
      write_ip16-ok s.assigned_ipv6 mid _
        (wrapped-ok _ _ (write_ip16 s.assigned_ipv6 16 (reliable mid)) _ first) in
    record {
      few = few;
      v6 = v6;
      dns = write_dns-ok s.dns_servers _ w (
          sym (ap (λ (x : Error × Writer). write_dns s.dns_servers x.1) (v6_part-Appends s v6 mid))
          ∙ second);
    }

pub write_session-ok :
    (o : Option Session) (sent : Bytes) (w : Writer)
    → write_session o (reliable sent) ≡ (nil, w)
    → (s : Session) × (o ≡ some s) × IsWritable s
unfolding write_session write
write_session-ok none sent w h = cc
write_session-ok (some s) sent w h = elim (Bool-cases (ltb 4 (length s.dns_servers))) [
  | inl many ↦ cc (rw many at h)
  | inr few ↦ (s, refl, parts-ok s _ w (ltb→le 4 (length s.dns_servers) few) (rw few at h))
]
