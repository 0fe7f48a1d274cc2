-- ===== src/TunnelPb/Decode/Sessions.antt =====
-- What `readSession` has consumed when it succeeds, and what `readIP` and the DNS loop have.
use unverified.Common.{
  ℕ, zero, suc, ◌^◌, length-drop, ◌≡◌, refl, ◌++◌, [], ◌∷◌, List, ◌≤◌, ◌<◌, ◌∙◌, ap, sym, inl, inr,
  length, arith, Bool-cases, All, All-drop, drop, get_or, ◌==◌, ==_iff, ltb, ltb→le,
}
use mathlib.Core.Path.{subst}
use unverified.Common.Words.{Bytes, IsByte, put_be, be_uint}
use unverified.Errors.{bytes, wrap}
use unverified.Stream.{Reader, ok, Parser, on_error, return, ◌>>=◌}
use unverified.Stream.Laws.{relabel-ok, and_then-ok}
use unverified.TunnelPb.{Session}
use unverified.TunnelPb.Ip.{read_ip, read_ip16, read_ip_body}
use unverified.TunnelPb.Decode.{read_dns, read_addresses, read_counted, read_session}
use unverified.TunnelPb.Decode.Pieces.{
  Took, Took-then, Took-nothing, finish, read_full-Took, word_of,
}
use unverified.TunnelPb.Wire.{
  IsValid, session, IsAddress, IsDns, address, joined, session_head, session_body,
}
use unverified.TunnelPb.Wire.Addresses.{read_ip16-eq-read_ip}

pub one_byte : (bs : Bytes) → length bs ≡ 1 → bs ≡ get_or bs 0 0 ∷ []
one_byte [] h = absurd (omega (arith, h))
one_byte (b ∷ []) h = refl
one_byte (b ∷ c ∷ bs) h = absurd (omega (arith, h))

read_ip_body-Took :
    (n b : ℕ) (r : Reader) (ip : Bytes) (r' : Reader)
    → All IsByte r.input
    → read_ip_body b n r ≡ (ok ip, r')
    → (b ≡ length ip) × IsAddress n ip × Took r r' ip
read_ip_body-Took n b r ip r' typed h = elim (Bool-cases (b == 0)) [
  | inl unset ↦
      let (valid, took) =
        finish (λ x. (b ≡ length x) × IsAddress n x) (λ x. x) r [] ip r r' (rw unset at h)
          (((==_iff b 0).0 unset, (inl refl, tt)), Took-nothing r typed) in
      (valid.0, valid.1, took)
  | inr some_len ↦ elim (Bool-cases (b == n)) [
    | inr wrong ↦ cc (rw (some_len, wrong) at h)
    | inl right ↦
        let (took, len) = read_full-Took _ n r ip r' typed (rw (some_len, right) at h) in
        ((==_iff b n).0 right ∙ sym len, (inr len, took.typed), took)
  ]
]

pub read_ip-Took :
    (n : ℕ) (r : Reader) (ip : Bytes) (r' : Reader)
    → All IsByte r.input
    → read_ip n r ≡ (ok ip, r')
    → IsAddress n ip × Took r r' (address ip)
unfolding read_ip
read_ip-Took n r ip r' typed h =
    let (len_buf, t, first, more) =
      and_then-ok _ (λ (len_buf : Bytes). read_ip_body (get_or len_buf 0 0) n) ip r' h in
    let (len_took, len_len) = read_full-Took _ 1 r len_buf t typed first in
    let (same, valid, took) =
      read_ip_body-Took n (get_or len_buf 0 0) t ip r' len_took.rest_typed more in
    (
      valid,
      subst (λ (bs : Bytes). Took r r' (bs ++ ip))
          (one_byte len_buf len_len ∙ ap (λ (n : ℕ). n ∷ []) same)
          (Took-then len_buf ip len_took took),
    )

pub read_dns-Took :
    (n : ℕ) (r : Reader) (ips : List Bytes) (r' : Reader)
    → All IsByte r.input
    → read_dns n r ≡ (ok ips, r')
    → ((length ips ≡ n) × All IsDns ips) × Took r r' (joined ips)
unfolding read_dns
read_dns-Took zero r ips r' typed h =
    finish (λ x. (length x ≡ 0) × All IsDns x) joined r [] ips r r' h
      ((refl, tt), Took-nothing r typed)
read_dns-Took (suc n) r ips r' typed h =
    let (ip, t, first, more) =
      and_then-ok _ (λ (ip : Bytes). read_dns n >>= λ rest. return (ip ∷ rest)) ips r' h in
    let (rest, u, second, last) =
      and_then-ok _ (λ (rest : List Bytes). return (ip ∷ rest)) ips r' more in
    let (took, len) = read_full-Took _ 16 r ip t typed first in
    let (valid, rest_took) = read_dns-Took n t rest u took.rest_typed second in
    finish (λ x. (length x ≡ suc n) × All IsDns x) joined r (ip ∷ rest) ips u r' last
      ((ap suc valid.0, ((len, took.typed), valid.1)), Took-then ip (joined rest) took rest_took)

read_addresses-Took :
    (count mtu : ℕ) (r : Reader) (s : Session) (r' : Reader)
    → All IsByte r.input
    → count ≤ 4
    → mtu < 2 ^ 32
    → read_addresses count mtu r ≡ (ok s, r')
    → (IsValid (session s) × (length s.dns_servers ≡ count) × (s.mtu ≡ mtu))
      × Took r r' (address s.assigned_ipv4 ++ (address s.assigned_ipv6 ++ joined s.dns_servers))
unfolding read_addresses
read_addresses-Took count mtu r s r' typed few fits h =
    let (v4, t, first, more) =
      and_then-ok _
        (λ (v4 : Bytes).
          on_error (λ e. wrap (bytes "tunnelpb: Session.AssignedIPv6: ") e []) (read_ip16 16)
          >>= λ v6. read_dns count >>= λ dns.
              return
                (record { assigned_ipv4 = v4; assigned_ipv6 = v6; dns_servers = dns; mtu = mtu }))
        s r' h in
    let (v6, u, second, rest) =
      and_then-ok _
        (λ (v6 : Bytes). read_dns count >>= λ dns.
          return (record { assigned_ipv4 = v4; assigned_ipv6 = v6; dns_servers = dns; mtu = mtu }))
        s r' more in
    let (dns, v, third, last) =
      and_then-ok _
        (λ (dns : List Bytes).
          return (record { assigned_ipv4 = v4; assigned_ipv6 = v6; dns_servers = dns; mtu = mtu }))
        s r' rest in
    let (v4_valid, v4_took) = read_ip-Took 4 r v4 t typed (relabel-ok _ _ v4 t first) in
    let (v6_valid, v6_took) = read_ip-Took 16 t v6 u v4_took.rest_typed (
      sym (ap (λ (m : Parser Bytes). m t) (read_ip16-eq-read_ip 16))
      ∙ relabel-ok _ (read_ip16 16 t) v6 u second) in
    let (dns_valid, dns_took) = read_dns-Took count u dns v v6_took.rest_typed third in
    finish (λ x. IsValid (session x) × (length x.dns_servers ≡ count) × (x.mtu ≡ mtu))
      (λ x. address x.assigned_ipv4 ++ (address x.assigned_ipv6 ++ joined x.dns_servers)) r _ s v r'
      last
      (
        ((v4_valid, v6_valid, omega (arith, dns_valid.0), dns_valid.1, fits), dns_valid.0, refl),
        Took-then (address v4) (address v6 ++ joined dns) v4_took
            (Took-then (address v6) (joined dns) v6_took dns_took),
      )

head_drop : (head : Bytes) → length head ≡ 5 → get_or head 0 0 ∷ drop 1 head ≡ head
head_drop [] h = absurd (omega (arith, h))
head_drop (b ∷ bs) h = refl

session_head_lem :
    (head : Bytes) (s : Session)
    → length head ≡ 5
    → length s.dns_servers ≡ get_or head 0 0
    → s.mtu ≡ be_uint (drop 1 head)
    → put_be 4 (be_uint (drop 1 head)) ≡ drop 1 head
    → head ≡ session_head s
session_head_lem head s len count mtu same = sym (rw (count, mtu, same) (head_drop head len))

pub read_session-Took :
    (r : Reader) (s : Session) (r' : Reader)
    → All IsByte r.input
    → read_session r ≡ (ok s, r')
    → IsValid (session s) × Took r r' (session_body s)
unfolding read_session
read_session-Took r s r' typed h =
    let (head, t, first, more) =
      and_then-ok _ (λ (head : Bytes). read_counted (get_or head 0 0) (be_uint (drop 1 head))) s r'
        h in
    let (took, len) = read_full-Took _ 5 r head t typed first in
    let (fits, same) =
      word_of 4 (drop 1 head) (omega (arith, length-drop 1 head, len))
        (All-drop IsByte 1 head took.typed) in
    elim (Bool-cases (ltb 4 (get_or head 0 0))) [
      | inl many ↦ cc (rw many at more)
      | inr few ↦
          let (valid, rest) =
            read_addresses-Took (get_or head 0 0) (be_uint (drop 1 head)) t s r' took.rest_typed
              (ltb→le 4 _ few) fits (rw few at more) in
          (
            valid.0,
            subst
                (λ (bs : Bytes). Took r r' (
                  bs
                  ++ (address s.assigned_ipv4
                      ++ (address s.assigned_ipv6 ++ joined s.dns_servers))))
                (session_head_lem head s len valid.1 valid.2 same) (Took-then head _ took rest),
          )
    ]
