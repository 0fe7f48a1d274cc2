-- ===== src/TunnelPb/Decode.antt =====
-- Reading: `ReadFrame` and the `read...` functions of
-- internal/transport/grpc/tunnelpb/codec.go. A message's text is the format of the source.
pub mod Pieces
pub mod Sessions
pub mod Failures
pub mod Frames
use unverified.Common.{
  ℕ, zero, suc, Bool, true, false, Option, none, some, List, [], ◌∷◌, ◌++◌, ◌==◌, ◌||◌,
  if◌then◌else◌, length, ltb, take, drop, get_or,
}
use unverified.Common.Words.{Bytes, be_uint}
use unverified.Errors.{
  Error, nil, sentinel, new, wrap, length_invalid, field_too_long, unknown_tag, short_read, eof,
  unexpected_eof, bytes, is_nil, is_error,
}
use unverified.Stream.{Reader, Result, ok, fail, Parser, ◌>>=◌, return, refuse, on_error, read_full}
use unverified.TunnelPb.{
  Frame, blank, Hello, Session, Keepalive, Rekey, Close, tag_ipv4, tag_ipv6, tag_hello, tag_session,
  tag_keepalive, tag_rekey, tag_close, max_dns_entries, x25519_len, mlkem_len,
}
use unverified.TunnelPb.Ip.{read_ip, read_ip16}

-- `fmt.Errorf("%w: <what>: %v", ErrShortRead, err)`: only `ErrShortRead` stays in the chain.
abbrev pub short : Bytes → Error → Error
short what e = wrap [] (sentinel short_read) what

-- `if n > 0 { io.ReadFull(r, make([]byte, n)) }`.
abbrev pub read_text : Bytes → ℕ → Parser Bytes
read_text what n = if n == 0 then return [] else on_error (short what) (read_full n)

unfoldable pub read_hello : Parser Hello
read_hello = do
  head ← on_error (short (bytes ": Hello head: %v")) (read_full 9)
  id ← read_text (bytes ": Hello.ClientID: %v") (get_or head 4 0)
  return (record {
    protocol_version = be_uint (take 4 head);
    client_id = id;
    cipher_suite = be_uint (drop 5 head);
  })

-- The loop over the DNS entries.
unfoldable pub read_dns : ℕ → Parser (List Bytes)
read_dns zero = return []
read_dns (suc n) = do
  buf ← on_error (short (bytes ": Session.DNSServers[%d]: %v")) (read_full 16)
  rest ← read_dns n
  return (buf ∷ rest)

unfoldable pub read_addresses : ℕ → ℕ → Parser Session
read_addresses count mtu = do
  v4 ← on_error (λ e. wrap (bytes "tunnelpb: Session.AssignedIPv4: ") e []) (read_ip 4)
  v6 ← on_error (λ e. wrap (bytes "tunnelpb: Session.AssignedIPv6: ") e []) (read_ip16 16)
  dns ← read_dns count
  return (record { assigned_ipv4 = v4; assigned_ipv6 = v6; dns_servers = dns; mtu = mtu })

-- Behind the head: the count of the DNS entries is checked first.
abbrev pub read_counted : ℕ → ℕ → Parser Session
read_counted count mtu =
    if ltb max_dns_entries count
    then refuse
        (wrap (bytes "tunnelpb: Session.DNSServers count %d > %d: ") (sentinel field_too_long) [])
    else read_addresses count mtu

unfoldable pub read_session : Parser Session
read_session = do
  head ← on_error (short (bytes ": Session head: %v")) (read_full 5)
  read_counted (get_or head 0 0) (be_uint (drop 1 head))

unfoldable pub read_keepalive : Parser Keepalive
read_keepalive = do
  buf ← on_error (short (bytes ": Keepalive: %v")) (read_full 8)
  return (record { nonce = be_uint buf })

unfoldable pub read_rekey : Parser Rekey
read_rekey = do
  x ← on_error (short (bytes ": Rekey.X25519Public: %v")) (read_full x25519_len)
  m ← on_error (short (bytes ": Rekey.MLKEMPublic: %v")) (read_full mlkem_len)
  buf ← on_error (short (bytes ": Rekey.ActivateAtSeq: %v")) (read_full 8)
  return (record { x25519_public = x; mlkem_public = m; activate_at_seq = be_uint buf })

unfoldable pub read_close : Parser Close
read_close = do
  head ← on_error (short (bytes ": Close head: %v")) (read_full 5)
  msg ← read_text (bytes ": Close.Message: %v") (get_or head 4 0)
  return (record { code = be_uint (take 4 head); message = msg })

abbrev pub read_packet_body : ℕ → Parser Bytes
read_packet_body n =
    if n == 0
    then refuse (wrap [] (sentinel length_invalid) (bytes ": zero-length packet"))
    else on_error (short (bytes ": packet body: %v")) (read_full n)

unfoldable pub read_packet : Parser Bytes
read_packet = do
  len_buf ← on_error (short (bytes ": packet length: %v")) (read_full 2)
  read_packet_body (be_uint len_buf)

-- What `ReadFrame` returns: the frame and the error, either of which may be nil.
abbrev pub Returned : Type 0
Returned = (Option Frame × Error) × Reader

-- `p, err := read...(r); return &Frame{Tag: tag, ...: p}, err`.
abbrev pub control : {A : Type 0} → Frame → (A → Frame) → Result A × Reader → Returned
control empty put (ok a, r) = ((some (put a), nil), r)
control empty put (fail e, r) = ((some empty, e), r)

-- A packet's errors return no frame.
abbrev pub packet_frame : ℕ → Result Bytes × Reader → Returned
packet_frame tag (ok p, r) = ((some (record (blank tag) { packet = some p }), nil), r)
packet_frame tag (fail e, r) = ((none, e), r)

unfoldable pub read_body : ℕ → Reader → Returned
read_body tag r =
    let b = blank tag in
    if tag == tag_ipv4 || tag == tag_ipv6
    then packet_frame tag (read_packet r)
    else if tag == tag_hello
    then control b (λ h. record b { hello = some h }) (read_hello r)
    else if tag == tag_session
    then control b (λ s. record b { session = some s }) (read_session r)
    else if tag == tag_keepalive
    then control b (λ k. record b { keepalive = some k }) (read_keepalive r)
    else if tag == tag_rekey
    then control b (λ k. record b { rekey = some k }) (read_rekey r)
    else if tag == tag_close
    then control b (λ c. record b { close = some c }) (read_close r)
    else ((none, wrap [] (sentinel unknown_tag) (bytes ": 0x%02x")), r)

-- The error that `ReadFrame` makes of a failure to read the tag byte.
abbrev pub tag_error : Error → Error
tag_error e =
    if is_error e eof
    then sentinel eof
    else if is_error e unexpected_eof
    then wrap [] (sentinel short_read) (bytes ": tag byte")
    else e

abbrev pub read_tagged : Result Bytes × Reader → Returned
read_tagged (ok tag_buf, r) = read_body (get_or tag_buf 0 0) r
read_tagged (fail e, r) = ((none, tag_error e), r)

unfoldable pub read_frame : Reader → Returned
unfolding read_body
read_frame r = read_tagged (read_full 1 r)
