-- ===== src/TunnelPb/Wire/Pieces.antt =====
-- Reading back each payload of a valid message, with anything behind it.
use unverified.Common.{
  suc, ◌≡◌, refl, ◌++◌, [], ◌∷◌, length, arith, append_assoc, take, drop, get_or, suc_test,
}
use unverified.Common.Words.{Bytes, put_be, length-put_be, be_uint-put_be}
use unverified.Errors.{Error, bytes}
use unverified.Stream.{reader, ok}
use unverified.Stream.Laws.{read_full-append}
use unverified.TunnelPb.{Hello, Keepalive, Rekey, Close}
use unverified.TunnelPb.Decode.{
  read_text, read_hello, read_keepalive, read_rekey, read_close, read_packet,
}
use unverified.TunnelPb.Wire.{
  IsValid, hello, keepalive, rekey, close, packet_body, hello_head, close_head, rekey_body,
  IsPacket,
}

pub read_text-append :
    (what t rest : Bytes) (e : Error)
    → read_text what (length t) (reader (t ++ rest) e) ≡ (ok t, reader rest e)
read_text-append what [] rest e = refl
read_text-append what (b ∷ t) rest e =
    rw (suc_test (length t), read_full-append (suc (length t)) (b ∷ t) rest e refl)

hello_fields :
    (h : Hello)
    → (length (hello_head h) ≡ 9)
      × (take 4 (hello_head h) ≡ put_be 4 h.protocol_version)
      × (get_or (hello_head h) 4 0 ≡ length h.client_id)
      × (drop 5 (hello_head h) ≡ put_be 4 h.cipher_suite)
unfolding put_be
hello_fields h = (refl, refl, refl, refl)

pub read_hello-body :
    (h : Hello) (rest : Bytes) (e : Error)
    → IsValid (hello h)
    → read_hello (reader ((hello_head h ++ h.client_id) ++ rest) e) ≡ (ok h, reader rest e)
unfolding read_hello
read_hello-body h rest e v =
    let (width, version, id_len, suite) = hello_fields h in
    rw (
      append_assoc (hello_head h) h.client_id rest,
      read_full-append 9 (hello_head h) (h.client_id ++ rest) e width,
      id_len,
      read_text-append (bytes ": Hello.ClientID: %v") h.client_id rest e,
      version,
      suite,
      be_uint-put_be 4 h.protocol_version v.0,
      be_uint-put_be 4 h.cipher_suite v.2,
    )

pub read_keepalive-body :
    (k : Keepalive) (rest : Bytes) (e : Error)
    → IsValid (keepalive k)
    → read_keepalive (reader (put_be 8 k.nonce ++ rest) e) ≡ (ok k, reader rest e)
unfolding read_keepalive
read_keepalive-body k rest e v = rw (
  read_full-append 8 (put_be 8 k.nonce) rest e (length-put_be 8 k.nonce),
  be_uint-put_be 8 k.nonce v,
)

pub read_rekey-body :
    (rk : Rekey) (rest : Bytes) (e : Error)
    → IsValid (rekey rk)
    → read_rekey (reader (rekey_body rk ++ rest) e) ≡ (ok rk, reader rest e)
unfolding read_rekey
read_rekey-body rk rest e (x, m, seq) = rw (
  append_assoc rk.x25519_public (rk.mlkem_public ++ put_be 8 rk.activate_at_seq) rest,
  append_assoc rk.mlkem_public (put_be 8 rk.activate_at_seq) rest,
  read_full-append 32 rk.x25519_public _ e x.0,
  read_full-append 1184 rk.mlkem_public _ e m.0,
  read_full-append 8 (put_be 8 rk.activate_at_seq) rest e (length-put_be 8 rk.activate_at_seq),
  be_uint-put_be 8 rk.activate_at_seq seq,
)

close_fields :
    (c : Close)
    → (length (close_head c) ≡ 5)
      × (take 4 (close_head c) ≡ put_be 4 c.code)
      × (get_or (close_head c) 4 0 ≡ length c.message)
unfolding put_be
close_fields c = (refl, refl, refl)

pub read_close-body :
    (c : Close) (rest : Bytes) (e : Error)
    → IsValid (close c)
    → read_close (reader ((close_head c ++ c.message) ++ rest) e) ≡ (ok c, reader rest e)
unfolding read_close
read_close-body c rest e v =
    let (width, code, text_len) = close_fields c in
    rw (
      append_assoc (close_head c) c.message rest,
      read_full-append 5 (close_head c) (c.message ++ rest) e width,
      text_len,
      read_text-append (bytes ": Close.Message: %v") c.message rest e,
      code,
      be_uint-put_be 4 c.code v.0,
    )

pub read_packet-body :
    (p rest : Bytes) (e : Error)
    → IsPacket p
    → read_packet (reader (packet_body p ++ rest) e) ≡ (ok p, reader rest e)
unfolding read_packet
read_packet-body [] rest e v = absurd (omega (arith, v.0))
read_packet-body (b ∷ p) rest e v = rw (
  append_assoc (put_be 2 (length (b ∷ p))) (b ∷ p) rest,
  read_full-append 2 (put_be 2 (length (b ∷ p))) ((b ∷ p) ++ rest) e (length-put_be 2 _),
  be_uint-put_be 2 (length (b ∷ p)) (omega (arith, v.1)),
  suc_test (length p),
  read_full-append (length (b ∷ p)) (b ∷ p) rest e refl,
)
