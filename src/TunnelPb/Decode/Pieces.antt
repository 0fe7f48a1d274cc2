-- ===== src/TunnelPb/Decode/Pieces.antt =====
-- What each `read...` function has consumed when it succeeds: the bytes of a valid payload.
use unverified.Common.{
  ℕ, zero, suc, ◌≡◌, refl, ◌++◌, [], ◌∷◌, ◌<◌, ◌∙◌, sym, inl, inr, length, arith, append_assoc,
  Bool-cases, All, All-append, All-take, ◌^◌, All-drop, All-append_left, All-append_right, take,
  drop, get_or, take-get_or-drop, length-take, length-drop, ◌==◌, ==_iff,
}
use mathlib.Core.Path.{subst, subst₂}
use unverified.Common.Words.{Bytes, IsByte, put_be, be_uint, put_be-be_uint, be_uint-lt}
use unverified.Errors.{Error, bytes}
use unverified.Stream.{Reader, Result, ok, read_full, on_error, return, ◌>>=◌}
use unverified.Stream.Laws.{read_full-ok, ok-injective, relabel-ok, and_then-ok}
use unverified.TunnelPb.{Hello, Keepalive, Rekey, Close}
use unverified.TunnelPb.Decode.{
  short, read_text, read_hello, read_keepalive, read_rekey, read_close, read_packet,
  read_packet_body,
}
use unverified.TunnelPb.Wire.{
  IsValid, IsPacket, hello, keepalive, rekey, close, hello_head, close_head, rekey_body,
  packet_body,
}

-- `a` was read off the front of `r`: it is P, and its bytes `enc` are what is gone.
pub record Took (r r' : Reader) (enc : Bytes) : Type 0 where
  pub split : r.input ≡ enc ++ r'.input
  pub typed : All IsByte enc
  pub rest_typed : All IsByte r'.input
  pub same_last : r'.last ≡ r.last

pub Took-then : {r s t : Reader} (a b : Bytes) → Took r s a → Took s t b → Took r t (a ++ b)
Took-then {t} a b x y = record {
  split = x.split ∙ rw (y.split, append_assoc a b t.input);
  typed = All-append IsByte a b x.typed y.typed;
  rest_typed = y.rest_typed;
  same_last = y.same_last ∙ x.same_last;
}

-- A read that ends in a value `a` built from what was read.
pub finish :
    {A : Type 0} (Valid : A → Type 0) (enc : A → Bytes) (r : Reader) (a b : A) (t u : Reader)
    → ◌≡◌ {A = Result A × Reader} (ok a, t) (ok b, u)
    → Valid a × Took r t (enc a)
    → Valid b × Took r u (enc b)
finish {A} Valid enc r a b t u e h =
    let (value, rest) = ok-injective a b t u e in
    subst₂ (λ (x : A) (y : Reader). Valid x × Took r y (enc x)) value rest h

pub read_full-Took :
    (f : Error → Error) (n : ℕ) (r : Reader) (a : Bytes) (r' : Reader)
    → All IsByte r.input
    → on_error f (read_full n) r ≡ (ok a, r')
    → Took r r' a × (length a ≡ n)
read_full-Took f n r a r' typed h =
    let (len, split, last) = read_full-ok n r a r' (relabel-ok f (read_full n r) a r' h) in
    let all = subst (All IsByte) split typed in
    (
      record {
        split = split;
        typed = All-append_left IsByte a r'.input all;
        rest_typed = All-append_right IsByte a r'.input all;
        same_last = last;
      },
      len,
    )

pub Took-nothing : (r : Reader) → All IsByte r.input → Took r r []
Took-nothing r typed = record { split = refl; typed = tt; rest_typed = typed; same_last = refl }

pub read_text-Took :
    (what : Bytes) (n : ℕ) (r : Reader) (a : Bytes) (r' : Reader)
    → All IsByte r.input
    → read_text what n r ≡ (ok a, r')
    → (length a ≡ n) × Took r r' a
read_text-Took what n r a r' typed h = elim (Bool-cases (n == 0)) [
  | inl zero_len ↦
      finish (λ b. length b ≡ n) (λ b. b) r [] a r r' (rw zero_len at h)
        (sym ((==_iff n 0).0 zero_len), Took-nothing r typed)
  | inr some_len ↦
      let (took, len) = read_full-Took (short what) n r a r' typed (rw some_len at h) in (len, took)
]

-- The word that `k` bytes hold: it fits, and they are its bytes.
pub word_of :
    (k : ℕ) (bs : Bytes)
    → length bs ≡ k
    → All IsByte bs
    → (be_uint bs < 256 ^ k) × (put_be k (be_uint bs) ≡ bs)
word_of k bs len typed = rw (← len) (be_uint-lt bs typed, put_be-be_uint bs typed)

pub read_keepalive-Took :
    (r : Reader) (k : Keepalive) (r' : Reader)
    → All IsByte r.input
    → read_keepalive r ≡ (ok k, r')
    → IsValid (keepalive k) × Took r r' (put_be 8 k.nonce)
unfolding read_keepalive
read_keepalive-Took r k r' typed h =
    let (buf, t, first, last) =
      and_then-ok _ (λ (buf : Bytes). return (record { nonce = be_uint buf })) k r' h in
    let (took, len) = read_full-Took _ 8 r buf t typed first in
    let (fits, same) = word_of 8 buf len took.typed in
    finish (λ x. IsValid (keepalive x)) (λ x. put_be 8 x.nonce) r _ k t r' last (fits, rw same took)

get_or-IsByte : (bs : Bytes) (i : ℕ) → All IsByte bs → get_or bs i 0 < 256
get_or-IsByte [] i typed = omega arith
get_or-IsByte (b ∷ bs) zero typed = typed.0
get_or-IsByte (b ∷ bs) (suc i) typed = get_or-IsByte bs i typed.1

drop_all : (n : ℕ) (bs : Bytes) → length bs ≡ n → drop n bs ≡ []
drop_all n bs len = length-zero (drop n bs) (omega (arith, length-drop n bs, len))
  where
    length-zero : (xs : Bytes) → length xs ≡ 0 → xs ≡ []
    length-zero [] h = refl
    length-zero (x ∷ xs) h = absurd (omega arith)

-- The nine bytes of a `Hello` head are those of its fields.
hello_head_lem :
    (head id : Bytes)
    → length head ≡ 9
    → All IsByte head
    → length id ≡ get_or head 4 0
    → hello_head (record {
      protocol_version = be_uint (take 4 head);
      client_id = id;
      cipher_suite = be_uint (drop 5 head);
    })
      ≡ head
hello_head_lem head id len typed id_len =
    rw
      (
        (word_of 4 (take 4 head) (length-take 4 head (omega (arith, len)))
            (All-take IsByte 4 head typed)).1,
        (word_of 4 (drop 5 head) (omega (arith, length-drop 5 head, len))
            (All-drop IsByte 5 head typed)).1,
        id_len,
      )
      (take-get_or-drop 4 head 0 (omega (arith, len)))

pub read_hello-Took :
    (r : Reader) (x : Hello) (r' : Reader)
    → All IsByte r.input
    → read_hello r ≡ (ok x, r')
    → IsValid (hello x) × Took r r' (hello_head x ++ x.client_id)
unfolding read_hello
read_hello-Took r x r' typed h =
    let (head, t, first, more) =
      and_then-ok _
        (λ (head : Bytes). read_text (bytes ": Hello.ClientID: %v") (get_or head 4 0) >>= λ id.
          return (record {
            protocol_version = be_uint (take 4 head);
            client_id = id;
            cipher_suite = be_uint (drop 5 head);
          }))
        x r' h in
    let (id, u, second, last) =
      and_then-ok _
        (λ (id : Bytes). return (record {
          protocol_version = be_uint (take 4 head);
          client_id = id;
          cipher_suite = be_uint (drop 5 head);
        }))
        x r' more in
    let (took, len) = read_full-Took _ 9 r head t typed first in
    let (id_len, id_took) = read_text-Took _ (get_or head 4 0) t id u took.rest_typed second in
    finish (λ y. IsValid (hello y)) (λ y. hello_head y ++ y.client_id) r _ x u r' last
      (
        (
          (word_of 4 (take 4 head) (length-take 4 head (omega (arith, len)))
              (All-take IsByte 4 head took.typed)).0,
          (omega (arith, id_len, get_or-IsByte head 4 took.typed), id_took.typed),
          (word_of 4 (drop 5 head) (omega (arith, length-drop 5 head, len))
              (All-drop IsByte 5 head took.typed)).0,
        ),
        rw (hello_head_lem head id len took.typed id_len) (Took-then head id took id_took),
      )

close_head_lem :
    (head msg : Bytes)
    → length head ≡ 5
    → All IsByte head
    → length msg ≡ get_or head 4 0
    → close_head (record { code = be_uint (take 4 head); message = msg }) ≡ head
close_head_lem head msg len typed msg_len =
    rw
      (
        (word_of 4 (take 4 head) (length-take 4 head (omega (arith, len)))
            (All-take IsByte 4 head typed)).1,
        msg_len,
        ← drop_all 5 head len,
      )
      (take-get_or-drop 4 head 0 (omega (arith, len)))

pub read_close-Took :
    (r : Reader) (x : Close) (r' : Reader)
    → All IsByte r.input
    → read_close r ≡ (ok x, r')
    → IsValid (close x) × Took r r' (close_head x ++ x.message)
unfolding read_close
read_close-Took r x r' typed h =
    let (head, t, first, more) =
      and_then-ok _
        (λ (head : Bytes). read_text (bytes ": Close.Message: %v") (get_or head 4 0) >>= λ msg.
          return (record { code = be_uint (take 4 head); message = msg }))
        x r' h in
    let (msg, u, second, last) =
      and_then-ok _
        (λ (msg : Bytes). return (record { code = be_uint (take 4 head); message = msg })) x r'
        more in
    let (took, len) = read_full-Took _ 5 r head t typed first in
    let (msg_len, msg_took) = read_text-Took _ (get_or head 4 0) t msg u took.rest_typed second in
    finish (λ y. IsValid (close y)) (λ y. close_head y ++ y.message) r _ x u r' last
      (
        (
          (word_of 4 (take 4 head) (length-take 4 head (omega (arith, len)))
              (All-take IsByte 4 head took.typed)).0,
          (omega (arith, msg_len, get_or-IsByte head 4 took.typed), msg_took.typed),
        ),
        rw (close_head_lem head msg len took.typed msg_len) (Took-then head msg took msg_took),
      )

pub read_rekey-Took :
    (r : Reader) (x : Rekey) (r' : Reader)
    → All IsByte r.input
    → read_rekey r ≡ (ok x, r')
    → IsValid (rekey x) × Took r r' (rekey_body x)
unfolding read_rekey
read_rekey-Took r x r' typed h =
    let (a, t, first, more) =
      and_then-ok _
        (λ (a : Bytes). on_error (short (bytes ": Rekey.MLKEMPublic: %v")) (read_full 1184) >>= λ m.
          on_error (short (bytes ": Rekey.ActivateAtSeq: %v")) (read_full 8) >>= λ buf.
          return (record { x25519_public = a; mlkem_public = m; activate_at_seq = be_uint buf }))
        x r' h in
    let (m, u, second, rest) =
      and_then-ok _
        (λ (m : Bytes).
          on_error (short (bytes ": Rekey.ActivateAtSeq: %v")) (read_full 8) >>= λ buf.
          return (record { x25519_public = a; mlkem_public = m; activate_at_seq = be_uint buf }))
        x r' more in
    let (buf, v, third, last) =
      and_then-ok _
        (λ (buf : Bytes).
          return (record { x25519_public = a; mlkem_public = m; activate_at_seq = be_uint buf }))
        x r' rest in
    let (a_took, a_len) = read_full-Took _ 32 r a t typed first in
    let (m_took, m_len) = read_full-Took _ 1184 t m u a_took.rest_typed second in
    let (buf_took, buf_len) = read_full-Took _ 8 u buf v m_took.rest_typed third in
    let (fits, same) = word_of 8 buf buf_len buf_took.typed in
    finish (λ y. IsValid (rekey y)) rekey_body r _ x v r' last
      (
        ((a_len, a_took.typed), (m_len, m_took.typed), fits),
        rw same (Took-then a (m ++ buf) a_took (Took-then m buf m_took buf_took)),
      )

pub read_packet-Took :
    (r : Reader) (p : Bytes) (r' : Reader)
    → All IsByte r.input
    → read_packet r ≡ (ok p, r')
    → IsPacket p × Took r r' (packet_body p)
unfolding read_packet
read_packet-Took r p r' typed h =
    let (len_buf, t, first, more) =
      and_then-ok _ (λ (len_buf : Bytes). read_packet_body (be_uint len_buf)) p r' h in
    let (len_took, len_len) = read_full-Took _ 2 r len_buf t typed first in
    let (fits, same) = word_of 2 len_buf len_len len_took.typed in
    elim (Bool-cases (be_uint len_buf == 0)) [
      | inl empty ↦ cc (rw empty at more)
      | inr some_len ↦
          let (took, len) =
            read_full-Took _ (be_uint len_buf) t p r' len_took.rest_typed (rw some_len at more) in
          (
            (ground (arith, len), omega (arith, len), took.typed),
            rw (len, same) (Took-then len_buf p len_took took),
          )
    ]
