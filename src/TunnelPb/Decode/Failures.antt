-- ===== src/TunnelPb/Decode/Failures.antt =====
-- The errors of the `read...` functions of internal/transport/grpc/tunnelpb/codec.go.
use unverified.Common.{ℕ, zero, suc, ◌≡◌, refl, true, false, [], get_or, drop, ltb, ◌==◌}
use unverified.Common.Words.{Bytes, be_uint}
use unverified.Errors.{Error, wrap, short_read, eof, is_error, is_nil}
use unverified.Stream.{Parser, read_full, on_error, return, refuse}
use unverified.Stream.Failures.{
  FailsIn, FailsIn-return, FailsIn-refuse, FailsIn-on_error, FailsIn-if, FailsIn->>=,
}
use unverified.TunnelPb.Ip.{read_ip, read_ip16}
use unverified.TunnelPb.Decode.{
  short, read_text, read_hello, read_dns, read_addresses, read_session, read_keepalive, read_rekey,
  read_close,
}

-- `ErrShortRead`, and not `io.EOF`, is in the chain.
abbrev pub IsShort : Error → Type 0
IsShort e = (is_error e short_read ≡ true) × (is_error e eof ≡ false) × (is_nil e ≡ false)

abbrev pub NotNil : Error → Type 0
NotNil e = is_nil e ≡ false

short-IsShort : (what : Bytes) (e : Error) → IsShort (short what e)
unfolding is_error
short-IsShort what e = (refl, refl, refl)

read_short : (what : Bytes) (n : ℕ) → FailsIn IsShort (on_error (short what) (read_full n))
read_short what n = FailsIn-on_error IsShort (short what) (read_full n) (short-IsShort what)

text-IsShort : (what : Bytes) (n : ℕ) → FailsIn IsShort (read_text what n)
text-IsShort what n =
    FailsIn-if IsShort (n == 0) (return []) (on_error (short what) (read_full n))
      (FailsIn-return IsShort []) (read_short what n)

-- Each of these records fails with `ErrShortRead` only.
pub read_hello-IsShort : FailsIn IsShort read_hello
unfolding read_hello
read_hello-IsShort = FailsIn->>= IsShort _ _ (read_short _ 9) (λ head.
    FailsIn->>= IsShort _ _ (text-IsShort _ (get_or head 4 0)) (λ id. FailsIn-return IsShort _))

pub read_keepalive-IsShort : FailsIn IsShort read_keepalive
unfolding read_keepalive
read_keepalive-IsShort = FailsIn->>= IsShort _ _ (read_short _ 8) (λ buf. FailsIn-return IsShort _)

pub read_rekey-IsShort : FailsIn IsShort read_rekey
unfolding read_rekey
read_rekey-IsShort = FailsIn->>= IsShort _ _ (read_short _ 32) (λ x.
    FailsIn->>= IsShort _ _ (read_short _ 1184)
      (λ m. FailsIn->>= IsShort _ _ (read_short _ 8) (λ buf. FailsIn-return IsShort _)))

pub read_close-IsShort : FailsIn IsShort read_close
unfolding read_close
read_close-IsShort = FailsIn->>= IsShort _ _ (read_short _ 5) (λ head.
    FailsIn->>= IsShort _ _ (text-IsShort _ (get_or head 4 0)) (λ msg. FailsIn-return IsShort _))

short-NotNil : (what : Bytes) (n : ℕ) → FailsIn NotNil (on_error (short what) (read_full n))
short-NotNil what n = FailsIn-on_error NotNil (short what) (read_full n) (λ e. refl)

wrapped-NotNil :
    {A : Type 0} (before after : Bytes) (m : Parser A)
    → FailsIn NotNil (on_error (λ e. wrap before e after) m)
wrapped-NotNil before after m = FailsIn-on_error NotNil (λ e. wrap before e after) m (λ e. refl)

read_dns-NotNil : (n : ℕ) → FailsIn NotNil (read_dns n)
unfolding read_dns
read_dns-NotNil zero = FailsIn-return NotNil []
read_dns-NotNil (suc n) =
    FailsIn->>= NotNil _ _ (short-NotNil _ 16)
      (λ buf. FailsIn->>= NotNil _ _ (read_dns-NotNil n) (λ rest. FailsIn-return NotNil _))

read_addresses-NotNil : (count mtu : ℕ) → FailsIn NotNil (read_addresses count mtu)
unfolding read_addresses
read_addresses-NotNil count mtu = FailsIn->>= NotNil _ _ (wrapped-NotNil _ _ (read_ip 4)) (λ v4.
    FailsIn->>= NotNil _ _ (wrapped-NotNil _ _ (read_ip16 16))
      (λ v6. FailsIn->>= NotNil _ _ (read_dns-NotNil count) (λ dns. FailsIn-return NotNil _)))

pub read_session-NotNil : FailsIn NotNil read_session
unfolding read_session
read_session-NotNil = FailsIn->>= NotNil _ _ (short-NotNil _ 5) (λ head.
    FailsIn-if NotNil (ltb 4 (get_or head 0 0)) (refuse _)
      (read_addresses (get_or head 0 0) (be_uint (drop 1 head))) (FailsIn-refuse NotNil _ refl)
      (read_addresses-NotNil _ _))
