-- ===== src/TunnelPb/Ip.antt =====
-- Addresses: `To4` and `To16` of package net, and `writeIP`, `writeIP16`, `readIP`, `readIP16` of
-- internal/transport/grpc/tunnelpb/codec.go.
pub mod Laws
use unverified.Common.{
  ℕ, Bool, true, false, [], ◌∷◌, ◌++◌, ◌==◌, ◌&&◌, ◌%◌, if◌then◌else◌, length, get_or, take, drop,
}
use unverified.Common.Words.{Bytes}
use unverified.Errors.{Error, sentinel, wrap, length_invalid, bytes}
use unverified.Stream.{
  Parser, ◌>>=◌, return, refuse, on_error, read_full, Action, ◌>>◌, write, give_up,
}

abbrev pub v4_in_v6_prefix : Bytes
v4_in_v6_prefix = 0 ∷ 0 ∷ 0 ∷ 0 ∷ 0 ∷ 0 ∷ 0 ∷ 0 ∷ 0 ∷ 0 ∷ 0xff ∷ 0xff ∷ []

is_zeros : Bytes → Bool
is_zeros [] = true
is_zeros (b ∷ bs) = b == 0 && is_zeros bs

unfoldable pub to4 : Bytes → Bytes
unfolding is_zeros
to4 ip =
    if length ip == 4
    then ip
    else if length ip == 16
        && is_zeros (take 10 ip)
        && get_or ip 10 0 == 0xff
        && get_or ip 11 0 == 0xff
    then drop 12 ip
    else []

unfoldable pub to16 : Bytes → Bytes
to16 ip = if length ip == 4 then v4_in_v6_prefix ++ ip else if length ip == 16 then ip else []

unfoldable pub write_ip : Bytes → ℕ → Action
write_ip ip want =
    if length ip == 0
    then write (0 ∷ [])
    else if length ip == want
    then (do write ((want % 256) ∷ []); write ip)
    else give_up (wrap [] (sentinel length_invalid) (bytes ": got %d bytes, want %d"))

-- The body of `writeIP16` behind `v6 := ip.To16()`.
abbrev write_v6 : Bytes → ℕ → Action
write_v6 v6 want =
    if length v6 == 0
    then give_up (wrap [] (sentinel length_invalid) (bytes ": not a valid IPv6 address"))
    else if length v6 == want
    then (do write ((want % 256) ∷ []); write v6)
    else give_up (wrap [] (sentinel length_invalid) (bytes ": got %d bytes, want %d"))

unfoldable pub write_ip16 : Bytes → ℕ → Action
write_ip16 ip want = if length ip == 0 then write (0 ∷ []) else write_v6 (to16 ip) want

-- The length byte decides: 0 is no address, `want` is an address of that length.
abbrev pub read_ip_body : ℕ → ℕ → Parser Bytes
read_ip_body n want =
    if n == 0
    then return []
    else if n == want
    then on_error (λ e. wrap (bytes "body: ") e []) (read_full want)
    else refuse (wrap [] (sentinel length_invalid) (bytes ": got %d, want %d"))

unfoldable pub read_ip : ℕ → Parser Bytes
read_ip want = do
  len_buf ← on_error (λ e. wrap (bytes "length byte: ") e []) (read_full 1)
  read_ip_body (get_or len_buf 0 0) want

-- `readIP16` has the text of `readIP`.
unfoldable pub read_ip16 : ℕ → Parser Bytes
read_ip16 want = do
  len_buf ← on_error (λ e. wrap (bytes "length byte: ") e []) (read_full 1)
  read_ip_body (get_or len_buf 0 0) want
