-- ===== src/HostProbe/Udp.antt =====
-- internal/hostprobe/udpbuf_linux.go: the kernel's ceiling on the receive buffer, and the stub of
-- udpbuf_other.go. What `os.ReadFile` answers is an argument. `strconv.ParseUint` and
-- `strings.TrimSpace` are the standard library's.
pub mod Decimal
use unverified.Common.{
  ℕ, ◌+◌, ◌*◌, ◌-◌, Bool, true, false, ◌&&◌, not, Option, none, some, List, [], ◌∷◌, ◌++◌,
  if◌then◌else◌, ltb, leb, ◌==◌,
}
use unverified.Common.Words.{Bytes}
use unverified.Common.Text.{trim_space}
use unverified.Errors.{Error, nil, new, wrap, bytes}
use unverified.Stream.{Result, ok, fail}
use unverified.HostProbe.{
  ProbeError, failed, udp_buf_unreadable, platform_unsupported, Probed, found, refused,
}

abbrev pub recommended_rmem_max : ℕ
recommended_rmem_max = 4194304

abbrev pub max_uint64 : ℕ
max_uint64 = 0xffff_ffff_ffff_ffff

-- `cutoff` of `ParseUint`: the least number that overflows when it is multiplied by ten.
abbrev pub cutoff : ℕ
cutoff = 1844674407370955162

abbrev pub is_digit : ℕ → Bool
is_digit c = leb 48 c && leb c 57

abbrev pub parse_error : Bytes → Bytes → Error
parse_error raw what =
    new (bytes "strconv.ParseUint: parsing \"" ++ (raw ++ (bytes "\": " ++ what)))

-- `strconv.ParseUint(raw, 10, 64)`: its loop, from the number read so far. The sum wraps around
-- exactly when it is above the maximum.
abbrev pub parse_digits : Bytes → ℕ → Bytes → Result ℕ
parse_digits raw n [] = ok n
parse_digits raw n (c ∷ cs) =
    if not (is_digit c)
    then fail (parse_error raw (bytes "invalid syntax"))
    else if leb cutoff n
    then fail (parse_error raw (bytes "value out of range"))
    else if ltb max_uint64 (n * 10 + (c - 48))
    then fail (parse_error raw (bytes "value out of range"))
    else parse_digits raw (n * 10 + (c - 48)) cs

abbrev pub is_empty : Bytes → Bool
is_empty [] = true
is_empty (c ∷ cs) = false

unfoldable pub parse_uint : Bytes → Result ℕ
parse_uint raw =
    if is_empty raw then fail (parse_error raw (bytes "invalid syntax")) else parse_digits raw 0 raw

pub record UdpBufReport : Type 0 where
  pub val : ℕ
  pub meets_recommendation : Bool

abbrev pub rmem_path : Bytes
rmem_path = bytes "/proc/sys/net/core/rmem_max"

abbrev pub report_of : Result ℕ → Probed UdpBufReport
report_of (ok val) =
    found (record { val = val; meets_recommendation = leb recommended_rmem_max val })
report_of (fail e) = refused (udp_buf_unreadable rmem_path e)

-- Behind the read of the file.
abbrev pub report_raw : Bytes → Probed UdpBufReport
report_raw raw =
    if is_empty raw
    then refused (udp_buf_unreadable rmem_path (new (bytes "empty file")))
    else report_of (parse_uint raw)

unfoldable pub udp_buf_rmem_max : Result Bytes → Probed UdpBufReport
udp_buf_rmem_max (fail e) =
    refused (failed (wrap (bytes "hostprobe: read " ++ (rmem_path ++ bytes ": ")) e []))
udp_buf_rmem_max (ok text) = report_raw (trim_space text)

unfoldable pub udp_buf_rmem_max_other : Probed UdpBufReport
udp_buf_rmem_max_other = refused platform_unsupported
