-- ===== src/HostProbe.antt =====
-- internal/hostprobe: the probes of the host, and their errors. What the system calls, the files and
-- the tools answer is an argument.
pub mod Caps
pub mod Udp
pub mod Bpf
mod Runs
use unverified.Common.{Bool, Option, none, some, List, [], ◌∷◌, ◌++◌}
use unverified.Common.Words.{Bytes}
use unverified.Errors.{Error, Sentinel, is_error, bytes}
use unverified.Errors.Text.{error_text}

-- The errors of the package: one made by `errors.New` or `fmt.Errorf`, and the three typed ones.
pub data ProbeError : Type 0 where
  failed : Error → ProbeError
  clang_not_found : Bytes → Error → ProbeError
  udp_buf_unreadable : Bytes → Error → ProbeError
  platform_unsupported : ProbeError

-- `Unwrap` of `UDPBufUnreadableError`.
abbrev udp_buf_unreadable_cause : Bytes → Error → Error
udp_buf_unreadable_cause path e = e

-- `Unwrap` of the typed errors; nil where there is none.
unfoldable pub cause : ProbeError → Error
cause (failed e) = e
cause (clang_not_found path e) = e
cause (udp_buf_unreadable path e) = udp_buf_unreadable_cause path e
cause platform_unsupported = Error.nil

-- `Error()`. `%q` of a path is the path between quotes.
abbrev pub clang_not_found_text : Bytes → Error → Bytes
clang_not_found_text [] e =
    bytes "hostprobe: clang not found on PATH ("
    ++ (error_text e
        ++ bytes "); install via TODO row 10a (sudo apt install clang libbpf-dev llvm)")
clang_not_found_text (b ∷ path) e =
    bytes "hostprobe: clang not found at \""
    ++ ((b ∷ path)
        ++ (bytes "\" ("
            ++ (error_text e
                ++ bytes "); install via TODO row 10a (sudo apt install clang libbpf-dev llvm)")))

abbrev pub udp_buf_unreadable_text : Bytes → Error → Bytes
udp_buf_unreadable_text path e =
    bytes "hostprobe: cannot parse " ++ (path ++ (bytes ": " ++ error_text e))

abbrev pub platform_unsupported_text : Bytes
platform_unsupported_text = bytes "hostprobe: caps probe is Linux-only (cross-compile stub)"

unfoldable pub probe_text : ProbeError → Bytes
probe_text (failed e) = error_text e
probe_text (clang_not_found path e) = clang_not_found_text path e
probe_text (udp_buf_unreadable path e) = udp_buf_unreadable_text path e
probe_text platform_unsupported = platform_unsupported_text

-- What a probe returns.
pub data Probed (A : Type 0) : Type 0 where
  found : A → Probed A
  refused : ProbeError → Probed A
