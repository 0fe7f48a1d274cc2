-- ===== src/Tun/Preflight.antt =====
-- internal/tunnel/tun/preflight_linux.go and the probe of the capabilities in
-- internal/hostprobe/capsprobe_linux.go. What `os.Stat`, `unix.Open` and `unix.Capget` answer is an
-- argument.
use Prim.Native.Nat.{bit_and}
use unverified.Common.{
  ℕ, ◌/◌, ◌%◌, ◌^◌, ◌≡◌, arith, Bool, not, none, some, List, [], ◌∷◌, ◌++◌, if◌then◌else◌, ◌==◌,
  ltb, Bool-cases, inl, inr,
}
use unverified.Common.Words.{Bytes}
use unverified.Errors.{
  Error, nil, new, wrap, preflight_error, bytes, is_nil, is_error, preflight_reason, not_exist,
  unsupported_platform, tun_device_missing, tun_device_not_read_write, cap_net_admin_missing,
  cap_probe_failed,
}
use unverified.Stream.{Result, ok, fail}

-- `defaultDeviceProbe`, by the errors of `os.Stat` and of `unix.Open`.
unfoldable pub default_device_probe : Error → Error → Error
default_device_probe stat opening =
    if not (is_nil stat)
    then (if is_error stat not_exist
        then preflight_error tun_device_missing stat
        else preflight_error tun_device_missing stat)
    else if not (is_nil opening)
    then preflight_error tun_device_not_read_write
        (wrap (bytes "open /dev/net/tun O_RDWR: ") opening [])
    else nil

-- `CAP_NET_ADMIN`, `CAP_PERFMON` and `CAP_BPF` of the kernel's interface.
abbrev pub cap_net_admin : ℕ
cap_net_admin = 12

abbrev pub cap_perfmon : ℕ
cap_perfmon = 38

abbrev pub cap_bpf : ℕ
cap_bpf = 39

-- The text of a word in `0x%x`, which only the error's message has, is an argument.
unfoldable pub default_cap_probe : (ℕ → Bytes) → Error → ℕ × ℕ → Error
default_cap_probe hex capget (low, high) =
    if not (is_nil capget)
    then preflight_error cap_probe_failed (wrap (bytes "capget: ") capget [])
    else if bit_and low (2 ^ cap_net_admin) == 0
    then preflight_error cap_net_admin_missing
        (new (bytes "CAP_NET_ADMIN (bit 12) not in effective set; effective=0x" ++ hex low))
    else nil

-- `linuxPreflight`: its two probes, as functions of what the system calls answer.
pub record LinuxPreflight : Type 0 where
  pub probe_device : Error → Error → Error
  pub probe_caps : Error → ℕ × ℕ → Error

-- `DefaultPreflight`.
abbrev pub default_preflight : (ℕ → Bytes) → LinuxPreflight
default_preflight hex = record {
  probe_device = default_device_probe;
  probe_caps = default_cap_probe hex;
}

-- `Run`: the device's probe first.
abbrev first_failure : Error → Error → Error
first_failure device caps =
    if not (is_nil device) then device else if not (is_nil caps) then caps else nil

unfoldable pub run_preflight : LinuxPreflight → Error → Error → Error → ℕ × ℕ → Error
run_preflight p stat opening capget words =
    first_failure (p.probe_device stat opening) (p.probe_caps capget words)

-- `Run` on a platform that is not Linux, which it names.
unfoldable pub run_preflight_other : Bytes → Error
run_preflight_other goos =
    preflight_error unsupported_platform
      (new (bytes "tun preflight: /dev/net/tun is Linux-only (GOOS=" ++ (goos ++ bytes ")")))

pub record Cap : Type 0 where
  pub name : Bytes
  pub bit : ℕ

abbrev pub caps_required : List Cap
caps_required =
    record { name = bytes "CAP_NET_ADMIN"; bit = cap_net_admin }
    ∷ record { name = bytes "CAP_BPF"; bit = cap_bpf }
    ∷ record { name = bytes "CAP_PERFMON"; bit = cap_perfmon }
    ∷ []

pub record CapsReport : Type 0 where
  pub present : List Bool
  pub effective : ℕ × ℕ

abbrev pub word_of : ℕ → ℕ × ℕ → ℕ
word_of n (low, high) = if n == 0 then low else high

abbrev pub add_present : Bool → Result (List Bool) → Result (List Bool)
add_present p (ok ps) = ok (p ∷ ps)
add_present p (fail e) = fail e

-- The loop over the capabilities; `decimal` prints the bit of the error's message.
abbrev pub presence : (ℕ → Bytes) → List Cap → ℕ × ℕ → Result (List Bool)
presence decimal [] words = ok []
presence decimal (c ∷ cs) words =
    let rest = presence decimal cs words in
    if ltb 1 (c.bit / 32)
    then fail (
        new (
          bytes "hostprobe: capability "
          ++ c.name
          ++ bytes " has bit "
          ++ decimal c.bit
          ++ bytes ", beyond 64"))
    else add_present (not (bit_and (word_of (c.bit / 32) words) (2 ^ (c.bit % 32)) == 0)) rest

abbrev pub report_of : ℕ × ℕ → Result (List Bool) → Result CapsReport
report_of words (ok ps) = ok (record { present = ps; effective = words })
report_of words (fail e) = fail e

-- `CapsEffective`.
unfoldable pub caps_effective : (ℕ → Bytes) → Error → ℕ × ℕ → Result CapsReport
caps_effective decimal capget words =
    if not (is_nil capget)
    then fail (wrap (bytes "hostprobe: capget: ") capget [])
    else report_of words (presence decimal caps_required words)

-- `CapsEffective` finds all three capabilities within the two words, and the daemon's own probe
-- passes exactly when its report has CAP_NET_ADMIN.
pub caps_effective-agrees :
    (decimal hex : ℕ → Bytes) (low high : ℕ)
    → caps_effective decimal nil (low, high)
      ≡ ok (record {
        present =
            is_nil (default_cap_probe hex nil (low, high))
            ∷ not (bit_and high 128 == 0)
            ∷ not (bit_and high 64 == 0)
            ∷ [];
        effective = (low, high);
      })
unfolding caps_effective default_cap_probe
caps_effective-agrees decimal hex low high = elim (Bool-cases (bit_and low 4096 == 0)) [
  | inl absent ↦ simp absent
  | inr held ↦ simp held
]

-- The preflight of `DefaultPreflight` passes exactly when the device node can be looked up and opened, the capabilities
-- can be read, and CAP_NET_ADMIN is effective; otherwise the reason is that of the first check that
-- failed.
run_preflight-reason :
    (hex : ℕ → Bytes) (stat opening capget : Error) (low high : ℕ)
    → preflight_reason (run_preflight (default_preflight hex) stat opening capget (low, high)) ≡ (
        if not (is_nil stat)
        then some tun_device_missing
        else if not (is_nil opening)
        then some tun_device_not_read_write
        else if not (is_nil capget)
        then some cap_probe_failed
        else if bit_and low 4096 == 0
        then some cap_net_admin_missing
        else none)
unfolding run_preflight default_device_probe default_cap_probe preflight_reason
run_preflight-reason hex stat opening capget low high = ground arith
