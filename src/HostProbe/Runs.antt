-- ===== src/HostProbe/Runs.antt =====
-- Runs of the probes of internal/hostprobe on concrete hosts.
use unverified.Common.{
  some, ◌≡◌, refl, Bool, true, false, List, [], ◌∷◌, ◌++◌, ◌||◌, if◌then◌else◌, by_test, All, arith,
}
use unverified.Common.Words.{Bytes}
use unverified.Common.Text.{is_same, split_lines}
use unverified.Errors.{nil, new, bytes}
use unverified.Errors.Text.{digits}
use unverified.Stream.{Result, ok, fail}
use unverified.HostProbe.{Probed, found, refused}
use unverified.Tun.Preflight.{CapsReport}
use unverified.HostProbe.Caps.{missing, present_names, missing-by_flags}
use unverified.HostProbe.Udp.{parse_uint, udp_buf_rmem_max}
use unverified.HostProbe.Udp.Decimal.{IsReport, udp_buf-IsReport, udp_buf-digits}
use unverified.HostProbe.Bpf.{Host, core_probe}
use unverified.HostProbe.Bpf.Files.Left.{core_probe-HasLeft}
use unverified.HostProbe.Bpf.Files.{IsNew, HasCreated, IsHost, HasLeft, without}
use unverified.HostProbe.Bpf.Section.{IsUndotted, is_refused, core_probe-undotted}

abbrev is_there : Bytes → List Bytes → Bool
is_there p [] = false
is_there p (q ∷ fs) = is_same q p || is_there p fs

-- A host whose state is the list of its temporary files. A name that is there makes `CreateTemp`
-- fail. Each tool prints the same text.
abbrev host : Bytes → Host (List Bytes)
host out = record {
  look_path = λ (name : Bytes). ok (bytes "/usr/bin/" ++ name);
  create_temp = λ (p : Bytes) (fs : List Bytes).
      if is_there p fs then (fail (new (bytes "exists")), fs) else (ok p, p ∷ fs);
  write_string = λ (p content : Bytes) (fs : List Bytes). (nil, fs);
  remove = λ (p : Bytes) (fs : List Bytes). without p fs;
  run_tool = λ (name : Bytes) (args : List Bytes) (fs : List Bytes). ((out, nil), fs);
}

not_there-IsNew : (p : Bytes) (fs : List Bytes) → is_there p fs ≡ false → IsNew p fs
not_there-IsNew p [] h = tt
not_there-IsNew p (q ∷ fs) h = (grind arith, not_there-IsNew p fs (grind arith))

abbrev keep : List Bytes → List Bytes
keep fs = fs

host-IsHost : (out : Bytes) → IsHost (host out) keep
host-IsHost out = record {
  creates = λ (p : Bytes) (fs : List Bytes).
      by_test (λ (c : Result Bytes × List Bytes). HasCreated fs c.0 c.1) (is_there p fs)
        (fail (new (bytes "exists")), fs) (ok p, p ∷ fs) (λ h. refl)
        (λ h. (refl, not_there-IsNew p fs h));
  writes = λ p content fs. refl;
  removes = λ p fs. refl;
  runs = λ name args fs. refl;
}

-- The second line is the section's as a dump without the number of the section would have it.
abbrev unnumbered : Bytes
unnumbered = bytes "Sections:" ++ (10 ∷ bytes ".BTF 00000045")

abbrev numbered : Bytes
numbered = bytes "Sections:" ++ (10 ∷ bytes "  4 .BTF 00000045")

core_probe-HasLeft_example :
    HasLeft [] (core_probe (host unnumbered) []).0 (core_probe (host unnumbered) []).1
core_probe-HasLeft_example = core_probe-HasLeft (host unnumbered) keep (host-IsHost unnumbered) []

object_left : (core_probe (host unnumbered) []).1 ≡ bytes "hostprobe-bpf-*.o" ∷ []
unfolding core_probe bytes unverified.HostProbe.Bpf.write_temp_file
    unverified.HostProbe.Bpf.first_line
object_left = refl

nothing_left : (core_probe (host numbered) []).1 ≡ []
unfolding core_probe bytes unverified.HostProbe.Bpf.write_temp_file
    unverified.HostProbe.Bpf.first_line
nothing_left = refl

numbered-IsUndotted : All IsUndotted (split_lines numbered)
unfolding bytes
numbered-IsUndotted = (refl, (refl, tt))

core_probe-undotted_example : is_refused (core_probe (host numbered) []).0 ≡ true
core_probe-undotted_example =
    core_probe-undotted (host numbered) (λ objdump object k. numbered-IsUndotted) []

abbrev no_bpf : CapsReport
no_bpf = record { present = true ∷ false ∷ true ∷ []; effective = (5, 5) }

missing-by_flags_example :
    (missing no_bpf ≡ some (bytes "CAP_BPF" ∷ []))
    × (present_names no_bpf ≡ some (bytes "CAP_NET_ADMIN" ∷ bytes "CAP_PERFMON" ∷ []))
missing-by_flags_example = missing-by_flags true false true (5, 5)

udp_buf-digits_example :
    udp_buf_rmem_max (ok (digits 20 212992 ++ (10 ∷ [])))
    ≡ found (record { val = 212992; meets_recommendation = false })
udp_buf-digits_example = udp_buf-digits 212992 (omega arith)

abbrev blank_text : Bytes
blank_text = 32 ∷ (bytes "212992" ++ (10 ∷ []))

blank_text-read :
    udp_buf_rmem_max (ok blank_text) ≡ found (record { val = 212992; meets_recommendation = false })
unfolding bytes udp_buf_rmem_max parse_uint
blank_text-read = refl

udp_buf-IsReport_example :
    IsReport blank_text (record { val = 212992; meets_recommendation = false })
udp_buf-IsReport_example =
    udp_buf-IsReport blank_text (record { val = 212992; meets_recommendation = false })
      blank_text-read
