-- ===== src/HostProbe/Bpf/Section.antt =====
-- The search for the `.BTF` section in `COReProbe` of internal/hostprobe/bpfcompile.go, on the lines
-- that `llvm-objdump -h` prints: each section's line begins with the section's number.
use unverified.Common.{◌≡◌, refl, ℕ, Bool, true, false, List, [], ◌∷◌, ◌==◌, either, All}
use unverified.Common.Words.{Bytes}
use unverified.Common.Text.{
  has_prefix, is_space, keep_first, trim_left, trim_right, trim_space, split_lines,
}
use unverified.Errors.{Error, bytes, is_nil}
use unverified.Stream.{Result, ok, fail}
use unverified.HostProbe.{Probed, found, refused}
use unverified.HostProbe.Bpf.{
  Host, ProbeResult, bpf_source, btf_line, write_temp_file, after_dump, after_compile, with_object,
  with_source, with_objdump, with_clang, core_probe,
}

-- The text does not begin with a dot.
abbrev pub BeginsUndotted : Bytes → Type 0
BeginsUndotted [] = Unit
BeginsUndotted (a ∷ t) = (a == 46) ≡ false

-- A line of which the first byte that is not blank, if any, is not a dot.
abbrev pub IsUndotted : Bytes → Type 0
IsUndotted l = BeginsUndotted (trim_left l)

abbrev pub is_refused : {A : Type 0} → Probed A → Bool
is_refused (found r) = false
is_refused (refused e) = true

prefix-undotted : (t : Bytes) → BeginsUndotted t → has_prefix t (bytes ".BTF") ≡ false
unfolding bytes
prefix-undotted [] u = refl
prefix-undotted (a ∷ t) u = rw (u) refl

keep_first-BeginsUndotted :
    (a : ℕ) (t : Bytes) → (a == 46) ≡ false → BeginsUndotted (keep_first a t)
keep_first-BeginsUndotted a [] u = either BeginsUndotted (is_space a) _ _ tt u
keep_first-BeginsUndotted a (b ∷ t) u = u

trim_right-BeginsUndotted : (t : Bytes) → BeginsUndotted t → BeginsUndotted (trim_right t)
trim_right-BeginsUndotted [] u = u
trim_right-BeginsUndotted (a ∷ t) u = keep_first-BeginsUndotted a (trim_right t) u

btf_line-undotted : (ls : List Bytes) → All IsUndotted ls → btf_line ls ≡ []
btf_line-undotted [] u = refl
btf_line-undotted (l ∷ ls) (u, us) =
    rw (prefix-undotted (trim_space l) (trim_right-BeginsUndotted (trim_left l) u))
      (btf_line-undotted ls us)

module _ {K : Type 0} (h : Host K)
    (undotted : (objdump object : Bytes) (k : K)
      → All IsUndotted (split_lines (h.run_tool objdump (bytes "-h" ∷ object ∷ []) k).0.0)) where
  abbrev EndsRefused : Probed ProbeResult × K → Type 0
  EndsRefused rk = is_refused rk.0 ≡ true

  after_dump-EndsRefused :
      (clang object : Bytes) (run : (Bytes × Error) × K)
      → All IsUndotted (split_lines run.0.0)
      → EndsRefused (after_dump h clang object run)
  after_dump-EndsRefused clang object ((out, e), k) u =
      either EndsRefused (is_nil e) _ _ (rw (btf_line-undotted (split_lines out) u) refl) refl

  after_compile-EndsRefused :
      (clang objdump object : Bytes) (run : (Bytes × Error) × K)
      → EndsRefused (after_compile h clang objdump object run)
  after_compile-EndsRefused clang objdump object ((out, e), k) =
      either EndsRefused (is_nil e) _ _
        (after_dump-EndsRefused clang object (h.run_tool objdump (bytes "-h" ∷ object ∷ []) k)
          (undotted objdump object k))
        refl

  with_object-EndsRefused :
      (clang objdump source : Bytes) (c : Result Bytes × K)
      → EndsRefused (with_object h clang objdump source c)
  with_object-EndsRefused clang objdump source (fail e, k) = refl
  with_object-EndsRefused clang objdump source (ok object, k) =
      after_compile-EndsRefused clang objdump object (
        h.run_tool clang
          (bytes "-target"
            ∷ bytes "bpf"
            ∷ bytes "-c"
            ∷ source
            ∷ bytes "-I"
            ∷ bytes "/usr/include"
            ∷ bytes "-o"
            ∷ object
            ∷ [])
          k)

  with_source-EndsRefused :
      (clang objdump : Bytes) (c : Result Bytes × K) → EndsRefused (with_source h clang objdump c)
  with_source-EndsRefused clang objdump (fail e, k) = refl
  with_source-EndsRefused clang objdump (ok source, k) =
      with_object-EndsRefused clang objdump source
        (write_temp_file h (bytes "hostprobe-bpf-*.o") [] k)

  with_objdump-EndsRefused :
      (clang : Bytes) (path : Result Bytes) (k : K) → EndsRefused (with_objdump h clang path k)
  with_objdump-EndsRefused clang (fail e) k = refl
  with_objdump-EndsRefused clang (ok objdump) k =
      with_source-EndsRefused clang objdump
        (write_temp_file h (bytes "hostprobe-bpf-*.c") bpf_source k)

  with_clang-EndsRefused : (path : Result Bytes) (k : K) → EndsRefused (with_clang h path k)
  with_clang-EndsRefused (fail e) k = refl
  with_clang-EndsRefused (ok clang) k =
      with_objdump-EndsRefused clang (h.look_path (bytes "llvm-objdump")) k

  -- Where no line that `-h` of the dump tool prints has a dot as its first byte that is not blank,
  -- `COReProbe` fails: a line that begins with the number of a section is never found to be the one
  -- of `.BTF`, whatever sections the object has.
  pub core_probe-undotted : (k : K) → is_refused (core_probe h k).0 ≡ true
  unfolding core_probe
  core_probe-undotted k = with_clang-EndsRefused (h.look_path (bytes "clang")) k
