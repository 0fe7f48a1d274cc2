-- ===== src/HostProbe/Bpf.antt =====
-- internal/hostprobe/bpfcompile.go: the probe that compiles a BPF program. `K` is what the tools and
-- the files are part of; the operations on it that are the standard library's, or run a tool, are a
-- parameter.
pub mod Files
pub mod Section
use unverified.Common.{Bool, true, false, Option, none, some, List, [], ◌∷◌, ◌++◌, if◌then◌else◌}
use unverified.Common.Words.{Bytes}
use unverified.Common.Text.{has_prefix, split_lines, trim_space}
use unverified.Errors.{Error, nil, new, wrap, bytes, is_nil}
use unverified.Stream.{Result, ok, fail}
use unverified.HostProbe.{ProbeError, failed, clang_not_found, Probed, found, refused}

-- `exec.LookPath`, `os.CreateTemp` (by the pattern; the path of the new file), `WriteString`,
-- `os.Remove` (whose error is dropped) and a run of a tool with its combined output.
pub record Host (K : Type 0) : Type 0 where
  pub look_path : Bytes → Result Bytes
  pub create_temp : Bytes → K → Result Bytes × K
  pub write_string : Bytes → Bytes → K → Error × K
  pub remove : Bytes → K → K
  pub run_tool : Bytes → List Bytes → K → (Bytes × Error) × K

abbrev pub bpf_source : Bytes
bpf_source =
    bytes "/* hostprobe: minimal CO-RE eBPF source. */"
    ++ (10
        ∷ (bytes "#include \"vmlinux.h\""
            ++ (10
                ∷ (bytes "SEC(\"license\")"
                    ++ (10 ∷ (bytes "char _license[] = \"GPL\";" ++ (10 ∷ [])))))))

pub record ProbeResult : Type 0 where
  pub object_path : Bytes
  pub clang_version : Bytes
  pub obj_dump_btf_line : Bytes

abbrev pub is_empty : Bytes → Bool
is_empty [] = true
is_empty (b ∷ t) = false

-- The first line that is not blank, trimmed.
abbrev pub first_filled : List Bytes → Bytes
first_filled [] = []
first_filled (l ∷ ls) =
    let rest = first_filled ls in if is_empty (trim_space l) then rest else trim_space l

unfoldable pub first_line : Bytes → Bytes
first_line t = first_filled (split_lines t)

-- The loop over the lines of the dump, up to its `break`.
abbrev pub btf_line : List Bytes → Bytes
btf_line [] = []
btf_line (l ∷ ls) =
    let rest = btf_line ls in
    if has_prefix (trim_space l) (bytes ".BTF") then trim_space l else rest

abbrev pub failure : {A : Type 0} → Bytes → Error → Probed A
failure what e = refused (failed (wrap what e []))

module _ {K : Type 0} (h : Host K) where
  -- `runCaptured`: the output and the error, whichever it is.
  abbrev run_captured : Bytes → List Bytes → K → (Bytes × Error) × K
  run_captured name args k = h.run_tool name args k

  -- `writeTempFile`: the error of `WriteString` returns without a removal.
  abbrev pub written_to : Bytes → Error × K → Result Bytes × K
  written_to path (e, k) = (if is_nil e then ok path else fail e, k)

  abbrev pub fill_file : Bytes → Result Bytes × K → Result Bytes × K
  fill_file content (fail e, k) = (fail e, k)
  fill_file content (ok path, k) =
      if is_empty content then (ok path, k) else written_to path (h.write_string path content k)

  unfoldable pub write_temp_file : Bytes → Bytes → K → Result Bytes × K
  write_temp_file pattern content k = fill_file content (h.create_temp pattern k)

  -- The version for the result; its error is dropped.
  abbrev pub with_version : Bytes → Bytes → (Bytes × Error) × K → Probed ProbeResult × K
  with_version object line ((out, e), k) = (
    found (record {
      object_path = object;
      clang_version = if is_nil e then first_line out else [];
      obj_dump_btf_line = line;
    }),
    k,
  )

  abbrev pub with_line : Bytes → Bytes → Bytes → K → Probed ProbeResult × K
  with_line clang object line k =
      if is_empty line
      then (
        refused (
            failed (
              new (
                bytes
                  "hostprobe: CO-RE compile produced no .BTF section (host BTF / vmlinux.h mismatch?)"))),
        h.remove object k,
      )
      else with_version object line (run_captured clang (bytes "--version" ∷ []) k)

  -- From the answer of `llvm-objdump -h`.
  abbrev pub after_dump : Bytes → Bytes → (Bytes × Error) × K → Probed ProbeResult × K
  after_dump clang object ((out, e), k) =
      if is_nil e
      then with_line clang object (btf_line (split_lines out)) k
      else (failure (bytes "hostprobe: llvm-objdump -h failed: ") e, h.remove object k)

  -- From the answer of `clang -target bpf -c`.
  abbrev pub after_compile : Bytes → Bytes → Bytes → (Bytes × Error) × K → Probed ProbeResult × K
  after_compile clang objdump object ((out, e), k) =
      if is_nil e
      then after_dump clang object (run_captured objdump (bytes "-h" ∷ object ∷ []) k)
      else (failure (bytes "hostprobe: clang -target bpf -c failed: ") e, h.remove object k)

  abbrev pub with_object : Bytes → Bytes → Bytes → Result Bytes × K → Probed ProbeResult × K
  with_object clang objdump source (fail e, k) = (failure (bytes "hostprobe: write obj: ") e, k)
  with_object clang objdump source (ok object, k) = after_compile clang objdump object (
      h.run_tool clang
        (bytes "-target"
          ∷ bytes "bpf"
          ∷ bytes "-c"
          ∷ source
          ∷ bytes "-I"
          ∷ bytes "/usr/include"
          ∷ bytes "-o"
          ∷ object
          ∷ [])
        k)

  -- `defer func() { _ = os.Remove(srcFile) }()`.
  abbrev pub removing : Bytes → Probed ProbeResult × K → Probed ProbeResult × K
  removing source (r, k) = (r, h.remove source k)

  abbrev pub with_source : Bytes → Bytes → Result Bytes × K → Probed ProbeResult × K
  with_source clang objdump (fail e, k) = (failure (bytes "hostprobe: write source: ") e, k)
  with_source clang objdump (ok source, k) =
      removing source
        (with_object clang objdump source (write_temp_file (bytes "hostprobe-bpf-*.o") [] k))

  abbrev pub with_objdump : Bytes → Result Bytes → K → Probed ProbeResult × K
  with_objdump clang (fail e) k = (refused (clang_not_found (bytes "llvm-objdump") e), k)
  with_objdump clang (ok objdump) k =
      with_source clang objdump (write_temp_file (bytes "hostprobe-bpf-*.c") bpf_source k)

  abbrev pub with_clang : Result Bytes → K → Probed ProbeResult × K
  with_clang (fail e) k = (refused (clang_not_found [] e), k)
  with_clang (ok clang) k = with_objdump clang (h.look_path (bytes "llvm-objdump")) k

  -- `COReProbe`.
  unfoldable pub core_probe : K → Probed ProbeResult × K
  core_probe k = with_clang (h.look_path (bytes "clang")) k
