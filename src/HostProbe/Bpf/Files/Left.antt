-- ===== src/HostProbe/Bpf/Files/Left.antt =====
-- What `COReProbe` of internal/hostprobe/bpfcompile.go leaves of its temporary files.
use unverified.Common.{◌≡◌, refl, ap, sym, ◌∙◌, ◌⊎◌, inl, inr, false, List, [], ◌∷◌, either}
use mathlib.Core.Path.{subst}
use unverified.Common.Words.{Bytes}
use unverified.Common.Text.{is_same}
use unverified.Errors.{Error, nil, bytes}
use unverified.Stream.{Result, ok, fail}
use unverified.HostProbe.{Probed, found, refused}
use unverified.HostProbe.Bpf.{
  Host, ProbeResult, bpf_source, is_empty, fill_file, write_temp_file, written_to, after_compile,
  with_object, removing, with_source, with_objdump, with_clang, core_probe,
}
use unverified.HostProbe.Bpf.Files.{
  without, HasCreated, IsHost, HasLeft, without-second, EndsWith, removed, after_compile-ends,
}

module _ {K : Type 0} (h : Host K) (files : K → List Bytes) (is : IsHost h files) where
  abbrev Ends : List Bytes → Bytes → Probed ProbeResult × K → Type 0
  Ends = EndsWith h files is

  fill_empty-HasCreated :
      (before : List Bytes) (c : Result Bytes × K)
      → HasCreated before c.0 (files c.1)
      → HasCreated before (fill_file h [] c).0 (files (fill_file h [] c).1)
  fill_empty-HasCreated before (ok path, k) e = e
  fill_empty-HasCreated before (fail f, k) e = e

  -- The same for any content: the new file is the first, and it may be there with an error.
  abbrev HasMade : List Bytes → Result Bytes × K → Type 0
  HasMade before (ok path, k) = files k ≡ path ∷ before
  HasMade before (fail e, k) = (files k ≡ before) ⊎ ((path : Bytes) × (files k ≡ path ∷ before))

  written_to-HasMade :
      (before : List Bytes) (path : Bytes) (w : Error × K)
      → files w.1 ≡ path ∷ before
      → HasMade before (written_to h path w)
  written_to-HasMade before path (nil, k) e = e
  written_to-HasMade before path (f, k) e = inr (path, e)

  abbrev Within : List Bytes → Bytes → Probed ProbeResult × K → Type 0
  Within base source (found r, k) =
      (is_same source r.object_path ≡ false) × (files k ≡ r.object_path ∷ source ∷ base)
  Within base source (refused e, k) = files k ≡ source ∷ base

  Ends-Within :
      (base : List Bytes) (source object : Bytes) (rk : Probed ProbeResult × K)
      → is_same source object ≡ false
      → Ends (source ∷ base) object rk
      → Within base source rk
  Ends-Within base source object (found r, k) new (same, left) =
      (ap (is_same source) same ∙ new, left ∙ ap (λ (p : Bytes). p ∷ source ∷ base) (sym same))
  Ends-Within base source object (refused e, k) new left = left

  with_object-Within :
      (base : List Bytes) (clang objdump source : Bytes) (c : Result Bytes × K)
      → HasCreated (source ∷ base) c.0 (files c.1)
      → Within base source (with_object h clang objdump source c)
  with_object-Within base clang objdump source (fail e, k) made = made
  with_object-Within base clang objdump source (ok object, k) (made, new) =
      Ends-Within base source object
        (after_compile h clang objdump object (
          h.run_tool clang
            (bytes "-target"
              ∷ bytes "bpf"
              ∷ bytes "-c"
              ∷ source
              ∷ bytes "-I"
              ∷ bytes "/usr/include"
              ∷ bytes "-o"
              ∷ object
              ∷ [])
            k))
        new.0
        (after_compile-ends h files is (source ∷ base) clang objdump object
          (h.run_tool clang
            (bytes "-target"
              ∷ bytes "bpf"
              ∷ bytes "-c"
              ∷ source
              ∷ bytes "-I"
              ∷ bytes "/usr/include"
              ∷ bytes "-o"
              ∷ object
              ∷ [])
            k)
          (is.runs clang
              (bytes "-target"
                ∷ bytes "bpf"
                ∷ bytes "-c"
                ∷ source
                ∷ bytes "-I"
                ∷ bytes "/usr/include"
                ∷ bytes "-o"
                ∷ object
                ∷ [])
              k
            ∙ made))

  removing-HasLeft :
      (base : List Bytes) (source : Bytes) (rk : Probed ProbeResult × K)
      → Within base source rk
      → HasLeft base (removing h source rk).0 (files (removing h source rk).1)
  removing-HasLeft base source (found r, k) (new, left) =
      is.removes source k ∙ ap (without source) left ∙ without-second source r.object_path base new
  removing-HasLeft base source (refused e, k) left = inl (removed h files is base source k left)

  fill_file-HasMade :
      (before : List Bytes) (content : Bytes) (c : Result Bytes × K)
      → HasCreated before c.0 (files c.1)
      → HasMade before (fill_file h content c)
  fill_file-HasMade before content (fail e, k) made = inl made
  fill_file-HasMade before content (ok path, k) made =
      either (HasMade before) (is_empty content) _ _ made.0 (
        written_to-HasMade before path (h.write_string path content k)
          (is.writes path content k ∙ made.0))

  write_empty-HasCreated :
      (base : List Bytes) (pattern : Bytes) (k : K)
      → files k ≡ base
      → HasCreated base
          (write_temp_file h pattern [] k).0
          (files (write_temp_file h pattern [] k).1)
  unfolding write_temp_file
  write_empty-HasCreated base pattern k e = fill_empty-HasCreated base (h.create_temp pattern k) (
      subst
        (λ (fs : List Bytes).
          HasCreated fs (h.create_temp pattern k).0 (files (h.create_temp pattern k).1))
        e (is.creates pattern k))

  write_temp_file-HasMade :
      (pattern content : Bytes) (k : K) → HasMade (files k) (write_temp_file h pattern content k)
  unfolding write_temp_file
  write_temp_file-HasMade pattern content k =
      fill_file-HasMade (files k) content (h.create_temp pattern k) (is.creates pattern k)

  abbrev EndsProbe : List Bytes → Probed ProbeResult × K → Type 0
  EndsProbe base rk = HasLeft base rk.0 (files rk.1)

  with_source-HasLeft :
      (base : List Bytes) (clang objdump : Bytes) (c : Result Bytes × K)
      → HasMade base c
      → EndsProbe base (with_source h clang objdump c)
  with_source-HasLeft base clang objdump (ok source, k) made =
      removing-HasLeft base source
        (with_object h clang objdump source (write_temp_file h (bytes "hostprobe-bpf-*.o") [] k))
        (with_object-Within base clang objdump source
          (write_temp_file h (bytes "hostprobe-bpf-*.o") [] k)
          (write_empty-HasCreated (source ∷ base) (bytes "hostprobe-bpf-*.o") k made))
  with_source-HasLeft base clang objdump (fail e, k) (inl left) = inl left
  with_source-HasLeft base clang objdump (fail e, k) (inr (path, left)) = inr (path, e, refl, left)

  with_objdump-HasLeft :
      (clang : Bytes) (path : Result Bytes) (k : K)
      → EndsProbe (files k) (with_objdump h clang path k)
  with_objdump-HasLeft clang (fail e) k = inl refl
  with_objdump-HasLeft clang (ok objdump) k =
      with_source-HasLeft (files k) clang objdump
        (write_temp_file h (bytes "hostprobe-bpf-*.c") bpf_source k)
        (write_temp_file-HasMade (bytes "hostprobe-bpf-*.c") bpf_source k)

  with_clang-HasLeft : (path : Result Bytes) (k : K) → EndsProbe (files k) (with_clang h path k)
  with_clang-HasLeft (fail e) k = inl refl
  with_clang-HasLeft (ok clang) k =
      with_objdump-HasLeft clang (h.look_path (bytes "llvm-objdump")) k

  -- `COReProbe` leaves its object file with a result, and no file with an error, with one exception:
  -- an error while the source is written may leave the source file. The files that were there before
  -- stay. The hypotheses are on the standard library and the tools: a temporary file is new, a removal
  -- removes it, and a tool makes and removes no temporary file.
  pub core_probe-HasLeft : (k : K) → HasLeft (files k) (core_probe h k).0 (files (core_probe h k).1)
  unfolding core_probe
  core_probe-HasLeft k = with_clang-HasLeft (h.look_path (bytes "clang")) k
