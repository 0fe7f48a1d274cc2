-- ===== src/HostProbe/Bpf/Files.antt =====
-- The temporary files of `COReProbe` of internal/hostprobe/bpfcompile.go.
pub mod Left
use unverified.Common.{
  ◌≡◌, refl, ap, sym, ◌∙◌, ◌⊎◌, inl, inr, Bool, false, List, [], ◌∷◌, if◌then◌else◌, either, All,
}
use mathlib.Core.Path.{subst}
use unverified.Common.Words.{Bytes}
use unverified.Common.Text.{is_same, split_lines}
use unverified.Route.Address.{is_same_self}
use unverified.Errors.{Error, nil, bytes, is_nil}
use unverified.Stream.{Result, ok, fail}
use unverified.HostProbe.{failed, Probed, found, refused}
use unverified.HostProbe.Bpf.{
  Host, ProbeResult, bpf_source, btf_line, is_empty, fill_file, write_temp_file, written_to,
  with_line, after_dump, after_compile, with_object, removing, with_source, with_objdump,
  with_clang, core_probe,
}

abbrev pub without : Bytes → List Bytes → List Bytes
without p [] = []
without p (q ∷ fs) = let rest = without p fs in if is_same p q then fs else q ∷ rest

-- No file of the list has this path.
abbrev pub IsNew : Bytes → List Bytes → Type 0
IsNew p fs = All (λ (q : Bytes). is_same q p ≡ false) fs

-- A new temporary file, or none.
abbrev pub HasCreated : List Bytes → Result Bytes → List Bytes → Type 0
HasCreated before (ok path) after = (after ≡ path ∷ before) × IsNew path before
HasCreated before (fail e) after = after ≡ before

-- What the package relies on: `os.CreateTemp` makes a file whose path no file has, `os.Remove`
-- removes one, and neither writing to a file nor a tool makes or removes a temporary file.
pub record IsHost {K : Type 0} (h : Host K) (files : K → List Bytes) : Type 0 where
  pub creates :
      (pattern : Bytes) (k : K)
      → HasCreated (files k) (h.create_temp pattern k).0 (files (h.create_temp pattern k).1)
  pub writes : (path content : Bytes) (k : K) → files (h.write_string path content k).1 ≡ files k
  pub removes : (path : Bytes) (k : K) → files (h.remove path k) ≡ without path (files k)
  pub runs : (name : Bytes) (args : List Bytes) (k : K) → files (h.run_tool name args k).1 ≡ files k

-- What the probe leaves: the object file with a result, and nothing with an error, unless the source
-- could not be written.
abbrev pub HasLeft : List Bytes → Probed ProbeResult → List Bytes → Type 0
HasLeft before (found r) after = after ≡ r.object_path ∷ before
HasLeft before (refused e) after =
    (after ≡ before)
    ⊎ ((source : Bytes) × (cause : Error) × (e
          ≡ failed (unverified.Errors.wrap (bytes "hostprobe: write source: ") cause []))
        × (after ≡ source ∷ before))

pub without-head : (p : Bytes) (fs : List Bytes) → without p (p ∷ fs) ≡ fs
without-head p fs = ap (λ (b : Bool). if b then fs else p ∷ without p fs) (is_same_self p)

pub without-second :
    (p q : Bytes) (fs : List Bytes) → is_same p q ≡ false → without p (q ∷ p ∷ fs) ≡ q ∷ fs
without-second p q fs h =
    ap (λ (b : Bool). if b then p ∷ fs else q ∷ without p (p ∷ fs)) h
    ∙ ap (λ (gs : List Bytes). q ∷ gs) (without-head p fs)

-- While the object file is there, and the source file behind it.
abbrev pub Leaves : List Bytes → Bytes → Probed ProbeResult → List Bytes → Type 0
Leaves base object (found r) after = (r.object_path ≡ object) × (after ≡ object ∷ base)
Leaves base object (refused e) after = after ≡ base

module _ {K : Type 0} (h : Host K) (files : K → List Bytes) (is : IsHost h files) where
  abbrev pub EndsWith : List Bytes → Bytes → Probed ProbeResult × K → Type 0
  EndsWith base object (r, k) = Leaves base object r (files k)

  pub removed :
      (base : List Bytes) (object : Bytes) (k : K)
      → files k ≡ object ∷ base
      → files (h.remove object k) ≡ base
  removed base object k e = is.removes object k ∙ ap (without object) e ∙ without-head object base

  with_line-ends :
      (base : List Bytes) (clang object line : Bytes) (k : K)
      → files k ≡ object ∷ base
      → EndsWith base object (with_line h clang object line k)
  with_line-ends base clang object line k e =
      either (EndsWith base object) (is_empty line) _ _ (removed base object k e)
        (refl, is.runs clang (bytes "--version" ∷ []) k ∙ e)

  after_dump-ends :
      (base : List Bytes) (clang object : Bytes) (run : (Bytes × Error) × K)
      → files run.1 ≡ object ∷ base
      → EndsWith base object (after_dump h clang object run)
  after_dump-ends base clang object ((out, f), k) e =
      either (EndsWith base object) (is_nil f) _ _
        (with_line-ends base clang object (btf_line (split_lines out)) k e)
        (removed base object k e)

  pub after_compile-ends :
      (base : List Bytes) (clang objdump object : Bytes) (run : (Bytes × Error) × K)
      → files run.1 ≡ object ∷ base
      → EndsWith base object (after_compile h clang objdump object run)
  after_compile-ends base clang objdump object ((out, f), k) e =
      either (EndsWith base object) (is_nil f) _ _
        (after_dump-ends base clang object (h.run_tool objdump (bytes "-h" ∷ object ∷ []) k)
          (is.runs objdump (bytes "-h" ∷ object ∷ []) k ∙ e))
        (removed base object k e)
