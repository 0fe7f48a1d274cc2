-- ===== src/HostProbe/Caps.antt =====
-- The reports on capabilities: `Missing` and `PresentNames` of
-- internal/hostprobe/capsprobe_linux.go, and the stubs of capsprobe_other.go.
use mathlib.Core.List.{Perm}
use mathlib.Core.List.Perm
use unverified.Common.{
  ℕ, ◌≡◌, refl, inl, inr, Bool, true, false, ◌&&◌, not, Option, none, some, List, [], ◌∷◌,
  if◌then◌else◌, ltb, ◌==◌, arith, Bool-cases,
}
use unverified.Common.Words.{Bytes}
use unverified.Errors.{bytes}
use unverified.Tun.Preflight.{Cap, CapsReport, caps_required}
use unverified.HostProbe.{Probed, refused, platform_unsupported}

-- Go's order on strings, byte by byte.
abbrev pub at_most : Bytes → Bytes → Bool
at_most [] t = true
at_most (a ∷ s) [] = false
at_most (a ∷ s) (b ∷ t) = let rest = at_most s t in if ltb a b then true else (a == b) && rest

-- `sort.Strings`, as an insertion sort.
abbrev pub insert_name : Bytes → List Bytes → List Bytes
insert_name x [] = x ∷ []
insert_name x (y ∷ ys) = let rest = insert_name x ys in if at_most x y then x ∷ y ∷ ys else y ∷ rest

unfoldable pub sort_strings : List Bytes → List Bytes
sort_strings [] = []
sort_strings (x ∷ xs) = insert_name x (sort_strings xs)

-- The loop of both functions: the names whose flag is `wanted`. `none` is the panic of an index out
-- of range.
abbrev pub keep_name : Bool → Bytes → Option (List Bytes) → Option (List Bytes)
keep_name b x none = none
keep_name b x (some names) = some (if b then x ∷ names else names)

abbrev pub is_flag : Bool → Bool → Bool
is_flag true p = p
is_flag false p = not p

abbrev pub names_with : Bool → List Cap → List Bool → Option (List Bytes)
names_with wanted [] ps = some []
names_with wanted (c ∷ cs) [] = none
names_with wanted (c ∷ cs) (p ∷ ps) = keep_name (is_flag wanted p) c.name (names_with wanted cs ps)

abbrev pub sorted_names : Option (List Bytes) → Option (List Bytes)
sorted_names none = none
sorted_names (some names) = some (sort_strings names)

unfoldable pub missing : CapsReport → Option (List Bytes)
missing r = sorted_names (names_with false caps_required r.present)

unfoldable pub present_names : CapsReport → Option (List Bytes)
present_names r = sorted_names (names_with true caps_required r.present)

-- `CapsEffective`, `Missing` and `PresentNames` on a platform that is not Linux.
unfoldable pub caps_effective_other : Probed CapsReport
caps_effective_other = refused platform_unsupported

unfoldable pub names_other : List Bytes
names_other = []

-- What Go documents of `sort.Strings`: the same strings, in ascending order.
abbrev pub IsSorted : List Bytes → Type 0
IsSorted [] = Unit {0}
IsSorted (x ∷ []) = Unit {0}
IsSorted (x ∷ y ∷ r) = (at_most x y ≡ true) × IsSorted (y ∷ r)

at_most_total : (s t : Bytes) → at_most s t ≡ false → at_most t s ≡ true
at_most_total [] t h = cc
at_most_total (a ∷ s) [] h = refl
at_most_total (a ∷ s) (b ∷ t) h = ground (arith, at_most_total s t)

insert_name-IsSorted : (x : Bytes) (ys : List Bytes) → IsSorted ys → IsSorted (insert_name x ys)
insert_name-IsSorted x [] h = tt
insert_name-IsSorted x (y ∷ []) h = elim (Bool-cases (at_most x y)) [
  | inl low ↦ rw low (low, tt)
  | inr high ↦ rw high (at_most_total x y high, tt)
]
insert_name-IsSorted x (y ∷ z ∷ r) (h, hs) = elim (Bool-cases (at_most x y)) [
  | inl low ↦ rw low (low, (h, hs))
  | inr high ↦ rw high (below (insert_name-IsSorted x (z ∷ r) hs) (at_most_total x y high))
]
  where
    below :
        IsSorted (insert_name x (z ∷ r)) → at_most y x ≡ true → IsSorted (y ∷ insert_name x (z ∷ r))
    below s l = elim (Bool-cases (at_most x z)) [
      | inl e ↦ rw e (l, rw e at s)
      | inr e ↦ rw e (h, rw e at s)
    ]

sort_strings-IsSorted : (xs : List Bytes) → IsSorted (sort_strings xs)
unfolding sort_strings
sort_strings-IsSorted [] = tt
sort_strings-IsSorted (x ∷ xs) = insert_name-IsSorted x (sort_strings xs) (sort_strings-IsSorted xs)

insert_name-perm : (x : Bytes) (ys : List Bytes) → Perm (insert_name x ys) (x ∷ ys)
insert_name-perm x [] = Perm.rfl
insert_name-perm x (y ∷ ys) = elim (Bool-cases (at_most x y)) [
  | inl low ↦ rw low Perm.rfl
  | inr high ↦ rw high (Perm.trans (Perm.cons y (insert_name-perm x ys)) (Perm.swap x y ys))
]

sort_strings-perm : (xs : List Bytes) → Perm (sort_strings xs) xs
unfolding sort_strings
sort_strings-perm [] = Perm.rfl
sort_strings-perm (x ∷ xs) =
    Perm.trans (insert_name-perm x (sort_strings xs)) (Perm.cons x (sort_strings-perm xs))

-- The names by three flags, in alphabetical order and not in that of `CapsRequired`.
abbrev pub unless : Bool → Bytes → List Bytes → List Bytes
unless b name names = if b then names else name ∷ names

abbrev pub by_flags : Bool → Bool → Bool → List Bytes
by_flags admin bpf perfmon =
    unless bpf (bytes "CAP_BPF")
      (unless admin (bytes "CAP_NET_ADMIN") (unless perfmon (bytes "CAP_PERFMON") []))

-- `Missing` and `PresentNames` return without a panic on every report of `CapsEffective`: `Missing`
-- has the names of the capabilities that are not effective, `PresentNames` the others. Both are in
-- alphabetical order, which is not that of `CapsRequired`.
pub missing-by_flags :
    (admin bpf perfmon : Bool) (words : ℕ × ℕ)
    → let r : CapsReport = record { present = admin ∷ bpf ∷ perfmon ∷ []; effective = words } in
      (missing r ≡ some (by_flags admin bpf perfmon))
      × (present_names r ≡ some (by_flags (not admin) (not bpf) (not perfmon)))
unfolding missing present_names sort_strings bytes
missing-by_flags true true true words = (refl, refl)
missing-by_flags true true false words = (refl, refl)
missing-by_flags true false true words = (refl, refl)
missing-by_flags true false false words = (refl, refl)
missing-by_flags false true true words = (refl, refl)
missing-by_flags false true false words = (refl, refl)
missing-by_flags false false true words = (refl, refl)
missing-by_flags false false false words = (refl, refl)
