-- ===== src/Common/Text.antt =====
-- Searches in texts as Go's `strings` package makes them, on bytes.
use unverified.Common.{
  ℕ, Bool, true, false, ◌&&◌, ◌||◌, List, [], ◌∷◌, ◌++◌, ◌==◌, if◌then◌else◌, ◌≡◌, refl, ap, ◌∙◌,
  sym, All, inl, inr, Bool-cases, ==_iff,
}
use mathlib.Core.Path.{subst}
use unverified.Common.Words.{Bytes}

-- `strings.HasPrefix(t, p)`.
abbrev pub has_prefix : Bytes → Bytes → Bool
has_prefix t [] = true
has_prefix [] (b ∷ p) = false
has_prefix (a ∷ t) (b ∷ p) = (a == b) && has_prefix t p

-- `strings.Contains(t, sub)`.
abbrev pub contains : Bytes → Bytes → Bool
contains [] sub = has_prefix [] sub
contains (a ∷ t) sub = has_prefix (a ∷ t) sub || contains t sub

abbrev pub is_same : Bytes → Bytes → Bool
is_same [] [] = true
is_same (a ∷ s) (b ∷ t) = (a == b) && is_same s t
is_same _ _ = false

-- `strings.HasSuffix(t, p)`.
abbrev pub has_suffix : Bytes → Bytes → Bool
has_suffix [] p = is_same [] p
has_suffix (a ∷ t) p = is_same (a ∷ t) p || has_suffix t p

abbrev pub grow_first : ℕ → List Bytes → List Bytes
grow_first a [] = (a ∷ []) ∷ []
grow_first a (l ∷ ls) = (a ∷ l) ∷ ls

-- `strings.Split(t, "\n")`.
abbrev pub split_lines : Bytes → List Bytes
split_lines [] = [] ∷ []
split_lines (a ∷ t) = let rest = split_lines t in if a == 10 then [] ∷ rest else grow_first a rest

-- The white space of ASCII.
abbrev pub is_space : ℕ → Bool
is_space a = (a == 32) || (a == 9) || (a == 10) || (a == 11) || (a == 12) || (a == 13)

abbrev pub trim_left : Bytes → Bytes
trim_left [] = []
trim_left (a ∷ t) = let rest = trim_left t in if is_space a then rest else a ∷ t

abbrev pub keep_first : ℕ → Bytes → Bytes
keep_first a [] = if is_space a then [] else a ∷ []
keep_first a (b ∷ r) = a ∷ b ∷ r

abbrev pub trim_right : Bytes → Bytes
trim_right [] = []
trim_right (a ∷ t) = keep_first a (trim_right t)

-- `strings.TrimSpace` on a text in ASCII.
abbrev pub trim_space : Bytes → Bytes
trim_space t = trim_right (trim_left t)

-- `strings.Join(parts, " ")`.
abbrev pub join_spaced : List Bytes → Bytes
join_spaced [] = []
join_spaced (p ∷ []) = p
join_spaced (p ∷ q ∷ ps) = p ++ (32 ∷ join_spaced (q ∷ ps))

-- A byte that a text has.
abbrev pub Lacks : ℕ → Bytes → Type 0
Lacks c t = All (λ (a : ℕ). (a == c) ≡ false) t

abbrev pub has_byte : ℕ → Bytes → Bool
has_byte c [] = false
has_byte c (b ∷ p) = (b == c) || has_byte c p

and-false : (x : Bool) → (x && false) ≡ false
and-false true = refl
and-false false = refl

has_prefix_lacking :
    (c : ℕ) (t p : Bytes) → Lacks c t → has_byte c p ≡ true → has_prefix t p ≡ false
has_prefix_lacking c t [] l h = cc
has_prefix_lacking c [] (b ∷ p) l h = refl
has_prefix_lacking c (a ∷ t) (b ∷ p) (l, ls) h = elim (Bool-cases (b == c)) [
  | inl found ↦
      ap (λ (x : Bool). x && has_prefix t p)
        (subst (λ (n : ℕ). (a == n) ≡ false) (sym ((==_iff b c).0 found)) l)
  | inr other ↦
      let later =
        has_prefix_lacking c t p ls (ap (λ (x : Bool). x || has_byte c p) (sym other) ∙ h) in
      ap (λ (x : Bool). (a == b) && x) later ∙ and-false (a == b)
]

-- A text does not contain one with a byte that it lacks.
pub contains_lacking :
    (c : ℕ) (t sub : Bytes) → Lacks c t → has_byte c sub ≡ true → contains t sub ≡ false
contains_lacking c [] sub l h = has_prefix_lacking c [] sub l h
contains_lacking c (a ∷ t) sub (l, ls) h =
    ap (λ (x : Bool). x || contains t sub) (has_prefix_lacking c (a ∷ t) sub (l, ls) h)
    ∙ contains_lacking c t sub ls h

pub has_byte-Lacks : (c : ℕ) (t : Bytes) → has_byte c t ≡ false → Lacks c t
has_byte-Lacks c [] h = tt
has_byte-Lacks c (a ∷ t) h = elim (Bool-cases (a == c)) [
  | inl found ↦
      let clash : true ≡ false = ap (λ (x : Bool). x || has_byte c t) (sym found) ∙ h in absurd cc
  | inr other ↦ (other, has_byte-Lacks c t (ap (λ (x : Bool). x || has_byte c t) (sym other) ∙ h))
]
