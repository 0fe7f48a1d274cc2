-- ===== src/Route/Fields.antt =====
-- The words of a line, and what a match of `containsCIDR` in it says
-- (internal/tunnel/route/link_linux.go).
use unverified.Common.{
  ◌≡◌, refl, ap, sym, ◌∙◌, ℕ, Bool, true, false, ◌||◌, List, [], ◌∷◌, ◌++◌, append_assoc, ◌==◌,
  ==_iff, Bool-cases, inl, inr, ◌⊎◌, if◌then◌else◌, All,
}
use mathlib.Core.List.{Memᴰ}
use mathlib.Core.List.Memᴰ
use mathlib.Core.Path.{subst}
use unverified.Common.Words.{Bytes}
use unverified.Common.Text.{
  has_prefix, contains, has_suffix, is_same, is_space, trim_left, trim_right, trim_space,
  keep_first, split_lines, grow_first,
}
use unverified.Errors.{bytes}
use unverified.Route.{contains_cidr, any_line, line_has}
use unverified.Route.Address.{is_same→≡, and-both}

-- A text cut at each blank; between two blanks stands the empty word.
abbrev pub fields : Bytes → List Bytes
fields [] = [] ∷ []
fields (a ∷ t) = let rest = fields t in if is_space a then [] ∷ rest else grow_first a rest

abbrev pub HasNoBlank : Bytes → Type 0
HasNoBlank t = All (λ (a : ℕ). is_space a ≡ false) t

abbrev BeginsBlank : Bytes → Type 0
BeginsBlank [] = Unit
BeginsBlank (a ∷ t) = is_space a ≡ true

or-cases : (a b : Bool) → (a || b) ≡ true → (a ≡ true) ⊎ (b ≡ true)
or-cases true b h = inl refl
or-cases false b h = inr h

has_prefix-split : (t p : Bytes) → has_prefix t p ≡ true → (back : Bytes) × (t ≡ p ++ back)
has_prefix-split t [] h = (t, refl)
has_prefix-split [] (b ∷ p) h = absurd cc
has_prefix-split (a ∷ t) (b ∷ p) h =
    let (x, y) = and-both (a == b) (has_prefix t p) h in
    let (back, e) = has_prefix-split t p y in
    (back, ap (λ (n : ℕ). n ∷ t) ((==_iff a b).0 x) ∙ ap (λ (s : Bytes). b ∷ s) e)

contains-split :
    (t s : Bytes) → contains t s ≡ true → (front back : Bytes) × (t ≡ front ++ (s ++ back))
contains-split [] s h = let (back, e) = has_prefix-split [] s h in ([], back, e)
contains-split (a ∷ t) s h = elim (or-cases (has_prefix (a ∷ t) s) (contains t s) h) [
  | inl here ↦ let (back, e) = has_prefix-split (a ∷ t) s here in ([], back, e)
  | inr later ↦
      let (front, back, e) = contains-split t s later in
      (a ∷ front, back, ap (λ (r : Bytes). a ∷ r) e)
]

has_suffix-split : (t p : Bytes) → has_suffix t p ≡ true → (front : Bytes) × (t ≡ front ++ p)
has_suffix-split [] p h = ([], is_same→≡ [] p h)
has_suffix-split (a ∷ t) p h = elim (or-cases (is_same (a ∷ t) p) (has_suffix t p) h) [
  | inl here ↦ ([], is_same→≡ (a ∷ t) p here)
  | inr later ↦
      let (front, e) = has_suffix-split t p later in (a ∷ front, ap (λ (r : Bytes). a ∷ r) e)
]

trim_left-split : (t : Bytes) → (front : Bytes) × (t ≡ front ++ trim_left t)
trim_left-split [] = ([], refl)
trim_left-split (a ∷ t) = elim (Bool-cases (is_space a)) [
  | inl blank ↦
      let (front, e) = trim_left-split t in (a ∷ front, rw blank (ap (λ (r : Bytes). a ∷ r) e))
  | inr filled ↦ ([], rw filled refl)
]

keep_first-split :
    (a : ℕ) (t kept back : Bytes)
    → t ≡ kept ++ back
    → BeginsBlank back
    → (back2 : Bytes) × (a ∷ t ≡ keep_first a kept ++ back2) × BeginsBlank back2
keep_first-split a t [] back e h = elim (Bool-cases (is_space a)) [
  | inl blank ↦ (a ∷ t, rw blank refl, blank)
  | inr filled ↦ (back, rw filled (ap (λ (r : Bytes). a ∷ r) e), h)
]
keep_first-split a t (b ∷ kept) back e h = (back, ap (λ (r : Bytes). a ∷ r) e, h)

trim_right-split : (t : Bytes) → (back : Bytes) × (t ≡ trim_right t ++ back) × BeginsBlank back
trim_right-split [] = ([], refl, tt)
trim_right-split (a ∷ t) =
    let (back, e, h) = trim_right-split t in keep_first-split a t (trim_right t) back e h

fields-filled : (t : Bytes) → (w : Bytes) × (ws : List Bytes) × (fields t ≡ w ∷ ws)
fields-filled [] = ([], [], refl)
fields-filled (a ∷ t) = elim (Bool-cases (is_space a)) [
  | inl blank ↦ ([], fields t, rw blank refl)
  | inr filled ↦ let (w, ws, e) = fields-filled t in (a ∷ w, ws, rw (filled, e) refl)
]

grow_first-append :
    (a : ℕ) (t : Bytes) (ys : List Bytes)
    → grow_first a (fields t ++ ys) ≡ grow_first a (fields t) ++ ys
grow_first-append a t ys = let (w, ws, e) = fields-filled t in rw e refl

fields-append : (front rest : Bytes) → fields (front ++ (32 ∷ rest)) ≡ fields front ++ fields rest
fields-append [] rest = refl
fields-append (a ∷ front) rest = elim (Bool-cases (is_space a)) [
  | inl blank ↦ rw blank (ap (λ (ws : List Bytes). [] ∷ ws) (fields-append front rest))
  | inr filled ↦
      rw filled
        (ap (grow_first a) (fields-append front rest) ∙ grow_first-append a front (fields rest))
]

fields-word :
    (w back : Bytes)
    → HasNoBlank w
    → BeginsBlank back
    → (ws : List Bytes) × (fields (w ++ back) ≡ w ∷ ws)
fields-word [] [] n h = ([], refl)
fields-word [] (a ∷ back) n h = (fields back, rw h refl)
fields-word (a ∷ w) back (filled, n) h =
    let (ws, e) = fields-word w back n h in (ws, rw (filled, e) refl)

word_in_line :
    (front w back line : Bytes)
    → HasNoBlank w
    → BeginsBlank back
    → line ≡ front ++ (32 ∷ (w ++ back))
    → Memᴰ w (fields line)
word_in_line front w back line n h e =
    let (ws, word) = fields-word w back n h in
    subst (λ (xs : List Bytes). Memᴰ w xs)
      (sym (
        ap fields e
        ∙ fields-append front (w ++ back)
        ∙ ap (λ (xs : List Bytes). fields front ++ xs) word))
      (Memᴰ.append_right (fields front) (Memᴰ.head refl))

-- A line that has the address has it as a word.
pub line_has-word :
    (cidr line : Bytes) → HasNoBlank cidr → line_has cidr line ≡ true → Memᴰ cidr (fields line)
unfolding bytes
line_has-word cidr line n h =
    elim (or-cases (contains line (32 ∷ (cidr ++ (32 ∷ []))))
      (has_suffix (trim_space line) (32 ∷ cidr)) h) [
        | inl within ↦
            let (front, back, e) = contains-split line (32 ∷ (cidr ++ (32 ∷ []))) within in
            word_in_line front cidr (32 ∷ back) line n refl
              (e ∙ ap (λ (r : Bytes). front ++ (32 ∷ r)) (append_assoc cidr (32 ∷ []) back))
        | inr behind ↦
            let (front, e) = has_suffix-split (trim_space line) (32 ∷ cidr) behind in
            let (left, f) = trim_left-split line in
            let (right, g, blank) = trim_right-split (trim_left line) in
            word_in_line (left ++ front) cidr right line n blank (
              f
              ∙ ap (λ (r : Bytes). left ++ r)
                  (g ∙ ap (λ (r : Bytes). r ++ right) e ∙ append_assoc front (32 ∷ cidr) right)
              ∙ sym (append_assoc left front (32 ∷ (cidr ++ right))))
      ]

any_line-word :
    (cidr : Bytes) (ls : List Bytes)
    → HasNoBlank cidr
    → any_line cidr ls ≡ true
    → (line : Bytes) × Memᴰ line ls × Memᴰ cidr (fields line)
any_line-word cidr [] n h = absurd cc
any_line-word cidr (l ∷ ls) n h = elim (or-cases (line_has cidr l) (any_line cidr ls) h) [
  | inl here ↦ (l, Memᴰ.head refl, line_has-word cidr l n here)
  | inr later ↦ let (line, m, word) = any_line-word cidr ls n later in (line, Memᴰ.tail m, word)
]

-- `containsCIDR` says yes only if some line of the output has the address, which has no blank, as a
-- word between blanks.
pub contains_cidr-word :
    (output cidr : Bytes)
    → HasNoBlank cidr
    → contains_cidr output cidr ≡ true
    → (line : Bytes) × Memᴰ line (split_lines output) × Memᴰ cidr (fields line)
unfolding contains_cidr
contains_cidr-word output cidr n h = any_line-word cidr (split_lines output) n h
