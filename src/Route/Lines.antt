-- ===== src/Route/Lines.antt =====
-- `containsCIDR` of internal/tunnel/route/link_linux.go on an output of whole lines.
use unverified.Common.{
  ◌≡◌, refl, ap, ◌∙◌, Bool, true, false, ◌&&◌, ◌||◌, List, [], ◌∷◌, ◌++◌, self_test, if◌then◌else◌,
  All,
}
use unverified.Common.Words.{Bytes}
use unverified.Common.Text.{
  has_prefix, contains, has_suffix, trim_space, split_lines, grow_first, Lacks,
}
use unverified.Errors.{bytes}
use unverified.Route.{contains_cidr, any_line, line_has}

-- Each line with its end.
abbrev lines_text : List Bytes → Bytes
lines_text [] = []
lines_text (l ∷ ls) = l ++ (10 ∷ lines_text ls)

or-true : (b : Bool) → (b || true) ≡ true
or-true true = refl
or-true false = refl

has_prefix-append : (s t : Bytes) → has_prefix (s ++ t) s ≡ true
has_prefix-append [] [] = refl
has_prefix-append [] (b ∷ t) = refl
has_prefix-append (a ∷ s) t =
    ap (λ (x : Bool). x && has_prefix (s ++ t) s) (self_test a) ∙ has_prefix-append s t

contains_here : (s t : Bytes) → contains (s ++ t) s ≡ true
contains_here [] [] = refl
contains_here [] (b ∷ t) = refl
contains_here (a ∷ s) t =
    ap (λ (x : Bool). x || contains (s ++ t) (a ∷ s)) (has_prefix-append (a ∷ s) t)

contains-append : (front s t : Bytes) → contains (front ++ (s ++ t)) s ≡ true
contains-append [] s t = contains_here s t
contains-append (a ∷ front) s t =
    ap (λ (x : Bool). has_prefix (a ∷ (front ++ (s ++ t))) s || x) (contains-append front s t)
    ∙ or-true (has_prefix (a ∷ (front ++ (s ++ t))) s)

split_lines-line :
    (l rest : Bytes) → Lacks 10 l → split_lines (l ++ (10 ∷ rest)) ≡ l ∷ split_lines rest
split_lines-line [] rest h = refl
split_lines-line (a ∷ l) rest (h, hs) =
    ap
      (λ (x : Bool).
        if x
        then [] ∷ split_lines (l ++ (10 ∷ rest))
        else grow_first a (split_lines (l ++ (10 ∷ rest))))
      h
    ∙ ap (grow_first a) (split_lines-line l rest hs)

any_line-found :
    (cidr : Bytes) (ls ms : List Bytes) (front back : Bytes)
    → All (Lacks 10) ls
    → Lacks 10 (front ++ ((32 ∷ (cidr ++ (32 ∷ []))) ++ back))
    → any_line cidr
        (split_lines (lines_text (ls ++ ((front ++ ((32 ∷ (cidr ++ (32 ∷ []))) ++ back)) ∷ ms))))
      ≡ true
unfolding bytes
any_line-found cidr [] ms front back h here =
    let line = front ++ ((32 ∷ (cidr ++ (32 ∷ []))) ++ back) in
    ap (any_line cidr) (split_lines-line line (lines_text ms) here)
    ∙ ap
        (λ (x : Bool).
          (x || has_suffix (trim_space line) (32 ∷ cidr))
          || any_line cidr (split_lines (lines_text ms)))
        (contains-append front (32 ∷ (cidr ++ (32 ∷ []))) back)
any_line-found cidr (l ∷ ls) ms front back (h, hs) here =
    let line = front ++ ((32 ∷ (cidr ++ (32 ∷ []))) ++ back) in
    ap (any_line cidr) (split_lines-line l (lines_text (ls ++ (line ∷ ms))) h)
    ∙ ap (λ (x : Bool). line_has cidr l || x) (any_line-found cidr ls ms front back hs here)
    ∙ or-true (line_has cidr l)

-- `containsCIDR` finds an address that stands between two blanks in some line of the output,
-- whatever the other lines are; no line up to that one has a line end within.
contains_cidr-found :
    (cidr : Bytes) (ls ms : List Bytes) (front back : Bytes)
    → All (Lacks 10) ls
    → Lacks 10 (front ++ ((32 ∷ (cidr ++ (32 ∷ []))) ++ back))
    → contains_cidr (lines_text (ls ++ ((front ++ ((32 ∷ (cidr ++ (32 ∷ []))) ++ back)) ∷ ms))) cidr
      ≡ true
unfolding contains_cidr
contains_cidr-found cidr ls ms front back h here = any_line-found cidr ls ms front back h here
