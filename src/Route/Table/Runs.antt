-- ===== src/Route/Table/Runs.antt =====
-- A run of the link of internal/tunnel/route/link_linux.go on a kernel that has one address or none.
use unverified.Common.{
  ◌≡◌, refl, sym, ap, ◌∙◌, Bool, true, false, List, [], ◌∷◌, ◌++◌, by_test, if◌then◌else◌,
}
use mathlib.Core.List.{Memᴰ}
use mathlib.Core.List.Memᴰ
use mathlib.Core.Path.{subst}
use unverified.Common.Words.{Bytes}
use unverified.Common.Text.{is_same, split_lines}
use unverified.Errors.{Error, nil, new, bytes, is_nil}
use unverified.Route.{Link, Executor, add_address, contains_cidr}
use unverified.Route.Address.{is_same→≡}
use unverified.Route.Fields.{fields, HasNoBlank}
use unverified.Route.Table.{IsParser, Same, raise, IsIp, IsSound, HasAssigned, link_run, link_with}
use unverified.Route.Table.Sound.{add_address-HasAssigned}
use unverified.Route.Table.Switched.{KeepsAddresses, down_keeps_address}
use unverified.Route.Table.{lower, assign}

abbrev home : Bytes
home = 49 ∷ 46 ∷ 49 ∷ 47 ∷ 56 ∷ []

-- Only one address is valid.
abbrev parse : Bytes → Error
parse c = if is_same c home then nil else new (bytes "invalid CIDR address")

-- Whether the interface has the address is the whole state.
abbrev Has : Bool → Bytes → Type 0
Has k c = (k ≡ true) × (c ≡ home)

abbrev Ran : Type 0
Ran = (Bytes × Error) × Bool

abbrev shown_line : Bytes
shown_line = 50 ∷ 58 ∷ 32 ∷ 105 ∷ 32 ∷ (home ++ (32 ∷ 98 ∷ []))

abbrev ran_add : Bytes → Bool → Ran
ran_add c k =
    if is_same c home
    then (if k then (([], new (bytes "RTNETLINK answers: File exists")), k) else (([], nil), true))
    else (([], new (bytes "Error")), k)

abbrev ran_show : Bool → Ran
ran_show k = ((if k then shown_line else [], nil), k)

abbrev ip : Bytes → List Bytes → Bool → Ran
ip path (a ∷ b ∷ c ∷ d ∷ e ∷ []) k = if is_same a (bytes "addr") then ran_add c k else ran_show k
ip path _ k = (([], nil), k)

abbrev executor : Executor Bool
executor = record { exec = ip }

parse-valid : (c : Bytes) → is_nil (parse c) ≡ true → c ≡ home
parse-valid c =
    by_test (λ (e : Error). is_nil e ≡ true → c ≡ home) (is_same c home) _ _
      (λ same valid. is_same→≡ c home same) (λ other valid. absurd cc)

home-HasNoBlank : HasNoBlank home
home-HasNoBlank = (refl, (refl, (refl, (refl, (refl, tt)))))

parse-IsParser : IsParser parse
parse-IsParser = record {
  empty = refl;
  unblanked = λ c valid. subst HasNoBlank (sym (parse-valid c valid)) home-HasNoBlank;
}

ran_add-Has : (c : Bytes) (k : Bool) → is_nil (ran_add c k).0.1 ≡ true → Has (ran_add c k).1 c
ran_add-Has c true =
    by_test (λ (r : Ran). is_nil r.0.1 ≡ true → Has r.1 c) (is_same c home) _ _
      (λ same clean. absurd cc) (λ other clean. absurd cc)
ran_add-Has c false =
    by_test (λ (r : Ran). is_nil r.0.1 ≡ true → Has r.1 c) (is_same c home) _ _
      (λ same clean. (refl, is_same→≡ c home same)) (λ other clean. absurd cc)

ran_add-Same :
    (c : Bytes) (k : Bool) → is_nil (ran_add c k).0.1 ≡ false → Same Has k (ran_add c k).1
ran_add-Same c true =
    by_test (λ (r : Ran). is_nil r.0.1 ≡ false → Same Has true r.1) (is_same c home) _ _
      (λ same failed d. (λ h. h, λ h. h)) (λ other failed d. (λ h. h, λ h. h))
ran_add-Same c false =
    by_test (λ (r : Ran). is_nil r.0.1 ≡ false → Same Has false r.1) (is_same c home) _ _
      (λ same failed. absurd cc) (λ other failed d. (λ h. h, λ h. h))

ran_show-Has :
    (k : Bool) (line word : Bytes)
    → Memᴰ line (split_lines (ran_show k).0.0)
    → Memᴰ word (fields line)
    → is_nil (parse word) ≡ true
    → Has k word
ran_show-Has true line word m w valid = (refl, parse-valid word valid)
ran_show-Has false line word m w valid =
    let nothing =
      Memᴰ.eq_of_singleton
        (subst (λ (l : Bytes). Memᴰ word (fields l)) (Memᴰ.eq_of_singleton m) w) in
    let clash : false ≡ true = ap (λ (c : Bytes). is_nil (parse c)) (sym nothing) ∙ valid in
    absurd cc

executor-IsIp : IsIp Has parse executor [] (116 ∷ [])
unfolding bytes
executor-IsIp = record {
  added = λ c k. ran_add-Has c k;
  not_added = λ c k. ran_add-Same c k;
  shows = λ k c. (λ h. h, λ h. h);
  shown = λ k line word r m w valid. ran_show-Has k line word m w valid;
  raises = λ k c. (λ h. h, λ h. h);
  not_lowered = λ k failed c. (λ h. h, λ h. h);
}

abbrev state : Link Bool × Bool
state = (link_with executor [] (116 ∷ []) [], true)

add_address-HasAssigned_example :
    IsSound Has (link_run parse (raise ∷ []) state)
    × HasAssigned Has home (link_run parse (raise ∷ []) state).1 (
        add_address parse home
          (link_run parse (raise ∷ []) state).0
          (link_run parse (raise ∷ []) state).1)
add_address-HasAssigned_example =
    add_address-HasAssigned Has parse executor [] (116 ∷ []) parse-IsParser executor-IsIp
      (raise ∷ []) home true

found_by_probe :
    add_address parse home (link_with executor [] (116 ∷ []) []) true
    ≡ (nil, (link_with executor [] (116 ∷ []) home, true))
unfolding bytes add_address unverified.Errors.Text.error_text contains_cidr
found_by_probe = refl

-- A kernel that is the list of its addresses, and a parser that takes two texts.
abbrev away : Bytes
away = 49 ∷ 46 ∷ 50 ∷ 47 ∷ 56 ∷ []

abbrev parse_two : Bytes → Error
parse_two c = if is_same c away then nil else parse c

abbrev listed_ip : Bytes → List Bytes → List Bytes → (Bytes × Error) × List Bytes
listed_ip path (a ∷ b ∷ c ∷ d ∷ e ∷ []) k =
    if is_same a (bytes "addr") then (([], nil), c ∷ k) else (([], nil), k)
listed_ip path _ k = (([], nil), k)

abbrev listed : Executor (List Bytes)
listed = record { exec = listed_ip }

abbrev Listed : List Bytes → Bytes → Type 0
Listed k c = Memᴰ c k

parse_two-HasNoBlank : (c : Bytes) → is_nil (parse_two c) ≡ true → HasNoBlank c
parse_two-HasNoBlank c =
    by_test (λ (e : Error). is_nil e ≡ true → HasNoBlank c) (is_same c away) _ _
      (λ same valid.
        subst HasNoBlank (sym (is_same→≡ c away same)) (refl, (refl, (refl, (refl, (refl, tt))))))
      (λ other valid. subst HasNoBlank (sym (parse-valid c valid)) home-HasNoBlank)

parse_two-IsParser : IsParser parse_two
parse_two-IsParser = record { empty = refl; unblanked = parse_two-HasNoBlank }

no_word :
    (line word : Bytes) (k : List Bytes)
    → Memᴰ line ([] ∷ [])
    → Memᴰ word (fields line)
    → is_nil (parse_two word) ≡ true
    → Listed k word
no_word line word k m w valid =
    let nothing =
      Memᴰ.eq_of_singleton
        (subst (λ (l : Bytes). Memᴰ word (fields l)) (Memᴰ.eq_of_singleton m) w) in
    let clash : false ≡ true = ap (λ (c : Bytes). is_nil (parse_two c)) (sym nothing) ∙ valid in
    absurd cc

listed-IsIp : IsIp Listed parse_two listed [] (116 ∷ [])
unfolding bytes
listed-IsIp = record {
  added = λ c k clean. Memᴰ.head refl;
  not_added = λ c k failed. absurd cc;
  shows = λ k c. (λ h. h, λ h. h);
  shown = λ k line word r m w valid. no_word line word k m w valid;
  raises = λ k c. (λ h. h, λ h. h);
  not_lowered = λ k failed. absurd cc;
}

listed-KeepsAddresses : KeepsAddresses Listed listed [] (116 ∷ [])
unfolding bytes
listed-KeepsAddresses = record {
  lowers = λ k c. (λ h. h, λ h. h);
  adds = λ c other k h. Memᴰ.tail h;
}

down_keeps_address_example :
    (let s =
        link_run parse_two
          (assign home ∷ lower ∷ assign away ∷ [])
          (link_with listed [] (116 ∷ []) [], []) in
      (s.0.assigned ≡ away) × Listed s.1 home × Listed s.1 away)
unfolding bytes add_address
down_keeps_address_example =
    down_keeps_address Listed parse_two listed [] (116 ∷ []) parse_two-IsParser listed-IsIp
      listed-KeepsAddresses home away [] refl refl (refl, refl)
