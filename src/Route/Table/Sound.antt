-- ===== src/Route/Table/Sound.antt =====
-- Calls of the link of internal/tunnel/route/link_linux.go, against the addresses of the interface.
use unverified.Common.{◌≡◌, refl, sym, ap, ◌∙◌, inl, inr, true, false, not, List, [], ◌∷◌, by_test}
use mathlib.Core.Path.{subst}
use unverified.Common.Words.{Bytes}
use unverified.Common.Text.{contains, is_same}
use unverified.Errors.{Error, nil, bytes, is_nil}
use unverified.Errors.Text.{error_text}
use unverified.Route.{
  Executor, Link, Answer, up, down, add_address, after_add, after_probe, contains_cidr, is_empty,
}
use unverified.Route.Address.{is_same→≡, not-false}
use unverified.Route.Fields.{contains_cidr-word}
use unverified.Route.Table.{
  add_args, show_args, set_args, IsParser, LinkCall, raise, lower, assign, Same, IsIp, IsSound,
  HasAssigned, Same-trans, link_step, link_run, link_with, IsLink,
}

module _ {K : Type 0} (has : K → Bytes → Type 0) (parse_cidr : Bytes → Error) (x : Executor K)
    (ip_path name : Bytes) (parser : IsParser parse_cidr)
    (ip : IsIp has parse_cidr x ip_path name) where
  abbrev pub Good : Link K × K → Type 0
  Good s = IsLink x ip_path name s.0 × IsSound has s

  abbrev pub Assigned : Bytes → K → Answer K → Type 0
  Assigned cidr before a = HasAssigned has cidr before a × Good a.1

  abbrev link : Bytes → Link K
  link = link_with x ip_path name

  IsSound-after :
      (a : Bytes) (k later : K)
      → Same has k later
      → IsSound has (link a, k)
      → IsSound has (link a, later)
  IsSound-after a k later s (inl none) = inl none
  IsSound-after a k later s (inr there) = inr ((s a).0 there)

  probe-Assigned :
      (cidr a : Bytes) (e : Error) (before k : K)
      → is_nil (parse_cidr cidr) ≡ true
      → Same has before k
      → a ≡ []
      → Assigned cidr before (after_probe (link a) cidr e (x.exec ip_path (show_args name) k))
  probe-Assigned cidr a e before k valid same none =
      let shown = x.exec ip_path (show_args name) k in
      let kept = Same-trans has before k shown.1 same (ip.shows k) in
      by_test (Assigned cidr before) (not (is_nil shown.0.1)) _ _
        (λ _. (inr (refl, kept), (refl, inl none)))
        (λ ran.
          by_test (Assigned cidr before) (contains_cidr shown.0.0 cidr) _ _
            (λ found.
              let (line, m, word) =
                contains_cidr-word shown.0.0 cidr (parser.unblanked cidr valid) found in
              let there =
                (ip.shows k cidr).0
                  (ip.shown k line cidr (not-false (is_nil shown.0.1) ran) m word valid) in
              (inl (refl, there), (refl, inr there)))
            (λ _. (inr (refl, kept), (refl, inl none))))

  add-Assigned :
      (cidr a : Bytes) (k : K)
      → is_nil (parse_cidr cidr) ≡ true
      → a ≡ []
      → Assigned cidr k (after_add (link a) cidr (x.exec ip_path (add_args name cidr) k))
  add-Assigned cidr a k valid none =
      let added = x.exec ip_path (add_args name cidr) k in
      by_test (Assigned cidr k) (is_nil added.0.1) _ _
        (λ ran. let there = ip.added cidr k ran in (inl (refl, there), (refl, inr there)))
        (λ failed.
          by_test (Assigned cidr k) (not (contains (error_text added.0.1) (bytes "File exists"))) _
            _ (λ _. (inr (refl, ip.not_added cidr k failed), (refl, inl none)))
            (λ _.
              probe-Assigned cidr a added.0.1 k added.1 valid (ip.not_added cidr k failed) none))

  unchanged : (k : K) → Same has k k
  unchanged k cidr = (λ h. h, λ h. h)

  empty-cases : (a : Bytes) → not (is_empty a) ≡ false → a ≡ []
  empty-cases [] h = refl
  empty-cases (b ∷ t) h = absurd cc

  held-Assigned :
      (cidr a : Bytes) (k : K)
      → is_nil (parse_cidr cidr) ≡ true
      → a ≡ cidr
      → IsSound has (link a, k)
      → Assigned cidr k (nil, (link a, k))
  held-Assigned cidr a k valid e (inl none) =
      let clash : true ≡ false =
        sym valid ∙ ap (λ (c : Bytes). is_nil (parse_cidr c)) (sym e ∙ none) ∙ parser.empty in
      absurd cc
  held-Assigned cidr a k valid e (inr there) =
      (inl (refl, subst (has k) e there), (refl, inr there))

  pub assign-Assigned :
      (cidr a : Bytes) (k : K)
      → IsSound has (link a, k)
      → Assigned cidr k (add_address parse_cidr cidr (link a) k)
  unfolding add_address
  assign-Assigned cidr a k sound =
      by_test (Assigned cidr k) (not (is_nil (parse_cidr cidr))) _ _
        (λ _. (inr (refl, unchanged k), (refl, sound)))
        (λ valid.
          let v = not-false (is_nil (parse_cidr cidr)) valid in
          by_test (Assigned cidr k) (is_same a cidr) _ _
            (λ same. held-Assigned cidr a k v (is_same→≡ a cidr same) sound)
            (λ _.
              by_test (Assigned cidr k) (not (is_empty a)) _ _
                (λ _. (inr (refl, unchanged k), (refl, sound)))
                (λ none. add-Assigned cidr a k v (empty-cases a none))))

  up-Good : (a : Bytes) (k : K) → IsSound has (link a, k) → Good (up (link a) k).1
  unfolding up
  up-Good a k sound = (
    refl,
    IsSound-after a k (x.exec ip_path (set_args name (bytes "up")) k).1 (ip.raises k) sound,
  )

  down-Good : (a : Bytes) (k : K) → IsSound has (link a, k) → Good (down (link a) k).1
  unfolding down
  down-Good a k sound =
      let run = x.exec ip_path (set_args name (bytes "down")) k in
      by_test (λ (ans : Answer K). Good ans.1) (is_nil run.0.1) _ _ (λ _. (refl, inl refl))
        (λ failed. (refl, IsSound-after a k run.1 (ip.not_lowered k failed) sound))

  step-Good :
      (c : LinkCall) (a : Bytes) (k : K)
      → IsSound has (link a, k)
      → Good (link_step parse_cidr c (link a, k))
  unfolding link_step
  step-Good raise a k sound = up-Good a k sound
  step-Good lower a k sound = down-Good a k sound
  step-Good (assign cidr) a k sound = (assign-Assigned cidr a k sound).1

  link_step-Good : (c : LinkCall) (s : Link K × K) → Good s → Good (link_step parse_cidr c s)
  link_step-Good c (l, k) (is, sound) =
      subst (λ (m : Link K). Good (link_step parse_cidr c (m, k))) (sym is)
        (step-Good c l.assigned k sound)

  link_run-Good : (cs : List LinkCall) (s : Link K × K) → Good s → Good (link_run parse_cidr cs s)
  unfolding link_run
  link_run-Good [] s g = g
  link_run-Good (c ∷ cs) s g = link_run-Good cs (link_step parse_cidr c s) (link_step-Good c s g)

  assigned_from :
      (cidr : Bytes) (s : Link K × K)
      → Good s
      → HasAssigned has cidr s.1 (add_address parse_cidr cidr s.0 s.1)
  assigned_from cidr (l, k) (is, sound) =
      subst (λ (m : Link K). HasAssigned has cidr k (add_address parse_cidr cidr m k)) (sym is)
        (assign-Assigned cidr l.assigned k sound).0

  -- After any calls of `Up`, `Down` and `AddAddress` on a new link, the address that it records is one
  -- of the interface, and `AddAddress` then returns nil only if the interface has the address, and an
  -- error only if it has left the interface's addresses as they were. The binary and `net.ParseCIDR`
  -- are as documented, and nobody else takes addresses from the interface.
  pub add_address-HasAssigned :
      (cs : List LinkCall) (cidr : Bytes) (k : K)
      → (let s = link_run parse_cidr cs (link_with x ip_path name [], k) in
          IsSound has s × HasAssigned has cidr s.1 (add_address parse_cidr cidr s.0 s.1))
  add_address-HasAssigned cs cidr k =
      let s = link_run parse_cidr cs (link_with x ip_path name [], k) in
      let good = link_run-Good cs (link_with x ip_path name [], k) (refl, inl refl) in
      (good.1, assigned_from cidr s good)
