-- ===== src/Route/Address.antt =====
-- `AddAddress` of internal/tunnel/route/link_linux.go on each of its branches, and twice.
use unverified.Common.{
  by_test, ℕ, ◌≡◌, refl, sym, ap, ◌∙◌, ◌⊎◌, inl, inr, Bool, true, false, ◌&&◌, not, none, some, [],
  ◌∷◌, if◌then◌else◌, ◌==◌, ==_iff, self_test,
}
use unverified.Common.Words.{Bytes}
use unverified.Common.Text.{contains, is_same}
use unverified.Errors.{
  Error, nil, link_error, Reason, link_reason, bytes, is_nil, cidr_invalid,
  address_already_assigned, address_add_failed,
}
use unverified.Errors.Text.{error_text}
use unverified.Errors.{link_up_failed, link_down_failed}
use unverified.Route.{
  up, down, Link, Answer, add_address, after_add, after_probe, conflict, is_empty, contains_cidr,
}

pub and-both : (a b : Bool) → (a && b) ≡ true → (a ≡ true) × (b ≡ true)
and-both true b h = (refl, h)
and-both false b h = absurd cc

pub is_same→≡ : (s t : Bytes) → is_same s t ≡ true → s ≡ t
is_same→≡ [] [] h = refl
is_same→≡ [] (b ∷ t) h = absurd cc
is_same→≡ (a ∷ s) [] h = absurd cc
is_same→≡ (a ∷ s) (b ∷ t) h =
    let (x, y) = and-both (a == b) (is_same s t) h in
    ap (λ (n : ℕ). n ∷ s) ((==_iff a b).0 x) ∙ ap (λ (r : Bytes). b ∷ r) (is_same→≡ s t y)

pub is_same_self : (s : Bytes) → is_same s s ≡ true
is_same_self [] = refl
is_same_self (a ∷ s) = ap (λ (x : Bool). x && is_same s s) (self_test a) ∙ is_same_self s

not-true : (b : Bool) → not b ≡ true → b ≡ false
not-true true h = absurd cc
not-true false h = refl

pub not-false : (b : Bool) → not b ≡ false → b ≡ true
not-false true h = refl
not-false false h = absurd cc

-- The reasons of `AddAddress`.
pub data IsRefusal : Reason → Type 0 where
  invalid : IsRefusal cidr_invalid
  taken : IsRefusal address_already_assigned
  failed : IsRefusal address_add_failed

pub record HasAdded {K : Type 0} (parse_cidr : Bytes → Error) (cidr : Bytes) (l : Link K)
    (a : Answer K) : Type 0 where
  pub no_error : a.0 ≡ nil
  pub recorded : a.1.0 ≡ record l { assigned = cidr }
  pub valid : is_nil (parse_cidr cidr) ≡ true

pub record HasRefused {K : Type 0} (l : Link K) (a : Answer K) : Type 0 where
  pub reason : Reason
  pub refusal : IsRefusal reason
  pub reported : link_reason a.0 ≡ some reason
  pub link_kept : a.1.0 ≡ l

abbrev pub Outcome : {K : Type 0} → (Bytes → Error) → Bytes → Link K → Answer K → Type 0
Outcome parse_cidr cidr l a = HasAdded parse_cidr cidr l a ⊎ HasRefused l a

module _ {K : Type 0} (parse_cidr : Bytes → Error) (cidr : Bytes) (l : Link K) where
  refusing :
      (r : Reason) (e : Error) (k : K)
      → IsRefusal r
      → Outcome parse_cidr cidr l (link_error r e, (l, k))
  unfolding link_reason
  refusing r e k x = inr (record { reason = r; refusal = x; reported = refl; link_kept = refl })

  after_probe-outcome :
      (e : Error) (found : (Bytes × Error) × K)
      → is_nil (parse_cidr cidr) ≡ true
      → Outcome parse_cidr cidr l (after_probe l cidr e found)
  after_probe-outcome e ((current, f), k) v =
      by_test (Outcome parse_cidr cidr l) (not (is_nil f)) _ _
        (λ _. refusing address_add_failed e k failed)
        (λ _.
          by_test (Outcome parse_cidr cidr l) (contains_cidr current cidr) _ _
            (λ _. inl (record { no_error = refl; recorded = refl; valid = v }))
            (λ _. refusing address_already_assigned e k taken))

  after_add-outcome :
      (run : (Bytes × Error) × K)
      → is_nil (parse_cidr cidr) ≡ true
      → Outcome parse_cidr cidr l (after_add l cidr run)
  after_add-outcome ((output, e), k) v =
      by_test (Outcome parse_cidr cidr l) (is_nil e) _ _
        (λ _. inl (record { no_error = refl; recorded = refl; valid = v }))
        (λ _.
          by_test (Outcome parse_cidr cidr l) (not (contains (error_text e) (bytes "File exists")))
            _ _ (λ _. refusing address_add_failed e k failed) (λ _. after_probe-outcome e _ v))

  -- `AddAddress` returns nil and records the address, which is then valid, or it returns a
  -- `LinkError` with one of its three reasons and leaves the record as it was.
  pub add_address-outcome : (k : K) → Outcome parse_cidr cidr l (add_address parse_cidr cidr l k)
  unfolding add_address
  add_address-outcome k =
      by_test (Outcome parse_cidr cidr l) (not (is_nil (parse_cidr cidr))) _ _
        (λ _. refusing cidr_invalid _ k invalid)
        (λ valid.
          by_test (Outcome parse_cidr cidr l) (is_same l.assigned cidr) _ _
            (λ same. inl (record {
              no_error = refl;
              recorded =
                  ap (λ (a : Bytes). record l { assigned = a }) (is_same→≡ l.assigned cidr same);
              valid = not-false (is_nil (parse_cidr cidr)) valid;
            }))
            (λ _.
              by_test (Outcome parse_cidr cidr l) (not (is_empty l.assigned)) _ _
                (λ _. refusing address_already_assigned _ k taken)
                (λ _.
                  after_add-outcome
                    (l.executor.exec l.ip_path
                      (bytes "addr" ∷ bytes "add" ∷ cidr ∷ bytes "dev" ∷ l.name ∷ []) k)
                    (not-false (is_nil (parse_cidr cidr)) valid))))

  add_address_held :
      (other : Bytes) (k : K)
      → l.assigned ≡ cidr
      → is_empty cidr ≡ false
      → is_nil (parse_cidr cidr) ≡ true
      → is_nil (parse_cidr other) ≡ true
      → is_same cidr other ≡ false
      → (add_address parse_cidr cidr l k ≡ (nil, (l, k)))
        × (add_address parse_cidr other l k ≡ (conflict l other, (l, k)))
  unfolding add_address
  add_address_held other k e full v w distinct =
      let same = ap (λ (a : Bytes). is_same a cidr) e ∙ is_same_self cidr in
      let apart = ap (λ (a : Bytes). is_same a other) e ∙ distinct in
      let held = ap is_empty e ∙ full in (simp (v, same), simp (w, apart, held))

-- After `AddAddress` has returned nil for an address that is not empty, it returns nil for the same
-- address again, and `ReasonAddressAlreadyAssigned` for another valid one; neither call runs the
-- binary or changes the link, whatever has become of the kernel meanwhile.
pub add_address_again :
    {K : Type 0} (parse_cidr : Bytes → Error) (cidr other : Bytes) (l : Link K) (k later : K)
    → (add_address parse_cidr cidr l k).0 ≡ nil
    → is_empty cidr ≡ false
    → is_nil (parse_cidr other) ≡ true
    → is_same cidr other ≡ false
    → (add_address parse_cidr cidr (add_address parse_cidr cidr l k).1.0 later
        ≡ (nil, ((add_address parse_cidr cidr l k).1.0, later)))
      × (add_address parse_cidr other (add_address parse_cidr cidr l k).1.0 later ≡ (
        conflict (add_address parse_cidr cidr l k).1.0 other,
        ((add_address parse_cidr cidr l k).1.0, later),
      ))
unfolding link_reason
add_address_again {K} parse_cidr cidr other l k later clean full valid distinct =
    elim (add_address-outcome parse_cidr cidr l k) [
      | inl h ↦
          add_address_held parse_cidr cidr (add_address parse_cidr cidr l k).1.0 other later
            (ap (λ (x : Link K). x.assigned) h.recorded) full h.valid valid distinct
      | inr h ↦
          let clash : none ≡ some h.reason = sym (ap link_reason clean) ∙ h.reported in absurd cc
    ]

-- `Up` leaves the link as it is, and `Down` forgets the address exactly when it succeeds; each
-- returns nil or its own reason.
up_down_effects :
    {K : Type 0} (l : Link K) (k : K)
    → ((up l k).1.0 ≡ l)
      × (((up l k).0 ≡ nil) ⊎ (link_reason (up l k).0 ≡ some link_up_failed))
      × ((((down l k).0 ≡ nil) × ((down l k).1.0 ≡ record l { assigned = [] }))
          ⊎ ((link_reason (down l k).0 ≡ some link_down_failed) × ((down l k).1.0 ≡ l)))
unfolding up down link_reason
up_down_effects {K} l k = (
  refl,
  up_error
      (l.executor.exec l.ip_path (bytes "link" ∷ bytes "set" ∷ l.name ∷ bytes "up" ∷ []) k).0.1,
  by_test
      (λ (a : Answer K).
        ((a.0 ≡ nil) × (a.1.0 ≡ record l { assigned = [] }))
        ⊎ ((link_reason a.0 ≡ some link_down_failed) × (a.1.0 ≡ l)))
      (is_nil
        (l.executor.exec l.ip_path (bytes "link" ∷ bytes "set" ∷ l.name ∷ bytes "down" ∷ []) k).0.1)
      _ _ (λ _. inl (refl, refl)) (λ _. inr (refl, refl)),
)
  where
    up_error :
        (e : Error)
        → ((if is_nil e then nil else link_error link_up_failed e) ≡ nil)
          ⊎ (link_reason (if is_nil e then nil else link_error link_up_failed e)
              ≡ some link_up_failed)
    up_error e =
        by_test (λ (f : Error). (f ≡ nil) ⊎ (link_reason f ≡ some link_up_failed)) (is_nil e) nil
          (link_error link_up_failed e) (λ _. inl refl) (λ _. inr refl)
