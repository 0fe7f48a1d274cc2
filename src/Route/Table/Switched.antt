-- ===== src/Route/Table/Switched.antt =====
-- `Down` and then another address on the link of internal/tunnel/route/link_linux.go, where the kernel
-- keeps the addresses of an interface that goes down.
use unverified.Common.{◌≡◌, refl, sym, ap, ◌∙◌, inl, inr, true, false, [], ◌∷◌}
use mathlib.Core.Path.{subst}
use unverified.Common.Words.{Bytes}
use unverified.Errors.{Error, nil, bytes, is_nil}
use unverified.Route.{Executor, Link, Answer, down, add_address}
use unverified.Route.Table.{
  add_args, set_args, IsParser, lower, assign, Same, IsIp, link_step, link_run, link_with, IsLink,
}
use unverified.Route.Table.Sound.{Assigned, assign-Assigned}

-- `ip link set down` leaves the addresses of the interface as they are, as for IPv4, and `ip addr add`
-- takes none away.
pub record KeepsAddresses {K : Type 0} (has : K → Bytes → Type 0) (x : Executor K)
    (ip_path name : Bytes) : Type 0 where
  pub lowers : (k : K) → Same has k (x.exec ip_path (set_args name (bytes "down")) k).1
  pub adds :
      (cidr other : Bytes) (k : K)
      → has k other
      → has (x.exec ip_path (add_args name cidr) k).1 other

module _ {K : Type 0} (has : K → Bytes → Type 0) (parse_cidr : Bytes → Error) (x : Executor K)
    (ip_path name : Bytes) (parser : IsParser parse_cidr) (ip : IsIp has parse_cidr x ip_path name)
    (keeps : KeepsAddresses has x ip_path name) where
  abbrev fresh : Link K
  fresh = link_with x ip_path name []

  -- What the kernel has behind the calls of the binary.
  abbrev pub lowered : K → K
  lowered k = (x.exec ip_path (set_args name (bytes "down")) k).1

  abbrev pub extended : Bytes → K → K
  extended cidr k = (x.exec ip_path (add_args name cidr) k).1

  -- Both calls of the binary go well.
  abbrev pub GoesWell : Bytes → K → Type 0
  GoesWell cidr k =
      (is_nil (x.exec ip_path (set_args name (bytes "down")) k).0.1 ≡ true)
      × (is_nil (x.exec ip_path (add_args name cidr) (lowered k)).0.1 ≡ true)

  lower_step :
      (a : Bytes) (k : K)
      → is_nil (x.exec ip_path (set_args name (bytes "down")) k).0.1 ≡ true
      → link_step parse_cidr lower (link_with x ip_path name a, k) ≡ (fresh, lowered k)
  unfolding link_step down
  lower_step a k went_down = rw went_down refl

  assign_step :
      (away : Bytes) (k : K)
      → is_nil (parse_cidr away) ≡ true
      → is_nil (x.exec ip_path (add_args name away) k).0.1 ≡ true
      → link_step parse_cidr (assign away) (fresh, k)
        ≡ (link_with x ip_path name away, extended away k)
  unfolding link_step add_address
  assign_step [] k valid added = let clash : true ≡ false = sym valid ∙ parser.empty in absurd cc
  assign_step (b ∷ away) k valid added = rw (link_step, add_address, valid, added) refl

  switched :
      (away : Bytes) (l : Link K) (k : K)
      → IsLink x ip_path name l
      → is_nil (parse_cidr away) ≡ true
      → GoesWell away k
      → link_run parse_cidr (lower ∷ assign away ∷ []) (l, k)
        ≡ (link_with x ip_path name away, extended away (lowered k))
  unfolding link_run
  switched away l k is valid (went_down, added) =
      ap (λ (m : Link K). link_step parse_cidr (assign away) (link_step parse_cidr lower (m, k))) is
      ∙ ap (link_step parse_cidr (assign away)) (lower_step l.assigned k went_down)
      ∙ assign_step away (lowered k) valid added

  both_there :
      (home away : Bytes) (s : Link K × K)
      → IsLink x ip_path name s.0
      → has s.1 home
      → is_nil (parse_cidr away) ≡ true
      → GoesWell away s.1
      → (let t = link_run parse_cidr (lower ∷ assign away ∷ []) s in
          (t.0.assigned ≡ away) × has t.1 home × has t.1 away)
  both_there home away (l, k) is there valid well =
      subst (λ (t : Link K × K). (t.0.assigned ≡ away) × has t.1 home × has t.1 away)
        (sym (switched away l k is valid well))
        (
          refl,
          keeps.adds away home (lowered k) ((keeps.lowers k home).0 there),
          ip.added away (lowered k) well.1,
        )

  assigned_there :
      (home : Bytes) (a : Answer K) (k : K)
      → Assigned has parse_cidr x ip_path name parser ip home k a
      → a.0 ≡ nil
      → has a.1.1 home
  assigned_there home a k (inl (clean, there), good) e = there
  assigned_there home a k (inr (failed, same), good) e =
      let clash : true ≡ false = ap is_nil (sym e) ∙ failed in absurd cc

  -- `Down` does not make room for another address. When `AddAddress` has returned nil on a new link,
  -- and `Down` and then `AddAddress` with a text that parses are called, whose calls of the binary go
  -- well, the link records the second address alone, and the interface has both. The binary and
  -- `net.ParseCIDR` are as documented, and the kernel keeps the addresses of an interface that goes
  -- down.
  pub down_keeps_address :
      (home away : Bytes) (k : K)
      → (add_address parse_cidr home fresh k).0 ≡ nil
      → is_nil (parse_cidr away) ≡ true
      → GoesWell away (add_address parse_cidr home fresh k).1.1
      → (let s = link_run parse_cidr (assign home ∷ lower ∷ assign away ∷ []) (fresh, k) in
          (s.0.assigned ≡ away) × has s.1 home × has s.1 away)
  unfolding link_run link_step
  down_keeps_address home away k clean valid well =
      let first = assign-Assigned has parse_cidr x ip_path name parser ip home [] k (inl refl) in
      both_there home away (add_address parse_cidr home fresh k).1 first.1.0
        (assigned_there home (add_address parse_cidr home fresh k) k first clean) valid well
