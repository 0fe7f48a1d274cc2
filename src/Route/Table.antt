-- ===== src/Route/Table.antt =====
-- The link of internal/tunnel/route/link_linux.go against the addresses of the interface. That the
-- interface has the address that a text names is a relation on the kernel's tables, since two texts
-- may name one address.
pub mod Sound
pub mod Switched
mod Runs
use unverified.Common.{
  ◌≡◌, ◌↔◌, refl, sym, ap, ◌∙◌, ◌⊎◌, inl, inr, Bool, true, false, not, List, [], ◌∷◌, by_test,
}
use mathlib.Core.List.{Memᴰ}
use mathlib.Core.Path.{subst}
use unverified.Common.Words.{Bytes}
use unverified.Common.Text.{contains, is_same, split_lines}
use unverified.Errors.{Error, nil, bytes, is_nil}
use unverified.Errors.Text.{error_text}
use unverified.Route.{
  Executor, Link, Answer, up, down, add_address, after_up, after_down, after_add, after_probe,
  contains_cidr, is_empty,
}
use unverified.Route.Address.{is_same→≡, not-false}
use unverified.Route.Fields.{fields, HasNoBlank, contains_cidr-word}

abbrev pub add_args : Bytes → Bytes → List Bytes
add_args name cidr = bytes "addr" ∷ bytes "add" ∷ cidr ∷ bytes "dev" ∷ name ∷ []

abbrev pub show_args : Bytes → List Bytes
show_args name = bytes "-o" ∷ bytes "addr" ∷ bytes "show" ∷ bytes "dev" ∷ name ∷ []

abbrev pub set_args : Bytes → Bytes → List Bytes
set_args name state = bytes "link" ∷ bytes "set" ∷ name ∷ state ∷ []

-- `net.ParseCIDR` refuses the empty text and texts with a blank.
pub record IsParser (parse_cidr : Bytes → Error) : Type 0 where
  pub empty : is_nil (parse_cidr []) ≡ false
  pub unblanked : (cidr : Bytes) → is_nil (parse_cidr cidr) ≡ true → HasNoBlank cidr

-- What a user of the link calls.
pub data LinkCall : Type 0 where
  raise lower : LinkCall
  assign : Bytes → LinkCall

module _ {K : Type 0} (has : K → Bytes → Type 0) where
  -- The interface has the same addresses.
  abbrev pub Same : K → K → Type 0
  Same before after = (cidr : Bytes) → has before cidr ↔ has after cidr

  -- The `ip` binary, by its answers: `addr add` adds the address or fails and changes none, `-o addr
  -- show` shows no address that the interface has not, `link set up`, and `link set down` if it
  -- fails, change none.
  pub record IsIp (parse_cidr : Bytes → Error) (x : Executor K) (ip_path name : Bytes)
      : Type 0 where
    pub added :
        (cidr : Bytes) (k : K)
        → is_nil (x.exec ip_path (add_args name cidr) k).0.1 ≡ true
        → has (x.exec ip_path (add_args name cidr) k).1 cidr
    pub not_added :
        (cidr : Bytes) (k : K)
        → is_nil (x.exec ip_path (add_args name cidr) k).0.1 ≡ false
        → Same k (x.exec ip_path (add_args name cidr) k).1
    pub shows : (k : K) → Same k (x.exec ip_path (show_args name) k).1
    pub shown :
        (k : K) (line word : Bytes)
        → is_nil (x.exec ip_path (show_args name) k).0.1 ≡ true
        → Memᴰ line (split_lines (x.exec ip_path (show_args name) k).0.0)
        → Memᴰ word (fields line)
        → is_nil (parse_cidr word) ≡ true
        → has k word
    pub raises : (k : K) → Same k (x.exec ip_path (set_args name (bytes "up")) k).1
    pub not_lowered :
        (k : K)
        → is_nil (x.exec ip_path (set_args name (bytes "down")) k).0.1 ≡ false
        → Same k (x.exec ip_path (set_args name (bytes "down")) k).1

  -- The address that a link records is one of the interface.
  abbrev pub IsSound : Link K × K → Type 0
  IsSound (l, k) = (l.assigned ≡ []) ⊎ has k l.assigned

  -- `AddAddress` has returned nil and the interface has the address, or an error and nothing changed.
  abbrev pub HasAssigned : Bytes → K → Answer K → Type 0
  HasAssigned cidr before (e, (l, after)) =
      ((e ≡ nil) × has after cidr) ⊎ ((is_nil e ≡ false) × Same before after)

  Same-trans : (a b c : K) → Same a b → Same b c → Same a c
  Same-trans a b c f g cidr = (λ h. (g cidr).0 ((f cidr).0 h), λ h. (f cidr).1 ((g cidr).1 h))

module _ {K : Type 0} (parse_cidr : Bytes → Error) where
  unfoldable pub link_step : LinkCall → Link K × K → Link K × K
  link_step raise (l, k) = (up l k).1
  link_step lower (l, k) = (down l k).1
  link_step (assign cidr) (l, k) = (add_address parse_cidr cidr l k).1

  unfoldable pub link_run : List LinkCall → Link K × K → Link K × K
  link_run [] s = s
  link_run (c ∷ cs) s = link_run cs (link_step c s)

module _ {K : Type 0} (x : Executor K) (ip_path name : Bytes) where
  abbrev pub link_with : Bytes → Link K
  link_with a = record { name = name; ip_path = ip_path; executor = x; assigned = a }

  -- A link that differs from the new one in its record at most.
  abbrev pub IsLink : Link K → Type 0
  IsLink l = l ≡ link_with l.assigned
