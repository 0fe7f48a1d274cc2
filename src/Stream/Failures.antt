-- ===== src/Stream/Failures.antt =====
-- The errors that a parser can fail with: a predicate, and its rules for each way to build one.
use unverified.Common.{◌≡◌, refl, Bool, true, false, if◌then◌else◌}
use mathlib.Core.Path.{subst}
use unverified.Errors.{Error}
use unverified.Stream.{
  Reader, Result, ok, fail, Parser, and_then, ◌>>=◌, return, refuse, relabel, on_error,
}

abbrev pub FailsIn : (Error → Type 0) → {A : Type 0} → Parser A → Type 0
FailsIn P m = (r : Reader) (e : Error) (r' : Reader) → m r ≡ (fail e, r') → P e

module _ (P : Error → Type 0) where
  pub FailsIn-return : {A : Type 0} (a : A) → FailsIn P (return a)
  FailsIn-return a r e r' h = cc

  along : {d e : Error} → d ≡ e → P d → P e
  along q p = subst P q p

  fail-injective :
      {A : Type 0} (d e : Error) (t u : Reader)
      → ◌≡◌ {A = Result A × Reader} (fail d, t) (fail e, u)
      → d ≡ e
  fail-injective d e t u h = cc

  pub FailsIn-refuse : {A : Type 0} (d : Error) → P d → FailsIn P (refuse {A = A} d)
  FailsIn-refuse d p r e r' h = along (fail-injective d e r r' h) p

  relabel-fail :
      {A : Type 0} (f : Error → Error) (x : Result A × Reader) (e : Error) (r' : Reader)
      → ((d : Error) → P (f d))
      → relabel f x ≡ (fail e, r')
      → P e
  relabel-fail f (ok a, t) e r' p h = cc
  relabel-fail f (fail d, t) e r' p h = along (fail-injective (f d) e t r' h) (p d)

  pub FailsIn-on_error :
      {A : Type 0} (f : Error → Error) (m : Parser A)
      → ((d : Error) → P (f d))
      → FailsIn P (on_error f m)
  FailsIn-on_error f m p r e r' h = relabel-fail f (m r) e r' p h

  pub FailsIn-if :
      {A : Type 0} (c : Bool) (m k : Parser A)
      → FailsIn P m
      → FailsIn P k
      → FailsIn P (if c then m else k)
  FailsIn-if true m k pm pk = pm
  FailsIn-if false m k pm pk = pk

  and_then-fail :
      {A B : Type 0} (x : Result A × Reader) (k : A → Parser B) (e : Error) (r' : Reader)
      → ((d : Error) (t : Reader) → x ≡ (fail d, t) → P d)
      → ((a : A) → FailsIn P (k a))
      → and_then x k ≡ (fail e, r')
      → P e
  and_then-fail (ok a, t) k e r' px pk h = pk a t e r' h
  and_then-fail (fail d, t) k e r' px pk h = along (fail-injective d e t r' h) (px d t refl)

  pub FailsIn->>= :
      {A B : Type 0} (m : Parser A) (k : A → Parser B)
      → FailsIn P m
      → ((a : A) → FailsIn P (k a))
      → FailsIn P (m >>= k)
  FailsIn->>= m k pm pk r e r' h = and_then-fail (m r) k e r' (λ d t q. pm r d t q) pk h
