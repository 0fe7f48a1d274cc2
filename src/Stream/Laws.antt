-- ===== src/Stream/Laws.antt =====
-- What `read_full` and `write` do, and parsers that look only at what they consume.
use unverified.Common.{
  ℕ, ◌≡◌, refl, ap, ◌++◌, ◌<◌, leb, length, arith, take, drop, le→leb, leb→le, lt→leb, take-append,
  drop-append, take-append-drop, length-take, length-append, Bool-cases, inl, inr, sym, [], ◌∙◌,
  append-nil,
}
use unverified.Common.Words.{Bytes}
use unverified.Errors.{Error, nil}
use unverified.Stream.{
  Reader, reader, Result, ok, fail, Parser, and_then, relabel, read_full, cut_off, write, reliable,
}

-- Reading as many bytes as the first part has gives it, and leaves the second.
pub read_full-append :
    (n : ℕ) (xs ys : Bytes) (e : Error)
    → length xs ≡ n
    → read_full n (reader (xs ++ ys) e) ≡ (ok xs, reader ys e)
unfolding read_full
read_full-append n xs ys e h = rw (
  ← h,
  le→leb (length xs) (length (xs ++ ys)) (omega (arith, length-append xs ys)),
  take-append,
  drop-append,
)

pub read_full_all :
    (n : ℕ) (xs : Bytes) (e : Error)
    → length xs ≡ n
    → read_full n (reader xs e) ≡ (ok xs, reader [] e)
read_full_all n xs e h =
    sym (ap (λ (bs : Bytes). read_full n (reader bs e)) (append-nil xs))
    ∙ read_full-append n xs [] e h

-- With too few bytes left nothing remains, and the error tells where the stream ended.
pub read_full_short :
    (n : ℕ) (xs : Bytes) (e : Error)
    → length xs < n
    → read_full n (reader xs e) ≡ (fail (cut_off xs e), reader [] e)
unfolding read_full
read_full_short n xs e h = rw (lt→leb (length xs) n h)

pub write-reliable : (sent bs : Bytes) → write bs (reliable sent) ≡ (nil, reliable (sent ++ bs))
unfolding write
write-reliable sent bs = refl

-- Two successful results are equal in both parts.
pub ok-injective :
    {A : Type 0} (a b : A) (t u : Reader)
    → ◌≡◌ {A = Result A × Reader} (ok a, t) (ok b, u)
    → (a ≡ b) × (t ≡ u)
ok-injective {A} a b t u e = (cc, ap (λ (p : Result A × Reader). p.1) e)

-- A successful read: the bytes have the length, and stood before the rest.
pub read_full-ok :
    (n : ℕ) (r : Reader) (a : Bytes) (r' : Reader)
    → read_full n r ≡ (ok a, r')
    → (length a ≡ n) × (r.input ≡ a ++ r'.input) × (r'.last ≡ r.last)
unfolding read_full
read_full-ok n r a r' h = elim (Bool-cases (leb n (length r.input))) [
  | inr short ↦ cc (rw short at h)
  | inl enough ↦
      let e = rw enough at h in
      along (ok-injective (take n r.input) a (record r { input = drop n r.input }) r' e)
        (length-take n r.input (leb→le n (length r.input) enough))
]
  where
    along :
        (take n r.input ≡ a) × (record r { input = drop n r.input } ≡ r')
        → length (take n r.input) ≡ n
        → (length a ≡ n) × (r.input ≡ a ++ r'.input) × (r'.last ≡ r.last)
    along (value, rest) len = (
      rw (← value) len,
      rw (← value, ← rest) (sym (take-append-drop n r.input)),
      sym (ap (λ (t : Reader). t.last) rest),
    )

-- A relabelled parser succeeds where the parser does.
pub relabel-ok :
    {A : Type 0} (f : Error → Error) (x : Result A × Reader) (b : A) (r : Reader)
    → relabel f x ≡ (ok b, r)
    → x ≡ (ok b, r)
relabel-ok f (ok a, t) b r h = h
relabel-ok f (fail e, t) b r h = cc

-- A chain that succeeds succeeds in both parts.
pub and_then-ok :
    {A B : Type 0} (x : Result A × Reader) (k : A → Parser B) (b : B) (r : Reader)
    → and_then x k ≡ (ok b, r)
    → (a : A) × (t : Reader) × (x ≡ (ok a, t)) × (k a t ≡ (ok b, r))
and_then-ok (ok a, t) k b r h = (a, t, refl, h)
and_then-ok (fail e, t) k b r h = cc
