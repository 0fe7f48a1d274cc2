-- ===== src/Common/Words.antt =====
-- Bytes and big-endian words. `put_be k v` is what `binary.BigEndian.PutUint{16,32,64}` stores
-- for k = 2, 4, 8, and `be_uint` is what `binary.BigEndian.Uint{16,32,64}` reads.
use Prim.Native.Nat.{ℕ, zero, suc, ◌+◌, ◌*◌, ◌/◌, ◌%◌, ◌^◌, ◌≤◌, ◌<◌}
use mathlib.Core.Path.{◌≡◌, refl, ap, ◌∙◌}
use mathlib.Core.List.{List, [], ◌∷◌, ◌++◌, append-nil, append_assoc}
use native.Mathlib.Omega.{arith}
use Prim.Native.Nat.add
use native.Mathlib.Nat.{pow-suc}
use mathlib.Core.Bool.{Bool, true, false}
use mathlib.Core.Logic.{inl, inr}
use unverified.Common.Tests.{ltb, ltb→lt, if◌then◌else◌, Bool-cases}
use unverified.Common.Lists.{length, length-append, All, All-append}

abbrev pub Bytes : Type 0
Bytes = List ℕ

abbrev pub IsByte : ℕ → Type 0
IsByte b = b < 256

abbrev pub IsU32 : ℕ → Type 0
IsU32 v = v < 2 ^ 32

abbrev pub IsU64 : ℕ → Type 0
IsU64 v = v < 2 ^ 64

unfoldable pub put_be : ℕ → ℕ → Bytes
put_be zero v = []
put_be (suc k) v = put_be k (v / 256) ++ ((v % 256) ∷ [])

be_from : ℕ → Bytes → ℕ
be_from acc [] = acc
be_from acc (b ∷ bs) = be_from (acc * 256 + b) bs

unfoldable pub be_uint : Bytes → ℕ
unfolding be_from
be_uint bs = be_from 0 bs

be_from-append : (acc : ℕ) (xs ys : Bytes) → be_from acc (xs ++ ys) ≡ be_from (be_from acc xs) ys
unfolding be_from
be_from-append acc [] ys = refl
be_from-append acc (x ∷ xs) ys = be_from-append (acc * 256 + x) xs ys

pub length-put_be : (k v : ℕ) → length (put_be k v) ≡ k
unfolding put_be
length-put_be zero v = refl
length-put_be (suc k) v =
    omega (arith, length-append (put_be k (v / 256)) ((v % 256) ∷ []), length-put_be k (v / 256))

pub put_be-IsByte : (k v : ℕ) → All IsByte (put_be k v)
unfolding put_be
put_be-IsByte zero v = tt
put_be-IsByte (suc k) v = All-append IsByte _ _ (put_be-IsByte k (v / 256)) (omega arith)

pow_256 : (k : ℕ) → 256 ^ suc k ≡ 256 * 256 ^ k
pow_256 k = rw pow-suc (omega arith)

-- Reading back a word that fits.
pub be_uint-put_be : (k v : ℕ) → v < 256 ^ k → be_uint (put_be k v) ≡ v
unfolding put_be be_uint
be_uint-put_be zero v h = omega arith
be_uint-put_be (suc k) v h =
    be_from-append 0 (put_be k (v / 256)) ((v % 256) ∷ [])
    ∙ omega (arith, be_uint-put_be k (v / 256) (omega (arith, pow_256 k)))

put_be-be_from :
    (acc j : ℕ) (bs : Bytes)
    → All IsByte bs
    → put_be (length bs + j) (be_from acc bs) ≡ put_be j acc ++ bs
unfolding be_from put_be
put_be-be_from acc j [] h = rw (append-nil, add.zero)
put_be-be_from acc j (b ∷ bs) h =
    ap (λ (n : ℕ). put_be n (be_from (acc * 256 + b) bs)) width
    ∙ put_be-be_from (acc * 256 + b) (suc j) bs h.1
    ∙ shift
  where
    width : length (b ∷ bs) + j ≡ length bs + suc j
    width = omega arith

    high : (acc * 256 + b) / 256 ≡ acc
    high = omega (arith, h.0)

    low : (acc * 256 + b) % 256 ≡ b
    low = omega (arith, h.0)

    shift : put_be (suc j) (acc * 256 + b) ++ bs ≡ put_be j acc ++ (b ∷ bs)
    shift =
        append_assoc (put_be j ((acc * 256 + b) / 256)) (((acc * 256 + b) % 256) ∷ []) bs
        ∙ rw (high, low)

-- Storing a word that was read gives its bytes back.
pub put_be-be_uint : (bs : Bytes) → All IsByte bs → put_be (length bs) (be_uint bs) ≡ bs
unfolding put_be be_uint
put_be-be_uint bs h =
    let width : length bs ≡ length bs + 0 = omega arith in
    ap (λ (n : ℕ). put_be n (be_uint bs)) width ∙ put_be-be_from 0 0 bs h

mul_mono : (x y p : ℕ) → x ≤ y → x * p ≤ y * p
mul_mono x y p h = grind arith

be_from-lt : (acc : ℕ) (bs : Bytes) → All IsByte bs → be_from acc bs < (acc + 1) * 256 ^ length bs
unfolding be_from
be_from-lt acc [] h = omega arith
be_from-lt acc (b ∷ bs) h = omega (
  arith,
  be_from-lt (acc * 256 + b) bs h.1,
  mul_mono (acc * 256 + b + 1) ((acc + 1) * 256) (256 ^ length bs) (omega (arith, h.0)),
  ap (λ (t : ℕ). (acc + 1) * t) (pow_256 (length bs)),
)

pub be_uint-lt : (bs : Bytes) → All IsByte bs → be_uint bs < 256 ^ length bs
unfolding be_uint
be_uint-lt bs h = omega (arith, be_from-lt 0 bs h)

-- A test for the bytes of a constant text.
abbrev pub are_bytes : Bytes → Bool
are_bytes [] = true
are_bytes (b ∷ bs) = if ltb b 256 then are_bytes bs else false

pub are_bytes-IsByte : (bs : Bytes) → are_bytes bs ≡ true → All IsByte bs
are_bytes-IsByte [] h = tt
are_bytes-IsByte (b ∷ bs) h = elim (Bool-cases (ltb b 256)) [
  | inl low ↦ (ltb→lt b 256 low, are_bytes-IsByte bs (rw low at h))
  | inr high ↦ cc (rw high at h)
]
