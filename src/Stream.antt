-- ===== src/Stream.antt =====
-- The byte streams under the codec: `io.Reader` with `io.ReadFull`, and `io.Writer`, as
-- internal/transport/grpc/tunnelpb/codec.go uses them. Both are the standard library's.
pub mod Laws
pub mod Failures
pub mod Sequence
pub mod Uniform
use unverified.Common.{
  ℕ, ◌≡◌, Bool, true, false, Option, none, some, List, [], ◌∷◌, ◌++◌, leb, if◌then◌else◌, length,
  take, drop,
}
use unverified.Common.Words.{Bytes}
use unverified.Errors.{Error, nil, sentinel, eof, unexpected_eof, is_nil}

-- What a reader still delivers, and the error that it returns from then on (`io.EOF` at the end
-- of a stream).
pub record Reader : Type 0 where
  pub input : Bytes
  pub last : Error

abbrev pub reader : Bytes → Error → Reader
reader bs e = record { input = bs; last = e }

-- Go's `(value, error)` where exactly one of the two is set.
pub data Result {ℓ} (A : Type ℓ) : Type ℓ where
  ok : A → Result A
  fail : Error → Result A

-- A function that reads: its result, and the reader behind what it consumed.
abbrev pub Parser : Type 0 → Type 0
Parser A = Reader → Result A × Reader

abbrev pub and_then : {A B : Type 0} → Result A × Reader → (A → Parser B) → Result B × Reader
and_then (ok a, r) f = f a r
and_then (fail e, r) f = (fail e, r)

infixl 5 ◌>>=◌
abbrev pub ◌>>=◌ : {A B : Type 0} → Parser A → (A → Parser B) → Parser B
◌>>=◌ m f r = and_then (m r) f

abbrev pub return : {A : Type 0} → A → Parser A
return a r = (ok a, r)

abbrev pub refuse : {A : Type 0} → Error → Parser A
refuse e r = (fail e, r)

-- `if err != nil { return nil, f(err) }` behind a call.
abbrev pub relabel : {A : Type 0} → (Error → Error) → Result A × Reader → Result A × Reader
relabel f (ok a, r) = (ok a, r)
relabel f (fail e, r) = (fail (f e), r)

abbrev pub on_error : {A : Type 0} → (Error → Error) → Parser A → Parser A
on_error f m r = relabel f (m r)

-- `io.ReadFull`: an end of the stream behind the first byte is `io.ErrUnexpectedEOF`, before it
-- `io.EOF`; any other error comes as it is.
abbrev pub cut_off : Bytes → Error → Error
cut_off (b ∷ bs) (sentinel eof) = sentinel unexpected_eof
cut_off bs e = e

unfoldable pub read_full : ℕ → Parser Bytes
read_full n r =
    if leb n (length r.input)
    then (ok (take n r.input), record r { input = drop n r.input })
    else (fail (cut_off r.input r.last), record r { input = [] })

-- What a writer does with one call of `Write`: it takes all, or the first n bytes and fails.
pub data Outcome : Type 0 where
  accepts : Outcome
  breaks : ℕ → Error → Outcome

-- The bytes that a writer has taken, and its outcomes to come; behind them it takes everything.
pub record Writer : Type 0 where
  pub sent : Bytes
  pub plan : List Outcome

-- A function that writes returns the error, `nil` for success.
abbrev pub Action : Type 0
Action = Writer → Error × Writer

abbrev write_by : List Outcome → Bytes → Bytes → Error × Writer
write_by [] sent bs = (nil, record { sent = sent ++ bs; plan = [] })
write_by (accepts ∷ plan) sent bs = (nil, record { sent = sent ++ bs; plan = plan })
write_by (breaks n e ∷ plan) sent bs = (e, record { sent = sent ++ take n bs; plan = plan })

unfoldable pub write : Bytes → Action
write bs w = write_by w.plan w.sent bs

-- `if err := first; err != nil { return err }` before the rest.
abbrev pub unless_failed : Error × Writer → Action → Error × Writer
unless_failed (e, w) k = if is_nil e then k w else (e, w)

infixl 5 ◌>>◌
abbrev pub ◌>>◌ : Action → Action → Action
◌>>◌ m k w = unless_failed (m w) k

abbrev pub done : Action
done w = (nil, w)

abbrev pub give_up : Error → Action
give_up e w = (e, w)

-- `if err := m; err != nil { return f(err) }`.
abbrev pub relabel_failure : (Error → Error) → Error × Writer → Error × Writer
relabel_failure f (e, w) = (if is_nil e then nil else f e, w)

-- A writer that never fails.
abbrev pub reliable : Bytes → Writer
reliable sent = record { sent = sent; plan = [] }
