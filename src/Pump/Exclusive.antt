-- ===== src/Pump/Exclusive.antt =====
-- Who has a buffer: one loop, or the pool (`getBuf` and `putBuf` of
-- internal/tunnel/session/pump_linux.go).
pub mod Turns
use unverified.Common.{
  ℕ, zero, suc, ◌+◌, ◌≤◌, ◌<◌, ◌≡◌, refl, ap, sym, ◌∙◌, ◌⊎◌, inl, inr, Bool, true, false, Option,
  none, some, List, [], ◌∷◌, if◌then◌else◌, ltb, leb, le→ltb, lt→ltb, ◌==◌, self_test, All, arith,
  Bool-cases, length,
}
use mathlib.Core.Path.{subst}
use unverified.Common.Words.{Bytes}
use unverified.Errors.{Error, is_nil}
use unverified.TunnelPb.{Frame}
use unverified.Pump.{
  Runtime, Move, cancel, watch, up_starts, read_returns, send_returns, down_starts, receive_returns,
  write_returns, Up, up_top, reading, sending, up_returned, Down, down_top, receiving, writing,
  down_returned, turn, play, start_up, after_read, send_packet, send_tagged, log_read, after_send,
  sent_or_failed, start_down, after_receive, deliver, unless_close, write_payload, copy_packet,
  after_write, written_or_failed, fresh_runtime,
}
use unverified.Pump.Taxonomy.{tag_of}
use unverified.Pump.Buffers.{
  Buffer, Pool, new_buffer_pool, make, keeping, remove, taken_from, pool_get, pool_put, reallocated,
  resized, get_buf, put_buf,
}

abbrev pub hit : Buffer → ℕ → ℕ
hit b i = if b.id == i then 1 else 0

abbrev pub count : List Buffer → ℕ → ℕ
count [] i = 0
count (b ∷ bs) i = hit b i + count bs i

-- The buffers of a pool and of `others` have different numbers, all below `fresh`, and one size.
pub record IsShared (size : ℕ) (others : ℕ → ℕ) (p : Pool) : Type 0 where
  pub size_kept : p.slice_size ≡ size
  pub once : (i : ℕ) → others i + count p.free i ≤ 1
  pub unmade : (i : ℕ) → p.fresh ≤ i → others i + count p.free i ≡ 0
  pub caps : All (λ (b : Buffer). b.cap ≡ size) p.free

abbrev pub up_has : Up → ℕ → ℕ
up_has (reading b) i = hit b i
up_has (sending b n tag) i = hit b i
up_has up i = 0

abbrev pub down_has : Down → ℕ → ℕ
down_has (writing b n) i = hit b i
down_has down i = 0

abbrev pub UpSized : ℕ → Up → Type 0
UpSized size (reading b) = b.cap ≡ size
UpSized size (sending b n tag) = b.cap ≡ size
UpSized size up = Unit {0}

abbrev pub DownSized : ℕ → Down → Type 0
DownSized size (writing b n) = b.cap ≡ size
DownSized size down = Unit {0}

-- Each buffer is with one of the two loops or once in the pool, never in two of these places.
pub record IsExclusive (size : ℕ) (up : Up) (down : Down) (p : Pool) : Type 0 where
  pub shared : IsShared size (λ i. up_has up i + down_has down i) p
  pub up_sized : UpSized size up
  pub down_sized : DownSized size down

-- The packets that the peer sends fit the buffers.
abbrev pub IsFitting : ℕ → Move → Type 0
IsFitting size (receive_returns pick (some f) e) = fits f.packet
  where
    fits : Option Bytes → Type 0
    fits none = Unit {0}
    fits (some packet) = length packet ≤ size
IsFitting size m = Unit {0}

-- `remove` splits off one buffer.
abbrev IsSplit : List Buffer → Option (Buffer × List Buffer) → Type 0
IsSplit bs none = Unit {0}
IsSplit bs (some (b, rest)) =
    ((i : ℕ) → count bs i ≡ hit b i + count rest i)
    × ((size : ℕ)
        → All (λ (c : Buffer). c.cap ≡ size) bs
        → (b.cap ≡ size) × All (λ (c : Buffer). c.cap ≡ size) rest)

keeping-IsSplit :
    (b : Buffer) (bs : List Buffer) (found : Option (Buffer × List Buffer))
    → IsSplit bs found
    → IsSplit (b ∷ bs) (keeping b found)
keeping-IsSplit b bs none h = tt
keeping-IsSplit b bs (some (c, rest)) (h, k) =
    (λ i. let x = h i in omega arith, λ size (a, all). let (x, y) = k size all in (x, (a, y)))

remove-IsSplit : (n : ℕ) (bs : List Buffer) → IsSplit bs (remove n bs)
remove-IsSplit n [] = tt
remove-IsSplit zero (b ∷ bs) = (λ i. refl, λ size h. h)
remove-IsSplit (suc n) (b ∷ bs) = keeping-IsSplit b bs (remove n bs) (remove-IsSplit n bs)

-- What a buffer and a pool are for whoever has just got the buffer.
abbrev pub IsTaken : ℕ → (ℕ → ℕ) → Buffer × Pool → Type 0
IsTaken size others (b, p) = IsShared size (λ i. hit b i + others i) p × (b.cap ≡ size)

hit-other : (b : Buffer) (i : ℕ) → suc b.id ≤ i → hit b i ≡ 0
hit-other b i h = ground arith

make-IsTaken :
    (size : ℕ) (others : ℕ → ℕ) (p : Pool)
    → IsShared size others p
    → IsTaken size others (make p.slice_size p)
make-IsTaken size others p s = (
  record {
    size_kept = s.size_kept;
    once = λ i. let x = s.once i in let y = s.unmade i in ground arith;
    unmade = λ i h. let y = s.unmade i in ground arith;
    caps = s.caps;
  },
  s.size_kept,
)

taken_from-IsTaken :
    (size : ℕ) (others : ℕ → ℕ) (p : Pool) (found : Option (Buffer × List Buffer))
    → IsShared size others p
    → IsSplit p.free found
    → IsTaken size others (taken_from p found)
taken_from-IsTaken size others p none s h = make-IsTaken size others p s
taken_from-IsTaken size others p (some (b, rest)) s (h, k) = (
  record {
    size_kept = s.size_kept;
    once = λ i. let x = h i in let y = s.once i in omega arith;
    unmade = λ i g. let x = h i in let y = s.unmade i g in omega arith;
    caps = (k size s.caps).1;
  },
  (k size s.caps).0,
)

-- A request of at most the pool's size gets a buffer that nobody else has.
pub get_buf-IsTaken :
    (size pick want : ℕ) (others : ℕ → ℕ) (p : Pool)
    → want ≤ size
    → IsShared size others p
    → IsTaken size others (get_buf pick want p)
unfolding get_buf pool_get
get_buf-IsTaken size pick want others p small s =
    let x = taken_from p (remove pick p.free) in
    let taken =
      taken_from-IsTaken size others p (remove pick p.free) s (remove-IsSplit pick p.free) in
    let enough : ltb x.0.cap want ≡ false =
      le→ltb x.0.cap want (subst (λ (n : ℕ). want ≤ n) (sym taken.1) small) in
    subst (IsTaken size others)
      (sym (ap (λ (c : Bool). if c then reallocated (make want x.1) else x) enough)) taken

put_buf-IsShared :
    (size : ℕ) (others : ℕ → ℕ) (b : Buffer) (p : Pool)
    → IsShared size (λ i. hit b i + others i) p
    → b.cap ≡ size
    → IsShared size others (put_buf b p)
unfolding put_buf
put_buf-IsShared size others b p s e = record {
  size_kept = s.size_kept;
  once = λ i. let y = s.once i in omega arith;
  unmade = λ i h. let y = s.unmade i h in omega arith;
  caps = (e, s.caps);
}

-- The invariant of a state.
abbrev pub Exclusive : ℕ → Runtime → Type 0
Exclusive size s = IsExclusive size s.up s.down s.pool

IsShared-along :
    (size : ℕ) (f g : ℕ → ℕ) (p : Pool)
    → ((i : ℕ) → f i ≡ g i)
    → IsShared size f p
    → IsShared size g p
IsShared-along size f g p e s = record {
  size_kept = s.size_kept;
  once = λ i. let x = e i in let y = s.once i in omega arith;
  unmade = λ i h. let x = e i in let y = s.unmade i h in omega arith;
  caps = s.caps;
}

-- A loop that has no buffer gets one, and the other keeps its own.
pub up_takes :
    (size pick : ℕ) (down : Down) (p : Pool)
    → IsExclusive size up_top down p
    → IsExclusive size (reading (get_buf pick 0 p).0) down (get_buf pick 0 p).1
up_takes size pick down p x =
    let free =
      IsShared-along size (λ i. 0 + down_has down i) (down_has down) p (λ i. omega arith)
        x.shared in
    let (shared, sized) = get_buf-IsTaken size pick 0 (down_has down) p (omega arith) free in
    record { shared = shared; up_sized = sized; down_sized = x.down_sized }

pub down_takes :
    (size pick want n : ℕ) (up : Up) (p : Pool)
    → want ≤ size
    → IsExclusive size up receiving p
    → IsExclusive size up (writing (get_buf pick want p).0 n) (get_buf pick want p).1
down_takes size pick want n up p small x =
    let free =
      IsShared-along size (λ i. up_has up i + 0) (up_has up) p (λ i. omega arith) x.shared in
    let (shared, sized) = get_buf-IsTaken size pick want (up_has up) p small free in
    record {
      shared = IsShared-along size _ _ (get_buf pick want p).1 (λ i. omega arith) shared;
      up_sized = x.up_sized;
      down_sized = sized;
    }

-- A loop gives its buffer back.
pub up_gives :
    (size : ℕ) (b : Buffer) (v : Up) (down : Down) (p : Pool)
    → IsExclusive size (reading b) down p
    → ((i : ℕ) → up_has v i ≡ 0)
    → UpSized size v
    → IsExclusive size v down (put_buf b p)
up_gives size b v down p x none_left sized = record {
  shared =
      IsShared-along size (down_has down) _ (put_buf b p) (λ i. let y = none_left i in omega arith)
        (put_buf-IsShared size (down_has down) b p x.shared x.up_sized);
  up_sized = sized;
  down_sized = x.down_sized;
}

pub down_gives :
    (size n : ℕ) (b : Buffer) (up : Up) (v : Down) (p : Pool)
    → IsExclusive size up (writing b n) p
    → ((i : ℕ) → down_has v i ≡ 0)
    → DownSized size v
    → IsExclusive size up v (put_buf b p)
down_gives size n b up v p x none_left sized = record {
  shared =
      IsShared-along size (up_has up) _ (put_buf b p) (λ i. let y = none_left i in omega arith)
        (put_buf-IsShared size (up_has up) b p
          (IsShared-along size _ (λ i. hit b i + up_has up i) p (λ i. omega arith) x.shared)
          x.down_sized);
  up_sized = x.up_sized;
  down_sized = sized;
}

-- A loop that has no buffer goes on without one.
pub down_moves :
    (size : ℕ) (up : Up) (v : Down) (p : Pool)
    → IsExclusive size up receiving p
    → ((i : ℕ) → down_has v i ≡ 0)
    → DownSized size v
    → IsExclusive size up v p
down_moves size up v p x none_left sized = record {
  shared = IsShared-along size _ _ p (λ i. let y = none_left i in omega arith) x.shared;
  up_sized = x.up_sized;
  down_sized = sized;
}
