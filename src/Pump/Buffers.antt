-- ===== src/Pump/Buffers.antt =====
-- The buffer pool of internal/tunnel/session/pump_linux.go. A buffer is a number that stands for its
-- backing array, and a capacity. `sync.Pool` is the standard library's: `Get` takes any buffer of
-- the pool, or makes one; which one is the first argument.
use unverified.Common.{ℕ, zero, suc, Option, none, some, List, [], ◌∷◌, if◌then◌else◌, ltb}

pub record Buffer : Type 0 where
  pub id : ℕ
  pub cap : ℕ

-- `fresh` is the next number: no buffer has it or a later one.
pub record Pool : Type 0 where
  pub slice_size : ℕ
  pub free : List Buffer
  pub fresh : ℕ

unfoldable pub new_buffer_pool : ℕ → Pool
new_buffer_pool slice_size = record {
  slice_size = if ltb slice_size 1 then 1 else slice_size;
  free = [];
  fresh = 0;
}

-- `make([]byte, n)`.
abbrev pub make : ℕ → Pool → Buffer × Pool
make n p = (record { id = p.fresh; cap = n }, record p { fresh = suc p.fresh })

abbrev pub pool_put : Buffer → Pool → Pool
pool_put b p = record p { free = b ∷ p.free }

abbrev pub keeping : Buffer → Option (Buffer × List Buffer) → Option (Buffer × List Buffer)
keeping b none = none
keeping b (some (taken, rest)) = some (taken, b ∷ rest)

abbrev pub remove : ℕ → List Buffer → Option (Buffer × List Buffer)
remove n [] = none
remove zero (b ∷ bs) = some (b, bs)
remove (suc n) (b ∷ bs) = keeping b (remove n bs)

abbrev pub taken_from : Pool → Option (Buffer × List Buffer) → Buffer × Pool
taken_from p none = make p.slice_size p
taken_from p (some (b, rest)) = (b, record p { free = rest })

unfoldable pub pool_get : ℕ → Pool → Buffer × Pool
pool_get pick p = taken_from p (remove pick p.free)

-- `full := buf[:cap(buf)]; pool.Put(&full)` shares the array of `buf`.
abbrev pub reallocated : Buffer × Pool → Buffer × Pool
reallocated (b, p) = (b, pool_put b p)

abbrev pub resized : ℕ → Buffer × Pool → Buffer × Pool
resized want (b, p) = if ltb b.cap want then reallocated (make want p) else (b, p)

unfoldable pub get_buf : ℕ → ℕ → Pool → Buffer × Pool
get_buf pick want p = resized want (pool_get pick p)

unfoldable pub put_buf : Buffer → Pool → Pool
put_buf b p = pool_put b p
