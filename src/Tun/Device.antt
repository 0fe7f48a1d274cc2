-- ===== src/Tun/Device.antt =====
-- `linuxDevice` of internal/tunnel/tun/tun_linux.go. Its file's answers are arguments; a file that is
-- closed while a call waits in it answers `os.ErrClosed`, which nothing compares with.
use unverified.Common.{
  ℕ, ◌≡◌, refl, ap, ◌∙◌, Bool, true, false, ◌||◌, [], ◌∷◌, ◌++◌, if◌then◌else◌, ◌==◌, le→leb, arith,
  All, Bool-cases, inl, inr,
}
use unverified.Common.Words.{Bytes}
use unverified.Errors.{
  Error, nil, sentinel, bytes, tun_closed, is_error, is_nil, pump_error, read_tun_failed,
}
use unverified.Pump.{Runtime, Up, reading, up_returned, turn, read_returns, after_read}
use unverified.Pump.Buffers.{Buffer}
use unverified.Pump.Taxonomy.{read_failure, is_canceled}

pub record Device : Type 0 where
  pub cached_name : Bytes
  pub closed : Bool

-- `Name`.
abbrev device_name : Device → Bytes
device_name d = d.cached_name

-- `Read` from where the file has answered: the flag is not tested again.
unfoldable pub end_read : Device → Bytes × Error → Bytes × Error
end_read d answer = answer

-- `Read`: the flag is tested before the file is read.
unfoldable pub device_read : Device → Bytes × Error → Bytes × Error
device_read d answer = if d.closed then ([], sentinel tun_closed) else end_read d answer

-- `Write`: the count and the error.
unfoldable pub device_write : Device → ℕ × Error → ℕ × Error
device_write d answer = if d.closed then (0, sentinel tun_closed) else answer

-- `Close`, with what `d.f.Close()` answers.
unfoldable pub device_close : Device → Error → Error × Device
device_close d e = if d.closed then (nil, d) else (e, record d { closed = true })

-- `nullTerminatedString`.
unfoldable pub null_terminated : Bytes → Bytes
null_terminated [] = []
null_terminated (c ∷ cs) = let rest = null_terminated cs in if c == 0 then [] else c ∷ rest

-- A name without a zero byte is found again in the field, whatever stands behind its end.
pub null_terminated-field :
    (name padding : Bytes)
    → All (λ (c : ℕ). (c == 0) ≡ false) name
    → (null_terminated (name ++ (0 ∷ padding)) ≡ name) × (null_terminated name ≡ name)
unfolding null_terminated
null_terminated-field [] padding h = (refl, refl)
null_terminated-field (c ∷ cs) padding (h, hs) =
    let (x, y) = null_terminated-field cs padding hs in
    (rw h (ap (λ (t : Bytes). c ∷ t) x), rw h (ap (λ (t : Bytes). c ∷ t) y))

-- The second `Close` answers nil and changes nothing, and behind the first the device answers
-- `ErrClosed` to `Read` and `Write`.
pub device_close-closes :
    (d : Device) (e f : Error) (read : Bytes × Error) (written : ℕ × Error)
    → (device_close (device_close d e).1 f ≡ (nil, (device_close d e).1))
      × (device_read (device_close d e).1 read ≡ ([], sentinel tun_closed))
      × (device_write (device_close d e).1 written ≡ (0, sentinel tun_closed))
unfolding device_close device_read end_read device_write
device_close-closes d e f read written = elim (Bool-cases d.closed) [
  | inl shut ↦ (simp shut, simp shut, simp shut)
  | inr opened ↦ (simp opened, simp opened, simp opened)
]

-- The loop upwards behind an answer of the device, of an error that is not nil.
ended_by :
    (e : Error) (b : Buffer) (s : Runtime)
    → s.up ≡ reading b
    → is_nil e ≡ false
    → (turn (read_returns [] e) s).up ≡ up_returned (read_failure e)
unfolding turn
ended_by e b s waits failed =
    ap (λ (u : Up). (after_read [] e u s).up) waits ∙ simp (le→leb 0 b.cap (omega arith), failed)

abbrev pub up_behind : Bytes × Error → Runtime → Up
up_behind answer s = (turn (read_returns answer.0 answer.1) s).up

-- When `Close` comes to an open device while the pump waits in `Read`, it matters whether `Read` has
-- tested the flag. A `Read` that begins behind the `Close` answers `ErrClosed`, and the loop upwards
-- of the pump ends with nil. One that has passed the test answers, from the closed device, with the
-- error of the file, and the loop ends with `read_tun_failed`: the error of the file is not nil, and
-- another one than the device's `ErrClosed` and the end of a context.
pub interrupted_read_fails :
    (d : Device) (closing e : Error) (b : Buffer) (s : Runtime)
    → d.closed ≡ false
    → s.up ≡ reading b
    → is_nil e ≡ false
    → (is_error e tun_closed || is_canceled e) ≡ false
    → (let shut = (device_close d closing).1 in
        (up_behind (device_read shut ([], e)) s ≡ up_returned nil)
        × (up_behind (end_read shut ([], e)) s
            ≡ up_returned (pump_error read_tun_failed (bytes "read tun") e)))
unfolding device_close device_read end_read read_failure is_error
interrupted_read_fails d closing e b s opened waits failed other = (
  ap
        (λ (c : Bool).
          up_behind
            (if (if◌then◌else◌ {A = Error × Device} c (nil, d)
                (closing, record d { closed = true })).1.closed
              then ([], sentinel tun_closed)
              else ([], e))
            s)
        opened
      ∙ ended_by (sentinel tun_closed) b s waits refl,
  ended_by e b s waits failed ∙ simp other,
)
