-- ===== src/Tun/Runs.antt =====
-- Runs of the device and of the preflight of internal/tunnel/tun, and their theorems at them.
use unverified.Common.{length, take, List, ◌+◌, ℕ, ◌≡◌, refl, true, false, [], ◌∷◌}
use unverified.Common.Words.{Bytes}
use unverified.Common.Text.{Lacks, has_byte-Lacks}
use unverified.Errors.{Error, nil, new, bytes, is_nil, is_error, pump_error, read_tun_failed}
use unverified.Stream.{ok}
use unverified.Pump.{Runtime, up_starts, play, turn, reading, up_returned, fresh_runtime}
use unverified.Pump.Buffers.{Buffer, new_buffer_pool, get_buf, pool_get}
use unverified.Tun.Device.{
  null_terminated, Device, device_read, device_close, end_read, up_behind, interrupted_read_fails,
}
use unverified.Tun.Opening.{
  Calls, Opened, request_name, zero_ended, opened_as, open_device_cuts_name, open_device,
  device_mtu,
}
use unverified.Tun.Opening.Descriptors.{
  without, IsKernel, HasOpened, IsShut, life, open_device-life,
}
use unverified.Tun.Preflight.{default_cap_probe, caps_effective, caps_effective-agrees}

abbrev hex : ℕ → Bytes
hex n = []

caps_effective-agrees_example :
    caps_effective hex nil (4096, 64)
    ≡ ok (record {
      present = is_nil (default_cap_probe hex nil (4096, 64)) ∷ false ∷ true ∷ [];
      effective = (4096, 64);
    })
caps_effective-agrees_example = caps_effective-agrees hex hex 4096 64

abbrev device : Device
device = record { cached_name = bytes "tun0"; closed = false }

-- `os.ErrClosed`.
abbrev file_closed : Error
file_closed = new (bytes "file already closed")

abbrev waiting : Runtime
waiting = play (up_starts 0 ∷ []) (fresh_runtime 1532)

abbrev first_buffer : Buffer
first_buffer = record { id = 0; cap = 1532 }

waiting_reads : waiting.up ≡ reading first_buffer
unfolding play turn get_buf pool_get new_buffer_pool
waiting_reads = refl

interrupted_read_fails_example :
    (up_behind (device_read (device_close device nil).1 ([], file_closed)) waiting
      ≡ up_returned nil)
    × (up_behind (end_read (device_close device nil).1 ([], file_closed)) waiting
        ≡ up_returned (pump_error read_tun_failed (bytes "read tun") file_closed))
unfolding is_error
interrupted_read_fails_example =
    interrupted_read_fails device nil file_closed first_buffer waiting refl waiting_reads refl refl

abbrev long_name : Bytes
long_name = bytes "unverified-tunnel0"

long_name-Lacks : Lacks 0 long_name
unfolding bytes
long_name-Lacks = has_byte-Lacks 0 long_name refl

-- A kernel whose state is the list of the open descriptors.
abbrev kernel : Calls (List ℕ)
kernel = record {
  open_tun = λ (fs : List ℕ). (ok (length fs + 3), (length fs + 3) ∷ fs);
  set_iff = λ (fd : ℕ) (field : Bytes) (flags : ℕ) (fs : List ℕ). ((zero_ended field, nil), fs);
  set_nonblock = λ (fd : ℕ) (fs : List ℕ). (nil, fs);
  close = λ (fd : ℕ) (fs : List ℕ). (nil, without fd fs);
  socket = λ (fs : List ℕ). (ok (length fs + 3), (length fs + 3) ∷ fs);
  new_ifreq = λ (name : Bytes). nil;
  get_mtu = λ (fd : ℕ) (name : Bytes) (fs : List ℕ). ((1500, nil), fs);
  quoted = λ (t : Bytes). t;
}

abbrev listed : List ℕ → List ℕ
listed fs = fs

kernel-IsKernel : IsKernel kernel listed
kernel-IsKernel = record {
  opens = λ k. refl;
  sockets = λ k. refl;
  closes = λ fd k. refl;
  sets_iff = λ fd field flags k. refl;
  sets_nonblock = λ fd k. refl;
  gets_mtu = λ fd name k. refl;
}

open_device-life_example :
    HasOpened
      (0 ∷ [])
      (open_device kernel (bytes "unvfd%d") (0 ∷ [])).0
      (open_device kernel (bytes "unvfd%d") (0 ∷ [])).1
    × (life kernel 2 (open_device kernel (bytes "unvfd%d") (0 ∷ [])) ≡ 0 ∷ [])
    × IsShut kernel 2 (0x45 ∷ [], nil) (1, nil) [] (open_device kernel (bytes "unvfd%d") (0 ∷ []))
open_device-life_example =
    open_device-life kernel listed kernel-IsKernel (bytes "unvfd%d") 2 (0 ∷ []) [] (0x45 ∷ [], nil)
      (1, nil)

abbrev tun0 : Opened
tun0 = record {
  descriptor = 4;
  file_name = bytes "tun-tun0";
  device = record { cached_name = bytes "tun0"; closed = false };
}

tun0_opened : open_device kernel (bytes "tun0") (0 ∷ []) ≡ (ok tun0, 4 ∷ 0 ∷ [])
unfolding open_device bytes request_name null_terminated
tun0_opened = refl

tun0_mtu : device_mtu kernel tun0.device (4 ∷ 0 ∷ []) ≡ ((1500, nil), 4 ∷ 0 ∷ [])
unfolding device_mtu
tun0_mtu = refl

open_device_cuts_name_example :
    (open_device kernel long_name (0 ∷ [])).0 ≡ ok (opened_as 4 (take 15 long_name))
open_device_cuts_name_example =
    open_device_cuts_name kernel long_name 4 (0 ∷ []) (4 ∷ 0 ∷ []) long_name-Lacks refl refl refl
