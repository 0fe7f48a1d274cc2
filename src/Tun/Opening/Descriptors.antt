-- ===== src/Tun/Opening/Descriptors.antt =====
-- The descriptors that `Open`, `MTU` and `Close` of internal/tunnel/tun/tun_linux.go leave open.
use unverified.Common.{
  ℕ, zero, suc, ◌≡◌, refl, ap, ◌∙◌, Bool, false, List, [], ◌∷◌, if◌then◌else◌, ◌==◌, either,
  by_test, true, ==_iff,
}
use unverified.Common.Words.{Bytes}
use unverified.Errors.{Error, nil, sentinel, tun_closed, is_nil}
use unverified.Stream.{Result, ok, fail}
use unverified.Tun.Device.{
  Device, null_terminated, device_read, device_write, device_close, device_close-closes,
}
use unverified.Tun.Opening.{
  Calls, Opened, request_name, request_flags, with_nonblock, with_request, with_descriptor,
  open_device, with_ifreq, with_socket, device_mtu, close_file,
}

abbrev pub without : ℕ → List ℕ → List ℕ
without fd [] = []
without fd (x ∷ xs) = let rest = without fd xs in if x == fd then xs else x ∷ rest

-- A new descriptor, or none.
abbrev pub Adds : List ℕ → Result ℕ → List ℕ → Type 0
Adds before (ok fd) after = after ≡ fd ∷ before
Adds before (fail e) after = after ≡ before

-- What the package relies on: two calls open a descriptor, `close` closes one, the others none.
pub record IsKernel {K : Type 0} (h : Calls K) (descriptors : K → List ℕ) : Type 0 where
  pub opens : (k : K) → Adds (descriptors k) (h.open_tun k).0 (descriptors (h.open_tun k).1)
  pub sockets : (k : K) → Adds (descriptors k) (h.socket k).0 (descriptors (h.socket k).1)
  pub closes : (fd : ℕ) (k : K) → descriptors (h.close fd k).1 ≡ without fd (descriptors k)
  pub sets_iff :
      (fd : ℕ) (field : Bytes) (flags : ℕ) (k : K)
      → descriptors (h.set_iff fd field flags k).1 ≡ descriptors k
  pub sets_nonblock : (fd : ℕ) (k : K) → descriptors (h.set_nonblock fd k).1 ≡ descriptors k
  pub gets_mtu :
      (fd : ℕ) (name : Bytes) (k : K) → descriptors (h.get_mtu fd name k).1 ≡ descriptors k

-- `Open` adds the descriptor of its device, which is open, and none with an error.
abbrev pub HasOpened : List ℕ → Result Opened → List ℕ → Type 0
HasOpened before (ok o) after = (after ≡ o.descriptor ∷ before) × (o.device.closed ≡ false)
HasOpened before (fail e) after = after ≡ before

without-head : (fd : ℕ) (xs : List ℕ) → without fd (fd ∷ xs) ≡ xs
without-head fd xs = ap (λ (b : Bool). if b then xs else fd ∷ without fd xs) ((==_iff fd fd).1 refl)

module _ {K : Type 0} (h : Calls K) where
  -- This many calls of `MTU`.
  unfoldable pub mtu_calls : ℕ → Device → K → K
  mtu_calls zero d k = k
  mtu_calls (suc n) d k = mtu_calls n d (device_mtu h d k).1

  -- From the result of `Open`: the calls of `MTU`, and then `Close`.
  unfoldable pub life : ℕ → Result Opened × K → K
  life n (fail e, k) = k
  life n (ok o, k) = (close_file h o (mtu_calls n o.device k)).1

module _ {K : Type 0} (h : Calls K) where
  -- The device behind its `Close`, with the answers of its file and at a later state of the kernel.
  abbrev pub IsShut : ℕ → Bytes × Error → ℕ × Error → K → Result Opened × K → Type 0
  IsShut n read written later (fail e, k) = Unit {0}
  IsShut n read written later (ok o, k) =
      let d = (close_file h o (mtu_calls h n o.device k)).0.1.device in
      (device_read d read ≡ ([], sentinel tun_closed))
      × (device_write d written ≡ (0, sentinel tun_closed))
      × (device_mtu h d later ≡ ((0, sentinel tun_closed), later))

device_close-shuts : (d : Device) (e : Error) → (device_close d e).1.closed ≡ true
unfolding device_close
device_close-shuts d e =
    by_test (λ (x : Error × Device). x.1.closed ≡ true) d.closed _ _ (λ shut. shut) (λ _. refl)

module _ {K : Type 0} (h : Calls K) (descriptors : K → List ℕ) (is : IsKernel h descriptors) where
  abbrev Ends : List ℕ → Result Opened × K → Type 0
  Ends before rk = HasOpened before rk.0 (descriptors rk.1)

  closed_again :
      (before : List ℕ) (fd : ℕ) (k : K)
      → descriptors k ≡ fd ∷ before
      → descriptors (h.close fd k).1 ≡ before
  closed_again before fd k e = is.closes fd k ∙ ap (without fd) e ∙ without-head fd before

  with_nonblock-Ends :
      (before : List ℕ) (fd : ℕ) (resolved : Bytes) (ek : Error × K)
      → descriptors ek.1 ≡ fd ∷ before
      → Ends before (with_nonblock h fd resolved ek)
  with_nonblock-Ends before fd resolved (f, k) e =
      either (Ends before) (is_nil f) _ _ (e, refl) (closed_again before fd k e)

  with_request-Ends :
      (before : List ℕ) (name : Bytes) (fd : ℕ) (rk : (Bytes × Error) × K)
      → descriptors rk.1 ≡ fd ∷ before
      → Ends before (with_request h name fd rk)
  with_request-Ends before name fd ((field, f), k) e =
      either (Ends before) (is_nil f) _ _
        (with_nonblock-Ends before fd (null_terminated field) (h.set_nonblock fd k)
          (is.sets_nonblock fd k ∙ e))
        (closed_again before fd k e)

  with_descriptor-Ends :
      (before : List ℕ) (name : Bytes) (rk : Result ℕ × K)
      → Adds before rk.0 (descriptors rk.1)
      → Ends before (with_descriptor h name rk)
  with_descriptor-Ends before name (fail f, k) e = e
  with_descriptor-Ends before name (ok fd, k) e =
      with_request-Ends before name fd (h.set_iff fd (request_name name) request_flags k)
        (is.sets_iff fd (request_name name) request_flags k ∙ e)

  abbrev Keeps : List ℕ → (ℕ × Error) × K → Type 0
  Keeps before rk = descriptors rk.1 ≡ before

  with_ifreq-Keeps :
      (name : Bytes) (sock : ℕ) (f : Error) (k : K)
      → Keeps (descriptors k) (with_ifreq h name sock f k)
  with_ifreq-Keeps name sock f k =
      either (Keeps (descriptors k)) (is_nil f) _ _ (is.gets_mtu sock name k) refl

  with_socket-Keeps :
      (before : List ℕ) (name : Bytes) (rk : Result ℕ × K)
      → Adds before rk.0 (descriptors rk.1)
      → Keeps before (with_socket h name rk)
  with_socket-Keeps before name (fail f, k) e = e
  with_socket-Keeps before name (ok sock, k) e =
      closed_again before sock (with_ifreq h name sock (h.new_ifreq name) k).1
        (with_ifreq-Keeps name sock (h.new_ifreq name) k ∙ e)

  device_mtu-Keeps : (d : Device) (k : K) → Keeps (descriptors k) (device_mtu h d k)
  unfolding device_mtu
  device_mtu-Keeps d k =
      either (Keeps (descriptors k)) d.closed _ _ refl
        (with_socket-Keeps (descriptors k) d.cached_name (h.socket k) (is.sockets k))

  mtu_calls-keep : (n : ℕ) (d : Device) (k : K) → descriptors (mtu_calls h n d k) ≡ descriptors k
  unfolding mtu_calls
  mtu_calls-keep zero d k = refl
  mtu_calls-keep (suc n) d k = mtu_calls-keep n d (device_mtu h d k).1 ∙ device_mtu-Keeps d k

  life-Ends :
      (before : List ℕ) (n : ℕ) (rk : Result Opened × K)
      → Ends before rk
      → descriptors (life h n rk) ≡ before
  unfolding life close_file
  life-Ends before n (fail f, k) e = e
  life-Ends before n (ok o, k) (e, live) =
      ap
        (λ (b : Bool). descriptors (
          if b
          then mtu_calls h n o.device k
          else (h.close o.descriptor (mtu_calls h n o.device k)).1))
        live
      ∙ closed_again before o.descriptor (mtu_calls h n o.device k)
          (mtu_calls-keep n o.device k ∙ e)

  -- Behind the `Close`, a device that was opened answers `ErrClosed` to all calls.
  life-IsShut :
      (n : ℕ) (read : Bytes × Error) (written : ℕ × Error) (later : K) (rk : Result Opened × K)
      → IsShut h n read written later rk
  unfolding close_file device_mtu
  life-IsShut n read written later (fail f, k) = tt
  life-IsShut n read written later (ok o, k) =
      let answer = h.close o.descriptor (mtu_calls h n o.device k) in
      let (again, reads, writes) = device_close-closes o.device answer.0 nil read written in
      (
        reads,
        writes,
        ap
            (λ (b : Bool).
              if b
              then ((0, sentinel tun_closed), later)
              else with_socket h (device_close o.device answer.0).1.cached_name (h.socket later))
            (device_close-shuts o.device answer.0),
      )

  -- `Open` leaves one more descriptor open, that of the device it returns, and none with an error.
  -- Any number of calls of `MTU`, successful or not, and one `Close` behind it leave the descriptors
  -- that were open before; from then on `Read`, `Write` and `MTU` of the device answer `ErrClosed`.
  -- The hypotheses say which calls of the kernel open and close descriptors.
  pub open_device-life :
      (name : Bytes) (n : ℕ) (k later : K) (read : Bytes × Error) (written : ℕ × Error)
      → HasOpened (descriptors k) (open_device h name k).0 (descriptors (open_device h name k).1)
        × (descriptors (life h n (open_device h name k)) ≡ descriptors k)
        × IsShut h n read written later (open_device h name k)
  unfolding open_device
  open_device-life name n k later read written =
      let ends = with_descriptor-Ends (descriptors k) name (h.open_tun k) (is.opens k) in
      let opened = with_descriptor h name (h.open_tun k) in
      (ends, life-Ends (descriptors k) n opened ends, life-IsShut n read written later opened)
