-- ===== src/Tun/Opening.antt =====
-- `Open`, `MTU` and `Close` of internal/tunnel/tun/tun_linux.go. The calls of the kernel, `os.NewFile`
-- with its `Close`, and the package x/sys/unix are a parameter: `K` is what they are part of.
pub mod Descriptors
use unverified.Common.{
  ℕ, zero, suc, ◌≡◌, refl, ap, ◌∙◌, Bool, true, false, [], ◌∷◌, ◌++◌, if◌then◌else◌, ◌==◌, All,
  length, take,
}
use unverified.Common.Words.{Bytes}
use unverified.Common.Text.{Lacks}
use unverified.Errors.{Error, nil, sentinel, new, wrap, bytes, tun_closed, is_nil}
use unverified.Stream.{Result, ok, fail}
use unverified.Tun.Device.{Device, device_close, null_terminated}

-- `unix.Open` of the TUN device, the ioctl `TUNSETIFF` (with the field of the name and the flags of
-- the request; the field as the kernel leaves it), `unix.SetNonblock`, a close of a descriptor,
-- `unix.Socket` for the control socket, `unix.NewIfreq`, the ioctl `SIOCGIFMTU` (the word of 32 bits
-- that the kernel leaves), and `%q`.
pub record Calls (K : Type 0) : Type 0 where
  pub open_tun : K → Result ℕ × K
  pub set_iff : ℕ → Bytes → ℕ → K → (Bytes × Error) × K
  pub set_nonblock : ℕ → K → Error × K
  pub close : ℕ → K → Error × K
  pub socket : K → Result ℕ × K
  pub new_ifreq : Bytes → Error
  pub get_mtu : ℕ → Bytes → K → (ℕ × Error) × K
  pub quoted : Bytes → Bytes

-- `copy` into a zeroed array of this size.
abbrev pub copied : ℕ → Bytes → Bytes
copied zero name = []
copied (suc n) [] = 0 ∷ copied n []
copied (suc n) (c ∷ cs) = c ∷ copied n cs

-- The field `Name` of `ifReq`.
unfoldable pub request_name : Bytes → Bytes
request_name name = copied 16 name

-- `IFF_TUN | IFF_NO_PI`.
abbrev pub request_flags : ℕ
request_flags = 0x1001

-- `ifReq`, without its unused rest, and the request of `Open`.
record IfReq : Type 0 where
  name : Bytes
  flags : ℕ

abbrev open_request : Bytes → IfReq
open_request name = record { name = request_name name; flags = request_flags }

-- The device with the descriptor and the name of its file.
pub record Opened : Type 0 where
  pub descriptor : ℕ
  pub file_name : Bytes
  pub device : Device

module _ {K : Type 0} (h : Calls K) where
  abbrev pub with_nonblock : ℕ → Bytes → Error × K → Result Opened × K
  with_nonblock fd resolved (e, k) =
      if is_nil e
      then (
        ok (record {
          descriptor = fd;
          file_name = bytes "tun-" ++ resolved;
          device = record { cached_name = resolved; closed = false };
        }),
        k,
      )
      else (fail (wrap (bytes "tun: set nonblock: ") e []), (h.close fd k).1)

  abbrev pub with_request : Bytes → ℕ → (Bytes × Error) × K → Result Opened × K
  with_request name fd ((field, errno), k) =
      if is_nil errno then with_nonblock fd (null_terminated field) (h.set_nonblock fd k) else (
        fail (wrap (bytes "tun: TUNSETIFF(" ++ (h.quoted name ++ bytes "): ")) errno []),
        (h.close fd k).1,
      )

  abbrev pub with_descriptor : Bytes → Result ℕ × K → Result Opened × K
  with_descriptor name (fail e, k) = (fail (wrap (bytes "tun: open /dev/net/tun: ") e []), k)
  with_descriptor name (ok fd, k) =
      with_request name fd (h.set_iff fd (open_request name).name (open_request name).flags k)

  -- `Open`.
  unfoldable pub open_device : Bytes → K → Result Opened × K
  open_device name k = with_descriptor name (h.open_tun k)

  abbrev pub mtu_of : Bytes → (ℕ × Error) × K → (ℕ × Error) × K
  mtu_of name ((n, errno), k) = (
    if is_nil errno
        then (n, nil)
        else (0, wrap (bytes "tun: SIOCGIFMTU(" ++ (h.quoted name ++ bytes "): ")) errno []),
    k,
  )

  abbrev pub with_ifreq : Bytes → ℕ → Error → K → (ℕ × Error) × K
  with_ifreq name sock e k =
      if is_nil e
      then mtu_of name (h.get_mtu sock name k)
      else ((0, wrap (bytes "tun: mtu ifreq(" ++ (h.quoted name ++ bytes "): ")) e []), k)

  -- `defer unix.Close(sock)`.
  abbrev pub closing : ℕ → (ℕ × Error) × K → (ℕ × Error) × K
  closing sock (r, k) = (r, (h.close sock k).1)

  abbrev pub with_socket : Bytes → Result ℕ × K → (ℕ × Error) × K
  with_socket name (fail e, k) = ((0, wrap (bytes "tun: mtu socket: ") e []), k)
  with_socket name (ok sock, k) = closing sock (with_ifreq name sock (h.new_ifreq name) k)

  -- `MTU`.
  unfoldable pub device_mtu : Device → K → (ℕ × Error) × K
  device_mtu d k =
      if d.closed then ((0, sentinel tun_closed), k) else with_socket d.cached_name (h.socket k)

  -- `Close`, with its descriptor.
  unfoldable pub close_file : Opened → K → (Error × Opened) × K
  close_file o k =
      let answer = h.close o.descriptor k in
      let closed = device_close o.device answer.0 in
      ((closed.0, record o { device = closed.1 }), if o.device.closed then k else answer.1)

-- `Open` on a platform that is not Linux, which it names: the text of `errors.Join`.
unfoldable pub open_other : Bytes → Error
open_other goos = new (
    bytes "tun: unsupported platform"
    ++ (10
        ∷ (bytes "tun: /dev/net/tun is Linux-only (GOOS="
            ++ (goos ++ (bytes "); see docs/ARCH.md " ++ (0xc2 ∷ 0xa7 ∷ bytes "1"))))))

take-copied : (n : ℕ) (name : Bytes) → take n (copied (suc n) name) ≡ copied n name
take-copied zero name = refl
take-copied (suc n) [] = ap (λ (t : Bytes). 0 ∷ t) (take-copied n [])
take-copied (suc n) (c ∷ cs) = ap (λ (t : Bytes). c ∷ t) (take-copied n cs)

copied-terminated :
    (n : ℕ) (name : Bytes)
    → Lacks 0 name
    → null_terminated (copied n name ++ (0 ∷ [])) ≡ take n name
unfolding null_terminated
copied-terminated zero name l = refl
copied-terminated (suc n) [] l = refl
copied-terminated (suc n) (c ∷ cs) (l, ls) =
    rw l (ap (λ (t : Bytes). c ∷ t) (copied-terminated n cs ls))

-- The field as `TUNSETIFF` of Linux leaves it, where the name has no `%d` and is free: its last byte
-- is set to zero, and the rest is as it was.
abbrev pub zero_ended : Bytes → Bytes
zero_ended field = take 15 field ++ (0 ∷ [])

zero_ended-name :
    (name : Bytes) → Lacks 0 name → null_terminated (zero_ended (request_name name)) ≡ take 15 name
unfolding request_name
zero_ended-name name l =
    ap (λ (t : Bytes). null_terminated (t ++ (0 ∷ []))) (take-copied 15 name)
    ∙ copied-terminated 15 name l

abbrev pub opened_as : ℕ → Bytes → Opened
opened_as fd name = record {
  descriptor = fd;
  file_name = bytes "tun-" ++ name;
  device = record { cached_name = name; closed = false };
}

-- `Open` cuts a name without an error: for any name without a zero byte, also one of more than 15
-- bytes, it returns a device that has the first 15 bytes of the name for its own. The calls of the
-- kernel go well, and `TUNSETIFF` takes the name of the request, as far as its field of 16 bytes has
-- it in front of the zero that ends it.
pub open_device_cuts_name :
    {K : Type 0} (h : Calls K) (name : Bytes) (fd : ℕ) (k opened : K)
    → Lacks 0 name
    → h.open_tun k ≡ (ok fd, opened)
    → (h.set_iff fd (request_name name) request_flags opened).0
      ≡ (zero_ended (request_name name), nil)
    → (h.set_nonblock fd (h.set_iff fd (request_name name) request_flags opened).1).0 ≡ nil
    → (open_device h name k).0 ≡ ok (opened_as fd (take 15 name))
unfolding open_device
open_device_cuts_name {K} h name fd k opened l opens takes unblocked =
    let asked = h.set_iff fd (request_name name) request_flags opened in
    let set = h.set_nonblock fd asked.1 in
    ap (λ (x : Result ℕ × K). (with_descriptor h name x).0) opens
    ∙ ap (λ (x : Bytes × Error). (with_request h name fd (x, asked.1)).0) takes
    ∙ ap
        (λ (e : Error).
          (with_nonblock h fd (null_terminated (zero_ended (request_name name))) (e, set.1)).0)
        unblocked
    ∙ ap (λ (t : Bytes). ok (opened_as fd t)) (zero_ended-name name l)
