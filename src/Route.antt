-- ===== src/Route.antt =====
-- internal/tunnel/route/link_linux.go and link_other.go: the address and the state of an interface
-- by the `ip` binary. `K` is what the binary acts on, the kernel's tables; `parse_cidr` is
-- `net.ParseCIDR`, by the error that it returns.
pub mod Address
pub mod Probe
pub mod Lines
pub mod Fields
pub mod Table
mod Runs
use unverified.Common.{
  ℕ, Bool, true, false, ◌||◌, not, Option, none, some, List, [], ◌∷◌, ◌++◌, if◌then◌else◌,
}
use unverified.Common.Words.{Bytes}
use unverified.Common.Text.{contains, has_suffix, split_lines, trim_space, join_spaced, is_same}
use unverified.Errors.{
  Error, nil, new, wrap, link_error, bytes, is_nil, cidr_invalid, link_up_failed, link_down_failed,
  address_already_assigned, address_add_failed, unsupported_platform,
}
use unverified.Errors.Text.{error_text}
use unverified.Stream.{Result, ok, fail}

-- `Executor`: the output and the error of a run of a binary.
pub record Executor (K : Type 0) : Type 0 where
  pub exec : Bytes → List Bytes → K → (Bytes × Error) × K

-- `execCommandRunner`, over the `cmd.Run` of `os/exec` with one buffer for both outputs.
abbrev pub wrap_run : {K : Type 0} → List Bytes → (Bytes × Error) × K → (Bytes × Error) × K
wrap_run args ((output, e), k) = (
  (output, if is_nil e then nil else wrap (bytes "ip " ++ join_spaced args ++ bytes ": ") e []),
  k,
)

unfoldable pub exec_command_runner :
    {K : Type 0} → (Bytes → List Bytes → K → (Bytes × Error) × K) → Executor K
exec_command_runner process = record { exec = λ name args k. wrap_run args (process name args k) }

-- `linuxLink`; `assigned` is "" when no address is recorded.
pub record Link (K : Type 0) : Type 0 where
  pub name : Bytes
  pub ip_path : Bytes
  pub executor : Executor K
  pub assigned : Bytes

pub record Options (K : Type 0) : Type 0 where
  pub ip_path : Bytes
  pub executor : Option (Executor K)

abbrev default_ip_path : Bytes
default_ip_path = bytes "/sbin/ip"

-- `Options.WithIPPath` and `Options.WithExecutor`.
abbrev with_ip_path : {K : Type 0} → Bytes → Options K → Options K
with_ip_path p opts = record opts { ip_path = p }

abbrev with_executor : {K : Type 0} → Executor K → Options K → Options K
with_executor x opts = record opts { executor = some x }

abbrev pub is_empty : Bytes → Bool
is_empty [] = true
is_empty (b ∷ t) = false

abbrev pub executor_or :
    {K : Type 0} → (Bytes → List Bytes → K → (Bytes × Error) × K) → Option (Executor K) → Executor K
executor_or process none = exec_command_runner process
executor_or process (some x) = x

-- `New`.
unfoldable pub new_link :
    {K : Type 0}
    → (Bytes → List Bytes → K → (Bytes × Error) × K)
    → Bytes
    → Options K
    → Result (Link K)
new_link process name opts =
    if is_empty name
    then fail (link_error cidr_invalid (new (bytes "link: empty interface name")))
    else ok (record {
      name = name;
      ip_path = if is_empty opts.ip_path then default_ip_path else opts.ip_path;
      executor = executor_or process opts.executor;
      assigned = [];
    })

-- What a method leaves: its error, the link and the kernel.
abbrev pub Answer : Type 0 → Type 0
Answer K = Error × (Link K × K)

abbrev pub after_up : {K : Type 0} → Link K → (Bytes × Error) × K → Answer K
after_up l ((output, e), k) = (if is_nil e then nil else link_error link_up_failed e, (l, k))

unfoldable pub up : {K : Type 0} → Link K → K → Answer K
up l k =
    after_up l (l.executor.exec l.ip_path (bytes "link" ∷ bytes "set" ∷ l.name ∷ bytes "up" ∷ []) k)

abbrev pub after_down : {K : Type 0} → Link K → (Bytes × Error) × K → Answer K
after_down l ((output, e), k) =
    if is_nil e
    then (nil, (record l { assigned = [] }, k))
    else (link_error link_down_failed e, (l, k))

unfoldable pub down : {K : Type 0} → Link K → K → Answer K
down l k =
    after_down l
      (l.executor.exec l.ip_path (bytes "link" ∷ bytes "set" ∷ l.name ∷ bytes "down" ∷ []) k)

-- A line of `ip -o addr show` that has the address as a word.
abbrev pub line_has : Bytes → Bytes → Bool
line_has cidr line =
    contains line (bytes " " ++ cidr ++ bytes " ")
    || has_suffix (trim_space line) (bytes " " ++ cidr)

abbrev pub any_line : Bytes → List Bytes → Bool
any_line cidr [] = false
any_line cidr (l ∷ ls) = line_has cidr l || any_line cidr ls

unfoldable pub contains_cidr : Bytes → Bytes → Bool
contains_cidr output cidr = any_line cidr (split_lines output)

-- `AddAddress`, from the answer of the probe.
abbrev pub after_probe : {K : Type 0} → Link K → Bytes → Error → (Bytes × Error) × K → Answer K
after_probe l cidr add_error ((current, e), k) =
    if not (is_nil e)
    then (link_error address_add_failed add_error, (l, k))
    else if contains_cidr current cidr
    then (nil, (record l { assigned = cidr }, k))
    else (link_error address_already_assigned add_error, (l, k))

-- From the answer of `ip addr add`.
abbrev pub after_add : {K : Type 0} → Link K → Bytes → (Bytes × Error) × K → Answer K
after_add l cidr ((output, e), k) =
    if is_nil e
    then (nil, (record l { assigned = cidr }, k))
    else if not (contains (error_text e) (bytes "File exists"))
    then (link_error address_add_failed e, (l, k))
    else after_probe l cidr e (
        l.executor.exec l.ip_path
          (bytes "-o" ∷ bytes "addr" ∷ bytes "show" ∷ bytes "dev" ∷ l.name ∷ []) k)

abbrev pub conflict : {K : Type 0} → Link K → Bytes → Error
conflict l cidr = link_error address_already_assigned (
    new (
      bytes "link: "
      ++ l.name
      ++ bytes " already has CIDR "
      ++ l.assigned
      ++ bytes "; refusing to assign "
      ++ cidr))

-- `%q` of the address in the error's text is the address between quotes.
unfoldable pub add_address : {K : Type 0} → (Bytes → Error) → Bytes → Link K → K → Answer K
add_address parse_cidr cidr l k =
    if not (is_nil (parse_cidr cidr))
    then (
      link_error cidr_invalid
          (wrap (bytes "link: parse CIDR \"" ++ cidr ++ bytes "\": ") (parse_cidr cidr) []),
      (l, k),
    )
    else if is_same l.assigned cidr
    then (nil, (l, k))
    else if not (is_empty l.assigned)
    then (conflict l cidr, (l, k))
    else after_add l cidr (
        l.executor.exec l.ip_path (bytes "addr" ∷ bytes "add" ∷ cidr ∷ bytes "dev" ∷ l.name ∷ []) k)

-- `New` on a platform that is not Linux, which it names.
unfoldable pub new_other : Bytes → Error
new_other goos = link_error unsupported_platform (
    new (
      bytes "route: iproute2 is Linux-only (GOOS="
      ++ goos
      ++ bytes "); see docs/ARCH.md "
      ++ (0xc2 ∷ 0xa7 ∷ bytes "1")))
