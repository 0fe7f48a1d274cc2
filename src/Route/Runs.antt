-- ===== src/Route/Runs.antt =====
-- Runs of the link of internal/tunnel/route/link_linux.go, and its theorems at them.
use unverified.Common.{◌≡◌, refl, List, [], ◌∷◌}
use unverified.Common.Words.{Bytes}
use unverified.Common.Text.{Lacks}
use unverified.Errors.{Error, nil, new, exit_status, bytes, link_error, address_add_failed}
use unverified.Route.{exec_command_runner, Link, add_address, conflict}
use unverified.Route.Address.{Outcome, add_address-outcome, add_address_again}
use unverified.Route.Probe.{add_address_never_probes, failed_add}

-- A parser that takes every text but the empty one, and a kernel that is the list of its addresses:
-- to add one that it has is an error with the exit code 2.
abbrev parse : Bytes → Error
parse [] = new []
parse (b ∷ t) = nil

abbrev Kernel : Type 0
Kernel = List Bytes

abbrev ran : Kernel → (Bytes × Error) × Kernel
ran [] = (([], nil), (bytes "10.66.0.2/24" ∷ []))
ran (a ∷ as_before) = ((bytes "RTNETLINK answers: File exists", exit_status 2), a ∷ as_before)

abbrev process : Bytes → List Bytes → Kernel → (Bytes × Error) × Kernel
process name args k = ran k

abbrev link : Link Kernel
link = record {
  name = bytes "tun0";
  ip_path = bytes "/sbin/ip";
  executor = exec_command_runner process;
  assigned = [];
}

abbrev home : Bytes
home = bytes "10.66.0.2/24"

abbrev away : Bytes
away = bytes "10.66.0.3/24"

add_address-outcome_example : Outcome parse home link (add_address parse home link [])
add_address-outcome_example = add_address-outcome parse home link []

first_add : (add_address parse home link []).0 ≡ nil
unfolding add_address exec_command_runner bytes
first_add = refl

add_address_again_example :
    (add_address parse home (add_address parse home link []).1.0 []
      ≡ (nil, ((add_address parse home link []).1.0, [])))
    × (add_address parse away (add_address parse home link []).1.0 [] ≡ (
      conflict (add_address parse home link []).1.0 away,
      ((add_address parse home link []).1.0, []),
    ))
unfolding bytes
add_address_again_example = add_address_again parse home away link [] [] first_add refl refl refl

home-Lacks : Lacks 108 home
unfolding bytes
home-Lacks = (
  refl,
  (refl, (refl, (refl, (refl, (refl, (refl, (refl, (refl, (refl, (refl, (refl, tt))))))))))),
)

name-Lacks : Lacks 108 (bytes "tun0")
unfolding bytes
name-Lacks = (refl, (refl, (refl, (refl, tt))))

add_address_never_probes_example :
    add_address parse home link (home ∷ [])
    ≡ (link_error address_add_failed (failed_add home (bytes "tun0") 2), (link, home ∷ []))
unfolding bytes
add_address_never_probes_example =
    add_address_never_probes process parse home (bytes "tun0") (bytes "/sbin/ip")
      (bytes "RTNETLINK answers: File exists") 2 (home ∷ []) (home ∷ []) home-Lacks name-Lacks refl
      refl refl
