-- ===== src/Route/Probe.antt =====
-- The probe of `AddAddress` behind the production executor (internal/tunnel/route/link_linux.go).
use unverified.Common.{
  by_test, ℕ, zero, suc, ◌+◌, ◌/◌, ◌%◌, ◌<◌, ◌≡◌, refl, true, false, List, [], ◌∷◌, ◌++◌, ◌==◌,
  All-append, arith, ltb,
}
use unverified.Common.Words.{Bytes}
use unverified.Common.Text.{contains_lacking, has_byte, has_byte-Lacks, Lacks, join_spaced, is_same}
use unverified.Errors.{Error, wrap, exit_status, link_error, bytes, is_nil, address_add_failed}
use unverified.Errors.Text.{error_text, digits}
use unverified.Route.{exec_command_runner, add_address}

-- The byte of the letter l.
abbrev letter : ℕ
letter = 108

not_letter : (n : ℕ) → n < 60 → (n == letter) ≡ false
not_letter n h = ground arith

digits_lack : (fuel n : ℕ) → Lacks letter (digits fuel n)
unfolding digits
digits_lack zero n = tt
digits_lack (suc k) n =
    by_test (Lacks letter) (ltb n 10) _ _ (λ small. (not_letter (48 + n) (ground arith), tt))
      (λ _.
        All-append (λ (a : ℕ). (a == letter) ≡ false) (digits k (n / 10)) _ (digits_lack k (n / 10))
          (not_letter (48 + n % 10) (omega arith), tt))

and_then-Lacks : (s t : Bytes) → Lacks letter s → Lacks letter t → Lacks letter (s ++ t)
and_then-Lacks s t = All-append (λ (a : ℕ). (a == letter) ≡ false) s t

literal : (t : Bytes) → has_byte letter t ≡ false → Lacks letter t
literal = has_byte-Lacks letter

-- The arguments of `ip addr add`.
abbrev pub add_args : Bytes → Bytes → List Bytes
add_args cidr name = bytes "addr" ∷ bytes "add" ∷ cidr ∷ bytes "dev" ∷ name ∷ []

command-Lacks :
    (cidr name : Bytes)
    → Lacks letter cidr
    → Lacks letter name
    → Lacks letter (join_spaced (add_args cidr name))
unfolding bytes
command-Lacks cidr name c n =
    and_then-Lacks (bytes "addr add ") (cidr ++ (bytes " dev " ++ name))
      (literal (bytes "addr add ") refl)
      (and_then-Lacks cidr (bytes " dev " ++ name) c
        (and_then-Lacks (bytes " dev ") name (literal (bytes " dev ") refl) n))

-- The error of a failed `ip addr add`: the command line and the exit status.
abbrev pub failed_add : Bytes → Bytes → ℕ → Error
failed_add cidr name n =
    wrap (bytes "ip " ++ join_spaced (add_args cidr name) ++ bytes ": ") (exit_status n) []

failed_add-Lacks :
    (cidr name : Bytes) (n : ℕ)
    → Lacks letter cidr
    → Lacks letter name
    → Lacks letter (error_text (failed_add cidr name n))
unfolding error_text bytes
failed_add-Lacks cidr name n c d =
    and_then-Lacks (bytes "ip " ++ join_spaced (add_args cidr name) ++ bytes ": ")
      ((bytes "exit status " ++ digits 10 n) ++ [])
      (and_then-Lacks (bytes "ip " ++ join_spaced (add_args cidr name)) (bytes ": ")
        (and_then-Lacks (bytes "ip ") (join_spaced (add_args cidr name))
          (literal (bytes "ip ") refl) (command-Lacks cidr name c d))
        (literal (bytes ": ") refl))
      (and_then-Lacks (bytes "exit status " ++ digits 10 n) []
        (and_then-Lacks (bytes "exit status ") (digits 10 n) (literal (bytes "exit status ") refl)
          (digits_lack 10 n))
        tt)

-- With the production executor, an `ip addr add` that fails with an exit status is never followed by
-- the probe, whatever the binary has printed: the answer is `ReasonAddressAddFailed`, although the
-- interface may have this address already. The link records no address, and the letter l is neither
-- in the valid address nor in the interface's name.
pub add_address_never_probes :
    {K : Type 0} (process : Bytes → List Bytes → K → (Bytes × Error) × K)
    (parse_cidr : Bytes → Error) (cidr name ip_path output : Bytes) (n : ℕ) (k after : K)
    → Lacks letter cidr
    → Lacks letter name
    → is_nil (parse_cidr cidr) ≡ true
    → is_same [] cidr ≡ false
    → process ip_path (add_args cidr name) k ≡ ((output, exit_status n), after)
    → add_address parse_cidr cidr
        (record {
          name = name;
          ip_path = ip_path;
          executor = exec_command_runner process;
          assigned = [];
        })
        k
      ≡ (
        link_error address_add_failed (failed_add cidr name n),
        (
          record {
            name = name;
            ip_path = ip_path;
            executor = exec_command_runner process;
            assigned = [];
          },
          after,
        ),
      )
unfolding add_address exec_command_runner
add_address_never_probes process parse_cidr cidr name ip_path output n k after c d valid full ran =
    let unseen =
      contains_lacking letter (error_text (failed_add cidr name n)) (bytes "File exists")
        (failed_add-Lacks cidr name n c d) (unfold bytes in refl) in
    simp (valid, full, ran, unseen)
