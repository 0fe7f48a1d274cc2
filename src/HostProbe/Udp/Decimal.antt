-- ===== src/HostProbe/Udp/Decimal.antt =====
-- What `UDPBufRmemMax` of internal/hostprobe/udpbuf_linux.go makes of a text.
use unverified.Common.{
  by_test, ℕ, zero, suc, ◌+◌, ◌*◌, ◌-◌, ◌/◌, ◌%◌, ◌<◌, ◌≤◌, ◌≡◌, ◌↔◌, refl, ap, sym, ◌∙◌, inl, inr,
  Bool, true, false, [], ◌∷◌, ◌++◌, if◌then◌else◌, ltb, leb, All, All-append, arith, Bool-cases,
  lt→leb, ltb→le, le→ltb,
}
use mathlib.Core.Path.{subst}
use unverified.Common.Words.{Bytes}
use unverified.Common.Text.{keep_first, trim_space, trim_left, trim_right, is_space}
use unverified.Errors.{new, bytes}
use unverified.Errors.Text.{digits}
use unverified.Stream.{Result, ok, fail}
use unverified.HostProbe.{udp_buf_unreadable, found, refused}
use unverified.HostProbe.Udp.{
  rmem_path, parse_digits, parse_uint, is_digit, is_empty, UdpBufReport, report_of, report_raw,
  udp_buf_rmem_max, max_uint64, recommended_rmem_max, cutoff,
}

-- The number that a text of digits stands for, read behind the number n.
abbrev pub value_from : ℕ → Bytes → ℕ
value_from n [] = n
value_from n (c ∷ cs) = value_from (n * 10 + (c - 48)) cs

abbrev pub AreDigits : Bytes → Type 0
AreDigits cs = All (λ (c : ℕ). is_digit c ≡ true) cs

value_grows : (n : ℕ) (cs : Bytes) → n ≤ value_from n cs
value_grows n [] = omega arith
value_grows n (c ∷ cs) = omega (arith, value_grows (n * 10 + (c - 48)) cs)

parse_digits-value :
    (raw : Bytes) (n : ℕ) (cs : Bytes)
    → AreDigits cs
    → value_from n cs ≤ max_uint64
    → parse_digits raw n cs ≡ ok (value_from n cs)
parse_digits-value raw n [] d small = refl
parse_digits-value raw n (c ∷ cs) (d, ds) small =
    let grows = value_grows (n * 10 + (c - 48)) cs in
    rw (d, lt→leb n cutoff (omega arith), le→ltb max_uint64 (n * 10 + (c - 48)) (omega arith))
      (parse_digits-value raw (n * 10 + (c - 48)) cs ds small)

parse_digits-ok :
    (raw : Bytes) (n m : ℕ) (cs : Bytes)
    → n ≤ max_uint64
    → parse_digits raw n cs ≡ ok m
    → AreDigits cs × (value_from n cs ≡ m) × (m ≤ max_uint64)
parse_digits-ok raw n m [] small h =
    let e : n ≡ m = cc in (tt, e, subst (λ (k : ℕ). k ≤ max_uint64) e small)
parse_digits-ok raw n m (c ∷ cs) small h = elim (Bool-cases (is_digit c)) [
  | inr bad ↦ cc (rw bad at h)
  | inl d ↦ elim (Bool-cases (leb cutoff n)) [
    | inl big ↦ cc (rw (d, big) at h)
    | inr low ↦ elim (Bool-cases (ltb max_uint64 (n * 10 + (c - 48)))) [
      | inl over ↦ cc (rw (d, low, over) at h)
      | inr fits ↦
          let (ds, v, b) =
            parse_digits-ok raw (n * 10 + (c - 48)) m cs
              (ltb→le max_uint64 (n * 10 + (c - 48)) fits) (rw (d, low, fits) at h) in
          ((d, ds), v, b)
    ]
  ]
]

-- `ParseUint` accepts exactly the texts of digits of the numbers below 2 ^ 64, and gives the number.
parse_uint_iff :
    (raw : Bytes) (m : ℕ)
    → (parse_uint raw ≡ ok m)
      ↔ ((is_empty raw ≡ false) × AreDigits raw × (value_from 0 raw ≡ m) × (m ≤ max_uint64))
unfolding parse_uint
parse_uint_iff [] m = (λ h. cc, λ h. cc (h.0))
parse_uint_iff (c ∷ cs) m = (
  λ h. let (d, v, b) = parse_digits-ok (c ∷ cs) 0 m (c ∷ cs) (omega arith) h in (refl, d, v, b),
  λ h.
      parse_digits-value (c ∷ cs) 0 (c ∷ cs) h.1 (subst (λ (k : ℕ). k ≤ max_uint64) (sym h.2) h.3)
      ∙ ap ok h.2,
)

-- A report and the text of the file.
pub record IsReport (text : Bytes) (r : UdpBufReport) : Type 0 where
  pub not_empty : is_empty (trim_space text) ≡ false
  pub all_digits : AreDigits (trim_space text)
  pub exact : r.val ≡ value_from 0 (trim_space text)
  pub bounded : r.val ≤ max_uint64
  pub recommended : r.meets_recommendation ≡ leb recommended_rmem_max r.val

report_of-ok :
    (x : Result ℕ) (r : UdpBufReport)
    → report_of x ≡ found r
    → (x ≡ ok r.val) × (r.meets_recommendation ≡ leb recommended_rmem_max r.val)
report_of-ok (ok val) r h =
    let made : UdpBufReport = record {
      val = val;
      meets_recommendation = leb recommended_rmem_max val;
    } in
    let e : made ≡ r = cc in
    (
      ap (λ (q : UdpBufReport). ok q.val) e,
      subst (λ (q : UdpBufReport). q.meets_recommendation ≡ leb recommended_rmem_max q.val) e refl,
    )
report_of-ok (fail e) r h = cc

report_raw-ok :
    (raw : Bytes) (r : UdpBufReport)
    → report_raw raw ≡ found r
    → (parse_uint raw ≡ ok r.val) × (r.meets_recommendation ≡ leb recommended_rmem_max r.val)
report_raw-ok [] r h = cc
report_raw-ok (c ∷ cs) r h = report_of-ok (parse_uint (c ∷ cs)) r h

-- Whatever the file holds: a report has the number that stands there as plain decimal digits between
-- blanks, it is below 2 ^ 64, and the flag compares it with the recommendation.
pub udp_buf-IsReport :
    (text : Bytes) (r : UdpBufReport) → udp_buf_rmem_max (ok text) ≡ found r → IsReport text r
unfolding udp_buf_rmem_max
udp_buf-IsReport text r h =
    let (parsed, flag) = report_raw-ok (trim_space text) r h in
    let (filled, d, v, b) = (parse_uint_iff (trim_space text) r.val).0 parsed in
    record { not_empty = filled; all_digits = d; exact = sym v; bounded = b; recommended = flag }

-- The other way: the text that the kernel writes for a number, its digits and a line end.
value_from-append :
    (n : ℕ) (xs ys : Bytes) → value_from n (xs ++ ys) ≡ value_from (value_from n xs) ys
value_from-append n [] ys = refl
value_from-append n (c ∷ xs) ys = value_from-append (n * 10 + (c - 48)) xs ys

digit-IsDigit : (n : ℕ) → n < 10 → is_digit (48 + n) ≡ true
digit-IsDigit n h = ground arith

digits-AreDigits : (k n : ℕ) → AreDigits (digits k n)
unfolding digits
digits-AreDigits zero n = tt
digits-AreDigits (suc k) n =
    by_test AreDigits (ltb n 10) ((48 + n) ∷ []) (digits k (n / 10) ++ ((48 + n % 10) ∷ []))
      (λ small. (digit-IsDigit n (ground arith), tt))
      (λ _.
        All-append (λ (c : ℕ). is_digit c ≡ true) (digits k (n / 10)) _
          (digits-AreDigits k (n / 10)) (digit-IsDigit (n % 10) (omega arith), tt))

abbrev pub ten_to : ℕ → ℕ
ten_to zero = 1
ten_to (suc k) = 10 * ten_to k

value_from-digits : (k n : ℕ) → n < ten_to k → value_from 0 (digits k n) ≡ n
unfolding digits
value_from-digits zero n h = omega arith
value_from-digits (suc k) n h =
    by_test (λ (cs : Bytes). value_from 0 cs ≡ n) (ltb n 10) ((48 + n) ∷ [])
      (digits k (n / 10) ++ ((48 + n % 10) ∷ [])) (λ small. omega arith)
      (λ _.
        value_from-append 0 (digits k (n / 10)) ((48 + n % 10) ∷ [])
        ∙ (let front = value_from-digits k (n / 10) (omega arith) in omega arith))

digits-filled : (k n : ℕ) → is_empty (digits (suc k) n) ≡ false
unfolding digits
digits-filled k n =
    by_test (λ (cs : Bytes). is_empty cs ≡ false) (ltb n 10) ((48 + n) ∷ [])
      (digits k (n / 10) ++ ((48 + n % 10) ∷ [])) (λ _. refl)
      (λ _. append_filled (digits k (n / 10)))
  where
    append_filled : (cs : Bytes) → is_empty (cs ++ ((48 + n % 10) ∷ [])) ≡ false
    append_filled [] = refl
    append_filled (c ∷ cs) = refl

digit-not_space : (c : ℕ) → is_digit c ≡ true → is_space c ≡ false
digit-not_space c h = ground arith

keep_digit : (c : ℕ) (cs : Bytes) → is_digit c ≡ true → keep_first c cs ≡ c ∷ cs
keep_digit c [] d = ap (λ (b : Bool). if b then [] else c ∷ []) (digit-not_space c d)
keep_digit c (e ∷ cs) d = refl

trim_right-line : (cs : Bytes) → AreDigits cs → trim_right (cs ++ (10 ∷ [])) ≡ cs
trim_right-line [] d = refl
trim_right-line (c ∷ cs) (d, ds) = ap (keep_first c) (trim_right-line cs ds) ∙ keep_digit c cs d

trim_space-line : (cs : Bytes) → AreDigits cs → trim_space (cs ++ (10 ∷ [])) ≡ cs
trim_space-line [] d = refl
trim_space-line (c ∷ cs) (d, ds) =
    ap (λ (b : Bool). trim_right (if b then trim_left (cs ++ (10 ∷ [])) else c ∷ (cs ++ (10 ∷ []))))
      (digit-not_space c d)
    ∙ trim_right-line (c ∷ cs) (d, ds)

-- The file as the kernel writes it, a number below 2 ^ 64 in decimal digits and a line end, is
-- reported as that number.
pub udp_buf-digits :
    (n : ℕ)
    → n ≤ max_uint64
    → udp_buf_rmem_max (ok (digits 20 n ++ (10 ∷ [])))
      ≡ found (record { val = n; meets_recommendation = leb recommended_rmem_max n })
unfolding udp_buf_rmem_max
udp_buf-digits n h =
    let d = digits-AreDigits 20 n in
    let v = value_from-digits 20 n (omega arith) in
    let parsed = (parse_uint_iff (digits 20 n) n).1 (digits-filled 19 n, d, v, h) in
    ap report_raw (trim_space-line (digits 20 n) d)
    ∙ ap
        (λ (b : Bool).
          if b
          then refused (udp_buf_unreadable rmem_path (new (bytes "empty file")))
          else report_of (parse_uint (digits 20 n)))
        (digits-filled 19 n)
    ∙ ap report_of parsed
