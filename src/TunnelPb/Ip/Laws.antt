-- ===== src/TunnelPb/Ip/Laws.antt =====
-- The forms that `To4` and `To16` give, and when `writeIP` and `writeIP16` succeed.
use unverified.Common.{
  ℕ, ◌≡◌, refl, ◌++◌, [], ◌∷◌, ◌<◌, ◌⊎◌, inl, inr, length, arith, All, All-append, All-drop, ◌==◌,
  true, false, Bool, Bool-cases, if◌then◌else◌, length-drop, ◌%◌, suc_test, pos_test, self_test,
  append_assoc,
}
use unverified.Common.Words.{Bytes, IsByte}
use unverified.Errors.{nil}
use unverified.Stream.{Writer, reliable, write}
use unverified.TunnelPb.Ip.{to4, to16, v4_in_v6_prefix, write_ip, write_ip16}
use unverified.TunnelPb.Wire.{address}

pub to16-form : (ip : Bytes) → (to16 ip ≡ []) ⊎ (length (to16 ip) ≡ 16)
unfolding to16
to16-form ip = ground arith

pub to4-form : (ip : Bytes) → (to4 ip ≡ []) ⊎ (length (to4 ip) ≡ 4)
unfolding to4
to4-form ip = ground (arith, length-drop 12 ip)

pub to16-IsByte : (ip : Bytes) → All IsByte ip → All IsByte (to16 ip)
unfolding to16
to16-IsByte ip h = elim (Bool-cases (length ip == 4)) [
  | inl four ↦ rw four (All-append IsByte v4_in_v6_prefix ip (omega arith) h)
  | inr other ↦ elim (Bool-cases (length ip == 16)) [
    | inl long ↦ rw (other, long) h
    | inr none ↦ rw (other, none) tt
  ]
]

if_IsByte : (c : Bool) (ip : Bytes) → All IsByte ip → All IsByte (if c then ip else [])
if_IsByte true ip h = h
if_IsByte false ip h = tt

pub to4-IsByte : (ip : Bytes) → All IsByte ip → All IsByte (to4 ip)
unfolding to4
to4-IsByte ip h = elim (Bool-cases (length ip == 4)) [
  | inl four ↦ rw four h
  | inr other ↦ rw other (if_IsByte _ _ (All-drop IsByte 12 ip h))
]

pub to16_id : (ip : Bytes) → length ip ≡ 16 → to16 ip ≡ ip
unfolding to16
to16_id ip h = rw h

pub to4_id : (ip : Bytes) → length ip ≡ 4 → to4 ip ≡ ip
unfolding to4
to4_id ip h = rw h

-- An address of the wanted length, or none, is written behind its length byte.
pub write_ip-address :
    (n : ℕ) (ip sent : Bytes)
    → 0 < n
    → n < 256
    → (ip ≡ []) ⊎ (length ip ≡ n)
    → write_ip ip n (reliable sent) ≡ (nil, reliable (sent ++ address ip))
unfolding write_ip write
write_ip-address n [] sent pos small h = refl
write_ip-address n (b ∷ ip) sent pos small (inl none) = cc
write_ip-address n (b ∷ ip) sent pos small (inr len) =
    rw (len, pos_test n pos, self_test n, byte n small, append_assoc sent (n ∷ []) (b ∷ ip))
  where
    byte : (k : ℕ) → k < 256 → k % 256 ≡ k
    byte k less = omega arith

pub write_ip16-address :
    (ip sent : Bytes)
    → (ip ≡ []) ⊎ (length (to16 ip) ≡ 16)
    → write_ip16 ip 16 (reliable sent) ≡ (nil, reliable (sent ++ address (to16 ip)))
unfolding write_ip16 write
write_ip16-address [] sent h = unfold to16 in refl
write_ip16-address (b ∷ ip) sent (inl none) = cc
write_ip16-address (b ∷ ip) sent (inr len) =
    rw (suc_test (length ip), len, append_assoc sent (16 ∷ []) (to16 (b ∷ ip)))

pub write_ip16-ok :
    (ip sent : Bytes) (w : Writer)
    → write_ip16 ip 16 (reliable sent) ≡ (nil, w)
    → (ip ≡ []) ⊎ (length (to16 ip) ≡ 16)
unfolding write_ip16
write_ip16-ok [] sent w h = inl refl
write_ip16-ok (b ∷ ip) sent w h = elim (to16-form (b ∷ ip)) [
  | inl none ↦ cc (rw (suc_test (length ip), none) at h)
  | inr long ↦ inr long
]
