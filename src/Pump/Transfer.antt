-- ===== src/Pump/Transfer.antt =====
-- What the pump has carried between its two interfaces
-- (internal/tunnel/session/pump_linux.go).
pub mod Turns
use unverified.Common.{
  either, ℕ, zero, suc, ◌+◌, ◌≤◌, ◌≡◌, refl, sym, ap, ◌∙◌, ◌⊎◌, inl, inr, Bool, true, false, Option,
  none, some, List, [], ◌∷◌, ◌++◌, if◌then◌else◌, leb, ◌==◌, self_test, length, take, drop,
  take-append, All, arith, Bool-cases,
}
use mathlib.Core.Path.{subst}
use unverified.Common.Words.{Bytes}
use unverified.Errors.{Error, nil, is_nil}
use unverified.TunnelPb.{Frame, Close}
use unverified.Pump.{
  Runtime, Move, cancel, watch, up_starts, read_returns, send_returns, down_starts, receive_returns,
  write_returns, Traffic, Up, up_top, reading, sending, up_returned, Down, down_top, receiving,
  writing, down_returned, turn, play, filled, packet_frame, start_up, reading_into, return_up,
  return_down, give_back, after_read, send_packet, send_tagged, log_read, after_send,
  sent_or_failed, start_down, after_receive, deliver, unless_close, write_payload, copy_packet,
  after_write, written_or_failed, fresh_runtime, log_receive,
}
use unverified.Pump.Taxonomy.{tag_of, read_failure, receive_failure, write_failure, send_failure}
use unverified.Pump.Buffers.{Buffer, Pool, get_buf}
use unverified.Pump.Exclusive.{IsExclusive, Exclusive, IsFitting, hit, down_has, up_has}
use unverified.Pump.Exclusive.Turns.{turn-Exclusive}

-- The frames that a list of packets calls for: one per IPv4 or IPv6 packet, under its version.
abbrev pub framed_as : Option ℕ → Bytes → List Frame
framed_as none packet = []
framed_as (some tag) packet = packet_frame tag packet ∷ []

abbrev pub framed : Bytes → List Frame
framed [] = []
framed (x ∷ xs) = framed_as (tag_of x) (x ∷ xs)

abbrev pub frames_for : List Bytes → List Frame
frames_for [] = []
frames_for (p ∷ ps) = framed p ++ frames_for ps

-- The packets that a list of frames brings: a frame with a `Close` record, or without a packet,
-- brings none.
abbrev pub brought : Option Close → Option Bytes → List Bytes
brought (some c) packet = []
brought none none = []
brought none (some packet) = packet ∷ []

abbrev pub payloads : List Frame → List Bytes
payloads [] = []
payloads (f ∷ fs) = brought f.close f.packet ++ payloads fs

-- What a call in progress is about to hand over, read from its buffer.
abbrev pub pending_up : Up → (ℕ → Bytes) → List Frame
pending_up (sending b n tag) memory = packet_frame tag (take n (memory b.id)) ∷ []
pending_up up memory = []

abbrev pub pending_down : Down → (ℕ → Bytes) → List Bytes
pending_down (writing b n) memory = take n (memory b.id) ∷ []
pending_down down memory = []

pub record IsCarried (up : Up) (down : Down) (memory : ℕ → Bytes) (traffic : Traffic) : Type 0 where
  pub upwards : pending_up up memory ++ traffic.sent ≡ frames_for traffic.read
  pub downwards : pending_down down memory ++ traffic.written ≡ payloads traffic.received

abbrev pub Carried : Runtime → Type 0
Carried s = IsCarried s.up s.down s.memory s.traffic

pub filled_same :
    (i : ℕ) (bs : Bytes) (memory : ℕ → Bytes) → take (length bs) (filled i bs memory i) ≡ bs
filled_same i bs memory = rw (self_test i) (take-append bs (drop (length bs) (memory i)))

hit_other : (b c : Buffer) → hit c b.id ≡ 0 → (b.id == c.id) ≡ false
hit_other b c h = ground arith

pub pending_up-filled :
    (b : Buffer) (u : Up) (bs : Bytes) (memory : ℕ → Bytes)
    → up_has u b.id ≡ 0
    → pending_up u (filled b.id bs memory) ≡ pending_up u memory
pending_up-filled b up_top bs memory h = refl
pending_up-filled b (reading c) bs memory h = refl
pending_up-filled b (up_returned e) bs memory h = refl
pending_up-filled b (sending c n tag) bs memory h = rw (hit_other b c h)

pub pending_down-filled :
    (b : Buffer) (d : Down) (bs : Bytes) (memory : ℕ → Bytes)
    → down_has d b.id ≡ 0
    → pending_down d (filled b.id bs memory) ≡ pending_down d memory
pending_down-filled b down_top bs memory h = refl
pending_down-filled b receiving bs memory h = refl
pending_down-filled b (down_returned e) bs memory h = refl
pending_down-filled b (writing c n) bs memory h = rw (hit_other b c h)

hit_self : (b : Buffer) → hit b b.id ≡ 1
hit_self b = rw (self_test b.id)

-- The other loop has no buffer of this number.
pub down_apart :
    (size : ℕ) (b : Buffer) (s : Runtime)
    → IsExclusive size (reading b) s.down s.pool
    → down_has s.down b.id ≡ 0
down_apart size b s x = let y = x.shared.once b.id in let z = hit_self b in omega arith

pub up_apart :
    (size n : ℕ) (b : Buffer) (s : Runtime)
    → s.down ≡ writing b n
    → Exclusive size s
    → up_has s.up b.id ≡ 0
up_apart size n b s e x =
    let y = x.shared.once b.id in
    let z : down_has s.down b.id ≡ 1 = ap (λ (d : Down). down_has d b.id) e ∙ hit_self b in
    omega arith

pub take_all : (n : ℕ) (bs : Bytes) → length bs ≤ n → take n bs ≡ bs
take_all zero [] h = refl
take_all zero (b ∷ bs) h = absurd (omega arith)
take_all (suc n) [] h = refl
take_all (suc n) (b ∷ bs) h = ap (λ (cs : Bytes). b ∷ cs) (take_all n bs (omega arith))

pub at_up : (s : Runtime) (u : Up) → s.up ≡ u → Carried s → IsCarried u s.down s.memory s.traffic
at_up s u e c = subst (λ (v : Up). IsCarried v s.down s.memory s.traffic) e c

pub at_down :
    (s : Runtime) (d : Down) → s.down ≡ d → Carried s → IsCarried s.up d s.memory s.traffic
at_down s d e c = subst (λ (v : Down). IsCarried s.up v s.memory s.traffic) e c
