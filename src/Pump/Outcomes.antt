-- ===== src/Pump/Outcomes.antt =====
-- What `Run` of internal/tunnel/session/pump_linux.go returns.
pub mod Turns
use unverified.Common.{
  either, ℕ, ◌≡◌, refl, ap, ◌∙◌, ◌⊎◌, inl, inr, Bool, true, false, ◌||◌, not, Option, none, some,
  List, [], ◌∷◌, if◌then◌else◌, leb, length, Bool-cases, arith,
}
use unverified.Common.Words.{Bytes}
use unverified.Errors.{
  Error, nil, pump_error, is_nil, is_error, tun_closed, transport_closed, eof, read_tun_failed,
  write_tun_failed, send_frame_failed, recv_frame_failed,
}
use unverified.TunnelPb.{Frame, Close}
use unverified.Pump.{
  wait_ends, both_returned, Runtime, Move, cancel, watch, up_starts, read_returns, send_returns,
  down_starts, receive_returns, write_returns, Up, up_top, reading, sending, up_returned, Down,
  down_top, receiving, writing, down_returned, turn, play, group_failure, start_up, reading_into,
  return_up, return_down, give_back, after_read, send_packet, send_tagged, log_read, after_send,
  start_down, after_receive, deliver, unless_close, after_write, fresh_runtime, log_receive,
}
use unverified.Pump.Taxonomy.{
  tag_of, read_failure, receive_failure, write_failure, send_failure, unknown_version, is_canceled,
}
use unverified.Pump.Buffers.{Buffer, get_buf}

-- An error of the pump: none, or one with a reason of its contract.
pub data IsOutcome : Error → Type 0 where
  graceful : IsOutcome nil
  failed_read : (op : Bytes) (e : Error) → IsOutcome (pump_error read_tun_failed op e)
  failed_write : (op : Bytes) (e : Error) → IsOutcome (pump_error write_tun_failed op e)
  failed_send : (op : Bytes) (e : Error) → IsOutcome (pump_error send_frame_failed op e)
  failed_receive : (op : Bytes) (e : Error) → IsOutcome (pump_error recv_frame_failed op e)

pub read_failure-IsOutcome : (e : Error) → IsOutcome (read_failure e)
unfolding read_failure
read_failure-IsOutcome e =
    either IsOutcome (is_error e tun_closed || is_canceled e) nil _ graceful (failed_read _ e)

pub send_failure-IsOutcome : (e : Error) → IsOutcome (send_failure e)
unfolding send_failure
send_failure-IsOutcome e =
    either IsOutcome (is_error e transport_closed || is_error e eof || is_canceled e) nil _ graceful
      (failed_send _ e)

pub receive_failure-IsOutcome : (e : Error) → IsOutcome (receive_failure e)
unfolding receive_failure
receive_failure-IsOutcome e =
    either IsOutcome (is_error e eof || is_error e transport_closed || is_canceled e) nil _ graceful
      (failed_receive _ e)

pub write_failure-IsOutcome : (e : Error) → IsOutcome (write_failure e)
unfolding write_failure
write_failure-IsOutcome e =
    either IsOutcome (is_error e tun_closed || is_canceled e) nil _ graceful (failed_write _ e)

pub unknown_version-IsOutcome : (x : ℕ) → IsOutcome (unknown_version x)
unfolding unknown_version
unknown_version-IsOutcome x = failed_send _ _

abbrev pub up_error : Up → Error
up_error (up_returned e) = e
up_error up = nil

abbrev pub down_error : Down → Error
down_error (down_returned e) = e
down_error down = nil

-- The error kept by the group, the context, and what the loops have returned.
pub record IsKept (failure : Error) (done : Bool) (up : Up) (down : Down) : Type 0 where
  pub outcome : IsOutcome failure
  pub ended : (is_nil failure ≡ true) ⊎ (done ≡ true)
  pub up_counted : (is_nil (up_error up) ≡ true) ⊎ (is_nil failure ≡ false)
  pub down_counted : (is_nil (down_error down) ≡ true) ⊎ (is_nil failure ≡ false)

abbrev pub Kept : Runtime → Type 0
Kept s = IsKept s.failure s.done s.up s.down

group-IsOutcome : (e f : Error) → IsOutcome e → IsOutcome f → IsOutcome (group_failure e f)
group-IsOutcome e f x y = either IsOutcome (is_nil f) e f x y

or-left : (b c : Bool) → b ≡ true → (b || c) ≡ true
or-left true c h = refl
or-left false c h = cc

group-ended :
    (e f : Error) (done : Bool)
    → (is_nil f ≡ true) ⊎ (done ≡ true)
    → (is_nil (group_failure e f) ≡ true) ⊎ ((done || not (is_nil e)) ≡ true)
group-ended e f done (inr h) = inr (or-left done _ h)
group-ended e f done (inl h) = ground arith

group-counted : (e f : Error) → (is_nil e ≡ true) ⊎ (is_nil (group_failure e f) ≡ false)
group-counted e f = elim (Bool-cases (is_nil f)) [
  | inr failed ↦ inr (ap is_nil (ap (λ (b : Bool). if b then e else f) failed) ∙ failed)
  | inl clean ↦ elim (Bool-cases (is_nil e)) [
    | inl none_new ↦ inl none_new
    | inr new_one ↦ inr (ap is_nil (ap (λ (b : Bool). if b then e else f) clean) ∙ new_one)
  ]
]

still-counted :
    {P : Type 0} (e f : Error) → P ⊎ (is_nil f ≡ false) → P ⊎ (is_nil (group_failure e f) ≡ false)
still-counted e f (inl x) = inl x
still-counted e f (inr failed) =
    inr (ap is_nil (ap (λ (b : Bool). if b then e else f) failed) ∙ failed)

pub return_up-IsKept : (e : Error) (s : Runtime) → IsOutcome e → Kept s → Kept (return_up e s)
return_up-IsKept e s x k = record {
  outcome = group-IsOutcome e s.failure x k.outcome;
  ended = group-ended e s.failure s.done k.ended;
  up_counted = group-counted e s.failure;
  down_counted = still-counted e s.failure k.down_counted;
}

pub return_down-IsKept : (e : Error) (s : Runtime) → IsOutcome e → Kept s → Kept (return_down e s)
return_down-IsKept e s x k = record {
  outcome = group-IsOutcome e s.failure x k.outcome;
  ended = group-ended e s.failure s.done k.ended;
  up_counted = still-counted e s.failure k.up_counted;
  down_counted = group-counted e s.failure;
}
