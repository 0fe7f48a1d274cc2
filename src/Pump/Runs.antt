-- ===== src/Pump/Runs.antt =====
-- Runs of the pump of internal/tunnel/session/pump_linux.go, and its theorems at them.
use unverified.Common.{
  ℕ, ◌≡◌, refl, ◌+◌, Bool, true, false, Option, none, some, List, [], ◌∷◌, ◌++◌, arith, All,
}
use unverified.Common.Words.{Bytes}
use unverified.Errors.{
  Error, nil, sentinel, eof, tun_closed, new, pump_error, bytes, read_tun_failed, is_nil,
}
use unverified.Pump.{
  Runtime, Move, cancel, watch, up_starts, read_returns, send_returns, down_starts, receive_returns,
  write_returns, Traffic, packet_frame, reading, receiving, turn, play, wait, start, running,
  fresh_runtime, new_pump,
}
use unverified.Pump.Taxonomy.{tag_of}
use unverified.Pump.Buffers.{Pool, Buffer, new_buffer_pool, pool_get, get_buf, put_buf}
use unverified.Pump.Exclusive.{Exclusive, IsFitting}
use unverified.Pump.Exclusive.Turns.{play-Exclusive, fresh-Exclusive}
use unverified.Pump.Transfer.{Carried}
use unverified.Pump.Transfer.Turns.{run_carries}
use unverified.Pump.Outcomes.{Kept}
use unverified.Pump.Outcomes.Turns.{run_outcome}
use unverified.Pump.Shutdown.{up_ends, down_ends, shutdown_returns}
use unverified.Pump.Stall.{IsPeerEnd, IsStalled, peer_end_stalls}
use unverified.Pump.Oversize.{idle_runtime, oversized_packet_overwritten}

-- The default overhead, over the MTU of the device.
default_start :
    start (new_pump (record { buffer_overhead = 0 })) (some (1500, nil)) true
    ≡ running (fresh_runtime 1532)
unfolding start new_pump
default_start = refl

abbrev packet : Bytes
packet = 0x45 ∷ 1 ∷ 2 ∷ []

-- A packet up and a packet down, interleaved.
abbrev busy : List Move
busy =
    up_starts 0
    ∷ down_starts
    ∷ read_returns packet nil
    ∷ receive_returns 0 (some (packet_frame 4 (0x45 ∷ 9 ∷ []))) nil
    ∷ send_returns nil
    ∷ up_starts 0
    ∷ write_returns nil
    ∷ []

busy_fits : All (IsFitting 1532) busy
busy_fits = (tt, (tt, (tt, (omega arith, (tt, (tt, (tt, tt)))))))

run_carries_example : Carried (play busy (fresh_runtime 1532))
unfolding new_buffer_pool
run_carries_example = run_carries 1532 busy busy_fits

-- Both packets have arrived.
busy_traffic : (play busy (fresh_runtime 1532)).traffic ≡ record {
  read = packet ∷ [];
  sent = packet_frame 4 packet ∷ [];
  received = packet_frame 4 (0x45 ∷ 9 ∷ []) ∷ [];
  written = (0x45 ∷ 9 ∷ []) ∷ [];
}
unfolding play turn new_buffer_pool get_buf pool_get put_buf tag_of
busy_traffic = refl

fresh_start : Exclusive 1532 (fresh_runtime 1532)
unfolding new_buffer_pool
fresh_start = fresh-Exclusive 1532

play-Exclusive_example : Exclusive 1532 (play busy (fresh_runtime 1532))
play-Exclusive_example = play-Exclusive 1532 busy (fresh_runtime 1532) busy_fits fresh_start

run_outcome_example : Kept (play (up_starts 0 ∷ read_returns [] (new []) ∷ []) (fresh_runtime 1532))
run_outcome_example = run_outcome 1532 (up_starts 0 ∷ read_returns [] (new []) ∷ [])

-- A canceled run with a packet in the hands of `SendFrame`.
abbrev canceled_run : Runtime
canceled_run =
    play (up_starts 0 ∷ read_returns packet nil ∷ down_starts ∷ cancel ∷ []) (fresh_runtime 1532)

canceled_done : canceled_run.done ≡ true
unfolding play turn
canceled_done = refl

shutdown_returns_example :
    wait (play (watch ∷ up_ends ++ down_ends) canceled_run) ≡ some canceled_run.failure
shutdown_returns_example = shutdown_returns canceled_run canceled_done

-- The device is silent, and the loop downwards receives.
abbrev before_peer_end : Runtime
before_peer_end = play (up_starts 0 ∷ down_starts ∷ []) (fresh_runtime 1532)

abbrev first_buffer : Buffer
first_buffer = record { id = 0; cap = 1532 }

before_peer_end-waits :
    (before_peer_end.done ≡ false)
    × (before_peer_end.up ≡ reading first_buffer)
    × (before_peer_end.down ≡ receiving)
unfolding play turn new_buffer_pool get_buf pool_get
before_peer_end-waits = (refl, refl, refl)

eof-IsPeerEnd : IsPeerEnd none (sentinel eof)
unfolding unverified.Errors.is_error
eof-IsPeerEnd = refl

abbrev quiet_moves : List Move
quiet_moves = watch ∷ down_starts ∷ up_starts 0 ∷ []

peer_end_stalls_example :
    IsStalled first_buffer (turn (receive_returns 0 none (sentinel eof)) before_peer_end)
    × (play quiet_moves (turn (receive_returns 0 none (sentinel eof)) before_peer_end)
        ≡ turn (receive_returns 0 none (sentinel eof)) before_peer_end)
    × (wait (play quiet_moves (turn (receive_returns 0 none (sentinel eof)) before_peer_end))
        ≡ none)
peer_end_stalls_example =
    peer_end_stalls quiet_moves 0 first_buffer before_peer_end none (sentinel eof)
      before_peer_end-waits.0 before_peer_end-waits.1 before_peer_end-waits.2 eof-IsPeerEnd
      (tt, (tt, (tt, tt)))

abbrev small_pool : Pool
small_pool = record { slice_size = 2; free = []; fresh = 0 }

abbrev no_traffic : Traffic
no_traffic = record { read = []; sent = []; received = []; written = [] }

small_get : (unverified.Common.ltb (pool_get 0 small_pool).0.cap 3) ≡ true
unfolding pool_get
small_get = refl

version_four : tag_of 0x45 ≡ some 4
unfolding tag_of
version_four = refl

oversized_packet_overwritten_example :
    (play
      (receive_returns 0 (some (packet_frame 4 (0x46 ∷ 7 ∷ 8 ∷ []))) nil
        ∷ up_starts 0
        ∷ read_returns packet nil
        ∷ write_returns nil
        ∷ [])
      (idle_runtime nil small_pool (λ _. []) no_traffic)).traffic.written
    ≡ packet ∷ []
oversized_packet_overwritten_example =
    oversized_packet_overwritten nil small_pool (λ _. []) no_traffic 0 4 0x45 4 (0x46 ∷ 7 ∷ 8 ∷ [])
      (1 ∷ 2 ∷ []) small_get refl version_four
