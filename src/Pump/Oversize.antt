-- ===== src/Pump/Oversize.antt =====
-- `getBuf` of internal/tunnel/session/pump_linux.go for a packet that is longer than the buffers.
use unverified.Common.{
  ℕ, ◌≡◌, sym, ap, ◌∙◌, Bool, true, false, Option, some, [], ◌∷◌, if◌then◌else◌, length, take, ltb,
  le→leb, le→ltb, arith,
}
use unverified.Common.Words.{Bytes}
use unverified.Errors.{Error, nil}
use unverified.Pump.{
  Runtime, up_starts, read_returns, receive_returns, write_returns, Traffic, log_read, log_receive,
  up_top, receiving, turn, play, packet_frame, copy_packet, reading_into, send_tagged,
}
use unverified.Pump.Taxonomy.{tag_of}
use unverified.Pump.Buffers.{Buffer, Pool, make, reallocated, pool_get, get_buf}
use unverified.Pump.Transfer.{filled_same}

-- A buffer that is too small is dropped, and the new one is both returned and put in the pool.
pub get_buf_shares :
    (pick want : ℕ) (p : Pool)
    → ltb (pool_get pick p).0.cap want ≡ true
    → get_buf pick want p ≡ reallocated (make want (pool_get pick p).1)
unfolding get_buf
get_buf_shares pick want p h =
    let x = pool_get pick p in ap (λ (c : Bool). if c then reallocated (make want x.1) else x) h

-- Both loops at a point where they have no buffer.
abbrev pub idle_runtime : Error → Pool → (ℕ → Bytes) → Traffic → Runtime
idle_runtime failure p memory traffic = record {
  done = false;
  failure = failure;
  watched = false;
  pool = p;
  memory = memory;
  up = up_top;
  down = receiving;
  traffic = traffic;
}

module _ (failure : Error) (p : Pool) (memory : ℕ → Bytes) (traffic : Traffic) (pick tag x t : ℕ)
    (packet rest : Bytes) (small : ltb (pool_get pick p).0.cap (length packet) ≡ true)
    (same : length (x ∷ rest) ≡ length packet) (known : tag_of x ≡ some t) where
  abbrev got : Buffer × Pool
  got = make (length packet) (pool_get pick p).1

  abbrev received : Runtime
  received =
      copy_packet packet (reallocated got)
        (log_receive (packet_frame tag packet) (idle_runtime failure p memory traffic))

  receive_shares :
      turn
        (receive_returns pick (some (packet_frame tag packet)) nil)
        (idle_runtime failure p memory traffic)
      ≡ received
  unfolding turn
  receive_shares =
      ap
        (λ (y : Buffer × Pool).
          copy_packet packet y
            (log_receive (packet_frame tag packet) (idle_runtime failure p memory traffic)))
        (get_buf_shares pick (length packet) p small)

  start_shares : turn (up_starts 0) received ≡ reading_into got received
  unfolding turn get_buf pool_get
  start_shares =
      ap (λ (c : Bool). reading_into (if c then reallocated (make 0 got.1) else got) received)
        (le→ltb (length packet) 0 (omega arith))

  abbrev overwritten : Runtime
  overwritten =
      send_tagged (some t) x (x ∷ rest) got.0 (log_read (x ∷ rest) (reading_into got received))

  read_shares : turn (read_returns (x ∷ rest) nil) (reading_into got received) ≡ overwritten
  unfolding turn
  read_shares =
      ap
        (λ (c : Bool).
          if c
          then send_tagged (tag_of x) x (x ∷ rest) got.0
              (log_read (x ∷ rest) (reading_into got received))
          else reading_into got received)
        (le→leb (length (x ∷ rest)) (length packet) (omega arith))
      ∙ ap
          (λ (k : Option ℕ).
            send_tagged k x (x ∷ rest) got.0 (log_read (x ∷ rest) (reading_into got received)))
          known

  -- A packet of the peer that is longer than the buffer which `getBuf` finds may be replaced by one
  -- that the device delivers meanwhile: both loops have the same buffer, and `Write` gets the
  -- device's own packet instead of the peer's.
  pub oversized_packet_overwritten :
      (play
        (receive_returns pick (some (packet_frame tag packet)) nil
          ∷ up_starts 0
          ∷ read_returns (x ∷ rest) nil
          ∷ write_returns nil
          ∷ [])
        (idle_runtime failure p memory traffic)).traffic.written
      ≡ (x ∷ rest) ∷ traffic.written
  unfolding play turn
  oversized_packet_overwritten =
      ap
        (λ (s : Runtime).
          (play (up_starts 0 ∷ read_returns (x ∷ rest) nil ∷ write_returns nil ∷ [])
            s).traffic.written)
        receive_shares
      ∙ ap
          (λ (s : Runtime).
            (play (read_returns (x ∷ rest) nil ∷ write_returns nil ∷ []) s).traffic.written)
          start_shares
      ∙ ap (λ (s : Runtime). (play (write_returns nil ∷ []) s).traffic.written) read_shares
      ∙ ap (λ (n : ℕ). take n (overwritten.memory got.0.id) ∷ traffic.written) (sym same)
      ∙ ap (λ (q : Bytes). q ∷ traffic.written) (filled_same got.0.id (x ∷ rest) received.memory)
