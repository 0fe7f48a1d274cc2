-- ===== src/Pump/Shutdown.antt =====
-- How the loops of internal/tunnel/session/pump_linux.go end.
use unverified.Common.{
  ◌≡◌, refl, sym, ap, ◌∙◌, Bool, true, false, ◌||◌, none, some, List, [], ◌∷◌, ◌++◌, if◌then◌else◌,
  arith, le→leb,
}
use mathlib.Core.Path.{subst}
use unverified.Errors.{
  Error, nil, sentinel, is_error, tun_closed, transport_closed, new, exit_status, wrap, pump_error,
  link_error, preflight_error,
}
use unverified.Pump.{
  Runtime, Move, watch, up_starts, read_returns, send_returns, down_starts, receive_returns,
  write_returns, Up, up_top, reading, sending, up_returned, Down, down_top, receiving, writing,
  down_returned, turn, play, reading_into, give_back, group_failure, wait, Traffic, return_up,
  return_down,
}
use unverified.Pump.Taxonomy.{read_failure, receive_failure, write_failure, send_failure}
use unverified.Pump.Buffers.{Pool, get_buf, put_buf}

-- The watcher closes both ends, and the call in which a loop waits answers that its end is closed.
abbrev pub up_ends : List Move
up_ends =
    read_returns [] (sentinel tun_closed)
    ∷ send_returns (sentinel transport_closed)
    ∷ up_starts 0
    ∷ []

abbrev pub down_ends : List Move
down_ends =
    receive_returns 0 none (sentinel transport_closed)
    ∷ write_returns (sentinel tun_closed)
    ∷ down_starts
    ∷ []

-- The loop upwards has returned, and the rest is as before.
record HasUpEnded (s t : Runtime) : Type 0 where
  error : Error
  returned : t.up ≡ up_returned error
  down_kept : t.down ≡ s.down
  failure_kept : t.failure ≡ s.failure
  done_kept : t.done ≡ s.done

group-nil : (f : Error) → group_failure nil f ≡ f
group-nil nil = refl
group-nil (sentinel x) = refl
group-nil (new m) = refl
group-nil (exit_status n) = refl
group-nil (wrap a e b) = refl
group-nil (pump_error r o e) = refl
group-nil (link_error r e) = refl
group-nil (preflight_error r e) = refl

or-false : (b : Bool) → (b || false) ≡ b
or-false true = refl
or-false false = refl

stopped_up :
    (s : Runtime) (p : Pool) (w : Traffic)
    → HasUpEnded s (return_up nil (record s { pool = p; traffic = w }))
stopped_up s p w = record {
  error = nil;
  returned = refl;
  down_kept = refl;
  failure_kept = group-nil s.failure;
  done_kept = or-false s.done;
}

up_ends_at :
    (u : Up) (s : Runtime) → s.done ≡ true → HasUpEnded s (play up_ends (record s { up = u }))
unfolding play turn read_failure send_failure is_error
up_ends_at up_top s h =
    let started : Bool → Runtime =
      λ c. if c then return_up nil s else reading_into (get_buf 0 0 s.pool) s in
    subst (λ (c : Bool). HasUpEnded s (started c)) (sym h) (stopped_up s s.pool s.traffic)
up_ends_at (reading b) s h =
    let answered : Bool → Runtime = λ c.
      if c
      then return_up nil (give_back b (record s { up = reading b }))
      else record s { up = reading b } in
    subst
      (λ (c : Bool).
        HasUpEnded s
          (play (send_returns (sentinel transport_closed) ∷ up_starts 0 ∷ []) (answered c)))
      (sym (le→leb 0 b.cap (omega arith))) (stopped_up s (put_buf b s.pool) s.traffic)
up_ends_at (sending b n tag) s h = stopped_up s _ _
up_ends_at (up_returned e) s h = record {
  error = e;
  returned = refl;
  down_kept = refl;
  failure_kept = refl;
  done_kept = refl;
}

record HasDownEnded (s t : Runtime) : Type 0 where
  error : Error
  returned : t.down ≡ down_returned error
  up_kept : t.up ≡ s.up
  failure_kept : t.failure ≡ s.failure

stopped_down :
    (s : Runtime) (p : Pool) (w : Traffic)
    → HasDownEnded s (return_down nil (record s { pool = p; traffic = w }))
stopped_down s p w = record {
  error = nil;
  returned = refl;
  up_kept = refl;
  failure_kept = group-nil s.failure;
}

down_ends_at :
    (d : Down) (s : Runtime)
    → s.done ≡ true
    → HasDownEnded s (play down_ends (record s { down = d }))
unfolding play turn receive_failure write_failure is_error
down_ends_at down_top s h =
    let started : Bool → Runtime =
      λ c. if c then return_down nil s else record s { down = receiving } in
    subst (λ (c : Bool). HasDownEnded s (started c)) (sym h) (stopped_down s s.pool s.traffic)
down_ends_at receiving s h = stopped_down s _ _
down_ends_at (writing b n) s h = stopped_down s _ _
down_ends_at (down_returned e) s h = record {
  error = e;
  returned = refl;
  up_kept = refl;
  failure_kept = refl;
}

play-append : (ms ns : List Move) (s : Runtime) → play (ms ++ ns) s ≡ play ns (play ms s)
unfolding play
play-append [] ns s = refl
play-append (m ∷ ms) ns s = play-append ms ns (turn m s)

wait_both :
    (s : Runtime) (e f : Error)
    → s.up ≡ up_returned e
    → s.down ≡ down_returned f
    → wait s ≡ some s.failure
unfolding wait
wait_both s e f h k = rw (h, k) refl

-- Once the context has ended, `Run` returns the first error of the loops, or nil, as soon as the
-- watcher has closed both ends and the call that each loop waits in has answered so, whatever the
-- loops were doing.
pub shutdown_returns :
    (s : Runtime) → s.done ≡ true → wait (play (watch ∷ up_ends ++ down_ends) s) ≡ some s.failure
unfolding play turn
shutdown_returns s h =
    let watched : Bool → Runtime = λ c. if c then record s { watched = true } else s in
    subst (λ (c : Bool). wait (play (up_ends ++ down_ends) (watched c)) ≡ some s.failure) (sym h)
      (ended (record s { watched = true }) h)
  where
    ended : (t : Runtime) → t.done ≡ true → wait (play (up_ends ++ down_ends) t) ≡ some t.failure
    ended t k =
        let a = up_ends_at t.up t k in
        let u = play up_ends t in
        let b = down_ends_at u.down u (a.done_kept ∙ k) in
        ap wait (play-append up_ends down_ends t)
        ∙ wait_both (play down_ends u) a.error b.error (b.up_kept ∙ a.returned) b.returned
        ∙ ap some (b.failure_kept ∙ a.failure_kept)
