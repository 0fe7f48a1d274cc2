-- ===== src/Stream/Sequence.antt =====
-- When a chain of writes, or a write whose error is wrapped, succeeds.
use unverified.Common.{◌≡◌, refl}
use unverified.Common.Words.{Bytes}
use unverified.Errors.{
  Error, nil, sentinel, new, exit_status, wrap, pump_error, link_error, preflight_error,
}
use unverified.Stream.{Writer, Action, unless_failed, relabel_failure}

-- A chain succeeds only if its first part does, and then the rest does.
pub seq-ok :
    (x : Error × Writer) (k : Action) (w : Writer)
    → unless_failed x k ≡ (nil, w)
    → (x ≡ (nil, x.1)) × (k x.1 ≡ (nil, w))
seq-ok (nil, v) k w h = (refl, h)
seq-ok (sentinel s, v) k w h = cc
seq-ok (new m, v) k w h = cc
seq-ok (exit_status n, v) k w h = cc
seq-ok (wrap p e q, v) k w h = cc
seq-ok (pump_error r o e, v) k w h = cc
seq-ok (link_error r e, v) k w h = cc
seq-ok (preflight_error r e, v) k w h = cc

-- A wrapped error is an error.
pub wrapped-ok :
    (before after : Bytes) (x : Error × Writer) (w : Writer)
    → relabel_failure (λ e. wrap before e after) x ≡ (nil, w)
    → x ≡ (nil, w)
wrapped-ok before after (nil, v) w h = h
wrapped-ok before after (sentinel s, v) w h = cc
wrapped-ok before after (new m, v) w h = cc
wrapped-ok before after (exit_status n, v) w h = cc
wrapped-ok before after (wrap p e q, v) w h = cc
wrapped-ok before after (pump_error r o e, v) w h = cc
wrapped-ok before after (link_error r e, v) w h = cc
wrapped-ok before after (preflight_error r e, v) w h = cc
