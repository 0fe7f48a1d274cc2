-- ===== src/Relay/Accepted.antt =====
-- Which frames the tunnel accepts of those that the pump sends before the tunnel is closed
-- (internal/transport/grpc/wrapper.go).
use unverified.Common.{
  ◌≡◌, refl, ap, ◌∙◌, inl, inr, ℕ, Bool, true, false, not, List, [], ◌∷◌, ◌++◌, either, by_test,
  All, Bool-cases,
}
use unverified.Common.Words.{Bytes}
use unverified.Errors.{Error, is_nil}
use unverified.TunnelPb.{Frame}
use unverified.Transport.{
  Tunnel, Call, send, shut, step, send_frame, close, close_frame, written, accepted_by, accepted,
}
use unverified.Transport.Laws.{send_frame_closes}
use unverified.Transport.Refused.{accepted-closed}
use unverified.Pump.Transfer.{payloads}
use unverified.Relay.Payloads.{IsRelayed}

-- A `SendFrame` for each frame, and then a `Close`.
abbrev pub relay_calls : List Frame → ℕ → Bytes → List Call
relay_calls [] code message = shut code message ∷ []
relay_calls (f ∷ fs) code message = send f ∷ relay_calls fs code message

-- The accepted frames: the first of the frames, and behind them at most a frame without a packet.
pub record AcceptsFirst (fs accepts : List Frame) : Type 0 where
  pub kept : List Frame
  pub unsent : List Frame
  pub ending : List Frame
  pub first : fs ≡ kept ++ unsent
  pub all : accepts ≡ kept ++ ending
  pub ending_relayed : All IsRelayed ending
  pub ending_empty : payloads ending ≡ []

accepts_none : (fs accepts : List Frame) → accepts ≡ [] → AcceptsFirst fs accepts
accepts_none fs accepts e = record {
  kept = [];
  unsent = fs;
  ending = [];
  first = refl;
  all = e;
  ending_relayed = tt;
  ending_empty = refl;
}

accepts_close :
    (code : ℕ) (message : Bytes) (closed : Bool) (e : Error)
    → AcceptsFirst [] (written (close_frame code message) closed e ++ [])
accepts_close code message closed e =
    either (λ (fs : List Frame). AcceptsFirst [] (fs ++ [])) closed _ _ (accepts_none [] [] refl)
      (either (λ (fs : List Frame). AcceptsFirst [] (fs ++ [])) (is_nil e) _ _
        (record {
          kept = [];
          unsent = [];
          ending = close_frame code message ∷ [];
          first = refl;
          all = refl;
          ending_relayed = (inr (code, message, refl), tt);
          ending_empty = refl;
        })
        (accepts_none [] [] refl))

accepts_more :
    (f : Frame) (fs accepts : List Frame)
    → AcceptsFirst fs accepts
    → AcceptsFirst (f ∷ fs) (f ∷ accepts)
accepts_more f fs accepts a = record {
  kept = f ∷ a.kept;
  unsent = a.unsent;
  ending = a.ending;
  first = ap (λ (gs : List Frame). f ∷ gs) a.first;
  all = ap (λ (gs : List Frame). f ∷ gs) a.all;
  ending_relayed = a.ending_relayed;
  ending_empty = a.ending_empty;
}

accepts_send :
    (f : Frame) (fs : List Frame) (closed : Bool) (e : Error) (rest : List Frame)
    → (closed ≡ true → rest ≡ [])
    → (is_nil e ≡ false → rest ≡ [])
    → AcceptsFirst fs rest
    → AcceptsFirst (f ∷ fs) (written f closed e ++ rest)
accepts_send f fs closed e rest shut_before failed a =
    by_test (λ (gs : List Frame). AcceptsFirst (f ∷ fs) (gs ++ rest)) closed _ _
      (λ h. accepts_none (f ∷ fs) rest (shut_before h))
      (λ _.
        by_test (λ (gs : List Frame). AcceptsFirst (f ∷ fs) (gs ++ rest)) (is_nil e) _ _
          (λ _. accepts_more f fs rest a) (λ h. accepts_none (f ∷ fs) rest (failed h)))

stays_closed : (f : Frame) (t : Tunnel) → t.closed ≡ true → (send_frame f t).1.closed ≡ true
unfolding send_frame
stays_closed f t h = rw h refl

closes_failed :
    (f : Frame) (t : Tunnel) → is_nil (send_frame f t).0 ≡ false → (send_frame f t).1.closed ≡ true
closes_failed f t failed = elim (Bool-cases t.closed) [
  | inl closed ↦ stays_closed f t closed
  | inr opened ↦ (send_frame_closes f t 0 [] opened).0 ∙ ap not failed
]

pub relay_calls-AcceptsFirst :
    (fs : List Frame) (code : ℕ) (message : Bytes) (t : Tunnel)
    → AcceptsFirst fs (accepted (relay_calls fs code message) t)
unfolding accepted accepted_by step
relay_calls-AcceptsFirst [] code message t =
    accepts_close code message t.closed (close code message t).0
relay_calls-AcceptsFirst (f ∷ fs) code message t =
    let later = (send_frame f t).1 in
    let calls = relay_calls fs code message in
    accepts_send f fs t.closed (send_frame f t).0 (accepted calls later)
      (λ h. accepted-closed calls later (stays_closed f t h))
      (λ h. accepted-closed calls later (closes_failed f t h))
      (relay_calls-AcceptsFirst fs code message later)
