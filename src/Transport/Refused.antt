-- ===== src/Transport/Refused.antt =====
-- The frames that calls of the tunnel do not get onto its stream
-- (internal/transport/grpc/wrapper.go), and that a closed tunnel has none of them.
use unverified.Common.{◌≡◌, refl, ap, ◌∙◌, Bool, true, List, [], ◌∷◌, ◌++◌, if◌then◌else◌}
use unverified.Common.Words.{Bytes}
use unverified.Errors.{Error, is_nil}
use unverified.Stream.{reliable}
use unverified.TunnelPb.{Frame}
use unverified.TunnelPb.Encode.{write_frame}
use unverified.Transport.{
  Tunnel, send_frame, close, close_frame, Call, send, receive, shut, step, written, accepted_by,
  accepted,
}
use unverified.Transport.Laws.{step-closed}

-- The bytes that `WriteFrame` puts on a stream that takes everything, for each frame, also where it
-- returns an error.
abbrev pub full_bytes : List Frame → Bytes
full_bytes [] = []
full_bytes (f ∷ fs) = (write_frame f (reliable [])).1.sent ++ full_bytes fs

-- The frame of a call on an open tunnel that the call does not get onto the stream.
abbrev pub unwritten : Frame → Bool → Error → List Frame
unwritten f closed e = if closed then [] else if is_nil e then [] else f ∷ []

unfoldable pub refused_by : Call → Tunnel → List Frame
refused_by (send f) t = unwritten f t.closed (send_frame f t).0
refused_by receive t = []
refused_by (shut code message) t =
    unwritten (close_frame code message) t.closed (close code message t).0

unfoldable pub refused : List Call → Tunnel → List Frame
refused [] t = []
refused (c ∷ cs) t = refused_by c t ++ refused cs (step c t)

accepted_by-closed : (c : Call) (t : Tunnel) → t.closed ≡ true → accepted_by c t ≡ []
unfolding accepted_by
accepted_by-closed (send f) t h = ap (λ (b : Bool). written f b (send_frame f t).0) h
accepted_by-closed receive t h = refl
accepted_by-closed (shut code message) t h =
    ap (λ (b : Bool). written (close_frame code message) b (close code message t).0) h

refused_by-closed : (c : Call) (t : Tunnel) → t.closed ≡ true → refused_by c t ≡ []
unfolding refused_by
refused_by-closed (send f) t h = ap (λ (b : Bool). unwritten f b (send_frame f t).0) h
refused_by-closed receive t h = refl
refused_by-closed (shut code message) t h =
    ap (λ (b : Bool). unwritten (close_frame code message) b (close code message t).0) h

pub refused-closed : (cs : List Call) (t : Tunnel) → t.closed ≡ true → refused cs t ≡ []
unfolding refused
refused-closed [] t h = refl
refused-closed (c ∷ cs) t h =
    ap (λ (fs : List Frame). fs ++ refused cs (step c t)) (refused_by-closed c t h)
    ∙ ap (refused cs) (step-closed c t h)
    ∙ refused-closed cs t h

pub accepted-closed : (cs : List Call) (t : Tunnel) → t.closed ≡ true → accepted cs t ≡ []
unfolding accepted
accepted-closed [] t h = refl
accepted-closed (c ∷ cs) t h =
    ap (λ (fs : List Frame). fs ++ accepted cs (step c t)) (accepted_by-closed c t h)
    ∙ ap (accepted cs) (step-closed c t h)
    ∙ accepted-closed cs t h
