-- ===== src/Relay/Received.antt =====
-- The frames that `RecvFrame` returns on what a tunnel has left (internal/transport/grpc/wrapper.go).
use unverified.Common.{
  ◌≡◌, refl, ap, sym, ◌∙◌, ℕ, suc, ◌≤◌, Option, none, some, List, [], ◌∷◌, ◌++◌, map, append_assoc,
  All, All-take, length, take, drop, length-take, take-append-drop, if◌then◌else◌,
}
use unverified.Common.Words.{Bytes}
use unverified.Errors.{Error, is_nil}
use unverified.Stream.{Writer}
use unverified.TunnelPb.{Frame}
use unverified.TunnelPb.Wire.{Message, IsValid, frame_of}
use unverified.Transport.Integrity.{CarryAll, encodings, encodings-append}
use unverified.Transport.Delivery.{receive_times, receiver, arrived, receive_stream}

-- The frames among the answers of `RecvFrame`, as the pump takes them.
abbrev pub taken : Option Frame → Error → List Frame
taken none e = []
taken (some f) e = if is_nil e then f ∷ [] else []

abbrev pub frames_in : List (Option Frame × Error) → List Frame
frames_in [] = []
frames_in ((answer, e) ∷ xs) = taken answer e ++ frames_in xs

pub frames_in-arrived : (ms : List Message) → frames_in (map arrived ms) ≡ map frame_of ms
frames_in-arrived [] = refl
frames_in-arrived (m ∷ ms) = ap (λ (fs : List Frame). frame_of m ∷ fs) (frames_in-arrived ms)

pub receive_some :
    (k : ℕ) (ms : List Message) (tail : Bytes) (e : Error) (w : Writer)
    → All IsValid ms
    → k ≤ length ms
    → receive_times k (receiver (encodings ms ++ tail) e w) ≡ map arrived (take k ms)
receive_some k ms tail e w valid enough =
    let cut =
      sym (encodings-append (take k ms) (drop k ms)) ∙ ap encodings (take-append-drop k ms) in
    ap (λ (bs : Bytes). receive_times k (receiver bs e w))
      (ap (λ (bs : Bytes). bs ++ tail) (sym cut)
        ∙ append_assoc (encodings (take k ms)) (encodings (drop k ms)) tail)
    ∙ ap
        (λ (n : ℕ).
          receive_times n (receiver (encodings (take k ms) ++ (encodings (drop k ms) ++ tail)) e w))
        (sym (length-take k ms enough))
    ∙ receive_stream (take k ms) (encodings (drop k ms) ++ tail) e w (All-take IsValid k ms valid)

pub CarryAll-length : (fs : List Frame) (ms : List Message) → CarryAll fs ms → length fs ≡ length ms
CarryAll-length [] [] c = refl
CarryAll-length [] (m ∷ ms) c = absurd c
CarryAll-length (f ∷ fs) [] c = absurd c
CarryAll-length (f ∷ fs) (m ∷ ms) (c, cs) = ap suc (CarryAll-length fs ms cs)
