-- ===== src/TunnelPb/Wire/Canonical.antt =====
-- A frame that `ReadFrame` has returned, given to `WriteFrame`
-- (internal/transport/grpc/tunnelpb/codec.go).
use unverified.Common.{◌≡◌, sym, ap, ◌∙◌, some, List, [], ◌∷◌, ◌++◌, All}
use mathlib.Core.Path.{subst}
use unverified.Common.Words.{Bytes, IsByte}
use unverified.Errors.{nil}
use unverified.Stream.{Reader, reliable}
use unverified.TunnelPb.{Frame}
use unverified.TunnelPb.Encode.{write_frame}
use unverified.TunnelPb.Encode.Frames.{write_frame-encoding}
use unverified.TunnelPb.Decode.{read_frame}
use unverified.TunnelPb.Decode.Frames.{read_frame-Decoded}
use unverified.TunnelPb.Wire.{
  Message, ipv4, ipv6, hello, session, keepalive, rekey, close, IsValid, IsDns, frame_of, encoding,
}
use unverified.TunnelPb.Wire.Carried.{IsTyped}

IsDns-IsByte : (ips : List Bytes) → All IsDns ips → All (All IsByte) ips
IsDns-IsByte [] h = tt
IsDns-IsByte (ip ∷ ips) (h, hs) = (h.1, IsDns-IsByte ips hs)

frame_of-IsTyped : (m : Message) → IsValid m → IsTyped (frame_of m)
unfolding frame_of
frame_of-IsTyped (ipv4 p) v = record {
  packet = v.2;
  hello = tt;
  session = tt;
  keepalive = tt;
  rekey = tt;
  close = tt;
}
frame_of-IsTyped (ipv6 p) v = record {
  packet = v.2;
  hello = tt;
  session = tt;
  keepalive = tt;
  rekey = tt;
  close = tt;
}
frame_of-IsTyped (hello h) v = record {
  packet = tt;
  hello = (v.0, v.1.1, v.2);
  session = tt;
  keepalive = tt;
  rekey = tt;
  close = tt;
}
frame_of-IsTyped (session s) v = record {
  packet = tt;
  hello = tt;
  session = (v.0.1, v.1.1, IsDns-IsByte s.dns_servers v.3, v.4);
  keepalive = tt;
  rekey = tt;
  close = tt;
}
frame_of-IsTyped (keepalive k) v = record {
  packet = tt;
  hello = tt;
  session = tt;
  keepalive = v;
  rekey = tt;
  close = tt;
}
frame_of-IsTyped (rekey rk) v = record {
  packet = tt;
  hello = tt;
  session = tt;
  keepalive = tt;
  rekey = (v.0.1, v.1.1, v.2);
  close = tt;
}
frame_of-IsTyped (close c) v = record {
  packet = tt;
  hello = tt;
  session = tt;
  keepalive = tt;
  rekey = tt;
  close = (v.0, v.1.1);
}

-- A frame that has been read: in the ranges of its types, and written again as the bytes read.
pub record IsCanonical (r : Reader) (f : Frame) (after : Reader) (sent : Bytes) : Type 0 where
  pub typed : IsTyped f
  pub consumed : Bytes
  pub split : r.input ≡ consumed ++ after.input
  pub written : write_frame f (reliable sent) ≡ (nil, reliable (sent ++ consumed))

-- If `ReadFrame` returns a frame and no error on a stream of bytes, then all fields of the frame are
-- in the ranges of their Go types, and on a stream that takes everything `WriteFrame` of it returns
-- no error and writes exactly the bytes that were read.
pub read_frame-IsCanonical :
    (r : Reader) (f : Frame) (after : Reader) (sent : Bytes)
    → All IsByte r.input
    → read_frame r ≡ ((some f, nil), after)
    → IsCanonical r f after sent
read_frame-IsCanonical r f after sent typed h =
    let d = read_frame-Decoded r f after typed h in
    record {
      typed = subst IsTyped (sym d.frame) (frame_of-IsTyped d.message d.valid);
      consumed = encoding d.message;
      split = d.split;
      written =
          ap (λ (g : Frame). write_frame g (reliable sent)) d.frame
          ∙ write_frame-encoding d.message sent d.valid;
    }
