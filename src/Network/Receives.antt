-- ===== src/Network/Receives.antt =====
-- `RecvFrame` of a host, from its test of the flag to the answer that the pump gets
-- (internal/tunnel/session/pump_linux.go, internal/transport/grpc/wrapper.go).
use unverified.Common.{
  ◌≡◌, refl, ap, sym, ◌∙◌, inl, inr, ℕ, Bool, true, false, Option, none, some, List, ◌++◌, All,
  either, Bool-cases,
}
use mathlib.Core.Path.{subst}
use unverified.Common.Words.{Bytes}
use unverified.Errors.{Error, nil, sentinel, transport_closed, is_nil}
use unverified.Stream.{Reader, reader}
use unverified.TunnelPb.{Frame}
use unverified.TunnelPb.Decode.{read_frame}
use unverified.Stream.Uniform.{nil_of}
use unverified.Pump.{
  Runtime, receive_returns, Down, down_top, receiving, writing, down_returned, turn,
}
use unverified.Pump.Exclusive.Turns.{turn-Exclusive}
use unverified.Pump.Transfer.Turns.{turn-Carried}
use unverified.Network.{Host, enter_receive, read_arrived, after_read_frame}
use unverified.Network.Offers.{IsRead}
use unverified.Network.Flow.{Flow, Gone, Flow-waits}
use unverified.Network.Taken.{Flow-receives}
use unverified.Network.Answers.{turn-Gone, turn-IsAnswered, failed_as_none}
use unverified.Network.Hosts.{IsPair, IsPairAfter, pair_same, out_same}

-- The host with another state of its pump, reader and call.
abbrev with_answer : Host → Runtime → Reader → Bool → Host
with_answer h t r entered = record h {
  runtime = t;
  tunnel = record h.tunnel { incoming = r };
  entered = entered;
}

-- The loop has got an error.
fails_pair :
    (size pick : ℕ) (e : Error) (r : Reader) (entered : Bool) (h p : Host)
    → h.runtime.down ≡ receiving
    → IsPair size h p
    → IsPairAfter size h p (with_answer h (turn (receive_returns pick none e) h.runtime) r entered)
fails_pair size pick e r entered h p here (s, out, into) =
    let m = receive_returns pick none e in
    let (a, gone) = turn-Gone pick e h.runtime here in
    (
      record {
        exclusive = turn-Exclusive size m h.runtime tt s.exclusive;
        carried = turn-Carried size m h.runtime tt s.exclusive s.carried;
        lawful = s.lawful;
        reads = subst (All (IsRead size)) (sym a.read) s.reads;
      },
      out_same size h p (turn m h.runtime) r entered a.sent out,
      subst
          (λ (fs : List Frame).
            Flow size p.tunnel.closed p.runtime.traffic.sent r.input (turn m h.runtime).down fs)
          (sym a.received)
          (Flow-waits size p.tunnel.closed p.runtime.traffic.sent h.tunnel.incoming.input r.input
            h.runtime.down (turn m h.runtime).down h.runtime.traffic.received into (inr gone)),
    )

-- The loop has got the next frame of the stream.
takes_pair :
    (size pick : ℕ) (front back : Bytes) (e : Error) (f : Frame) (r : Reader) (h p : Host)
    → h.runtime.down ≡ receiving
    → h.tunnel.incoming.input ≡ front ++ back
    → read_frame (reader front e) ≡ ((some f, nil), r)
    → IsPair size h p
    → IsPairAfter size h p (after_read_frame pick back h ((some f, nil), r))
takes_pair size pick front back e f r h p here arrived h_read (s, out, into) =
    let m = receive_returns pick (some f) nil in
    let t = turn m h.runtime in
    let n =
      Flow-receives size p.tunnel.closed p.runtime.traffic.sent h.runtime.traffic.received front
        back h.runtime.down e f r
        (subst
          (λ (bs : Bytes).
            Flow size p.tunnel.closed p.runtime.traffic.sent bs h.runtime.down
              h.runtime.traffic.received)
          arrived into)
        (subst Gone here) h_read in
    let a = turn-IsAnswered pick f h.runtime here in
    (
      record {
        exclusive = turn-Exclusive size m h.runtime (n.fits pick nil) s.exclusive;
        carried = turn-Carried size m h.runtime (n.fits pick nil) s.exclusive s.carried;
        lawful = s.lawful;
        reads = subst (All (IsRead size)) (sym a.read) s.reads;
      },
      out_same size h p t (record r { input = r.input ++ back }) false a.sent out,
      subst
          (λ (fs : List Frame).
            Flow size p.tunnel.closed p.runtime.traffic.sent (r.input ++ back) t.down fs)
          (sym a.received) (n.flow t.down),
    )

answer_pair :
    (size pick : ℕ) (front back : Bytes) (e : Error) (answer : Option Frame) (g : Error)
    (r : Reader) (h p : Host)
    → h.runtime.down ≡ receiving
    → h.tunnel.incoming.input ≡ front ++ back
    → read_frame (reader front e) ≡ ((answer, g), r)
    → IsPair size h p
    → IsPairAfter size h p (after_read_frame pick back h ((answer, g), r))
answer_pair size pick front back e none g r h p here arrived h_read x =
    fails_pair size pick g (record r { input = r.input ++ back }) false h p here x
answer_pair size pick front back e (some f) g r h p here arrived h_read x =
    elim (Bool-cases (is_nil g)) [
      | inl clean ↦
          let same = nil_of g clean in
          subst
            (λ (y : Error). IsPairAfter size h p (after_read_frame pick back h ((some f, y), r)))
            (sym same)
            (takes_pair size pick front back e f r h p here arrived
              (h_read ∙ ap (λ (y : Error). ((some f, y), r)) same) x)
      | inr failed ↦
          let left = record r { input = r.input ++ back } in
          subst (λ (t : Runtime). IsPairAfter size h p (with_answer h t left false))
            (sym (failed_as_none pick (some f) g h.runtime here failed))
            (fails_pair size pick g left false h p here x)
    ]

pub reads_pair :
    (size pick : ℕ) (front back : Bytes) (e : Error) (d : Down) (h p : Host)
    → h.runtime.down ≡ d
    → h.tunnel.incoming.input ≡ front ++ back
    → IsPair size h p
    → IsPairAfter size h p (read_arrived pick front back e d h)
reads_pair size pick front back e down_top h p here arrived x = pair_same size h p x
reads_pair size pick front back e (writing b n) h p here arrived x = pair_same size h p x
reads_pair size pick front back e (down_returned f) h p here arrived x = pair_same size h p x
reads_pair size pick front back e receiving h p here arrived x =
    let y = read_frame (reader front e) in
    either (IsPairAfter size h p) h.entered (after_read_frame pick back h y) h
      (answer_pair size pick front back e y.0.0 y.0.1 y.1 h p here arrived refl x)
      (pair_same size h p x)

-- The call has passed its test of the flag.
entered_pair :
    (size : ℕ) (h p : Host) → IsPair size h p → IsPairAfter size h p (record h { entered = true })
entered_pair size h p (s, out, into) = (
  record { exclusive = s.exclusive; carried = s.carried; lawful = s.lawful; reads = s.reads },
  out_same size h p h.runtime h.tunnel.incoming true refl out,
  into,
)

pub enters_pair :
    (size pick : ℕ) (d : Down) (h p : Host)
    → h.runtime.down ≡ d
    → IsPair size h p
    → IsPairAfter size h p (enter_receive pick d h)
enters_pair size pick down_top h p here x = pair_same size h p x
enters_pair size pick (writing b n) h p here x = pair_same size h p x
enters_pair size pick (down_returned e) h p here x = pair_same size h p x
enters_pair size pick receiving h p here x =
    either (IsPairAfter size h p) h.entered h _ (pair_same size h p x) (
      either (IsPairAfter size h p) h.tunnel.closed _ (record h { entered = true })
        (fails_pair size pick (sentinel transport_closed) h.tunnel.incoming h.entered h p here x)
        (entered_pair size h p x))
