-- ===== src/Transport/Locked.antt =====
-- The tunnels of internal/transport/grpc/wrapper.go at both ends of a stream that holds only so many
-- unread bytes, as net.Pipe or the flow control of gRPC: a `Write` that finds no room waits, and
-- `SendFrame` and `Close` hold `t.mu` while they write. Each step is what one goroutine does between
-- two places where it may wait.
pub mod Blocked
pub mod Deadlock
pub mod Serial
pub mod Calls
pub mod Whole
pub mod Flow
pub mod Streams
pub mod Atomic
pub mod Matching
pub mod Refines
pub mod Passing
mod Runs
use unverified.Common.{
  ℕ, ◌+◌, ◌-◌, ◌≤◌, Bool, true, false, not, ◌||◌, Option, none, some, List, [], ◌∷◌, ◌++◌, length,
  take, drop, if◌then◌else◌, ltb,
}
use unverified.Common.Words.{Bytes}
use unverified.Errors.{Error, nil, sentinel, eof, is_nil}
use unverified.Stream.{reader, Writer, reliable}
use unverified.TunnelPb.{Frame}
use unverified.TunnelPb.Encode.{write_frame}
use unverified.TunnelPb.Decode.{Returned, read_frame}
use unverified.Transport.{close_frame}

-- Where a `SendFrame` is: it waits for `t.mu`, or has it and has these bytes still to write, and then
-- returns the error.
pub data Sending : Type 0 where
  not_sending : Sending
  wants_to_send : Frame → Sending
  writes : Bytes → Error → Sending

pub data Closing : Type 0 where
  not_closing : Closing
  wants_to_close : ℕ → Bytes → Closing
  writes_close : Bytes → Error → Closing

-- A `RecvFrame` has `t.mu` only for the test of the flag; then it has read these bytes of a frame.
pub data Receiving : Type 0 where
  not_receiving : Receiving
  wants_to_receive : Receiving
  has_read : Bytes → Receiving

-- One end. `locked` is `t.mu`, and `unread` is what the peer has not read of the bytes written here.
pub record Side : Type 0 where
  pub sending : Sending
  pub closing : Closing
  pub receiving : Receiving
  pub locked : Bool
  pub closed : Bool
  pub unread : Bytes

-- What `WriteFrame` puts on a stream that takes everything, and the error that it returns.
abbrev pub bytes_of : Frame → Bytes
bytes_of f = (write_frame f (reliable [])).1.sent

abbrev pub error_of : Frame → Error
error_of f = (write_frame f (reliable [])).0

-- The steps of `SendFrame`.
abbrev pub ask_send : Frame → Sending → Side → Side
ask_send f not_sending s = record s { sending = wants_to_send f }
ask_send f sending s = s

abbrev pub lock_send : Sending → Side → Side
lock_send (wants_to_send f) s =
    if s.locked
    then s
    else if s.closed
    then record s { sending = not_sending }
    else record s { sending = writes (bytes_of f) (error_of f); locked = true }
lock_send sending s = s

-- How many of at most n bytes a write gets rid of, of those that it has, where there is this room.
abbrev pub least : ℕ → ℕ → ℕ
least a b = if ltb a b then a else b

abbrev pub moved : ℕ → ℕ → Bytes → Bytes → ℕ
moved capacity n bs unread = least n (least (length bs) (capacity - length unread))

abbrev pub go_on_writing : ℕ → ℕ → Sending → Side → Side
go_on_writing capacity n (writes bs e) s =
    let k = moved capacity n bs s.unread in
    record s { sending = writes (drop k bs) e; unread = s.unread ++ take k bs }
go_on_writing capacity n sending s = s

-- `defer t.mu.Unlock()`, behind `if err := ...; err != nil { t.closed = true; return err }`.
abbrev pub end_send : Sending → Side → Side
end_send (writes [] e) s = record s {
  sending = not_sending;
  locked = false;
  closed = s.closed || not (is_nil e);
}
end_send sending s = s

-- The stream breaks under a write that waits.
abbrev pub break_send : Sending → Side → Side
break_send (writes (b ∷ bs) e) s = record s { sending = not_sending; locked = false; closed = true }
break_send sending s = s

-- The steps of `Close`.
abbrev pub ask_close : ℕ → Bytes → Closing → Side → Side
ask_close code message not_closing s = record s { closing = wants_to_close code message }
ask_close code message closing s = s

abbrev pub lock_close : Closing → Side → Side
lock_close (wants_to_close code message) s =
    if s.locked then s else if s.closed then record s { closing = not_closing } else record s {
      closing =
          writes_close (bytes_of (close_frame code message)) (error_of (close_frame code message));
      locked = true;
    }
lock_close closing s = s

abbrev pub go_on_closing : ℕ → ℕ → Closing → Side → Side
go_on_closing capacity n (writes_close bs e) s =
    let k = moved capacity n bs s.unread in
    record s { closing = writes_close (drop k bs) e; unread = s.unread ++ take k bs }
go_on_closing capacity n closing s = s

abbrev pub end_close : Closing → Side → Side
end_close (writes_close [] e) s = record s { closing = not_closing; locked = false; closed = true }
end_close closing s = s

abbrev pub break_close : Closing → Side → Side
break_close (writes_close (b ∷ bs) e) s = record s {
  closing = not_closing;
  locked = false;
  closed = true;
}
break_close closing s = s

-- The steps of `RecvFrame`.
abbrev pub ask_receive : Receiving → Side → Side
ask_receive not_receiving s = record s { receiving = wants_to_receive }
ask_receive receiving s = s

abbrev pub lock_receive : Receiving → Side → Side
lock_receive wants_to_receive s =
    if s.locked
    then s
    else if s.closed
    then record s { receiving = not_receiving }
    else record s { receiving = has_read [] }
lock_receive receiving s = s

-- `ReadFrame` reads no more, and returns, when it has read a whole frame.
abbrev pub is_whole : Returned → Bool
is_whole ((none, e), r) = false
is_whole ((some f, e), r) = is_nil e

abbrev pub is_frame : Bytes → Bool
is_frame bs = is_whole (read_frame (reader bs (sentinel eof)))

abbrev pub go_on_reading : Receiving → Side → Side → Side × Side
go_on_reading (has_read bs) s peer = if is_frame bs then (s, peer) else (
  record s { receiving = has_read (bs ++ take 1 peer.unread) },
  record peer { unread = drop 1 peer.unread },
)
go_on_reading receiving s peer = (s, peer)

abbrev pub end_receive : Receiving → Side → Side
end_receive (has_read bs) s = if is_frame bs then record s { receiving = not_receiving } else s
end_receive receiving s = s

-- It returns an error: that of the stream, or of bytes that are no frame.
abbrev pub break_receive : Receiving → Side → Side
break_receive (has_read bs) s = record s { receiving = not_receiving }
break_receive receiving s = s

-- What one goroutine of an end does.
pub data Act : Type 0 where
  asks_send : Frame → Act
  locks_send : Act
  goes_on_writing : ℕ → Act
  ends_send : Act
  breaks_send : Act
  asks_close : ℕ → Bytes → Act
  locks_close : Act
  goes_on_closing : ℕ → Act
  ends_close : Act
  breaks_close : Act
  asks_receive : Act
  locks_receive : Act
  goes_on_reading : Act
  ends_receive : Act
  breaks_receive : Act

unfoldable pub act : ℕ → Act → Side → Side → Side × Side
act capacity (asks_send f) s peer = (ask_send f s.sending s, peer)
act capacity locks_send s peer = (lock_send s.sending s, peer)
act capacity (goes_on_writing n) s peer = (go_on_writing capacity n s.sending s, peer)
act capacity ends_send s peer = (end_send s.sending s, peer)
act capacity breaks_send s peer = (break_send s.sending s, peer)
act capacity (asks_close code message) s peer = (ask_close code message s.closing s, peer)
act capacity locks_close s peer = (lock_close s.closing s, peer)
act capacity (goes_on_closing n) s peer = (go_on_closing capacity n s.closing s, peer)
act capacity ends_close s peer = (end_close s.closing s, peer)
act capacity breaks_close s peer = (break_close s.closing s, peer)
act capacity asks_receive s peer = (ask_receive s.receiving s, peer)
act capacity locks_receive s peer = (lock_receive s.receiving s, peer)
act capacity goes_on_reading s peer = go_on_reading s.receiving s peer
act capacity ends_receive s peer = (end_receive s.receiving s, peer)
act capacity breaks_receive s peer = (break_receive s.receiving s, peer)

pub data Turn : Type 0 where
  west_acts east_acts : Act → Turn

unfoldable pub take_turn : ℕ → Turn → Side × Side → Side × Side
take_turn capacity (west_acts a) (w, e) = act capacity a w e
take_turn capacity (east_acts a) (w, e) = let (f, v) = act capacity a e w in (v, f)

unfoldable pub take_turns : ℕ → List Turn → Side × Side → Side × Side
take_turns capacity [] x = x
take_turns capacity (t ∷ ts) x = take_turns capacity ts (take_turn capacity t x)
