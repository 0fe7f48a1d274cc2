-- ===== src/Lib.antt =====
-- The data path of the tunnel daemon (Go, internal/): the wire codec, the tunnel over a byte
-- stream, the pump between a TUN device and the tunnel, the link configuration by `ip`, and the
-- checks at the start with the probes of the host.
--
-- A packet goes from the kernel through the device (Tun) to the pump (Pump), which frames it and
-- gives it to the tunnel (Transport); the tunnel writes it with the codec (TunnelPb) to the stream
-- (Stream), and the peer reads it back the same way. Errors (Errors) are values that all parts share:
-- the pump decides by the sentinels in an error's chain whether a loop ends gracefully.
--
-- Common: numbers, Boolean tests, lists, big-endian words (Words) and searches in texts (Text).
-- Errors: Go's error values, `errors.Is`, and the three typed errors of internal/contract; Errors.Text
--   has their texts.
-- Stream: `io.Reader` with `io.ReadFull`, and `io.Writer`. A reader is the bytes that it still
--   delivers and its last error; a writer is the bytes that it has taken and the outcomes of its next
--   calls, so that it can break at any byte of any call. Laws, Failures, Sequence and Uniform are what
--   the codec's proofs use of them, Uniform about writers that may break.
-- TunnelPb: internal/transport/grpc/tunnelpb/codec.go. Encode has `WriteFrame` and the `write...`
--   functions, Decode `ReadFrame` and the `read...` functions, Ip the addresses. Encode.Sent is about
--   streams that may break. TunnelPb.Wire is the
--   format by itself, without the code: messages, limits and bytes. Each loop is over a list or a
--   count, so no fuel is needed.
-- Transport: internal/transport/grpc/wrapper.go: `Wrap`, `SendFrame`, `RecvFrame`, `Close`, and lists
--   of calls. Integrity is about what they leave on a stream that may break, Refused about the frames
--   that do not get onto it, Delivery about the other end, Interleaved about a `RecvFrame` that reads while another goroutine sends or closes.
--   Transport.Locked has the same calls in the steps between which a goroutine may wait: for `t.mu`, or
--   for room on the stream. A side (Side) is the progress of one `SendFrame`, one `Close` and one
--   `RecvFrame`, the mutex, the flag and the bytes that the peer has not read; a run is a list of steps
--   of both ends. The capacity of the stream is an argument. Serial, Calls and Whole are about the
--   bytes that an end writes, Flow and Streams about where they are then: read by the peer or unread, Blocked and Deadlock about two ends that wait for each other, Atomic, Matching and
--   Refines about the calls made in one step each, as Transport has them, Passing about an end that
--   sends to one that receives.
-- Pump: internal/tunnel/session/pump_linux.go. One state (Runtime) has the two loops (`pumpUp`,
--   `pumpDown`), the errgroup, the watcher and the buffer pool (Pump.Buffers); `turn` makes one step
--   of one goroutine, and a list of moves is an interleaving. The memory of the buffers is part of
--   the state, so that sharing a buffer shows. Pump.Taxonomy is the reading of errors.
-- Relay: the parts of the data path together, from the device of one host to that of the other:
--   Payloads and Accepted are about the frames that a pump sends and a tunnel accepts, Received
--   about what is read back, Packets about the packets that arrive,
--   and Complete about all of them arriving.
-- Network: two hosts that run Pump and Transport against each other, with a stream in each direction.
--   A step (HostStep, Step) is a move of one goroutine of one host together with the calls of the
--   tunnel that it makes; what a tunnel has written is what the other one can read, until
--   the stream fails. Writes, Offers and Flow are about the bytes between the hosts, Taken, Outgoing,
--   Moves, Answers, Hosts and Receives about one host, Relayed about every reachable state, Turns and
--   Delivers about a run that brings the packets to the other device, Waits about a host to which
--   nothing comes.
-- Route: internal/tunnel/route/link_linux.go: `New`, `Up`, `Down`, `AddAddress`, `containsCIDR` and
--   the production executor.
--   Route.Table is the addresses of the interface behind the binary, as an abstract view; Sound is about
--   any calls of the link, Switched about `Down` and then another address.
-- Tun: internal/tunnel/tun/tun_linux.go (Device; Opening has `Open`, `MTU` and `Close` over the
--   kernel's calls, Opening.Descriptors the descriptors they leave open) and preflight_linux.go with
--   the capability probe of internal/hostprobe/capsprobe_linux.go (Preflight).
-- HostProbe: the rest of internal/hostprobe: Caps has `Missing` and `PresentNames`
--   (capsprobe_linux.go), Udp `UDPBufRmemMax` (udpbuf_linux.go) with the number read by Udp.Decimal,
--   Bpf `COReProbe` (bpfcompile.go). Bpf.Files is about its temporary files, Bpf.Section about the
--   line that it looks for. The operations of the host (Host) are an argument, and so are those of the
--   kernel (Tun.Opening.Calls).
-- The modules named Runs hold concrete runs.
--
-- Machine integers: a field's range is a hypothesis (IsU32, IsU64, IsByte), and a conversion to a
-- byte or to two bytes is written with its remainder. The MTU and the buffer overhead are natural
-- numbers; a negative option of `New` is not modelled. `strconv.ParseUint` stops at 2 ^ 64 - 1.
--
-- Parameters: what the ip binary, `net.ParseCIDR`, the system calls and the TUN file answer, and the
-- answers of the device and the tunnel that the pump calls. Files and tools of the host are a state
-- that the operations change; what a theorem relies on of them is a record of named hypotheses
-- (IsHost, IsKernel, IsIp, IsParser, KeepsAddresses). `sync.Pool` hands out any buffer that it has, or a
-- new one. The errgroup is golang.org/x/sync: as documented, it keeps the first error, and
-- its context ends with that error, with the caller's, or when `Wait` returns. The streams of Network
-- have no bound; those of Transport.Locked have one, and may break.
--
-- Not modelled: the generated mocks, which have no logic of the program, and the text of formatted
-- arguments in the codec's messages. Two calls of `RecvFrame` or of `SendFrame` at the same time are
-- not modelled: the pump has one goroutine that receives and one that sends. `strings.TrimSpace` is
-- that of ASCII: the blanks of Unicode above it (U+0085, U+00A0, ...) are kept, where Go trims them. What it
-- is used on are numbers of /proc and the output of tools, which are in ASCII.
pub mod Common
pub mod Errors
pub mod Stream
pub mod TunnelPb
pub mod Transport
pub mod Pump
pub mod Route
pub mod Tun
pub mod HostProbe
pub mod Relay
pub mod Network
