-- ===== src/Relay.antt =====
-- The way of a packet from one host to the other: the pump of the sender
-- (internal/tunnel/session/pump_linux.go), its tunnel and the stream
-- (internal/transport/grpc/wrapper.go), and the tunnel and the pump of the receiver.
pub mod Payloads
pub mod Accepted
pub mod Received
pub mod Packets
pub mod Complete
mod Runs
