-- ===== src/Transport.antt =====
-- src/network/transport/quic_transport.rs: the QUIC transport. `Frames` is the format of a message
-- on a stream, `Quic` the operations of `QuicTransportImpl`.
mod Tests
pub mod Frames
pub mod Quic
pub mod Connecting
pub mod Sending
pub mod Ready
pub mod Failing
pub mod Incoming
pub mod Untouched
pub mod Progress
pub mod Reachable
