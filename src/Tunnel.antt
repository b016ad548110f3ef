-- ===== src/Tunnel.antt =====
-- pkg/tunnel: the authenticated tunnel.
pub mod Trim
pub mod Egress
pub mod Relay
pub mod Destination
pub mod Datagram
pub mod Secure
pub mod Replay
pub mod Registry
pub mod Hello
pub mod Handshake
