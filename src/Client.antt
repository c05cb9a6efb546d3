-- ===== src/Client.antt =====
-- kcp/kcp_client.{h,cc}: a client's session, from the first SYN to the reconnects.
pub mod Defs
pub mod Events
pub mod Invariant
mod Packets
mod Timers
pub mod Run
pub mod Handshake
pub mod Errors
pub mod Handling
