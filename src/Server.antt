-- ===== src/Server.antt =====
-- kcp/kcp_server.{h,cc}: the sessions of a server, from the handshake to the time after their end.
pub mod Defs
pub mod Loop
pub mod Invariant
pub mod Periodic
pub mod Handshake
pub mod Safety
pub mod Expiry
pub mod TxQueue
pub mod Abandon
pub mod Liveness
pub mod Listen
pub mod Listening
pub mod Errors
pub mod Reported
pub mod Ending
pub mod Batches
