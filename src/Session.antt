-- ===== src/Session.antt =====
-- kcp/kcp_session.{h,cc}: a session's writes, its update timer and its end.
pub mod Defs
pub mod Writes
pub mod Ends
pub mod Reading
pub mod View
pub mod Delivery
pub mod Inbox
pub mod Start
pub mod Threads
pub mod Keeping
pub mod Order
pub mod Interleaving
