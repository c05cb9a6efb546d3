-- ===== src/Wire.antt =====
-- kcp/kcp_server.cc and kcp/kcp_client.cc: the data of a session on its way to the other side.
pub mod Output
pub mod Delivered
