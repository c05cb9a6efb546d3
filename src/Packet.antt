-- ===== src/Packet.antt =====
-- kcp/kcp_packets.{h,cc}: the header that every datagram begins with, its checksum, and the packets
-- that are read and written.
pub mod Bytes
pub mod Defs
pub mod Reading
pub mod RoundTrip
pub mod Control
pub mod Names
