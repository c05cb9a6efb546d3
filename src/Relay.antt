-- ===== src/Relay.antt =====
-- tcprelay/tunnel.h: the request that opens a tunnel.
pub mod Request
pub mod Grammar
pub mod Parsing
pub mod Messages
pub mod Segments
pub mod Tunnels
pub mod Streams
pub mod Events
pub mod Carried
pub mod Whole
