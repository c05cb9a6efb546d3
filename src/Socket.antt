-- ===== src/Socket.antt =====
-- kcp/udp_socket.{h,cc}: a UDP socket, over the calls of the operating system.
pub mod Io
pub mod Address
pub mod Setup
pub mod Multicast
pub mod Transfer
pub mod Tidy
pub mod Opening
pub mod Settings
pub mod Using
pub mod Methods
pub mod Retries
pub mod Outcomes
pub mod Endings
pub mod Random
