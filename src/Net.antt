-- ===== src/Net.antt =====
-- The sockets of the simulated nodes, src/subsys/net/sockstate.{h,cpp}.
pub mod State
pub mod Setup
pub mod Connect
pub mod Accept
pub mod Stream
pub mod Datagram
pub mod Close
pub mod Epoll
pub mod Options
pub mod Ports
pub mod Tuning
pub mod Tcp
pub mod Udp
pub mod Accepting
pub mod Closing
mod Tests
pub mod Readiness
pub mod Piped
