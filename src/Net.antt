-- ===== src/Net.antt =====
-- The networking library of the server: server/lib/include/networking and server/lib/src/networking.
pub mod World
pub mod Socket
pub mod SocketServer
pub mod FlexWaiter
pub mod Tests
