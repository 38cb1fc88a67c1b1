-- ===== src/Msg.antt =====
-- The messages that clients and server exchange: server/lib/include/msg and server/lib/src/msg.
pub mod Json
pub mod Instance
pub mod ErrorCode
pub mod LoginRequest
pub mod MessageRequest
pub mod LoginResponse
pub mod MessageResponse
pub mod ErrorResponse
pub mod AnyInstance
pub mod Printing
pub mod RequestVisitor
pub mod ResponseVisitor
pub mod Tests
