-- ===== src/Bridge.antt =====
-- native/bridge/pglite_bridge.c: one booted instance of the guest module, and its wire protocol.
pub mod Frames
pub mod Db
pub mod Buffer
pub mod Pump
pub mod Auth
pub mod Exec
pub mod Open
mod Tests
mod WireTests
mod ReplyTests
pub mod OpenTests
