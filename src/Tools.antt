-- ===== src/Tools.antt =====
-- native/tools: programs of the build that use the bridge.
pub mod Mkdata
mod Tests
