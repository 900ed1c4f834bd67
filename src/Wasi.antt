-- ===== src/Wasi.antt =====
-- native/shim/wasi_shim.c: the WASI preview1 calls of the guest, over POSIX.
pub mod Code
pub mod Filetype
pub mod Errno
pub mod Host
pub mod Memory
pub mod State
pub mod FdTable
pub mod Init
pub mod Args
pub mod Clocks
pub mod Iovec
pub mod Files
pub mod Stats
pub mod Readdir
pub mod Paths
pub mod Poll
pub mod Keeps
pub mod Ledger
pub mod Requests
pub mod Tests
mod DirTests
mod CopyTests
mod StatsTests
mod PollTests
pub mod LedgerTests
