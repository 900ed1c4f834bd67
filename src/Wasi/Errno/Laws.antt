-- ===== src/Wasi/Errno/Laws.antt =====
-- `wasi_errno` of native/shim/wasi_shim.c keeps failures apart from success.
use pglite_ios.Common.{◌<◌, ◌≡◌, ◌↔◌, arith}
use pglite_ios.Wasi.Errno.{Errno, e_none, wasi_errno}

-- Only the `errno` 0 becomes success, and every code is one of WASI's 77 error codes.
pub wasi_errno_iff : (e : Errno) → ((wasi_errno e ≡ 0) ↔ (e ≡ e_none)) × (wasi_errno e < 77)
unfolding wasi_errno
wasi_errno_iff e = grind arith
