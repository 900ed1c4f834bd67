-- ===== src/Wasi/Code.antt =====
-- The WASI error codes that native/shim/wasi_shim.c returns by name.
use pglite_ios.Common.{ℕ}

abbrev pub success : ℕ
success = 0

abbrev pub badf : ℕ
badf = 8

abbrev pub fault : ℕ
fault = 21

abbrev pub inval : ℕ
inval = 28

abbrev pub io : ℕ
io = 29
