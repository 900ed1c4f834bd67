-- ===== src/Wasi/Filetype.antt =====
-- The WASI file types of native/shim/wasi_shim.c.
use pglite_ios.Common.{ℕ}

abbrev pub unknown : ℕ
unknown = 0

abbrev pub block : ℕ
block = 1

abbrev pub char : ℕ
char = 2

abbrev pub dir : ℕ
dir = 3

abbrev pub reg : ℕ
reg = 4

abbrev pub symlink : ℕ
symlink = 7
