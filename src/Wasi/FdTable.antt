-- ===== src/Wasi/FdTable.antt =====
-- The descriptor table of native/shim/wasi_shim.c: `fd_get`, `fd_alloc`, `fd_set_entry`.
pub mod Laws
use pglite_ios.Common.{
  ℕ, zero, suc, ◌+◌, Option, none, some, ◌==◌, leb, if◌then◌else◌, ℤ, minus_one, is_neg,
}
use pglite_ios.Wasi.Code
use pglite_ios.Wasi.Filetype
use pglite_ios.Wasi.Host.{Kind, is_dir, is_reg, is_lnk, is_chr, is_blk, is_none, Sys, got, failed}
use pglite_ios.Wasi.State.{FdEntry, Shim, Op, or_fail, max_fds}

-- NULL for a number out of range and for a free slot.
unfoldable pub fd_get : Shim → ℕ → Option FdEntry
fd_get w fd =
    if leb max_fds fd then none else if is_neg (w.fds fd).host_fd then none else some (w.fds fd)

-- The search of `fd_alloc`, with `n` slots left from slot `i`.
first_free : Shim → ℕ → ℕ → Option ℕ
first_free w zero i = none
first_free w (suc n) i =
    let rest = first_free w n (i + 1) in if is_neg (w.fds i).host_fd then some i else rest

pub fd_alloc : Shim → Option ℕ
unfolding first_free
fd_alloc w = first_free w max_fds 0

unfoldable pub mode_to_filetype : Kind → ℕ
mode_to_filetype is_dir = Filetype.dir
mode_to_filetype is_reg = Filetype.reg
mode_to_filetype is_lnk = Filetype.symlink
mode_to_filetype is_chr = Filetype.char
mode_to_filetype is_blk = Filetype.block
mode_to_filetype is_none = Filetype.unknown

-- `w->fds[i] = e`.
abbrev pub set_fd : ℕ → FdEntry → Shim → Shim
set_fd i e w = record w { fds = λ j. if i == j then e else w.fds j }

unfoldable pub fd_set_entry : ℕ → ℤ → ℕ → ℕ → ℤ → Shim → Shim
fd_set_entry fd host_fd ft fl preopen =
    set_fd fd (record { host_fd = host_fd; filetype = ft; fdflags = fl; preopen = preopen })

-- `wasi_fd_entry* e = fd_get(w, fd); if (!e) return WASI_EBADF;`
abbrev pub get_fd : ℕ → Op FdEntry
get_fd fd = or_fail Code.badf (λ w. fd_get w fd)

-- What `open` returns.
abbrev pub fd_or_minus_one : Sys ℕ → ℤ
fd_or_minus_one (got n) = ℤ.pos n
fd_or_minus_one (failed _) = minus_one
