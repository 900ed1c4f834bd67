-- ===== src/Wasi/Stats.antt =====
-- `fd_filestat_get`, `fd_prestat_get` and `fd_prestat_dir_name` of native/shim/wasi_shim.c.
pub mod Prestat
use pglite_ios.Common.{
  ℕ, Option, none, some, ◌∷◌, ◌++◌, ltb, if◌then◌else◌, length, replicate, Bytes, is_neg, to_nat,
  u32, le_bytes,
}
use pglite_ios.Wasi.Code
use pglite_ios.Wasi.Host.{Stat, fstat}
use pglite_ios.Wasi.State.{FdEntry, Shim, Op, Handler, fail, gets, or_fail, try, guest, put, ◌>>=◌}
use pglite_ios.Wasi.FdTable.{fd_get, get_fd, mode_to_filetype}
use pglite_ios.Wasi.Clocks.{nanoseconds}

-- The 64 bytes of a `filestat`.
unfoldable pub fill_filestat : Stat → Bytes
unfolding le_bytes mode_to_filetype nanoseconds
fill_filestat st =
    le_bytes 8 st.dev
    ++ le_bytes 8 st.ino
    ++ (mode_to_filetype st.mode ∷ replicate 7 0)
    ++ le_bytes 8 st.nlink
    ++ le_bytes 8 st.size
    ++ le_bytes 8 (nanoseconds st.atim)
    ++ le_bytes 8 (nanoseconds st.mtim)
    ++ le_bytes 8 (nanoseconds st.ctim)

unfoldable pub fd_filestat_get : ℕ → ℕ → Handler
unfolding fd_get fill_filestat
fd_filestat_get fd stat_p = do
  e ← get_fd fd
  st ← try (λ os. os.stat_of) (fstat e.host_fd)
  dst ← guest stat_p 64
  put dst (fill_filestat st)

-- `if (!e || e->preopen < 0) return WASI_EBADF;`
abbrev preopened : ℕ → Shim → Option FdEntry
preopened fd w = elim (fd_get w fd) [
  | none ↦ none
  | some e ↦ if is_neg e.preopen then none else some e
]

abbrev get_guest_path : ℕ → Op Bytes
get_guest_path fd = do
  e ← or_fail Code.badf (preopened fd)
  gets (λ w. (w.preopens (to_nat e.preopen)).guest_path)

unfoldable pub fd_prestat_get : ℕ → ℕ → Handler
unfolding fd_get le_bytes
fd_prestat_get fd prestat_p = do
  gp ← get_guest_path fd
  dst ← guest prestat_p 8
  put dst (replicate 4 0 ++ le_bytes 4 (u32 (length gp)))

unfoldable pub fd_prestat_dir_name : ℕ → ℕ → ℕ → Handler
unfolding fd_get
fd_prestat_dir_name fd path_p path_len = do
  gp ← get_guest_path fd
  (if ltb path_len (u32 (length gp))
      then fail Code.inval
      else (do dst ← guest path_p (u32 (length gp)); put dst gp))
