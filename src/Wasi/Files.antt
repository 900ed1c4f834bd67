-- ===== src/Wasi/Files.antt =====
-- `fd_close` to `fd_fdstat_set_flags` and `fd_filestat_set_size` of native/shim/wasi_shim.c.
pub mod Laws
pub mod Reads
pub mod Copies
use pglite_ios.Common.{
  ℕ, ◌+◌, Bool, not, ◌&&◌, ◌||◌, Option, none, some, List, [], ◌∷◌, ◌++◌, ltb, leb, ◌==◌,
  if◌then◌else◌, length, replicate, Bytes, ℤ, pos, minus_one, is_neg, int_eq, int_lt, int64, u16,
  u32, u64, bit, le_bytes,
}
use pglite_ios.Wasi.Code
use pglite_ios.Wasi.Host.{
  Call, Whence, seek_set, seek_cur, seek_end, close, readv, writev, preadv, pwritev, lseek, fsync,
  fstat, ftruncate, fcntl_setfl,
}
use pglite_ios.Wasi.State.{
  FdEntry, Shim, Op, Handler, fail, gets, modify, skip, or_fail, try, tell_os, when, guest, put,
  put_u32, put_u64, gptr, store, max_fds, ◌>>=◌, ◌>>◌,
}
use pglite_ios.Wasi.FdTable.{fd_get, get_fd, set_fd}
use pglite_ios.Wasi.Iovec.{get_iovs, lengths, iovs_to_host, gather, scatter}

-- May the shim close this descriptor, or is it the log or a preopened directory?
abbrev pub is_owned : Shim → FdEntry → Bool
is_owned w e = not (int_eq e.host_fd w.log_fd) && is_neg e.preopen

-- `e->host_fd = -1; e->preopen = -1;`
abbrev pub free_slot : ℕ → Shim → Shim
free_slot i w = set_fd i (record (w.fds i) { host_fd = minus_one; preopen = minus_one }) w

unfoldable pub fd_close : ℕ → Handler
unfolding fd_get
fd_close fd = do
  e ← get_fd fd
  owned ← gets (λ w. is_owned w e)
  modify (λ w. set_fd fd (record (w.fds fd) { host_fd = minus_one }) w)
  when owned (tell_os (close e.host_fd))
  modify (free_slot fd)

-- `if (!ef || to >= WASI_SHIM_MAX_FDS)`.
abbrev renumber_source : ℕ → ℕ → Shim → Option FdEntry
renumber_source from to w = elim (fd_get w from) [
  | none ↦ none
  | some e ↦ if leb max_fds to then none else some e
]

unfoldable pub fd_renumber : ℕ → ℕ → Handler
unfolding fd_get
fd_renumber from to = do
  ef ← or_fail Code.badf (renumber_source from to)
  et ← gets (λ w. w.fds to)
  closing ← gets (λ w. not (is_neg et.host_fd) && is_owned w et)
  when closing (tell_os (close et.host_fd))
  modify (λ w. set_fd to (w.fds from) w)
  modify (free_slot from)

unfoldable pub fd_read : ℕ → ℕ → ℕ → ℕ → Handler
unfolding fd_get iovs_to_host
fd_read fd iovs_p n nread_p = do
  e ← get_fd fd
  iovs ← get_iovs iovs_p n
  bytes ← try (λ os. os.bytes_of) (readv e.host_fd (lengths iovs))
  modify (scatter iovs bytes)
  put_u32 nread_p (u32 (length bytes))

unfoldable pub fd_write : ℕ → ℕ → ℕ → ℕ → Handler
unfolding fd_get iovs_to_host
fd_write fd iovs_p n nwritten_p = do
  e ← get_fd fd
  iovs ← get_iovs iovs_p n
  bufs ← gets (λ w. gather w iovs)
  r ← try (λ os. os.count_of) (writev e.host_fd bufs)
  put_u32 nwritten_p (u32 r)

unfoldable pub fd_pread : ℕ → ℕ → ℕ → ℕ → ℕ → Handler
unfolding fd_get iovs_to_host
fd_pread fd iovs_p n off nread_p = do
  e ← get_fd fd
  iovs ← get_iovs iovs_p n
  bytes ← try (λ os. os.bytes_of) (preadv e.host_fd (lengths iovs) (int64 off))
  modify (scatter iovs bytes)
  put_u32 nread_p (u32 (length bytes))

unfoldable pub fd_pwrite : ℕ → ℕ → ℕ → ℕ → ℕ → Handler
unfolding fd_get iovs_to_host
fd_pwrite fd iovs_p n off nwritten_p = do
  e ← get_fd fd
  iovs ← get_iovs iovs_p n
  bufs ← gets (λ w. gather w iovs)
  r ← try (λ os. os.count_of) (pwritev e.host_fd bufs (int64 off))
  put_u32 nwritten_p (u32 r)

-- preview1: SET 0, CUR 1, END 2.
unfoldable whence_of : ℕ → Option Whence
whence_of whence =
    if whence == 0
    then some seek_set
    else if whence == 1
    then some seek_cur
    else if whence == 2
    then some seek_end
    else none

unfoldable pub fd_seek : ℕ → ℕ → ℕ → ℕ → Handler
unfolding fd_get whence_of
fd_seek fd offset whence newoff_p = do
  e ← get_fd fd
  wh ← or_fail Code.inval (λ _. whence_of whence)
  r ← try (λ os. os.count_of) (lseek e.host_fd (int64 offset) wh)
  put_u64 newoff_p (u64 r)

unfoldable pub fd_tell : ℕ → ℕ → Handler
unfolding fd_get
fd_tell fd off_p = do
  e ← get_fd fd
  r ← try (λ os. os.count_of) (lseek e.host_fd (pos 0) seek_cur)
  put_u64 off_p (u64 r)

unfoldable pub fd_sync : ℕ → Handler
unfolding fd_get
fd_sync fd = do e ← get_fd fd; try (λ os. os.unit_of) (fsync e.host_fd)

-- The branch with F_FULLFSYNC, which Darwin defines.
unfoldable pub fd_datasync : ℕ → Handler
unfolding fd_get
fd_datasync fd = do e ← get_fd fd; try (λ os. os.unit_of) (fsync e.host_fd)

unfoldable pub fd_advise : ℕ → ℕ → ℕ → ℕ → Handler
unfolding fd_get
fd_advise fd off len advice = do _ ← get_fd fd; skip

unfoldable pub fd_allocate : ℕ → ℕ → ℕ → Handler
unfolding fd_get
fd_allocate fd off len = do
  e ← get_fd fd
  st ← try (λ os. os.stat_of) (fstat e.host_fd)
  let want = int64 (u64 (off + len))
  when (int_lt (pos st.size) want) (try (λ os. os.unit_of) (ftruncate e.host_fd want))

-- The 24 bytes of an `fdstat`: all rights are granted.
unfoldable fdstat_bytes : FdEntry → Bytes
unfolding le_bytes
fdstat_bytes e =
    e.filetype ∷ 0 ∷ le_bytes 2 e.fdflags ++ replicate 4 0 ++ replicate 8 255 ++ replicate 8 255

unfoldable pub fd_fdstat_get : ℕ → ℕ → Handler
unfolding fd_get fdstat_bytes
fd_fdstat_get fd stat_p = do e ← get_fd fd; dst ← guest stat_p 24; put dst (fdstat_bytes e)

-- APPEND is bit 0 and NONBLOCK bit 2.
unfoldable pub fd_fdstat_set_flags : ℕ → ℕ → Handler
unfolding fd_get
fd_fdstat_set_flags fd flags = do
  e ← get_fd fd
  try (λ os. os.unit_of) (fcntl_setfl e.host_fd (bit 0 flags) (bit 2 flags))
  modify (λ w. set_fd fd (record (w.fds fd) { fdflags = u16 flags }) w)

unfoldable pub fd_filestat_set_size : ℕ → ℕ → Handler
unfolding fd_get
fd_filestat_set_size fd size = do
  e ← get_fd fd
  try (λ os. os.unit_of) (ftruncate e.host_fd (int64 size))
