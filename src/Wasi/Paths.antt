-- ===== src/Wasi/Paths.antt =====
-- `path_open` to `path_readlink` of native/shim/wasi_shim.c.
pub mod Laws
pub mod Flags
pub mod Cases
pub mod Opens
use pglite_ios.Common.{
  ℕ, true, false, not, ◌||◌, ◌&&◌, Option, none, some, ◌==◌, if◌then◌else◌, length, Bytes, pos,
  minus_one, u16, u32, bit,
}
use pglite_ios.Wasi.Code
use pglite_ios.Wasi.Filetype
use pglite_ios.Wasi.Host.{
  Access, OpenFlags, Stat, Sys, got, failed, rdonly, wronly, rdwr, openat, fstat, fstatat, mkdirat,
  unlinkat, renameat, symlinkat, readlinkat,
}
use pglite_ios.Wasi.State.{
  Shim, Handler, skip, modify, or_fail, ask, try, get_path, guest, put, put_u32, gptr, store, gpath,
  ◌>>=◌, ◌>>◌,
}
use pglite_ios.Wasi.FdTable.{fd_get, get_fd, fd_alloc, fd_set_entry, mode_to_filetype}
use pglite_ios.Wasi.Stats.{fill_filestat}

-- The rights FD_READ and FD_WRITE are bits 1 and 6.
unfoldable access_of : ℕ → Access
access_of rights_base =
    if bit 1 rights_base && bit 6 rights_base
    then rdwr
    else if bit 6 rights_base
    then wronly
    else rdonly

-- The flags that `path_open` hands to `openat`.
pub open_flags : ℕ → ℕ → ℕ → ℕ → OpenFlags
unfolding access_of
open_flags lookupflags oflags rights_base fdflags = record {
  access = access_of rights_base;
  creat = bit 0 oflags;
  directory = bit 1 oflags;
  excl = bit 2 oflags;
  trunc = bit 3 oflags;
  append = bit 0 fdflags;
  nonblock = bit 2 fdflags;
  sync = bit 4 fdflags || bit 3 fdflags;
  dsync = bit 1 fdflags;
  nofollow = not (bit 0 lookupflags);
}

-- `if (!fstat(hfd, &st)) ft = mode_to_filetype(st.st_mode);`
abbrev pub filetype_of : Sys Stat → ℕ
filetype_of (got st) = mode_to_filetype st.mode
filetype_of (failed _) = Filetype.unknown

unfoldable pub path_open : ℕ → ℕ → ℕ → ℕ → ℕ → ℕ → ℕ → ℕ → ℕ → Handler
path_open dirfd lookupflags path_p path_len oflags rights_base rights_inherit fdflags fd_p = do
  e ← get_fd dirfd
  path ← get_path path_p path_len
  slot ← or_fail Code.badf fd_alloc
  hfd ←
      try (λ os. os.fd_of)
        (openat e.host_fd path (open_flags lookupflags oflags rights_base fdflags))
  st ← ask (λ os. os.stat_of) (fstat (pos hfd))
  modify (fd_set_entry slot (pos hfd) (filetype_of st) (u16 fdflags) minus_one)
  put_u32 fd_p (u32 slot)

-- The flag of `fstatat` says whether AT_SYMLINK_NOFOLLOW is set.
unfoldable pub path_filestat_get : ℕ → ℕ → ℕ → ℕ → ℕ → Handler
unfolding fd_get gpath fill_filestat
path_filestat_get dirfd lookupflags path_p path_len stat_p = do
  e ← get_fd dirfd
  path ← get_path path_p path_len
  st ← try (λ os. os.stat_of) (fstatat e.host_fd path (not (bit 0 lookupflags)))
  dst ← guest stat_p 64
  put dst (fill_filestat st)

unfoldable pub path_create_directory : ℕ → ℕ → ℕ → Handler
unfolding fd_get gpath
path_create_directory dirfd path_p path_len = do
  e ← get_fd dirfd
  path ← get_path path_p path_len
  try (λ os. os.unit_of) (mkdirat e.host_fd path 0o755)

-- The flag of `unlinkat` says whether AT_REMOVEDIR is set.
unfoldable pub path_remove_directory : ℕ → ℕ → ℕ → Handler
unfolding fd_get gpath
path_remove_directory dirfd path_p path_len = do
  e ← get_fd dirfd
  path ← get_path path_p path_len
  try (λ os. os.unit_of) (unlinkat e.host_fd path true)

unfoldable pub path_unlink_file : ℕ → ℕ → ℕ → Handler
unfolding fd_get gpath
path_unlink_file dirfd path_p path_len = do
  e ← get_fd dirfd
  path ← get_path path_p path_len
  try (λ os. os.unit_of) (unlinkat e.host_fd path false)

unfoldable pub path_rename : ℕ → ℕ → ℕ → ℕ → ℕ → ℕ → Handler
unfolding fd_get gpath
path_rename old_dirfd old_p old_len new_dirfd new_p new_len = do
  eo ← get_fd old_dirfd
  en ← get_fd new_dirfd
  oldp ← get_path old_p old_len
  newp ← get_path new_p new_len
  try (λ os. os.unit_of) (renameat eo.host_fd oldp en.host_fd newp)

unfoldable pub path_symlink : ℕ → ℕ → ℕ → ℕ → ℕ → Handler
unfolding fd_get gpath
path_symlink target_p target_len dirfd link_p link_len = do
  e ← get_fd dirfd
  target ← get_path target_p target_len
  link ← get_path link_p link_len
  try (λ os. os.unit_of) (symlinkat target e.host_fd link)

-- `if (!dst && buf_len) return WASI_EFAULT;`
abbrev link_buffer : ℕ → ℕ → Shim → Option (Option ℕ)
link_buffer buf_p buf_len w = elim (gptr w buf_p buf_len) [
  | none ↦ if buf_len == 0 then some none else none
  | some p ↦ some (some p)
]

abbrev pub put_link : Option ℕ → Bytes → Handler
put_link none bs = skip
put_link (some p) bs = put p bs

unfoldable pub path_readlink : ℕ → ℕ → ℕ → ℕ → ℕ → ℕ → Handler
unfolding fd_get gpath
path_readlink dirfd path_p path_len buf_p buf_len used_p = do
  e ← get_fd dirfd
  path ← get_path path_p path_len
  dst ← or_fail Code.fault (link_buffer buf_p buf_len)
  target ← try (λ os. os.bytes_of) (readlinkat e.host_fd path buf_len)
  put_link dst target
  put_u32 used_p (u32 (length target))
