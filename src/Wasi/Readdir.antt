-- ===== src/Wasi/Readdir.antt =====
-- `fd_readdir` of native/shim/wasi_shim.c.
pub mod Steps
pub mod Releases
pub mod Closes
pub mod Records
pub mod Listing
pub mod Written
use pglite_ios.Common.{
  ℕ, ◌+◌, ◌-◌, ◌^◌, ◌||◌, Option, none, some, List, [], ◌∷◌, ◌++◌, ltb, ◌==◌, if◌then◌else◌, length,
  take, drop, replicate, min, Bytes, ℤ, pos, u32, u64, le_bytes,
}
use pglite_ios.Wasi.Code
use pglite_ios.Wasi.Errno.{wasi_errno}
use pglite_ios.Wasi.Filetype
use pglite_ios.Wasi.Host.{
  Kind, is_reg, is_dir, is_lnk, is_chr, is_blk, is_none, Dirent, Sys, got, failed, close, dup,
  fdopendir, closedir,
}
use pglite_ios.Wasi.State.{
  Op, Handler, pure, fail, skip, ask, try, tell_os, put, put_u32, gptr, ◌>>=◌, ◌>>◌,
}
use pglite_ios.Wasi.FdTable.{fd_get, get_fd}

unfoldable dirent_filetype : Kind → ℕ
dirent_filetype is_reg = Filetype.reg
dirent_filetype is_dir = Filetype.dir
dirent_filetype is_lnk = Filetype.symlink
dirent_filetype is_chr = Filetype.char
dirent_filetype is_blk = Filetype.block
dirent_filetype is_none = Filetype.unknown

-- `uint8_t head[24]`.
unfoldable dirent_head : ℕ → Dirent → Bytes
unfolding le_bytes dirent_filetype
dirent_head next de =
    le_bytes 8 next
    ++ le_bytes 8 de.ino
    ++ le_bytes 4 (u32 (length de.name))
    ++ (dirent_filetype de.kind ∷ replicate 3 0)

-- `if (!dst) { closedir(d); return WASI_EFAULT; }`, and the `memcpy`.
abbrev pub copied : ℤ → Bytes → Option ℕ → Handler
copied d bs none = do tell_os (closedir d); fail Code.fault
copied d bs (some dst) = put dst bs

unfoldable pub copy_or_close : ℤ → ℕ → Bytes → Handler
copy_or_close d off bs w = copied d bs (gptr w off (length bs)) w

-- `u32 remain = buf_len - used;`
abbrev remain : ℕ → ℕ → ℕ
remain buf_len used = u32 (buf_len + 2 ^ 32 - used)

-- The rest of a round, once the whole head is copied: `used` bytes are used.
abbrev copy_name_len : ℕ → ℕ → Dirent → ℕ
copy_name_len buf_len used de = min (remain buf_len used) (u32 (length de.name))

-- A NULL `dst` for no byte of the name is let through.
abbrev pub copied_name : ℤ → ℕ → Bytes → Option ℕ → Handler
copied_name d n name none = if n == 0 then skip else (do tell_os (closedir d); fail Code.fault)
copied_name d n name (some dst) = put dst (take n name)

unfoldable pub copy_name : ℤ → ℕ → ℕ → Dirent → Handler
copy_name d off n de w = copied_name d n de.name (gptr w off n) w

-- The rest of a round, once the whole head is copied; `rest` are the rounds that follow.
unfoldable name_round : ℤ → ℕ → ℕ → ℕ → Dirent → Op ℕ → Op ℕ
unfolding copy_name
name_round d buf_p buf_len used de rest = do
  let n = copy_name_len buf_len used de
  let used_name = u32 (used + n)
  copy_name d (u32 (buf_p + used)) n de
  (if ltb n (u32 (length de.name)) || used_name == buf_len then pure used_name else rest)

unfoldable head_round : ℤ → ℕ → ℕ → ℕ → ℕ → Dirent → Op ℕ → Op ℕ
unfolding dirent_head copy_or_close name_round
head_round d buf_p buf_len used next de rest = do
  let n = min (remain buf_len used) 24
  let used_head = u32 (used + n)
  copy_or_close d (u32 (buf_p + used)) (take n (dirent_head next de))
  (if ltb n 24 then pure used_head else name_round d buf_p buf_len used_head de rest)

-- The loop over the entries that are left; it returns `used`.
unfoldable pub readdir_loop : ℤ → ℕ → ℕ → ℕ → ℕ → List Dirent → Op ℕ
unfolding head_round
readdir_loop d buf_p buf_len used cookie [] = pure used
readdir_loop d buf_p buf_len used cookie (de ∷ des) =
    let next = u64 (cookie + 1) in
    let used_head = u32 (used + min (remain buf_len used) 24) in
    let used_name = u32 (used_head + copy_name_len buf_len used_head de) in
    head_round d buf_p buf_len used next de (readdir_loop d buf_p buf_len used_name next des)

abbrev pub opened_dir : ℤ → Sys (List Dirent) → Op (List Dirent)
opened_dir d (got des) = pure des
opened_dir d (failed e) = do tell_os (close d); fail (wasi_errno e)

unfoldable pub fd_readdir : ℕ → ℕ → ℕ → ℕ → ℕ → Handler
unfolding fd_get readdir_loop
fd_readdir fd buf_p buf_len cookie used_p = do
  e ← get_fd fd
  dup_fd ← try (λ os. os.fd_of) (dup e.host_fd)
  des ← ask (λ os. os.entries_of) (fdopendir (pos dup_fd)) >>= opened_dir (pos dup_fd)
  used ← readdir_loop (pos dup_fd) buf_p buf_len 0 cookie (drop cookie des)
  tell_os (closedir (pos dup_fd))
  put_u32 used_p used
