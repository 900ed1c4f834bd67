-- ===== src/Wasi/Readdir/Written.antt =====
-- What `fd_readdir` of native/shim/wasi_shim.c leaves in the guest's memory.
use pglite_ios.Common.{
  ℕ, zero, suc, ◌+◌, ◌-◌, ◌^◌, ◌≤◌, ◌<◌, ◌≡◌, refl, ◌∙◌, some, List, [], ◌∷◌, arith, length, take,
  drop, pos, le_bytes,
}
use pglite_ios.Wasi.Host.{Dirent, got, dup, fdopendir, closedir}
use pglite_ios.Wasi.FdTable.{fd_get}
use pglite_ios.Wasi.State.Steps.{called, ok-step, tell_os-step}
use pglite_ios.Wasi.Readdir.Steps.{finish, fd_readdir-opened}
use pglite_ios.Wasi.Memory.{Memory, poke}
use pglite_ios.Wasi.State.{FdEntry, Shim, ok, store, put_u32}
use pglite_ios.Wasi.State.Stores.{mem-store, size-poke, put_u32-store}
use pglite_ios.Wasi.Readdir.{readdir_loop, fd_readdir}
use pglite_ios.Wasi.Readdir.Records.{records, NamesFit}
use pglite_ios.Wasi.Readdir.Listing.{readdir_loop-listed}

NamesFit-drop : (n : ℕ) (des : List Dirent) → NamesFit des → NamesFit (drop n des)
NamesFit-drop zero des fits = fits
NamesFit-drop (suc n) [] fits = fits
NamesFit-drop (suc n) (de ∷ des) fits = NamesFit-drop n des fits.1

finish-store :
    (used_p d used : ℕ) (w : Shim) (m : Memory)
    → w.mem ≡ some m
    → used_p + 4 ≤ m.size
    → finish used_p (pos d) used w
      ≡ (ok tt, store used_p (le_bytes 4 used) (called (closedir (pos d)) w))
unfolding finish
finish-store used_p d used w m e inside =
    tell_os-step (λ _. put_u32 used_p used) w (closedir (pos d))
    ∙ put_u32-store (called (closedir (pos d)) w) m used_p used e inside

-- On an open descriptor whose directory opens, with a buffer and a count in a memory below 2 ^ 32
-- bytes and names that a 32-bit length can count, `fd_readdir` returns 0, with the records of the
-- entries from the cookie on, cut to the buffer, written to the buffer, and their length to the
-- count; but for the three calls on the directory, nothing else changes.
pub fd_readdir-records :
    (w : Shim) (m : Memory) (fd buf_p buf_len cookie used_p d : ℕ) {e : FdEntry} {des : List Dirent}
    → fd_get w fd ≡ some e
    → w.os.fd_of w.calls (dup e.host_fd) ≡ got d
    → w.os.entries_of (dup e.host_fd ∷ w.calls) (fdopendir (pos d)) ≡ got des
    → w.mem ≡ some m
    → m.size < 2 ^ 32
    → buf_p + buf_len ≤ m.size
    → used_p + 4 ≤ m.size
    → NamesFit des
    → fd_readdir fd buf_p buf_len cookie used_p w ≡ (
      ok tt,
      store used_p (le_bytes 4 (length (take buf_len (records cookie (drop cookie des))))) (
          called (closedir (pos d)) (
            store buf_p
              (take buf_len (records cookie (drop cookie des)))
              (called (fdopendir (pos d)) (called (dup e.host_fd) w)))),
    )
fd_readdir-records w m fd buf_p buf_len cookie used_p d {e = e} {des = des} f g h has small inside
      room fits =
    let w2 = called (fdopendir (pos d)) (called (dup e.host_fd) w) in
    let left = drop cookie des in
    let t = take buf_len (records cookie left) in
    let loop =
      readdir_loop-listed (pos d) buf_p buf_len left 0 cookie w2 m has inside small (omega arith)
        (NamesFit-drop cookie des fits) in
    let count : 0 + length t ≡ length t = omega arith in
    let whole : buf_len - 0 ≡ buf_len = omega arith in
    let start : buf_p + 0 ≡ buf_p = omega arith in
    let loop' = loop ∙ rw (whole, start, count) refl in
    fd_readdir-opened w fd buf_p buf_len cookie used_p d f g h
    ∙ ok-step (readdir_loop (pos d) buf_p buf_len 0 cookie left) (finish used_p (pos d)) w2
        (store buf_p t w2) (length t) loop'
    ∙ finish-store used_p d (length t) (store buf_p t w2) (poke m buf_p t)
        (mem-store w2 m buf_p t has) (omega (arith, size-poke m buf_p t))
