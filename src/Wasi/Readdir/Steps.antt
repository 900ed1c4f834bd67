-- ===== src/Wasi/Readdir/Steps.antt =====
-- `fd_readdir` of native/shim/wasi_shim.c once the directory is open.
use pglite_ios.Common.{ℕ, ◌≡◌, ap, ◌∙◌, List, ◌∷◌, ℤ, pos, none, some, arith, drop}
use pglite_ios.Wasi.Host.{Dirent, got, failed, close, dup, fdopendir, closedir}
use pglite_ios.Wasi.Errno.{Errno, wasi_errno}
use pglite_ios.Wasi.State.{FdEntry, Shim, Res, err, Handler, ask, tell_os, put_u32, ◌>>=◌, ◌>>◌}
use pglite_ios.Wasi.Code
use pglite_ios.Wasi.State.Steps.{called, or_fail-some, or_fail-none, try-got, try-failed}
use pglite_ios.Wasi.FdTable.{fd_get}
use pglite_ios.Wasi.Readdir.{opened_dir, readdir_loop, fd_readdir}

-- The end of the handler, after the loop.
unfoldable pub finish : ℕ → ℤ → ℕ → Handler
finish used_p d used = do tell_os (closedir d); put_u32 used_p used

opened-step :
    (w : Shim) (d : ℤ) {des : List Dirent} (k : List Dirent → Handler)
    → w.os.entries_of w.calls (fdopendir d) ≡ got des
    → (ask (λ os. os.entries_of) (fdopendir d) >>= opened_dir d >>= k) w
      ≡ k des (called (fdopendir d) w)
unfolding ◌>>=◌
opened-step w d k h = ground (arith, h)

closed-step :
    (w : Shim) (d : ℤ) {x : Errno} (k : List Dirent → Handler)
    → w.os.entries_of w.calls (fdopendir d) ≡ failed x
    → (ask (λ os. os.entries_of) (fdopendir d) >>= opened_dir d >>= k) w
      ≡ (err (wasi_errno x), called (close d) (called (fdopendir d) w))
unfolding ◌>>=◌
closed-step w d k h = ground (arith, h)

pub fd_readdir-opened :
    (w : Shim) (fd buf_p buf_len cookie used_p d : ℕ) {e : FdEntry} {des : List Dirent}
    → fd_get w fd ≡ some e
    → w.os.fd_of w.calls (dup e.host_fd) ≡ got d
    → w.os.entries_of (dup e.host_fd ∷ w.calls) (fdopendir (pos d)) ≡ got des
    → fd_readdir fd buf_p buf_len cookie used_p w
      ≡ (readdir_loop (pos d) buf_p buf_len 0 cookie (drop cookie des) >>= finish used_p (pos d))
          (called (fdopendir (pos d)) (called (dup e.host_fd) w))
unfolding fd_readdir finish
fd_readdir-opened w fd buf_p buf_len cookie used_p d {e = e} {des = des} f g h =
    let w1 = called (dup e.host_fd) w in
    or_fail-some _ w Code.badf (λ w. fd_get w fd) e f
    ∙ try-got _ w (λ os. os.fd_of) (dup e.host_fd) d g
    ∙ opened-step w1 (pos d)
        (λ des.
          readdir_loop (pos d) buf_p buf_len 0 cookie (drop cookie des) >>= finish used_p (pos d))
        h

module _ (w : Shim) (fd buf_p buf_len cookie used_p : ℕ) where
  abbrev run : Res (Unit {0}) × Shim
  run = fd_readdir fd buf_p buf_len cookie used_p w

  pub fd_readdir-no_entry : fd_get w fd ≡ none → run.1 ≡ w
  unfolding fd_readdir
  fd_readdir-no_entry f = ap (λ (r : Res (Unit {0}) × Shim). r.1) (or_fail-none _ w Code.badf _ f)

  pub fd_readdir-no_dup :
      {e : FdEntry} {x : Errno}
      → fd_get w fd ≡ some e
      → w.os.fd_of w.calls (dup e.host_fd) ≡ failed x
      → run.1 ≡ called (dup e.host_fd) w
  unfolding fd_readdir
  fd_readdir-no_dup {e} {x} f g =
      ap (λ (r : Res (Unit {0}) × Shim). r.1)
        (or_fail-some _ w Code.badf _ e f ∙ try-failed _ w (λ os. os.fd_of) (dup e.host_fd) x g)

  pub fd_readdir-no_dir :
      (d : ℕ) {e : FdEntry} {x : Errno}
      → fd_get w fd ≡ some e
      → w.os.fd_of w.calls (dup e.host_fd) ≡ got d
      → w.os.entries_of (dup e.host_fd ∷ w.calls) (fdopendir (pos d)) ≡ failed x
      → run.1 ≡ called (close (pos d)) (called (fdopendir (pos d)) (called (dup e.host_fd) w))
  unfolding fd_readdir
  fd_readdir-no_dir d {e} {x} f g h =
      ap (λ (r : Res (Unit {0}) × Shim). r.1)
        (or_fail-some _ w Code.badf _ e f
          ∙ try-got _ w (λ os. os.fd_of) (dup e.host_fd) d g
          ∙ closed-step (called (dup e.host_fd) w) (pos d) _ h)
