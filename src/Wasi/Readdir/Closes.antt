-- ===== src/Wasi/Readdir/Closes.antt =====
-- `fd_readdir` of native/shim/wasi_shim.c closes the directory that it opened.
use pglite_ios.Common.{
  ℕ, suc, ◌+◌, ◌≡◌, refl, ap, ◌∙◌, some, List, [], ◌∷◌, ℤ, pos, int_eq, arith, if◌then◌else◌,
}
use pglite_ios.Wasi.Host.{History, Dirent, got, dup, fdopendir, closedir}
use pglite_ios.Wasi.State.{FdEntry, Shim, store}
use pglite_ios.Wasi.Readdir.Releases.{Shuts, fd_readdir-shuts}
use pglite_ios.Wasi.FdTable.{fd_get}
use pglite_ios.Wasi.Readdir.{fd_readdir}

-- How often the directory has been closed.
unfoldable pub closed_dirs : ℤ → History → ℕ
closed_dirs d [] = 0
closed_dirs d (closedir x ∷ h) = (if int_eq x d then 1 else 0) + closed_dirs d h
closed_dirs d (_ ∷ h) = closed_dirs d h

closed_dirs_self :
    (d : ℕ) (h : History) → closed_dirs (pos d) (closedir (pos d) ∷ h) ≡ suc (closed_dirs (pos d) h)
unfolding closed_dirs
closed_dirs_self d h = ground arith

counted-Shuts :
    (d n : ℕ)
    → Shuts
        (pos d)
        (λ w. closed_dirs (pos d) w.calls ≡ n)
        (λ w. closed_dirs (pos d) w.calls ≡ suc n)
unfolding store
counted-Shuts d n = record {
  memory = λ p bs w h. h;
  memory_after = λ p bs w h. h;
  close = λ w h. closed_dirs_self d w.calls ∙ ap suc h;
}

-- Once `fd_readdir` has opened the directory, it has closed it exactly once more when it returns,
-- whether all entries fitted, the buffer was full or the buffer lay outside the memory.
pub closed_dirs-fd_readdir :
    (w : Shim) (fd buf_p buf_len cookie used_p d : ℕ) {e : FdEntry} {des : List Dirent}
    → fd_get w fd ≡ some e
    → w.os.fd_of w.calls (dup e.host_fd) ≡ got d
    → w.os.entries_of (dup e.host_fd ∷ w.calls) (fdopendir (pos d)) ≡ got des
    → closed_dirs (pos d) (fd_readdir fd buf_p buf_len cookie used_p w).1.calls
      ≡ suc (closed_dirs (pos d) w.calls)
closed_dirs-fd_readdir w fd buf_p buf_len cookie used_p d f g h =
    fd_readdir-shuts (counted-Shuts d (closed_dirs (pos d) w.calls)) w fd buf_p buf_len cookie
      used_p f g h (unfold closed_dirs in refl)
