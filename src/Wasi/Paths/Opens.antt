-- ===== src/Wasi/Paths/Opens.antt =====
-- How `path_open` of native/shim/wasi_shim.c ends, case by case.
use pglite_ios.Common.{ℕ, ◌≡◌, refl, inl, inr, none, some, arith, Bytes}
use mathlib.Core.Path.{subst}
use pglite_ios.Wasi.Memory.{Memory}
use pglite_ios.Wasi.Host.{openat}
use pglite_ios.Wasi.State.{FdEntry, Shim, max_fds}
use pglite_ios.Wasi.FdTable.{fd_alloc, fd_set_entry}
use pglite_ios.Wasi.FdTable.Laws.{Lowest, fd_alloc-Lowest}
use pglite_ios.Wasi.Paths.{open_flags, path_open}
use pglite_ios.Wasi.Paths.Laws.{with_entry, path_open-Branches}
use pglite_ios.Wasi.Paths.Flags.{open_flags-AreFlags}
use pglite_ios.Wasi.Paths.Cases.{
  IsFull, IsLowest, IsEntered, PathOpened, bad_directory, bad_path, table_full, refused, entered,
  fd_get-Closed, fd_get-IsOpen, gpath-BadPath, gpath-IsPath, Reported-put_u32,
}

fd_alloc-IsFull : (w : Shim) → fd_alloc w ≡ none → IsFull w
fd_alloc-IsFull w e j lt = subst (Lowest w 0 max_fds) e (fd_alloc-Lowest w) j (omega arith) lt

fd_alloc-IsLowest : (w : Shim) (slot : ℕ) → fd_alloc w ≡ some slot → IsLowest w slot
fd_alloc-IsLowest w slot e =
    let (a, b, c, d) = subst (Lowest w 0 max_fds) e (fd_alloc-Lowest w) in
    record { number = b; free = c; below = λ j lt. d j (omega arith) lt }

module _ (w : Shim) (m : Memory)
    (dirfd lookupflags path_p path_len oflags base inherit fdflags fd_p : ℕ) where
  abbrev entered_state : FdEntry → Bytes → ℕ → ℕ → Shim
  entered_state = with_entry w dirfd lookupflags path_p path_len oflags base inherit fdflags fd_p

  with_entry-IsEntered :
      (e : FdEntry) (path : Bytes) (slot n : ℕ) (w' : Shim)
      → w'.fds ≡ (entered_state e path slot n).fds
      → w'.calls ≡ (entered_state e path slot n).calls
      → IsEntered w slot n fdflags
          (openat e.host_fd path (open_flags lookupflags oflags base fdflags))
          w'
  unfolding fd_set_entry
  with_entry-IsEntered e path slot n w' f c = record {
    host_fd = rw f (ground arith);
    fdflags = rw f (ground arith);
    filetype = rw f (ground arith);
    unmarked = rw f (ground arith);
    others = λ j ne. rw f (ground (arith, ne));
    calls = c;
  }

  with_entry-mem :
      (e : FdEntry) (path : Bytes) (slot n : ℕ) → (entered_state e path slot n).mem ≡ w.mem
  unfolding fd_set_entry
  with_entry-mem e path slot n = refl

  -- For a guest with a memory, `path_open` returns EBADF where the directory's number is not open,
  -- whatever the path; else EFAULT where the path is too long or not in the memory; else EBADF
  -- where all slots are in use; else the translated `errno` where `openat` fails on the path up to
  -- its NUL, with the flags that the arguments stand for. Up to here nothing but that call has happened. Else the lowest free slot, and it
  -- alone, has the new descriptor; `path_open` returns 0 with the slot's number written at `fd_p`,
  -- or EFAULT where `fd_p` is not in the memory, with the slot filled all the same.
  pub path_open-PathOpened :
      w.mem ≡ some m
      → PathOpened w m dirfd lookupflags path_p path_len oflags base inherit fdflags fd_p
  path_open-PathOpened f =
      let cases =
        path_open-Branches w dirfd lookupflags path_p path_len oflags base inherit fdflags fd_p in
      elim cases [
        | inl (inl closed, r) ↦ bad_directory (fd_get-Closed w dirfd closed) r
        | inl (inr (e, path, d, p, full), r) ↦
            table_full e path (fd_get-IsOpen w dirfd e d) (gpath-IsPath w m path_p path_len f p)
              (fd_alloc-IsFull w full) r
        | inr (inl (e, d, p, r)) ↦
            bad_path e (fd_get-IsOpen w dirfd e d) (gpath-BadPath w m path_p path_len f p) r
        | inr (inr (inl (e, path, slot, x, d, p, free, no_file, r))) ↦
            refused e path (open_flags lookupflags oflags base fdflags) slot x
              (fd_get-IsOpen w dirfd e d) (open_flags-AreFlags lookupflags oflags base fdflags)
              (gpath-IsPath w m path_p path_len f p) (fd_alloc-IsLowest w slot free) no_file r
        | inr (inr (inr (e, path, slot, n, d, p, free, given, r))) ↦
            let lowest = fd_alloc-IsLowest w slot free in
            let (reported, fds, calls) =
              Reported-put_u32 w (entered_state e path slot n) m fd_p slot
                (path_open dirfd lookupflags path_p path_len oflags base inherit fdflags fd_p w) f
                (with_entry-mem e path slot n) lowest.number r in
            entered e path (open_flags lookupflags oflags base fdflags) slot n
              (fd_get-IsOpen w dirfd e d) (open_flags-AreFlags lookupflags oflags base fdflags)
              (gpath-IsPath w m path_p path_len f p) lowest given
              (with_entry-IsEntered e path slot n
                (path_open dirfd lookupflags path_p path_len oflags base inherit fdflags fd_p w).1
                fds calls)
              reported
      ]
