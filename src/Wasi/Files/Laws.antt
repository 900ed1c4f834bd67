-- ===== src/Wasi/Files/Laws.antt =====
-- Who holds which descriptor: `fd_close` and `fd_renumber` of native/shim/wasi_shim.c.
use pglite_ios.Common.{
  ℕ, ◌<◌, ◌≡◌, ◌≢◌, true, false, not, ◌&&◌, if◌then◌else◌, Option, Option-cases, none, some, ◌∷◌,
  arith, inl, inr, is_neg, int_eq, ℤ,
}
use pglite_ios.Wasi.Host.{close}
use pglite_ios.Wasi.State.{FdEntry, Shim, max_fds, ok, err, ◌>>=◌}
use pglite_ios.Wasi.FdTable.{fd_get}
use pglite_ios.Wasi.FdTable.Laws.{IsFree, IsUsed}
use pglite_ios.Wasi.Files.{fd_close, fd_renumber}

-- Slot `i` holds a descriptor that is the shim's to close.
abbrev pub Owned : Shim → ℕ → Type 0
Owned w i =
    (i < max_fds)
    × IsUsed w i
    × (int_eq (w.fds i).host_fd w.log_fd ≡ false)
    × (is_neg (w.fds i).preopen ≡ true)

abbrev pub holds : Shim → ℕ → ℤ
holds w i = (w.fds i).host_fd

-- No descriptor stands in two slots, but the log's and those of preopened directories.
pub record IsDistinct (w : Shim) : Type 0 where
  pub apart : (i j : ℕ) → i ≢ j → Owned w i → Owned w j → holds w i ≢ holds w j

pub fd_close-IsDistinct : (w : Shim) (fd : ℕ) → IsDistinct w → IsDistinct (fd_close fd w).1
unfolding fd_close ◌>>=◌
fd_close-IsDistinct w fd d = record { apart = λ i j ne p q. ground (arith, d.apart i j) }

pub fd_renumber-IsDistinct :
    (w : Shim) (from to : ℕ) → IsDistinct w → IsDistinct (fd_renumber from to w).1
unfolding fd_renumber ◌>>=◌
fd_renumber-IsDistinct w from to d = record {
  apart = λ i j ne p q. ground (arith, d.apart i j, d.apart from j, d.apart i from);
}

-- What `fd_close` has done to `w` when it returns: the slot is free, no other slot has changed,
-- and one `close` has been called, unless the descriptor is the log's or a preopened directory's.
pub record IsClosed (w : Shim) (fd : ℕ) (e : FdEntry) (w' : Shim) : Type 0 where
  pub freed : IsFree w' fd
  pub unmarked : is_neg (w'.fds fd).preopen ≡ true
  pub others : (j : ℕ) → j ≢ fd → w'.fds j ≡ w.fds j
  pub called : w'.calls ≡ (
      if not (int_eq e.host_fd w.log_fd) && is_neg e.preopen
      then close e.host_fd ∷ w.calls
      else w.calls)

abbrev pub Closes : Shim → ℕ → Option FdEntry → Type 0
Closes w fd none = fd_close fd w ≡ (err 8, w)
Closes w fd (some e) = ((fd_close fd w).0 ≡ ok tt) × IsClosed w fd e (fd_close fd w).1

-- `fd_close` of a number with no open entry returns EBADF and changes nothing; of any other it
-- returns 0, frees that slot alone, and closes the host's descriptor once, but never the log's or
-- a preopened directory's.
pub fd_close-Closes : (w : Shim) (fd : ℕ) → Closes w fd (fd_get w fd)
unfolding fd_close ◌>>=◌
fd_close-Closes w fd = elim (Option-cases (fd_get w fd)) [
  | inl e ↦ rw e (ground arith)
  | inr (x, e) ↦ rw e (ground arith)
]

-- What `fd_renumber` has done: `to` has the entry of `from`, `from` is free, the others are as
-- they were, and the descriptor that `to` held is closed, unless it is the log's or preopened.
pub record IsMoved (w : Shim) (from to : ℕ) (e : FdEntry) (w' : Shim) : Type 0 where
  pub moved : w'.fds to ≡ e
  pub freed : IsFree w' from
  pub others : (j : ℕ) → j ≢ from → j ≢ to → w'.fds j ≡ w.fds j
  pub called : w'.calls ≡ (
      if not (is_neg (holds w to))
        && (not (int_eq (holds w to) w.log_fd) && is_neg (w.fds to).preopen)
      then close (holds w to) ∷ w.calls
      else w.calls)

pub fd_renumber-IsMoved :
    (w : Shim) (from to : ℕ) {e : FdEntry}
    → fd_get w from ≡ some e
    → to < max_fds
    → from ≢ to
    → ((fd_renumber from to w).0 ≡ ok tt) × IsMoved w from to e (fd_renumber from to w).1
unfolding fd_renumber fd_get ◌>>=◌
fd_renumber-IsMoved w from to h lt ne = ground arith

-- Renumbering an open entry onto its own number is no no-op: it returns 0, frees the slot, leaves
-- the others as they were, and closes its descriptor once, unless it is the log's or preopened:
-- then nothing is closed.
pub fd_renumber_self :
    (w : Shim) (fd : ℕ) {e : FdEntry}
    → fd_get w fd ≡ some e
    → ((fd_renumber fd fd w).0 ≡ ok tt) × IsClosed w fd e (fd_renumber fd fd w).1
unfolding fd_renumber fd_get ◌>>=◌
fd_renumber_self w fd h = ground arith
