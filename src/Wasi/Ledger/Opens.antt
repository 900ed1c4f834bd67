-- ===== src/Wasi/Ledger/Opens.antt =====
-- `path_open` and `fd_fdstat_set_flags` of native/shim/wasi_shim.c keep the books on descriptors
-- right.
use pglite_ios.Common.{
  ℕ, ◌+◌, ◌<◌, ◌≡◌, ◌≢◌, sym, ap, ◌∙◌, inl, inr, ◌∷◌, arith, ℤ, pos, negsuc, minus_one, u32,
}
use mathlib.Core.Path.{subst}
use pglite_ios.Wasi.Errno.{Errno}
use pglite_ios.Wasi.Host.{Call, got, failed, fstat}
use pglite_ios.Wasi.State.{FdEntry, Shim, max_fds}
use pglite_ios.Wasi.State.Steps.{called}
use pglite_ios.Wasi.FdTable.{fd_set_entry}
use pglite_ios.Wasi.FdTable.Laws.{IsFree, fd_alloc-Lowest, Lowest}
use pglite_ios.Wasi.Paths.{path_open}
use pglite_ios.Wasi.Paths.Laws.{path_open-Branches, with_entry, open_call}
use pglite_ios.Wasi.Ledger.{
  Neutral, Opens, gives, opened, released, one_if, opened_failed, opened_got, opened-Neutral,
  released_open, released-Neutral,
}
use pglite_ios.Wasi.Ledger.Sound.{
  owned_one, preopened, held, Sound, GivesClosed, fresh-held, Sound-IsNeutral,
}
use pglite_ios.Wasi.Ledger.Changes.{Settled, Sound-slot, owned_one-free}
use pglite_ios.Wasi.Requests.Framed.{Framed}
use pglite_ios.Wasi.Requests.Stable.{Keeps-put_u32}

owned_one-new :
    (log : ℤ) (e : FdEntry) (n fd : ℕ)
    → e.host_fd ≡ pos n
    → e.preopen ≡ minus_one
    → one_if log (pos n) ≡ 0
    → owned_one log e fd ≡ gives (got n) fd
owned_one-new (pos a) e n fd new unmarked other = rw (new, unmarked) (ground (arith, other))
owned_one-new (negsuc a) e n fd new unmarked other = rw (new, unmarked) (ground (arith, other))

-- A new descriptor is put into a free slot, not marked as preopened.
pub Sound-opened :
    (w w' : Shim) (c : Call) (n k : ℕ)
    → GivesClosed w.os
    → w.os.fd_of w.calls c ≡ got n
    → Framed w w'
    → k < max_fds
    → IsFree w k
    → ((j : ℕ) → j ≢ k → w'.fds j ≡ w.fds j)
    → (w'.fds k).host_fd ≡ pos n
    → (w'.fds k).preopen ≡ minus_one
    → ((fd : ℕ) → opened w.os fd w'.calls ≡ gives (got n) fd + opened w.os fd w.calls)
    → ((fd : ℕ) → released fd w'.calls ≡ released fd w.calls)
    → Sound w
    → Sound w'
Sound-opened w w' c n k fresh given f within free others new unmarked more same s =
    let unheld = fresh-held w c n fresh s given in
    let settled : Settled w w' k = λ fd.
      let none_before = owned_one-free w.log_fd (w.fds k) fd free in
      let one : owned_one w.log_fd (w'.fds k) fd ≡ gives (got n) fd =
        owned_one-new w.log_fd (w'.fds k) n fd new unmarked (omega (arith, unheld)) in
      omega (arith, none_before, one, more fd, same fd) in
    Sound-slot w w' k f within others settled
      (λ fd at.
        let same_fd : fd ≡ n = ground (arith, at, new) in
        (
          λ mark. absurd (ground (arith, mark, unmarked)),
          λ _ _. omega (arith, unheld, ap (preopened w) same_fd),
        ))
      s

-- An attempt to open that fails.
pub Sound-failed :
    (w : Shim) (c : Call) (e : Errno)
    → Opens c
    → w.os.fd_of w.calls c ≡ failed e
    → Sound w
    → Sound (called c w)
Sound-failed w c e o f s = record {
  balance = λ fd.
      opened_failed w.os fd e c w.calls f
      ∙ s.balance fd
      ∙ ap (λ k. k + held w fd) (sym (released_open fd c w.calls o));
  entries = s.entries;
}

called-Neutral : (c : Call) → Neutral c → (w : Shim) → Sound w → Sound (called c w)
called-Neutral c n w s = Sound-IsNeutral.call c n w s

pub path_open-Sound :
    (w : Shim) (a b c d e f g h i : ℕ)
    → GivesClosed w.os
    → Sound w
    → Sound (path_open a b c d e f g h i w).1
unfolding fd_set_entry
path_open-Sound w a b c d e f g h i fresh s = elim (path_open-Branches w a b c d e f g h i) [
  | inl (_, r) ↦ rw r s
  | inr (inl (_, _, _, r)) ↦ rw r s
  | inr (inr (inl (x, path, slot, y, _, _, _, given, r))) ↦
      rw r (Sound-failed w (open_call w a b c d e f g h i x path) y tt given s)
  | inr (inr (inr (x, path, slot, n, _, _, free, given, r))) ↦
      let start = with_entry w a b c d e f g h i x path slot n in
      let c0 = open_call w a b c d e f g h i x path in
      let h1 = c0 ∷ w.calls in
      let lowest = subst (Lowest w 0 max_fds) free (fd_alloc-Lowest w) in
      rw r (
        (Keeps-put_u32 Sound-IsNeutral i (u32 slot)).at start (
          Sound-opened w start c0 n slot fresh given (ground arith) lowest.1 lowest.2
            (λ j ne. ground arith) (ground arith) (ground arith)
            (λ fd.
              opened-Neutral w.os fd (fstat (pos n)) h1 tt
              ∙ opened_got w.os fd n c0 w.calls tt given)
            (λ fd. released-Neutral fd (fstat (pos n)) h1 tt ∙ released_open fd c0 w.calls tt) s))
]
