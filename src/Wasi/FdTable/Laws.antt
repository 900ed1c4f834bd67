-- ===== src/Wasi/FdTable/Laws.antt =====
-- The slot that `fd_alloc` of native/shim/wasi_shim.c finds, and what `fd_get` says of an entry.
use pglite_ios.Common.{
  ℕ, zero, suc, ◌+◌, ◌≤◌, ◌<◌, ◌≡◌, ◌↔◌, true, false, Option, none, some, arith, Bool-cases, inl,
  inr, is_neg,
}
use pglite_ios.Wasi.State.{FdEntry, Shim, max_fds}
use pglite_ios.Wasi.FdTable.{fd_get, first_free, fd_alloc}

abbrev pub IsFree : Shim → ℕ → Type 0
IsFree w i = is_neg (w.fds i).host_fd ≡ true

abbrev pub IsUsed : Shim → ℕ → Type 0
IsUsed w i = is_neg (w.fds i).host_fd ≡ false

-- The answer to a search of the slots from `lo` below `hi` for the first free one.
abbrev pub Lowest : Shim → ℕ → ℕ → Option ℕ → Type 0
Lowest w lo hi none = (k : ℕ) → lo ≤ k → k < hi → IsUsed w k
Lowest w lo hi (some i) = (lo ≤ i) × (i < hi) × IsFree w i × ((k : ℕ) → lo ≤ k → k < i → IsUsed w k)

Lowest-suc :
    (w : Shim) (lo hi : ℕ) (r : Option ℕ) → IsUsed w lo → Lowest w (lo + 1) hi r → Lowest w lo hi r
Lowest-suc w lo hi none used rest = λ k p q. ground (arith, rest k)
Lowest-suc w lo hi (some i) used rest =
    (omega arith, rest.1, rest.2, λ k p q. ground (arith, rest.3 k))

first_free-Lowest : (w : Shim) (n lo hi : ℕ) → lo + n ≡ hi → Lowest w lo hi (first_free w n lo)
unfolding first_free
first_free-Lowest w zero lo hi e = λ k p q. absurd (omega arith)
first_free-Lowest w (suc n) lo hi e = elim (Bool-cases (is_neg (w.fds lo).host_fd)) [
  | inl free ↦ rw free (omega arith, omega arith, free, λ k p q. absurd (omega arith))
  | inr used ↦
      let rest = first_free-Lowest w n (lo + 1) hi (omega arith) in
      rw used (Lowest-suc w lo hi (first_free w n (lo + 1)) used rest)
]

-- `fd_alloc` answers with the lowest free slot, and with NULL only where all 256 are in use.
pub fd_alloc-Lowest : (w : Shim) → Lowest w 0 max_fds (fd_alloc w)
unfolding fd_alloc
fd_alloc-Lowest w = first_free-Lowest w max_fds 0 max_fds (omega arith)

-- `fd_get` gives an entry exactly for the numbers of the slots in use.
pub fd_get_iff :
    (w : Shim) (fd : ℕ) (e : FdEntry)
    → (fd_get w fd ≡ some e) ↔ ((fd < max_fds) × IsUsed w fd × (w.fds fd ≡ e))
unfolding fd_get
fd_get_iff w fd e = ground arith
