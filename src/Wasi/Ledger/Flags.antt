-- ===== src/Wasi/Ledger/Flags.antt =====
-- `fd_fdstat_set_flags` of native/shim/wasi_shim.c keeps the books on descriptors right.
use pglite_ios.Common.{
  ℕ, zero, suc, ◌+◌, ◌≡◌, refl, sym, ap, ◌∙◌, not, ◌&&◌, if◌then◌else◌, arith, ℤ, pos, is_neg,
  int_eq,
}
use mathlib.Core.Path.{ap₂}
use pglite_ios.Wasi.State.{FdEntry, Shim, max_fds, modify}
use pglite_ios.Wasi.Keeps.{Keeps}
use pglite_ios.Wasi.FdTable.{set_fd}
use pglite_ios.Wasi.Files.{fd_fdstat_set_flags}
use pglite_ios.Wasi.Ledger.{released, one_if}
use pglite_ios.Wasi.Ledger.Sound.{owned_one, owned_in, preopened, Sound, Sound-IsNeutral}
use pglite_ios.Wasi.Requests.Stable.{neutral_rules}

owned_in_same :
    (log : ℤ) (fds fds' : ℕ → FdEntry) (i n fd : ℕ)
    → ((j : ℕ) → owned_one log (fds' j) fd ≡ owned_one log (fds j) fd)
    → owned_in log fds' i n fd ≡ owned_in log fds i n fd
unfolding owned_in
owned_in_same log fds fds' i zero fd h = refl
owned_in_same log fds fds' i (suc n) fd h =
    ap₂ ◌+◌ (h i) (owned_in_same log fds fds' (i + 1) n fd h)

module _ (w : Shim) (k flags : ℕ) where
  abbrev flagged : Shim
  flagged = set_fd k (record (w.fds k) { fdflags = flags }) w

  same_fd : (j : ℕ) → (flagged.fds j).host_fd ≡ (w.fds j).host_fd
  same_fd j = ground arith

  same_mark : (j : ℕ) → (flagged.fds j).preopen ≡ (w.fds j).preopen
  same_mark j = ground arith

  same_owned : (j fd : ℕ) → owned_one w.log_fd (flagged.fds j) fd ≡ owned_one w.log_fd (w.fds j) fd
  same_owned j fd =
      ap₂ (λ h p. if not (int_eq h w.log_fd) && is_neg p then one_if h (pos fd) else 0) (same_fd j)
        (same_mark j)

  flagged-Sound : Sound w → Sound flagged
  flagged-Sound s = record {
    balance = λ fd.
        s.balance fd
        ∙ ap (λ n. released fd w.calls + (one_if w.log_fd (pos fd) + preopened w fd + n))
            (sym (owned_in_same w.log_fd w.fds flagged.fds 0 max_fds fd (λ j. same_owned j fd)));
    entries = λ j lt fd at.
        let h = same_fd j in
        let p = ap is_neg (same_mark j) in
        let l = ap (λ x. int_eq x w.log_fd) h in
        let fits = s.entries j lt fd (sym h ∙ at) in
        (λ q. fits.0 (sym p ∙ q), λ a q. fits.1 (sym l ∙ a) (sym p ∙ q));
  }

Keeps-flags :
    (k flags : ℕ) → Keeps Sound (modify (λ w. set_fd k (record (w.fds k) { fdflags = flags }) w))
unfolding modify
Keeps-flags k flags = record { at = λ w s. flagged-Sound w k flags s }

pub fd_fdstat_set_flags-Sound :
    (w : Shim) (fd flags : ℕ) → Sound w → Sound (fd_fdstat_set_flags fd flags w).1
unfolding fd_fdstat_set_flags
fd_fdstat_set_flags-Sound w fd flags s =
    let keeps : Keeps Sound (fd_fdstat_set_flags fd flags) =
      search (neutral_rules, Keeps-flags, Sound-IsNeutral) depth 20 in
    keeps.at w s
