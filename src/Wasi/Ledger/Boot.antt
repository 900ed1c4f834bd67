-- ===== src/Wasi/Ledger/Boot.antt =====
-- The changes that `wasi_shim_init` of native/shim/wasi_shim.c makes keep the books right.
use pglite_ios.Common.{
  ℕ, zero, suc, ◌+◌, ◌≤◌, ◌<◌, ◌≡◌, refl, ap, true, List, arith, ℤ, pos, minus_one, is_neg, int_eq,
  int_eq_iff, Bytes,
}
use pglite_ios.Wasi.State.{FdEntry, Shim, max_fds}
use pglite_ios.Wasi.FdTable.{fd_set_entry}
use pglite_ios.Wasi.FdTable.Laws.{IsFree}
use pglite_ios.Wasi.Init.{cleared}
use pglite_ios.Wasi.Init.Dispose.{preopens_with}
use pglite_ios.Wasi.Ledger.{opened, released, one_if}
use pglite_ios.Wasi.Ledger.Sound.{owned_one, owned_in, Sound}
use pglite_ios.Wasi.Ledger.Changes.{Sound-slot, owned_one-free, EntryFits-free}
use pglite_ios.Wasi.Ledger.Listing.{Pending}

-- Nothing is open: each descriptor has been closed as often as it was opened.
pub record NoneOpen (w : Shim) : Type 0 where
  pub equal : (fd : ℕ) → opened w.os fd w.calls ≡ released fd w.calls

-- The slots from `k` on are free.
abbrev pub FreeFrom : ℕ → Shim → Type 0
FreeFrom k w = (i : ℕ) → k ≤ i → i < max_fds → IsFree w i

owned_in_free :
    (log : ℤ) (fds : ℕ → FdEntry) (n i fd : ℕ)
    → ((j : ℕ) → i ≤ j → j < i + n → is_neg (fds j).host_fd ≡ true)
    → owned_in log fds i n fd ≡ 0
unfolding owned_in
owned_in_free log fds zero i fd free = refl
owned_in_free log fds (suc n) i fd free = omega (
  arith,
  owned_one-free log (fds i) fd (free i (omega arith) (omega arith)),
  owned_in_free log fds n (i + 1) fd (λ j le lt. free j (omega arith) (omega arith)),
)

pub cleared-Sound : (argv envp : List Bytes) (w : Shim) → NoneOpen w → Sound (cleared argv envp w)
unfolding cleared preopens_with
cleared-Sound argv envp w none_open = record {
  balance = λ fd. omega (
    arith,
    none_open.equal fd,
    owned_in_free minus_one (cleared argv envp w).fds max_fds 0 fd (λ j le lt. refl),
  );
  entries = λ i lt. EntryFits-free (cleared argv envp w) ((cleared argv envp w).fds i) refl;
}

-- The log is opened while no slot is in use.
pub Sound-log :
    (w : Shim) (n : ℕ)
    → w.log_fd ≡ minus_one
    → FreeFrom 0 w
    → Pending n w
    → Sound (record w { log_fd = pos n })
Sound-log w n none_yet free p = record {
  balance = λ fd.
      let before = owned_in_free w.log_fd w.fds max_fds 0 fd (λ j le lt. free j le lt) in
      let after = owned_in_free (pos n) w.fds max_fds 0 fd (λ j le lt. free j le lt) in
      let log : one_if w.log_fd (pos fd) ≡ 0 = ap (λ l. one_if l (pos fd)) none_yet in
      omega (arith, p.balance fd, before, after, log);
  entries =
      λ i lt. EntryFits-free (record w { log_fd = pos n }) (w.fds i) (free i (omega arith) lt);
}

-- A slot gets the log's descriptor.
pub Sound-log_slot :
    (w : Shim) (k ft fl : ℕ)
    → k < max_fds
    → IsFree w k
    → Sound w
    → Sound (fd_set_entry k w.log_fd ft fl minus_one w)
unfolding fd_set_entry
Sound-log_slot w k ft fl within free s =
    let w' = fd_set_entry k w.log_fd ft fl minus_one w in
    let self = (int_eq_iff w.log_fd w.log_fd).1 refl in
    let same : (w'.fds k).host_fd ≡ w.log_fd = ground arith in
    let unmarked : (w'.fds k).preopen ≡ minus_one = ground arith in
    let is_log : int_eq (w'.fds k).host_fd w.log_fd ≡ true = rw same self in
    Sound-slot w w' k (ground arith) within (λ j ne. ground arith)
      (λ fd.
        let before = owned_one-free w.log_fd (w.fds k) fd free in
        let after : owned_one w.log_fd (w'.fds k) fd ≡ 0 = rw is_log refl in
        omega (arith, before, after))
      (λ fd at.
        (λ mark. absurd (ground (arith, mark, unmarked)), λ other _. absurd (cc (other, is_log))))
      s

-- A slot gets no descriptor.
pub Sound-no_slot :
    (w : Shim) (k ft fl : ℕ)
    → k < max_fds
    → IsFree w k
    → Sound w
    → Sound (fd_set_entry k minus_one ft fl minus_one w)
unfolding fd_set_entry
Sound-no_slot w k ft fl within free s =
    let w' = fd_set_entry k minus_one ft fl minus_one w in
    let gone : IsFree w' k = ground arith in
    Sound-slot w w' k (ground arith) within (λ j ne. ground arith)
      (λ fd.
        let before = owned_one-free w.log_fd (w.fds k) fd free in
        let after = owned_one-free w.log_fd (w'.fds k) fd gone in omega (arith, before, after))
      (EntryFits-free w (w'.fds k) gone) s
