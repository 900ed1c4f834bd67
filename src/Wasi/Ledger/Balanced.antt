-- ===== src/Wasi/Ledger/Balanced.antt =====
-- Over a whole life of the shim of native/shim/wasi_shim.c, from `wasi_shim_init` over the guest's
-- imports to `wasi_shim_dispose`, each descriptor that was opened is closed, as often as opened.
use pglite_ios.Common.{
  ℕ, zero, suc, ◌+◌, ◌≤◌, ◌<◌, ◌≡◌, refl, ap, ◌∙◌, inl, inr, Bool-cases, true, false, List,
  if◌then◌else◌, arith, Bytes, ℤ, pos, int_eq, int_eq_iff,
}
use mathlib.Core.Path.{ap₂}
use pglite_ios.Common.{some}
use pglite_ios.Wasi.Memory.{Memory}
use pglite_ios.Wasi.State.{FdEntry, Shim, max_fds}
use pglite_ios.Wasi.Init.{wasi_shim_init, wasi_shim_dispose}
use pglite_ios.Wasi.Init.Dispose.{slots_with, is_kept, wasi_shim_dispose-IsDisposed}
use pglite_ios.Wasi.Requests.{Request, serve}
use pglite_ios.Wasi.Ledger.{opened, one_if}
use pglite_ios.Wasi.Ledger.Sound.{owned_one, owned_in, owned, EntryFits, Sound, GivesClosed}
use pglite_ios.Wasi.Ledger.Boot.{NoneOpen}
use pglite_ios.Wasi.Ledger.Starts.{wasi_shim_init-Settles}
use pglite_ios.Wasi.Ledger.Runs.{serve-Sound}
use pglite_ios.Wasi.Ledger.Closing.{wasi_shim_dispose-OnlyCloses}

owned_in-none :
    (log : ℤ) (fds : ℕ → FdEntry) (n i fd : ℕ)
    → ((j : ℕ) → i ≤ j → j < i + n → owned_one log (fds j) fd ≡ 0)
    → owned_in log fds i n fd ≡ 0
unfolding owned_in
owned_in-none log fds zero i fd h = refl
owned_in-none log fds (suc n) i fd h = omega (
  arith,
  h i (omega arith) (omega arith),
  owned_in-none log fds n (i + 1) fd (λ j le lt. h j (omega arith) (omega arith)),
)

owned_in-slots_with :
    (log : ℤ) (fds : ℕ → FdEntry) (n i fd : ℕ)
    → ((j : ℕ) → i ≤ j → j < i + n → owned_one log (fds j) fd ≡ one_if (fds j).host_fd (pos fd))
    → owned_in log fds i n fd ≡ slots_with fds i n (pos fd)
unfolding owned_in slots_with
owned_in-slots_with log fds zero i fd h = refl
owned_in-slots_with log fds (suc n) i fd h =
    ap₂ ◌+◌ (h i (omega arith) (omega arith))
      (owned_in-slots_with log fds n (i + 1) fd (λ j le lt. h j (omega arith) (omega arith)))

module _ (w : Shim) (fd : ℕ) where
  -- A slot whose descriptor is the log's or a preopened directory's is not the shim's to close.
  kept_slot :
      (e : FdEntry) → EntryFits w e → is_kept w (pos fd) ≡ true → owned_one w.log_fd e fd ≡ 0
  kept_slot e fits kept = elim (Bool-cases (int_eq e.host_fd (pos fd))) [
    | inr apart ↦ ground (arith, apart)
    | inl same ↦
        let at = (int_eq_iff e.host_fd (pos fd)).0 same in
        let kept' = kept in
        let fits' = fits fd at in
        rw at (ground (arith, kept', ap (λ x. int_eq x w.log_fd) at, fits'.0, fits'.1))
  ]

  -- Any other is.
  other_slot :
      (e : FdEntry)
      → EntryFits w e
      → is_kept w (pos fd) ≡ false
      → owned_one w.log_fd e fd ≡ one_if e.host_fd (pos fd)
  other_slot e fits other = elim (Bool-cases (int_eq e.host_fd (pos fd))) [
    | inr apart ↦ ground (arith, apart)
    | inl same ↦
        let at = (int_eq_iff e.host_fd (pos fd)).0 same in
        let other' = other in
        let fits' = fits fd at in
        rw at (ground (arith, other', ap (λ x. int_eq x w.log_fd) at, fits'.0, fits'.1))
  ]

  owned-kept :
      Sound w → owned w fd ≡ (if is_kept w (pos fd) then 0 else slots_with w.fds 0 max_fds (pos fd))
  owned-kept s = elim (Bool-cases (is_kept w (pos fd))) [
    | inl kept ↦
        owned_in-none w.log_fd w.fds max_fds 0 fd
          (λ j le lt. kept_slot (w.fds j) (s.entries j lt) kept)
        ∙ rw kept refl
    | inr other ↦
        owned_in-slots_with w.log_fd w.fds max_fds 0 fd
          (λ j le lt. other_slot (w.fds j) (s.entries j lt) other)
        ∙ rw other refl
  ]

-- Once the shim is disposed of, the books are empty.
pub dispose-NoneOpen : (w : Shim) → Sound w → NoneOpen (wasi_shim_dispose w)
dispose-NoneOpen w s =
    let w' = wasi_shim_dispose w in
    let only = wasi_shim_dispose-OnlyCloses w in
    let d = wasi_shim_dispose-IsDisposed w in
    record {
      equal = λ fd.
          ap (λ os. opened os fd w'.calls) only.os
          ∙ only.opens w.os fd
          ∙ omega (arith, s.balance fd, only.count fd, d.closes (pos fd) refl, owned-kept w fd s);
    }

-- The guest's memory, which the bridge sets once the module is instantiated.
abbrev pub with_memory : Memory → Shim → Shim
with_memory m w = record w { mem = some m }

-- Where nothing is open at first, and the system opens no descriptor that is open already: after
-- `wasi_shim_init`, whether it succeeds or not, any imports that the guest calls on its memory, in
-- any order and with any arguments, and `wasi_shim_dispose`, each descriptor has been closed
-- exactly as often as it was opened.
pub whole_life-NoneOpen :
    (root : Bytes) (argv envp : List Bytes) (m : Memory) (rs : List Request) (w : Shim)
    → GivesClosed w.os
    → NoneOpen w
    → NoneOpen (wasi_shim_dispose (serve rs (with_memory m (wasi_shim_init root argv envp w).1)))
whole_life-NoneOpen root argv envp m rs w fresh none_open =
    let w1 = (wasi_shim_init root argv envp w).1 in
    let (s1, fresh1) = wasi_shim_init-Settles root argv envp w fresh none_open in
    let s2 : Sound (with_memory m w1) = record { balance = s1.balance; entries = s1.entries } in
    dispose-NoneOpen (serve rs (with_memory m w1)) (serve-Sound rs (with_memory m w1) fresh1 s2)
