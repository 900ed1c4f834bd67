-- ===== src/Wasi/Ledger/Sound.antt =====
-- The books of native/shim/wasi_shim.c on host descriptors: what was opened has been closed again,
-- or is the log's, a preopened directory's or that of a slot which the shim may close.
use pglite_ios.Common.{
  ℕ, zero, suc, ◌+◌, ◌≤◌, ◌<◌, ◌≡◌, ◌≢◌, refl, sym, ap, ◌∙◌, inl, inr, Bool-cases, true, false, not,
  ◌&&◌, ◌==◌, if◌then◌else◌, arith, ℤ, pos, is_neg, int_eq,
}
use pglite_ios.Wasi.Host.{Call, Os, History, got}
use pglite_ios.Wasi.State.{FdEntry, Shim, max_fds, store}
use pglite_ios.Wasi.Init.Dispose.{preopens_with}
use pglite_ios.Wasi.Ledger.{one_if, opened, released, opened-Neutral, released-Neutral}
use pglite_ios.Wasi.Requests.Stable.{IsNeutral}

-- One for an entry that has `fd` and that the shim may close.
abbrev pub owned_one : ℤ → FdEntry → ℕ → ℕ
owned_one log e fd =
    if not (int_eq e.host_fd log) && is_neg e.preopen then one_if e.host_fd (pos fd) else 0

-- How many of the `n` slots from `i` have `fd` in such an entry.
unfoldable pub owned_in : ℤ → (ℕ → FdEntry) → ℕ → ℕ → ℕ → ℕ
owned_in log fds i zero fd = 0
owned_in log fds i (suc n) fd = owned_one log (fds i) fd + owned_in log fds (i + 1) n fd

-- How many preopened directories have `fd`.
abbrev pub preopened : Shim → ℕ → ℕ
preopened w fd = preopens_with w.preopens 0 w.n_preopens (pos fd)

abbrev pub owned : Shim → ℕ → ℕ
owned w fd = owned_in w.log_fd w.fds 0 max_fds fd

-- How often the shim holds `fd`.
abbrev pub held : Shim → ℕ → ℕ
held w fd = one_if w.log_fd (pos fd) + preopened w fd + owned w fd

-- An entry that is marked as preopened has the descriptor of a preopened directory, and one that
-- the shim may close does not.
abbrev pub EntryFits : Shim → FdEntry → Type 0
EntryFits w e =
    (fd : ℕ)
    → e.host_fd ≡ pos fd
    → (is_neg e.preopen ≡ false → 0 < preopened w fd)
      × (int_eq e.host_fd w.log_fd ≡ false → is_neg e.preopen ≡ true → preopened w fd ≡ 0)

-- What was opened is closed or held, and the entries are as they are marked.
pub record Sound (w : Shim) : Type 0 where
  pub balance : (fd : ℕ) → opened w.os fd w.calls ≡ released fd w.calls + held w fd
  pub entries : (i : ℕ) → i < max_fds → EntryFits w (w.fds i)

-- POSIX: a descriptor that is opened is not open at that time.
abbrev pub GivesClosed : Os → Type 0
GivesClosed os =
    (h : History) (c : Call) (n : ℕ) → os.fd_of h c ≡ got n → opened os n h ≤ released n h

-- The shim does not hold a descriptor that is opened.
pub fresh-held :
    (w : Shim) (c : Call) (n : ℕ)
    → GivesClosed w.os
    → Sound w
    → w.os.fd_of w.calls c ≡ got n
    → held w n ≡ 0
fresh-held w c n fresh s e = omega (arith, fresh w.calls c n e, s.balance n)

pub Sound-IsNeutral : IsNeutral Sound
unfolding store
Sound-IsNeutral = record {
  call = λ c n w s. record {
    balance = λ fd.
        opened-Neutral w.os fd c w.calls n
        ∙ s.balance fd
        ∙ ap (λ k. k + held w fd) (sym (released-Neutral fd c w.calls n));
    entries = s.entries;
  };
  memory = λ p bs w s. record { balance = s.balance; entries = s.entries };
  exit = λ code w s. record { balance = s.balance; entries = s.entries };
}

owned_in_ext :
    (log : ℤ) (fds fds' : ℕ → FdEntry) (i n fd : ℕ)
    → ((j : ℕ) → i ≤ j → fds' j ≡ fds j)
    → owned_in log fds' i n fd ≡ owned_in log fds i n fd
unfolding owned_in
owned_in_ext log fds fds' i zero fd h = refl
owned_in_ext log fds fds' i (suc n) fd h =
    ap (λ (e : FdEntry). owned_one log e fd + owned_in log fds' (i + 1) n fd) (h i (omega arith))
    ∙ ap (λ k. owned_one log (fds i) fd + k)
        (owned_in_ext log fds fds' (i + 1) n fd (λ j le. h j (omega arith)))

-- The count after a change of slot `k`.
pub owned_in_update :
    (log : ℤ) (fds fds' : ℕ → FdEntry) (n i k fd : ℕ)
    → ((j : ℕ) → j ≢ k → fds' j ≡ fds j)
    → i ≤ k
    → k < i + n
    → owned_in log fds' i n fd + owned_one log (fds k) fd
      ≡ owned_in log fds i n fd + owned_one log (fds' k) fd
unfolding owned_in
owned_in_update log fds fds' zero i k fd h le lt = absurd (omega arith)
owned_in_update log fds fds' (suc n) i k fd h le lt = elim (Bool-cases (i == k)) [
  | inl e ↦
      let same : i ≡ k = ground arith in
      let rest = owned_in_ext log fds fds' (i + 1) n fd (λ j after. h j (λ q. omega (arith, q))) in
      let here = ap (λ j. owned_one log (fds j) fd) same in
      let here' = ap (λ j. owned_one log (fds' j) fd) same in omega (arith, rest, here, here')
  | inr e ↦
      let other : i ≢ k = ground arith in
      let here = ap (λ (x : FdEntry). owned_one log x fd) (h i other) in
      omega
        (arith, here, owned_in_update log fds fds' n (i + 1) k fd h (ground arith) (omega arith))
]
