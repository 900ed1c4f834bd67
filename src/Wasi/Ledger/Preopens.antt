-- ===== src/Wasi/Ledger/Preopens.antt =====
-- A preopened directory that `wasi_shim_init` of native/shim/wasi_shim.c adds keeps the books right.
use pglite_ios.Common.{
  ℕ, zero, suc, ◌+◌, ◌≤◌, ◌<◌, ◌≡◌, ◌≢◌, refl, sym, ap, ◌∙◌, inl, inr, Bool-cases, true, false,
  ◌==◌, if◌then◌else◌, arith, ℤ, pos, is_neg, int_eq,
}
use mathlib.Core.Path.{subst, ap₂}
use pglite_ios.Wasi.Host.{Call, got}
use pglite_ios.Wasi.State.{FdEntry, Preopen, Shim, max_fds}
use pglite_ios.Wasi.State.Steps.{called}
use pglite_ios.Wasi.FdTable.Laws.{IsFree}
use pglite_ios.Wasi.Init.Dispose.{preopens_with, preopens_with-snoc}
use pglite_ios.Wasi.Ledger.{Opens, gives, one_if, opened_got, released_open}
use pglite_ios.Wasi.Ledger.Sound.{
  owned_one, owned_in, owned_in_update, preopened, held, EntryFits, Sound, GivesClosed, fresh-held,
}
use pglite_ios.Wasi.Ledger.Changes.{owned_one-free}

pub preopens_with_ext :
    (ps ps' : ℕ → Preopen) (n j : ℕ) (fd : ℤ)
    → ((i : ℕ) → i < j + n → ps' i ≡ ps i)
    → preopens_with ps' j n fd ≡ preopens_with ps j n fd
unfolding preopens_with
preopens_with_ext ps ps' zero j fd h = refl
preopens_with_ext ps ps' (suc n) j fd h =
    ap₂ (λ (p : Preopen) k. one_if p.host_fd fd + k) (h j (omega arith))
      (preopens_with_ext ps ps' n (j + 1) fd (λ i lt. h i (omega arith)))

-- A slot's part of the count.
owned_in-member :
    (log : ℤ) (fds : ℕ → FdEntry) (n i k fd : ℕ)
    → i ≤ k
    → k < i + n
    → owned_one log (fds k) fd ≤ owned_in log fds i n fd
unfolding owned_in
owned_in-member log fds zero i k fd le lt = absurd (omega arith)
owned_in-member log fds (suc n) i k fd le lt = elim (Bool-cases (i == k)) [
  | inl e ↦
      let same : i ≡ k = ground arith in omega (arith, ap (λ j. owned_one log (fds j) fd) same)
  | inr e ↦ omega (arith, owned_in-member log fds n (i + 1) k fd (ground arith) (omega arith))
]

owned_one-marked :
    (log : ℤ) (e : FdEntry) (fd : ℕ) → is_neg e.preopen ≡ false → owned_one log e fd ≡ 0
owned_one-marked log e fd marked = ground (arith, marked)

owned_one-own :
    (log : ℤ) (e : FdEntry) (fd : ℕ)
    → e.host_fd ≡ pos fd
    → int_eq e.host_fd log ≡ false
    → is_neg e.preopen ≡ true
    → owned_one log e fd ≡ 1
owned_one-own log e fd at other unmarked = rw (other, unmarked, at) (ground arith)

-- A descriptor that is not held is no slot's to close.
unheld-other :
    (w : Shim) (n i fd : ℕ)
    → held w n ≡ 0
    → i < max_fds
    → (w.fds i).host_fd ≡ pos fd
    → int_eq (w.fds i).host_fd w.log_fd ≡ false
    → is_neg (w.fds i).preopen ≡ true
    → one_if (pos n) (pos fd) ≡ 0
unheld-other w n i fd unheld lt at other unmarked = elim (Bool-cases (n == fd)) [
  | inr apart ↦ ground (arith, apart)
  | inl same ↦
      let eq : fd ≡ n = ground (arith, same) in
      let one = owned_one-own w.log_fd (w.fds i) n (at ∙ ap pos eq) other unmarked in
      let member = owned_in-member w.log_fd w.fds max_fds 0 i n (omega arith) lt in
      absurd (omega (arith, unheld, one, member))
]

module _ (w : Shim) (c : Call) (p : Preopen) (slot : ℕ) (e : FdEntry) where
  -- The directory is the last one, and has the slot.
  abbrev pub added : Shim
  added = record (called c w) {
    preopens = λ j. if w.n_preopens == j then p else w.preopens j;
    fds = λ j. if slot == j then e else w.fds j;
    n_preopens = w.n_preopens + 1;
  }

  preopened-added : (fd : ℕ) → preopened added fd ≡ preopened w fd + one_if p.host_fd (pos fd)
  preopened-added fd =
      let k = w.n_preopens in
      let at : added.preopens (0 + k) ≡ p = ground arith in
      let last : one_if (added.preopens (0 + k)).host_fd (pos fd) ≡ one_if p.host_fd (pos fd) =
        ap (λ (q : Preopen). one_if q.host_fd (pos fd)) at in
      let before =
        preopens_with_ext w.preopens added.preopens k 0 (pos fd) (λ i lt. ground arith) in
      let suc_k : k + 1 ≡ suc k = omega arith in
      ap (λ m. preopens_with added.preopens 0 m (pos fd)) suc_k
      ∙ preopens_with-snoc added.preopens k 0 (pos fd)
      ∙ ap₂ ◌+◌ before last

  new_entry :
      (n : ℕ) → p.host_fd ≡ pos n → e.host_fd ≡ pos n → is_neg e.preopen ≡ false → EntryFits added e
  new_entry n p_fd e_fd marked fd at =
      let same : fd ≡ n = ground (arith, at, e_fd) in
      let one : one_if p.host_fd (pos fd) ≡ 1 = rw (p_fd, same) (ground arith) in
      (λ _. omega (arith, one, preopened-added fd), λ _ un. absurd (cc (marked, un)))

  old_entry :
      (n i : ℕ)
      → p.host_fd ≡ pos n
      → held w n ≡ 0
      → i < max_fds
      → EntryFits w (w.fds i)
      → EntryFits added (w.fds i)
  old_entry n i p_fd unheld lt fits fd at =
      let dir = ap (λ h. one_if h (pos fd)) p_fd in
      (
        λ mark. omega (arith, (fits fd at).0 mark, preopened-added fd),
        λ other un. omega (
          arith,
          preopened-added fd,
          (fits fd at).1 other un,
          dir,
          unheld-other w n i fd unheld lt at other un,
        ),
      )

  pub Sound-added :
      (n : ℕ)
      → GivesClosed w.os
      → Opens c
      → w.os.fd_of w.calls c ≡ got n
      → p.host_fd ≡ pos n
      → e.host_fd ≡ pos n
      → is_neg e.preopen ≡ false
      → slot < max_fds
      → IsFree w slot
      → Sound w
      → Sound added
  Sound-added n fresh o given p_fd e_fd marked within free s =
      let unheld = fresh-held w c n fresh s given in
      let here : added.fds slot ≡ e = ground arith in
      let others : (j : ℕ) → j ≢ slot → added.fds j ≡ w.fds j = λ j ne. ground arith in
      let dir : (fd : ℕ) → one_if p.host_fd (pos fd) ≡ gives (got n) fd =
        λ fd. ap (λ h. one_if h (pos fd)) p_fd in
      record {
        balance = λ fd.
            let before = owned_one-free w.log_fd (w.fds slot) fd free in
            let after : owned_one w.log_fd (added.fds slot) fd ≡ 0 =
              rw here (owned_one-marked w.log_fd e fd marked) in
            omega (
              arith,
              opened_got w.os fd n c w.calls o given,
              released_open fd c w.calls o,
              s.balance fd,
              before,
              after,
              preopened-added fd,
              dir fd,
              owned_in_update w.log_fd w.fds added.fds max_fds 0 slot fd others (omega arith)
                  (omega arith),
            );
        entries = λ i lt. elim (Bool-cases (i == slot)) [
          | inl same ↦
              subst (EntryFits added) (sym (ap added.fds (ground (arith, same)) ∙ here))
                (new_entry n p_fd e_fd marked)
          | inr other ↦
              subst (EntryFits added) (sym (others i (ground (arith, other))))
                (old_entry n i p_fd unheld lt (s.entries i lt))
        ];
      }
