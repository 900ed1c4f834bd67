-- ===== src/Wasi/Init/Dispose.antt =====
-- Which descriptors `wasi_shim_dispose` of native/shim/wasi_shim.c closes, and how often.
use pglite_ios.Common.{
  ℕ, zero, suc, ◌+◌, ◌≤◌, ◌<◌, ◌≡◌, ◌≢◌, refl, ap, ◌∙◌, Bool, true, false, not, ◌||◌, Bool-cases,
  inl, inr, [], ◌∷◌, arith, ◌==◌, if◌then◌else◌, ℤ, is_neg, int_eq, int_eq_iff,
}
use pglite_ios.Wasi.Ledger.{one_if}
use pglite_ios.Wasi.Host.{History, close}
use pglite_ios.Wasi.State.{FdEntry, Preopen, Shim, max_fds}
use pglite_ios.Wasi.Init.{
  close_fd, is_preopen_fd, dispose_slot, dispose_slots, dispose_preopens, dispose_log,
  wasi_shim_dispose,
}

-- How often the descriptor has been closed.
unfoldable pub closed_times : ℤ → History → ℕ
closed_times fd [] = 0
closed_times fd (close x ∷ h) = one_if x fd + closed_times fd h
closed_times fd (_ ∷ h) = closed_times fd h

-- How many of the `n` slots from `i` hold the descriptor.
unfoldable pub slots_with : (ℕ → FdEntry) → ℕ → ℕ → ℤ → ℕ
slots_with fds i zero fd = 0
slots_with fds i (suc n) fd = one_if (fds i).host_fd fd + slots_with fds (i + 1) n fd

-- How many of the `n` preopened directories from `j` have the descriptor.
unfoldable pub preopens_with : (ℕ → Preopen) → ℕ → ℕ → ℤ → ℕ
preopens_with ps j zero fd = 0
preopens_with ps j (suc n) fd = one_if (ps j).host_fd fd + preopens_with ps (j + 1) n fd

pub preopens_with-snoc :
    (ps : ℕ → Preopen) (n j : ℕ) (fd : ℤ)
    → preopens_with ps j (suc n) fd ≡ preopens_with ps j n fd + one_if (ps (j + n)).host_fd fd
unfolding preopens_with
preopens_with-snoc ps zero j fd =
    let at : j + 0 ≡ j = omega arith in omega (arith, ap (λ k. one_if (ps k).host_fd fd) at)
preopens_with-snoc ps (suc n) j fd =
    let at : j + suc n ≡ j + 1 + n = omega arith in
    omega (arith, ap (λ k. one_if (ps k).host_fd fd) at, preopens_with-snoc ps n (j + 1) fd)

-- A descriptor is a preopened directory's where the count says so.
is_preopen_fd-count :
    (w : Shim) (n : ℕ) (fd : ℤ) → is_preopen_fd w n fd ≡ not (preopens_with w.preopens 0 n fd == 0)
unfolding is_preopen_fd preopens_with
is_preopen_fd-count w zero fd = refl
is_preopen_fd-count w (suc n) fd =
    let at : 0 + n ≡ n = omega arith in
    let last =
      preopens_with-snoc w.preopens n 0 fd
      ∙ ap (λ k. preopens_with w.preopens 0 n fd + one_if (w.preopens k).host_fd fd) at in
    ap (λ b. int_eq (w.preopens n).host_fd fd || b) (is_preopen_fd-count w n fd)
    ∙ ground (arith, last)

-- The descriptor is the log's or a preopened directory's.
abbrev pub is_kept : Shim → ℤ → Bool
is_kept w fd = int_eq fd w.log_fd || not (preopens_with w.preopens 0 w.n_preopens fd == 0)

slots_with_ext :
    (fds fds' : ℕ → FdEntry) (i n : ℕ) (fd : ℤ)
    → ((j : ℕ) → i ≤ j → fds j ≡ fds' j)
    → slots_with fds i n fd ≡ slots_with fds' i n fd
unfolding slots_with
slots_with_ext fds fds' i zero fd h = refl
slots_with_ext fds fds' i (suc n) fd h =
    ap (λ (e : FdEntry). one_if e.host_fd fd + slots_with fds (i + 1) n fd) (h i (omega arith))
    ∙ ap (λ k. one_if (fds' i).host_fd fd + k)
        (slots_with_ext fds fds' (i + 1) n fd (λ j le. h j (omega arith)))

is_kept-eq : (w : Shim) (a b : ℤ) → int_eq a b ≡ true → is_kept w a ≡ is_kept w b
is_kept-eq w a b e = ap (is_kept w) ((int_eq_iff a b).0 e)

-- What a round leaves: the other slots, the log, the preopened directories.
record Rest (i : ℕ) (w w' : Shim) : Type 0 where
  others : (j : ℕ) → j ≢ i → w'.fds j ≡ w.fds j
  log : w'.log_fd ≡ w.log_fd
  dirs : w'.preopens ≡ w.preopens
  count : w'.n_preopens ≡ w.n_preopens
  gone : is_neg (w'.fds i).host_fd ≡ true

dispose_slot-Rest : (i : ℕ) (w : Shim) → Rest i w (dispose_slot i w)
unfolding dispose_slot
dispose_slot-Rest i w = ground arith

closed_times-dispose_slot :
    (i : ℕ) (w : Shim) (fd : ℤ)
    → is_neg fd ≡ false
    → closed_times fd (dispose_slot i w).calls
      ≡ (if is_kept w fd then 0 else one_if (w.fds i).host_fd fd) + closed_times fd w.calls
unfolding dispose_slot closed_times
closed_times-dispose_slot i w fd pos =
    let count = is_preopen_fd-count w w.n_preopens (w.fds i).host_fd in
    ground (arith, count, is_kept-eq w (w.fds i).host_fd fd)

-- The log, and the preopened directories, are those of `w`.
abbrev SameKept : Shim → Shim → Type 0
SameKept w w' = (w'.log_fd ≡ w.log_fd) × (w'.preopens ≡ w.preopens) × (w'.n_preopens ≡ w.n_preopens)

is_kept_ext : (w w' : Shim) (fd : ℤ) → SameKept w w' → is_kept w' fd ≡ is_kept w fd
is_kept_ext w w' fd (l, d, c) =
    ap (λ x. int_eq fd x || not (preopens_with w'.preopens 0 w'.n_preopens fd == 0)) l
    ∙ ap (λ n. int_eq fd w.log_fd || not (preopens_with w'.preopens 0 n fd == 0)) c
    ∙ ap (λ ps. int_eq fd w.log_fd || not (preopens_with ps 0 w.n_preopens fd == 0)) d

-- After `n` rounds from slot `i`.
record SlotsClosed (n i : ℕ) (w w' : Shim) : Type 0 where
  kept : SameKept w w'
  before : (j : ℕ) → j < i → w'.fds j ≡ w.fds j
  gone : (j : ℕ) → i ≤ j → j < i + n → is_neg (w'.fds j).host_fd ≡ true
  times :
      (fd : ℤ)
      → is_neg fd ≡ false
      → closed_times fd w'.calls
        ≡ (if is_kept w fd then 0 else slots_with w.fds i n fd) + closed_times fd w.calls

zero_if : (b : Bool) (k : ℕ) → k ≡ 0 → (if b then 0 else k) ≡ 0
zero_if true k e = refl
zero_if false k e = e

add_if :
    (b : Bool) (x y c : ℕ)
    → (if b then 0 else y) + ((if b then 0 else x) + c) ≡ (if b then 0 else x + y) + c
add_if true x y c = omega arith
add_if false x y c = omega arith

dispose_slots-SlotsClosed : (n i : ℕ) (w : Shim) → SlotsClosed n i w (dispose_slots n i w)
unfolding dispose_slots slots_with
dispose_slots-SlotsClosed zero i w = record {
  kept = (refl, refl, refl);
  before = λ j lt. refl;
  gone = λ j le lt. absurd (omega arith);
  times = λ fd pos. omega (arith, zero_if (is_kept w fd) 0 refl);
}
dispose_slots-SlotsClosed (suc n) i w =
    let w1 = dispose_slot i w in
    let r = dispose_slot-Rest i w in
    let c = dispose_slots-SlotsClosed n (i + 1) w1 in
    record {
      kept = (c.kept.0 ∙ r.log, c.kept.1 ∙ r.dirs, c.kept.2 ∙ r.count);
      before = λ j lt. c.before j (omega arith) ∙ r.others j (λ e. omega (arith, e));
      gone = λ j le lt. elim (Bool-cases (j == i)) [
        | inl same ↦
            ap (λ (e : FdEntry). is_neg e.host_fd) (c.before j (ground arith))
            ∙ ap (λ k. is_neg (w1.fds k).host_fd) (ground arith)
            ∙ r.gone
        | inr other ↦ c.gone j (ground arith) (omega arith)
      ];
      times = λ fd pos.
          c.times fd pos
          ∙ ap
              (λ (b : Bool).
                (if b then 0 else slots_with w1.fds (i + 1) n fd) + closed_times fd w1.calls)
              (is_kept_ext w w1 fd (r.log, r.dirs, r.count))
          ∙ ap (λ k. (if is_kept w fd then 0 else k) + closed_times fd w1.calls)
              (slots_with_ext w1.fds w.fds (i + 1) n fd
                (λ j le. r.others j (λ e. omega (arith, e))))
          ∙ ap (λ k. (if is_kept w fd then 0 else slots_with w.fds (i + 1) n fd) + k)
              (closed_times-dispose_slot i w fd pos)
          ∙ add_if (is_kept w fd) (one_if (w.fds i).host_fd fd) (slots_with w.fds (i + 1) n fd)
              (closed_times fd w.calls);
    }

-- The preopened directories are closed once each.
record PreopensClosed (n j : ℕ) (w w' : Shim) : Type 0 where
  same_log : w'.log_fd ≡ w.log_fd
  same_fds : w'.fds ≡ w.fds
  times :
      (fd : ℤ)
      → closed_times fd w'.calls ≡ preopens_with w.preopens j n fd + closed_times fd w.calls

dispose_preopens-PreopensClosed :
    (n j : ℕ) (w : Shim) → PreopensClosed n j w (dispose_preopens n j w)
unfolding dispose_preopens preopens_with closed_times
dispose_preopens-PreopensClosed zero j w = record {
  same_log = refl;
  same_fds = refl;
  times = λ fd. omega arith;
}
dispose_preopens-PreopensClosed (suc n) j w =
    let c = dispose_preopens-PreopensClosed n (j + 1) (close_fd (w.preopens j).host_fd w) in
    record { same_log = c.same_log; same_fds = c.same_fds; times = λ fd. omega (arith, c.times fd) }

closed_times-dispose_log :
    (w : Shim) (fd : ℤ)
    → is_neg fd ≡ false
    → closed_times fd (dispose_log w).calls ≡ one_if w.log_fd fd + closed_times fd w.calls
unfolding dispose_log closed_times
closed_times-dispose_log w fd pos = ground arith

dispose_log-fds : (w : Shim) → (dispose_log w).fds ≡ w.fds
unfolding dispose_log
dispose_log-fds w = ground arith

-- What `wasi_shim_dispose` leaves of `w`: every slot is free, and a descriptor has been closed
-- once for each preopened directory and once for a log that have it, and once for each slot that
-- has it where no preopened directory and no log does.
pub record IsDisposed (w w' : Shim) : Type 0 where
  pub free : (i : ℕ) → i < max_fds → is_neg (w'.fds i).host_fd ≡ true
  pub closes :
      (fd : ℤ)
      → is_neg fd ≡ false
      → closed_times fd w'.calls
        ≡ one_if w.log_fd fd
          + preopens_with w.preopens 0 w.n_preopens fd
          + (if is_kept w fd then 0 else slots_with w.fds 0 max_fds fd)
          + closed_times fd w.calls

-- `wasi_shim_dispose` frees every slot, and closes a descriptor once for each preopened directory
-- and once for the log that have it, and once for each slot that has it where neither does.
pub wasi_shim_dispose-IsDisposed : (w : Shim) → IsDisposed w (wasi_shim_dispose w)
unfolding wasi_shim_dispose
wasi_shim_dispose-IsDisposed w =
    let w1 = dispose_slots max_fds 0 w in
    let s = dispose_slots-SlotsClosed max_fds 0 w in
    let w2 = dispose_preopens w1.n_preopens 0 w1 in
    let p = dispose_preopens-PreopensClosed w1.n_preopens 0 w1 in
    let dirs : (fd : ℤ)
        → preopens_with w1.preopens 0 w1.n_preopens fd
          ≡ preopens_with w.preopens 0 w.n_preopens fd =
      λ fd.
        ap (λ ps. preopens_with ps 0 w1.n_preopens fd) s.kept.1
        ∙ ap (λ n. preopens_with w.preopens 0 n fd) s.kept.2 in
    let log : (fd : ℤ) → one_if w2.log_fd fd ≡ one_if w.log_fd fd =
      λ fd. ap (λ x. one_if x fd) (p.same_log ∙ s.kept.0) in
    record {
      free = λ i lt.
          ap (λ (fds : ℕ → FdEntry). is_neg (fds i).host_fd) (dispose_log-fds w2 ∙ p.same_fds)
          ∙ s.gone i (omega arith) lt;
      closes = λ fd pos.
          omega (
            arith,
            closed_times-dispose_log w2 fd pos,
            p.times fd,
            dirs fd,
            log fd,
            s.times fd pos,
          );
    }
