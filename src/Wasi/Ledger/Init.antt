-- ===== src/Wasi/Ledger/Init.antt =====
-- `wasi_shim_init` of native/shim/wasi_shim.c opens the books on descriptors right.
use pglite_ios.Common.{ℕ, ◌+◌, ◌<◌, ◌≡◌, refl, arith, ℤ, pos, minus_one, Bytes}
use mathlib.Core.Path.{subst}
use pglite_ios.Wasi.Filetype
use pglite_ios.Wasi.Host.{Call, Sys, got, failed, OpenFlags, open_path, close}
use pglite_ios.Wasi.State.{tell_os, Shim, max_fds}
use pglite_ios.Wasi.State.Steps.{called}
use pglite_ios.Wasi.FdTable.{fd_set_entry, fd_or_minus_one}
use pglite_ios.Wasi.Init.{seed_urandom, init_stdio, must_open}
use pglite_ios.Wasi.Ledger.{Neutral, Opens, opened_got, released_open}
use pglite_ios.Wasi.Ledger.Sound.{Sound, Sound-IsNeutral, GivesClosed}
use pglite_ios.Wasi.Ledger.Opens.{Sound-opened, Sound-failed}
use pglite_ios.Wasi.Ledger.Listing.{Pending, after_open, after-Neutral, closed}
use pglite_ios.Wasi.Ledger.Boot.{FreeFrom, Sound-log, Sound-log_slot, Sound-no_slot}
use pglite_ios.Wasi.Ledger.Leads.{
  Leads, Leads-bind, Leads-modify, Leads-tell_os, Leads-ask, Leads-gets-keeps, Leads-must_open,
}

-- The log is `log`, the slots from `k` on are free, and `n` directories are preopened.
abbrev pub Base : ℤ → ℕ → ℕ → Shim → Type 0
Base log k n w = GivesClosed w.os × (w.log_fd ≡ log) × FreeFrom k w × (w.n_preopens ≡ n)

abbrev pub Ready : ℤ → ℕ → ℕ → Shim → Type 0
Ready log k n w = Sound w × Base log k n w

-- With some number of preopened directories, and with some log.
abbrev pub Staged : ℤ → ℕ → Shim → Type 0
Staged log k w = (n : ℕ) × Ready log k n w

abbrev pub AnyStage : ℕ → Shim → Type 0
AnyStage k w = (log : ℤ) × Staged log k w

-- While `d` is open besides.
abbrev Opening : ℕ → ℤ → ℕ → ℕ → Shim → Type 0
Opening d log k n w = Pending d w × Base log k n w

tell_os-Ready :
    (log : ℤ) (k n : ℕ) (c : Call)
    → Neutral c
    → Leads (Ready log k n) (λ _. Ready log k n) (tell_os c)
tell_os-Ready log k n c neutral =
    Leads-tell_os {Q = Ready log k n} c (λ w (s, b). (Sound-IsNeutral.call c neutral w s, b))

tell_os-Opening :
    (d : ℕ) (log : ℤ) (k n : ℕ) (c : Call)
    → Neutral c
    → Leads (Opening d log k n) (λ _. Opening d log k n) (tell_os c)
tell_os-Opening d log k n c neutral =
    Leads-tell_os {Q = Opening d log k n} c (λ w (p, b). (after-Neutral w d c neutral p, b))

must_open-Opening :
    (log : ℤ) (k n : ℕ) (path : Bytes) (flags : OpenFlags)
    → Leads (Ready log k n) (λ d. Opening d log k n) (must_open path flags)
must_open-Opening log k n path flags =
    Leads-must_open {Q = λ d. Opening d log k n} path flags (λ w (s, b). (s, b.0))
      (λ d w (s, b) given. (after_open w d (open_path path flags) tt given s, b))

close-Ready :
    (d : ℕ) (log : ℤ) (k n : ℕ)
    → Leads (Opening d log k n) (λ _. Ready log k n) (tell_os (close (pos d)))
close-Ready d log k n =
    Leads-tell_os {Q = Ready log k n} (close (pos d)) (λ w (p, b). (closed d w p, b))

pub seed_urandom-Leads :
    (root : Bytes) → Leads (Ready minus_one 0 0) (λ _. Ready minus_one 0 0) (seed_urandom root)
unfolding seed_urandom
seed_urandom-Leads root = Leads-bind (tell_os-Ready minus_one 0 0 _ tt) (λ _.
    Leads-bind (must_open-Opening minus_one 0 0 _ _) (λ ur. Leads-bind (Leads-gets-keeps _) (λ seed.
      Leads-bind (tell_os-Opening ur minus_one 0 0 _ tt) (λ _.
        Leads-bind (tell_os-Opening ur minus_one 0 0 _ tt) (λ _. close-Ready ur minus_one 0 0)))))

-- An entry in slot `k` leaves the later slots free.
pub entry-Base :
    (log h p : ℤ) (k n ft fl : ℕ) (w : Shim)
    → Base log k n w
    → Base log (k + 1) n (fd_set_entry k h ft fl p w)
unfolding fd_set_entry
entry-Base log h p k n ft fl w (fresh, is_log, free, count) =
    (fresh, is_log, λ i le lt. ground (arith, free i), count)

null-got :
    (log : ℤ) (c : Call) (m : ℕ) (w : Shim)
    → Opens c
    → w.os.fd_of w.calls c ≡ got m
    → Ready log 0 0 w
    → Sound (fd_set_entry 0 (pos m) Filetype.char 0 minus_one (called c w))
unfolding fd_set_entry
null-got log c m w o given (s, (fresh, is_log, free, count)) =
    let w' = fd_set_entry 0 (pos m) Filetype.char 0 minus_one (called c w) in
    Sound-opened w w' c m 0 fresh given (ground arith) (omega arith)
      (free 0 (omega arith) (omega arith)) (λ j ne. ground arith) (ground arith) (ground arith)
      (λ fd. opened_got w.os fd m c w.calls o given) (λ fd. released_open fd c w.calls o) s

-- The answer to the attempt to open `/dev/null` goes into slot 0.
null-Ready :
    (log : ℤ) (c : Call) (r : Sys ℕ) (w w' : Shim)
    → Opens c
    → w.os.fd_of w.calls c ≡ r
    → w' ≡ called c w
    → Ready log 0 0 w
    → Ready log 1 0 (fd_set_entry 0 (fd_or_minus_one r) Filetype.char 0 minus_one w')
null-Ready log c (got m) w w' o given e ready = rw e (
  null-got log c m w o given ready,
  entry-Base log (pos m) minus_one 0 0 Filetype.char 0 (called c w) ready.1,
)
null-Ready log c (failed x) w w' o given e (s, b) = rw e (
  Sound-no_slot (called c w) 0 Filetype.char 0 (omega arith) (b.2 0 (omega arith) (omega arith))
      (Sound-failed w c x o given s),
  entry-Base log minus_one minus_one 0 0 Filetype.char 0 (called c w) b,
)

-- A further slot gets the log's descriptor.
log_slot-Ready :
    (log : ℤ) (k n : ℕ) (w : Shim)
    → k < max_fds
    → Ready log k n w
    → Ready log (k + 1) n (fd_set_entry k log Filetype.char 1 minus_one w)
log_slot-Ready log k n w within (s, b) = (
  subst (λ l. Sound (fd_set_entry k l Filetype.char 1 minus_one w)) b.1
      (Sound-log_slot w k Filetype.char 1 within (b.2 k (omega arith) within) s),
  entry-Base log log minus_one k n Filetype.char 1 w b,
)

pub init_stdio-Leads :
    (root : Bytes) → Leads (Ready minus_one 0 0) (λ _. AnyStage 3) (init_stdio root)
unfolding init_stdio
init_stdio-Leads root = Leads-bind (must_open-Opening minus_one 0 0 _ _) (λ log.
    Leads-bind
      (Leads-modify {Q = Ready (pos log) 0 0} _
        (λ w (p, b). (Sound-log w log b.1 b.2 p, (b.0, refl, b.2, b.3))))
      (λ _. Leads-bind (Leads-ask _ _) (λ null.
        Leads-bind
          (Leads-modify {Q = Ready (pos log) 1 0} _
            (λ w' (w, ready, given, e). null-Ready (pos log) _ null w w' tt given e ready))
          (λ _.
            Leads-bind
              (Leads-modify {Q = Ready (pos log) 2 0} _
                (λ w ready. log_slot-Ready (pos log) 1 0 w (omega arith) ready))
              (λ _.
                Leads-modify _ (λ w ready.
                  (pos log, (0, log_slot-Ready (pos log) 2 0 w (omega arith) ready))))))))
