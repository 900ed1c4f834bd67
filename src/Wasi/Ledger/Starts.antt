-- ===== src/Wasi/Ledger/Starts.antt =====
-- The preopened directories and the whole of `wasi_shim_init` of native/shim/wasi_shim.c: the books
-- on descriptors are right wherever it stops.
use Prim.Native.String.{String}
use pglite_ios.Common.{ℕ, ◌+◌, ◌<◌, ◌≡◌, refl, ◌∙◌, List, arith, ℤ, pos, minus_one, Bytes, codes}
use mathlib.Core.Path.{subst, subst₂}
use pglite_ios.Wasi.Filetype
use pglite_ios.Wasi.Host.{Call, Sys, got, failed}
use pglite_ios.Wasi.State.{
  gets, Res, ok, err, escaped, aborted, Handler, FdEntry, Preopen, Shim, max_fds, modify, ◌>>=◌,
  ◌>>◌,
}
use pglite_ios.Wasi.State.Steps.{called}
use pglite_ios.Wasi.FdTable.{fd_set_entry, fd_or_minus_one}
use pglite_ios.Wasi.Init.{cleared, init_preopen, open_or_stop, set_preopen, wasi_shim_init}
use pglite_ios.Wasi.Ledger.{Opens}
use pglite_ios.Wasi.Ledger.Sound.{Sound, GivesClosed}
use pglite_ios.Wasi.Ledger.Opens.{Sound-failed}
use pglite_ios.Wasi.Ledger.Boot.{NoneOpen, cleared-Sound}
use pglite_ios.Wasi.Ledger.Preopens.{Sound-added}
use pglite_ios.Wasi.Ledger.Leads.{Leads, Leads-bind, Leads-modify, Leads-ask, After}
use pglite_ios.Wasi.Ledger.Init.{
  Base, Ready, Staged, AnyStage, seed_urandom-Leads, init_stdio-Leads,
}
use pglite_ios.Wasi.Ledger.Sound.{preopened}
use pglite_ios.Wasi.Ledger.Preopens.{preopens_with_ext}
use pglite_ios.Wasi.Ledger.Leads.{Ends, Settles}

-- A record behind the last preopened directory does not count.
Sound-set_preopen : (w : Shim) (p : Preopen) → Sound w → Sound (set_preopen w.n_preopens p w)
Sound-set_preopen w p s =
    let w' = set_preopen w.n_preopens p w in
    let same : (fd : ℕ) → preopened w' fd ≡ preopened w fd = λ fd.
      preopens_with_ext w.preopens w'.preopens w.n_preopens 0 (pos fd) (λ i lt. ground arith) in
    record {
      balance = λ fd. omega (arith, s.balance fd, same fd);
      entries = λ i lt fd at.
          let fits = s.entries i lt fd at in
          (λ m. omega (arith, fits.0 m, same fd), λ o u. same fd ∙ fits.1 o u);
    }

-- One round of the loop, once the directory is opened or not.
module _ (log : ℤ) (n i : ℕ) (c : Call) (o : Opens c) (guest host : Bytes)
    (within : 3 + i < max_fds) where
  abbrev dir : Sys ℕ → Preopen
  dir r = record { guest_path = guest; host_path = host; host_fd = fd_or_minus_one r }

  abbrev rest : Sys ℕ → Handler
  rest r = do
    modify (set_preopen n (dir r))
    hfd ← open_or_stop r
    modify (fd_set_entry (3 + i) (pos hfd) Filetype.dir 0 (pos n))
    modify (λ w. record w { n_preopens = w.n_preopens + 1 })

  abbrev final : ℕ → ℕ → Shim → Shim
  final m k w =
      let w' = set_preopen k (dir (got m)) (called c w) in
      record (fd_set_entry (3 + i) (pos m) Filetype.dir 0 (pos k) w') {
        n_preopens = w.n_preopens + 1;
      }

  final-Sound :
      (m : ℕ) (w : Shim)
      → Sound w
      → Base log (3 + i) n w
      → w.os.fd_of w.calls c ≡ got m
      → Sound (final m w.n_preopens w)
  unfolding fd_set_entry
  final-Sound m w s b given =
      let e : FdEntry = record {
        host_fd = pos m;
        filetype = Filetype.dir;
        fdflags = 0;
        preopen = pos w.n_preopens;
      } in
      Sound-added w c (dir (got m)) (3 + i) e m b.0 o given refl refl refl within
        (b.2 (3 + i) (omega arith) within) s

  rest-Leads :
      (r : Sys ℕ)
      → Leads
          (After (Ready log (3 + i) n) (λ os. os.fd_of) c r)
          (λ _. Staged log (3 + i + 1))
          (rest r)
  unfolding ◌>>=◌ fd_set_entry
  rest-Leads (failed x) = record {
    rule = λ w' (w, (s, b), given, e). rw e (
      subst (λ k. Sound (set_preopen k (dir (failed x)) (called c w))) b.3
          (Sound-set_preopen (called c w) (dir (failed x)) (Sound-failed w c x o given s)),
      b.0,
    );
  }
  rest-Leads (got m) = record {
    rule = λ w' (w, (s, b), given, e). rw e (
      w.n_preopens + 1,
      (
        subst (λ k. Sound (final m k w)) b.3 (final-Sound m w s b given),
        (b.0, b.1, λ j le lt. ground (arith, b.2 j), refl),
      ),
    );
  }

count-Leads :
    (log : ℤ) (k : ℕ)
    → Leads (Staged log k) (λ n. Ready log k n) (gets (λ (w : Shim). w.n_preopens))
unfolding gets
count-Leads log k = record { rule = λ w (n, (s, b)). (s, (b.0, b.1, b.2, refl)) }

Ends-some :
    (log : ℤ) (k : ℕ) (r : Res (Unit {0}) × Shim)
    → Ends (λ _. Staged log k) r
    → Ends (λ _. AnyStage k) r
Ends-some log k (ok a, w) h = (log, h)
Ends-some log k (err e, w) h = h
Ends-some log k (escaped, w) h = h
Ends-some log k (aborted, w) h = h

init_preopen-Leads :
    (log : ℤ) (i : ℕ) (root : Bytes) (guest subdir : String)
    → 3 + i < max_fds
    → Leads (Staged log (3 + i)) (λ _. Staged log (3 + i + 1)) (init_preopen root i guest subdir)
unfolding init_preopen
init_preopen-Leads log i root guest subdir within =
    Leads-bind (count-Leads log (3 + i))
      (λ n. Leads-bind (Leads-ask _ _) (λ r. rest-Leads log n i _ tt (codes guest) _ within r))

dirs-Leads :
    (i k l : ℕ) (root : Bytes) (guest subdir : String)
    → 3 + i ≡ k
    → 3 + i + 1 ≡ l
    → 3 + i < max_fds
    → Leads (AnyStage k) (λ _. AnyStage l) (init_preopen root i guest subdir)
dirs-Leads i k l root guest subdir p q within =
    subst₂ (λ x y. Leads (AnyStage x) (λ _. AnyStage y) (init_preopen root i guest subdir)) p q
      (record {
        rule = λ w (log, h).
            Ends-some log (3 + i + 1) (init_preopen root i guest subdir w)
              ((init_preopen-Leads log i root guest subdir within).rule w h);
      })

start-Leads :
    (argv envp : List Bytes)
    → Leads
        (λ w. GivesClosed w.os × NoneOpen w)
        (λ _. Ready minus_one 0 0)
        (modify (cleared argv envp))
unfolding cleared
start-Leads argv envp = Leads-modify {Q = Ready minus_one 0 0} _ (λ w (fresh, none_open).
    (cleared-Sound argv envp w none_open, (fresh, refl, λ i le lt. refl, refl)))

init-Leads :
    (root : Bytes) (argv envp : List Bytes)
    → Leads (λ w. GivesClosed w.os × NoneOpen w) (λ _. AnyStage 5) (wasi_shim_init root argv envp)
unfolding wasi_shim_init
init-Leads root argv envp = Leads-bind (start-Leads argv envp) (λ _.
    Leads-bind (seed_urandom-Leads root) (λ _. Leads-bind (init_stdio-Leads root) (λ _.
      Leads-bind (dirs-Leads 0 3 4 root "/tmp" "/tmp" (omega arith) (omega arith) (omega arith))
        (λ _. dirs-Leads 1 4 5 root "/dev" "/dev" (omega arith) (omega arith) (omega arith)))))

Ends-Settles : (r : Res (Unit {0}) × Shim) → Ends (λ _. AnyStage 5) r → Settles r.1
Ends-Settles (ok a, w) (log, (n, (s, b))) = (s, b.0)
Ends-Settles (err e, w) s = s
Ends-Settles (escaped, w) s = s
Ends-Settles (aborted, w) s = s

-- The books are right wherever the set-up stops, if nothing is open before it.
pub wasi_shim_init-Settles :
    (root : Bytes) (argv envp : List Bytes) (w : Shim)
    → GivesClosed w.os
    → NoneOpen w
    → Settles (wasi_shim_init root argv envp w).1
wasi_shim_init-Settles root argv envp w fresh none_open =
    Ends-Settles (wasi_shim_init root argv envp w)
      ((init-Leads root argv envp).rule w (fresh, none_open))
