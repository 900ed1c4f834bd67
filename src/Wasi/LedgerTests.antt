-- ===== src/Wasi/LedgerTests.antt =====
-- A whole life of the shim at concrete inputs.
use pglite_ios.Common.{ℕ, ◌+◌, ◌≤◌, ◌≡◌, refl, List, [], ◌∷◌, arith, length, codes}
use pglite_ios.Wasi.Host.{History, got}
use pglite_ios.Wasi.Init.{wasi_shim_init, wasi_shim_dispose}
use pglite_ios.Wasi.Requests.{Request, serve}
use pglite_ios.Wasi.Ledger.{gives, opened, released, opened_bound}
use pglite_ios.Wasi.Ledger.Sound.{GivesClosed}
use pglite_ios.Wasi.Ledger.Boot.{NoneOpen}
use pglite_ios.Wasi.Ledger.Balanced.{with_memory, whole_life-NoneOpen}
use pglite_ios.Wasi.Tests.{small, obliging, blank}

-- The descriptors are numbered by the calls before, so none is given twice.
opened_none : (h : History) (n : ℕ) → 100 + length h ≤ n → opened obliging n h ≡ 0
opened_none [] n le = unfold opened in refl
opened_none (c ∷ h) n le =
    omega (arith, opened_bound obliging n c h, opened_none h n (omega arith), not_given)
  where
    not_given : gives (got (100 + length h)) n ≡ 0
    not_given = ground arith

pub obliging-GivesClosed : GivesClosed obliging
obliging-GivesClosed h c n e =
    let same : 100 + length h ≡ n = ground (arith, e) in
    omega (arith, opened_none h n (omega (arith, same)))

pub small-NoneOpen : NoneOpen small
unfolding opened released
small-NoneOpen = record { equal = λ fd. refl }

-- The guest lists `/tmp`, opens a file, puts it over the log's slot, and closes `/tmp`.
abbrev requests : List Request
requests =
    Request.fd_readdir 3 256 64 0 40
    ∷ Request.path_open 3 0 0 4 0 0 0 0 40
    ∷ Request.fd_renumber 5 1
    ∷ Request.fd_close 3
    ∷ []

whole_life-NoneOpen_example : NoneOpen (
    wasi_shim_dispose (
      serve requests (
        with_memory blank
          (wasi_shim_init (codes "/r") (codes "a" ∷ []) (codes "K=V" ∷ []) small).1)))
whole_life-NoneOpen_example =
    whole_life-NoneOpen (codes "/r") (codes "a" ∷ []) (codes "K=V" ∷ []) blank requests small
      obliging-GivesClosed small-NoneOpen
