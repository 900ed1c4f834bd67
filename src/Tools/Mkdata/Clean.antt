-- ===== src/Tools/Mkdata/Clean.antt =====
-- What native/tools/mkdata.c has done when it exits.
use pglite_ios.Common.{ℕ, zero, suc, ◌≡◌, true, false, some, ◌⊎◌, codes}
use pglite_ios.Wasi.Ledger.Boot.{NoneOpen}
use pglite_ios.Bridge.Db.{Db, done}
use pglite_ios.Bridge.Exec.{Shown, pgl_exec}
use pglite_ios.Bridge.Open.{Opened, opened, pgl_close}
use pglite_ios.Bridge.Open.Books.{Books}
use pglite_ios.Bridge.Open.Leaves.{Leaves}
use pglite_ios.Tools.Mkdata.{Finished, exits, faults, unfinished, passed}

-- The query of the tool was answered as `r`, and left the database `db`.
abbrev pub Asked : ℕ → Opened → Shown → Db → Type 0
Asked fuel o r db =
    (db0 : Db) × (o ≡ opened db0) × (pgl_exec fuel (codes "SELECT 1") 256 db0 ≡ (done (some r), db))

-- With 0: the database was opened, the query passed, and the database has been closed, with
-- nothing left open. With 1: it was not opened, and nothing is open, or the query did not pass.
-- With 2: nothing was done.
abbrev pub Verdict : ℕ → Opened → Db → Finished → Type 0
Verdict fuel o env (exits zero db) =
    NoneOpen db.wasi
    × (r : Shown) × (db1 : Db) × Asked fuel o r db1
    × (passed r ≡ true)
    × (db ≡ pgl_close fuel db1)
Verdict fuel o env (exits (suc zero) db) =
    NoneOpen db.wasi ⊎ ((r : Shown) × Asked fuel o r db × (passed r ≡ false))
Verdict fuel o env (exits (suc (suc n)) db) = db ≡ env
Verdict fuel o env (faults db) = Books db
Verdict fuel o env (unfinished db) = Books db
