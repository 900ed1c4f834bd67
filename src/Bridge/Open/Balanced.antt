-- ===== src/Bridge/Open/Balanced.antt =====
-- Over the life of a database, from `pgl_open` of native/bridge/pglite_bridge.c to `pgl_close`,
-- each host descriptor is closed as often as it was opened.
use pglite_ios.Common.{ℕ, List, [], ◌∷◌, Bytes}
use pglite_ios.Wasi.Ledger.Sound.{GivesClosed}
use pglite_ios.Wasi.Ledger.Boot.{NoneOpen}
use pglite_ios.Bridge.Db.{Db}
use pglite_ios.Bridge.Exec.{pgl_exec}
use pglite_ios.Bridge.Exec.Stable.{pgl_exec-Keeps}
use pglite_ios.Bridge.Open.{Opened, opened, not_opened, spinning, pgl_close, pgl_open}
use pglite_ios.Bridge.Open.Books.{ActsOnly, Books, Books-IsStable}
use pglite_ios.Bridge.Open.Leaves.{Leaves, pgl_close-NoneOpen, pgl_open-Leaves}

-- The queries of a session, one after another.
unfoldable pub session : ℕ → List (Bytes × ℕ) → Db → Db
unfolding pgl_exec
session fuel [] db = db
session fuel ((sql, outcap) ∷ queries) db = session fuel queries (pgl_exec fuel sql outcap db).1

session-Books :
    (fuel : ℕ) (queries : List (Bytes × ℕ)) (db : Db) → Books db → Books (session fuel queries db)
unfolding session
session-Books fuel [] db b = b
session-Books fuel ((sql, outcap) ∷ queries) db b =
    session-Books fuel queries (pgl_exec fuel sql outcap db).1
      ((pgl_exec-Keeps Books-IsStable fuel sql outcap).at db b)

-- `P` holds once the database is given up: where `pgl_open` fails it has closed the database, and
-- where it succeeds the queries follow, then `pgl_close`. Where the fuel ends it, `pgl_close` alone
-- follows.
abbrev pub Eventually : (Db → Type 0) → ℕ → List (Bytes × ℕ) → Opened → Type 0
Eventually P fuel queries (opened db) = P (pgl_close fuel (session fuel queries db))
Eventually P fuel queries (not_opened e db) = P db
Eventually P fuel queries (spinning db) = P (pgl_close fuel db)

Leaves-Eventually :
    (fuel : ℕ) (queries : List (Bytes × ℕ)) (o : Opened)
    → Leaves o
    → Eventually (λ db. NoneOpen db.wasi) fuel queries o
Leaves-Eventually fuel queries (opened db) b =
    pgl_close-NoneOpen fuel (session fuel queries db) (session-Books fuel queries db b)
Leaves-Eventually fuel queries (not_opened e db) n = n
Leaves-Eventually fuel queries (spinning db) b = pgl_close-NoneOpen fuel db b

-- Where nothing is open at first, the system opens no descriptor that is open already, and the
-- guest only computes on its memory and calls imports, each descriptor has been closed exactly as
-- often as it was opened: when `pgl_open` has failed, wherever it failed, and when it has
-- succeeded and `pgl_close` has followed any queries. A `pgl_open` that the fuel ends could be
-- closed at that point with the same result.
pub pgl_open-NoneOpen :
    (fuel handle_size : ℕ) (root : Bytes) (queries : List (Bytes × ℕ)) (env : Db)
    → GivesClosed env.wasi.os
    → NoneOpen env.wasi
    → ActsOnly env.guest
    → Eventually (λ db. NoneOpen db.wasi) fuel queries (pgl_open fuel handle_size root env)
pgl_open-NoneOpen fuel handle_size root queries env fresh none_open acts =
    Leaves-Eventually fuel queries (pgl_open fuel handle_size root env)
      (pgl_open-Leaves fuel handle_size root env fresh none_open acts)
