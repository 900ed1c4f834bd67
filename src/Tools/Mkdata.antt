-- ===== src/Tools/Mkdata.antt =====
-- native/tools/mkdata.c: it boots the engine over a fresh root, asks it once, and closes it.
pub mod Clean
use pglite_ios.Common.{
  ℕ, Bool, List, [], ◌∷◌, if◌then◌else◌, Option, none, some, Bytes, codes, pos, int_eq,
}
use pglite_ios.Bridge.Db.{Db, Out, done, stop, out_of_fuel}
use pglite_ios.Bridge.Exec.{Shown, pgl_exec}
use pglite_ios.Bridge.Open.{Opened, opened, not_opened, spinning, pgl_open, pgl_close}

-- The exit status with the database as `main` leaves it, a `pgl_exec` that runs out of bounds or
-- without end, or a call that the fuel ends.
pub data Finished : Type 0 where
  exits : ℕ → Db → Finished
  faults : Db → Finished
  unfinished : Db → Finished

-- `pgl_exec(...) != 0` fails.
abbrev pub passed : Shown → Bool
passed (text, rc) = int_eq rc (pos 0)

abbrev pub after_query : ℕ → Out (Option Shown) × Db → Finished
after_query fuel (done none, db) = faults db
after_query fuel (done (some r), db) = if passed r then exits 0 (pgl_close fuel db) else exits 1 db
after_query fuel (stop, db) = exits 1 db
after_query fuel (out_of_fuel, db) = unfinished db

abbrev pub after_boot : ℕ → Opened → Finished
after_boot fuel (opened db) = after_query fuel (pgl_exec fuel (codes "SELECT 1") 256 db)
after_boot fuel (not_opened e db) = exits 1 db
after_boot fuel (spinning db) = unfinished db

-- `main`, with `argv`; what it prints is not modelled.
unfoldable pub mkdata : ℕ → ℕ → List Bytes → Db → Finished
unfolding pgl_open pgl_exec pgl_close
mkdata fuel handle_size (program ∷ root ∷ []) env =
    after_boot fuel (pgl_open fuel handle_size root env)
mkdata fuel handle_size _ env = exits 2 env
