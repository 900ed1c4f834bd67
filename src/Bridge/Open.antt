-- ===== src/Bridge/Open.antt =====
-- `pgl_open` and `pgl_close` of native/bridge/pglite_bridge.c.
pub mod Books
pub mod Leaves
pub mod Balanced
use pglite_ios.Common.{
  ℕ, Bool, true, false, not, ◌&&◌, List, [], ◌∷◌, ◌++◌, if◌then◌else◌, take, some, Bytes, codes,
}
use pglite_ios.Wasi.Host.{unlink}
use pglite_ios.Wasi.State.{Shim, Res, ok, err, escaped, aborted}
use pglite_ios.Wasi.Init.{wasi_shim_init, wasi_shim_dispose}
use pglite_ios.Bridge.Db.{
  Export, Outcome, Db, Out, done, stop, out_of_fuel, instantiate, start, pgl_initdb, pgl_backend,
  free_instance, guest_call, returned, trapped, exited,
}
use pglite_ios.Bridge.Auth.{authenticate}
use pglite_ios.Bridge.Exec.{simple_query, pgl_exec}

-- Why `pgl_open` returned NULL: the text that it writes to `errbuf`.
pub data OpenError : Type 0 where
  no_memory shim_init_failed start_trapped initdb_trapped backend_trapped : OpenError
  auth_failed : Bool → OpenError
  search_path_failed : OpenError

pub data Opened : Type 0 where
  opened : Db → Opened
  not_opened : OpenError → Db → Opened
  spinning : Db → Opened

abbrev pub argv_strings : List Bytes
argv_strings = codes "/tmp/pglite/bin/postgres" ∷ codes "--single" ∷ codes "postgres" ∷ []

abbrev pub envp_strings : List Bytes
envp_strings =
    codes "PREFIX=/tmp/pglite"
    ∷ codes "PGDATA=/tmp/pglite/base"
    ∷ codes "PGSYSCONFDIR=/tmp/pglite"
    ∷ codes "PGUSER=postgres"
    ∷ codes "PGDATABASE=template1"
    ∷ codes "REPL=N"
    ∷ codes "TZ=UTC"
    ∷ codes "PGTZ=UTC"
    ∷ codes "PATH=/tmp/pglite/bin"
    ∷ []

-- An export that is called outside GUEST_CALL.
abbrev pub plain_call : Export → Db → Db
plain_call c db =
    let (r, w) = db.guest.run db.exports c db.wasi in
    record db { wasi = w; exports = c ∷ db.exports }

-- The checkpoint of `pgl_close`, whose result is not looked at.
unfoldable checkpoint : ℕ → Db → Db
unfolding pgl_exec
checkpoint fuel db =
    if not db.dead && db.instantiated then (pgl_exec fuel (codes "CHECKPOINT") 256 db).1 else db

-- `if (db->instantiated) wasm2c_pglite_free(&db->inst);`
abbrev release : Db → Db
release db = if db.instantiated then plain_call free_instance db else db

unfoldable pub pgl_close : ℕ → Db → Db
unfolding checkpoint wasi_shim_dispose
pgl_close fuel db =
    let db' = release (checkpoint fuel db) in record db' { wasi = wasi_shim_dispose db'.wasi }

-- FAIL.
abbrev give_up : ℕ → OpenError → Db → Opened
give_up fuel e db = not_opened e (pgl_close fuel db)

-- `search_path`, after the authentication.
abbrev after_search_path : ℕ → Out Bytes × Db → Opened
after_search_path fuel (done _, db) = opened db
after_search_path fuel (stop, db) = give_up fuel search_path_failed db
after_search_path fuel (out_of_fuel, db) = spinning db

abbrev after_auth : ℕ → Out (Unit {0}) × Db → Opened
after_auth fuel (done _, db) =
    after_search_path fuel (simple_query fuel (codes "SET search_path = public, \"$user\"") db)
after_auth fuel (stop, db) = give_up fuel (auth_failed db.dead) db
after_auth fuel (out_of_fuel, db) = spinning db

-- `if (failed) FAIL(...)`: a call that returns, or leaves through `proc_exit`, goes on.
abbrev unless_trapped : ℕ → OpenError → (Db → Opened) → Outcome × Db → Opened
unless_trapped fuel e next (trapped, db) = give_up fuel e db
unless_trapped fuel e next (returned v, db) = next db
unless_trapped fuel e next (exited, db) = next db

-- The three boot calls, then the authentication.
unfoldable boot : ℕ → Db → Opened
unfolding guest_call authenticate simple_query pgl_close
boot fuel db =
    unless_trapped fuel start_trapped
      (λ db1.
        unless_trapped fuel initdb_trapped
          (λ db2.
            unless_trapped fuel backend_trapped (λ db3. after_auth fuel (authenticate fuel db3))
              (guest_call pgl_backend db2))
          (guest_call pgl_initdb db1))
      (guest_call start db)

-- `<root>/tmp/pglite/base/.s.PGSQL.5432<suffix>` in an array of `cap` bytes.
abbrev socket_path : ℕ → Bytes → Bytes → Bytes
socket_path cap root suffix = take cap (root ++ codes "/tmp/pglite/base/.s.PGSQL.5432" ++ suffix)

abbrev unlink_path : Bytes → Db → Db
unlink_path p db = record db { wasi = record (db.wasi) { calls = unlink p ∷ db.wasi.calls } }

-- The module is instantiated over the shim, and stale transport files are removed.
unfoldable instantiated_db : Bytes → Db → Db
instantiated_db root db =
    let db1 = plain_call instantiate db in
    let db2 = record db1 {
      instantiated = true;
      wasi = record (db1.wasi) { mem = some db.guest.memory };
    } in
    unlink_path (socket_path 699 root (codes ".lock.out")) (
      unlink_path (socket_path 699 root (codes ".lock.in"))
        (unlink_path db2.io_out (unlink_path db2.io_in db2)))

-- The fields that `pgl_open` sets on the zeroed handle; the rest is the environment.
unfoldable fresh_db : Bytes → Db → Db
fresh_db root env = record env {
  instantiated = false;
  root = take 511 root;
  io_in = socket_path 639 root (codes ".in");
  io_out = socket_path 639 root (codes ".out");
  dead = false;
}

abbrev after_init : ℕ → Bytes → Db → Res (Unit {0}) × Shim → Opened
after_init fuel root db (ok _, w) = boot fuel (instantiated_db root (record db { wasi = w }))
after_init fuel root db (err _, w) = give_up fuel shim_init_failed (record db { wasi = w })
after_init fuel root db (escaped, w) = give_up fuel shim_init_failed (record db { wasi = w })
after_init fuel root db (aborted, w) = give_up fuel shim_init_failed (record db { wasi = w })

-- `handle_size` is `sizeof(pgl_db)`.
unfoldable pub pgl_open : ℕ → ℕ → Bytes → Db → Opened
unfolding boot instantiated_db fresh_db wasi_shim_init pgl_close
pgl_open fuel handle_size root env =
    if not (env.alloc_ok handle_size)
    then not_opened no_memory env
    else (let db = fresh_db root env in
        after_init fuel root db (wasi_shim_init root argv_strings envp_strings db.wasi))
