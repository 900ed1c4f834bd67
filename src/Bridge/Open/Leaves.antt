-- ===== src/Bridge/Open/Leaves.antt =====
-- `pgl_open` of native/bridge/pglite_bridge.c leaves the books on descriptors right, wherever it ends.
use pglite_ios.Common.{ℕ, not, ◌&&◌, true, Bytes, some, codes, if_rule}
use pglite_ios.Wasi.State.{Shim, Res, ok, err, escaped, aborted}
use pglite_ios.Wasi.Init.{wasi_shim_init}
use pglite_ios.Wasi.Ledger.Sound.{GivesClosed}
use pglite_ios.Wasi.Ledger.Leads.{Settles}
use pglite_ios.Wasi.Ledger.Acts.{Acts-Settles, memory-Settles}
use pglite_ios.Wasi.Ledger.Boot.{NoneOpen}
use pglite_ios.Wasi.Ledger.Starts.{wasi_shim_init-Settles}
use pglite_ios.Wasi.Ledger.Balanced.{dispose-NoneOpen}
use pglite_ios.Bridge.Db.{
  Export, Outcome, Db, Out, done, stop, out_of_fuel, instantiate, start, pgl_initdb, pgl_backend,
  free_instance, guest_call, returned, trapped, exited,
}
use pglite_ios.Bridge.Auth.{authenticate}
use pglite_ios.Bridge.Auth.Stable.{authenticate-Keeps}
use pglite_ios.Bridge.Exec.{simple_query}
use pglite_ios.Bridge.Exec.Stable.{simple_query-Keeps, pgl_exec-Keeps}
use pglite_ios.Bridge.Open.{
  OpenError, shim_init_failed, start_trapped, initdb_trapped, backend_trapped, auth_failed,
  search_path_failed, Opened, opened, not_opened, spinning, argv_strings, envp_strings, plain_call,
  checkpoint, release, pgl_close, give_up, after_search_path, after_auth, unless_trapped, boot,
  instantiated_db, fresh_db, after_init, pgl_open,
}
use pglite_ios.Bridge.Open.Books.{ActsOnly, Books, Books-IsStable, guest_call-Books, unlinked-Books}

plain_call-Books : (c : Export) (db : Db) → Books db → Books (plain_call c db)
plain_call-Books c db b = record {
  settles =
      Acts-Settles db.wasi (db.guest.run db.exports c db.wasi).1 (b.acts db.exports c db.wasi)
        b.settles;
  acts = b.acts;
}

checkpoint-Books : (fuel : ℕ) (db : Db) → Books db → Books (checkpoint fuel db)
unfolding checkpoint
checkpoint-Books fuel db b =
    if_rule Books (not db.dead && db.instantiated)
      (λ _. (pgl_exec-Keeps Books-IsStable fuel (codes "CHECKPOINT") 256).at db b) (λ _. b)

release-Books : (db : Db) → Books db → Books (release db)
release-Books db b =
    if_rule Books db.instantiated (λ _. plain_call-Books free_instance db b) (λ _. b)

-- Whatever was done with the database, nothing is open once it is closed.
pub pgl_close-NoneOpen : (fuel : ℕ) (db : Db) → Books db → NoneOpen (pgl_close fuel db).wasi
unfolding pgl_close
pgl_close-NoneOpen fuel db b =
    let b' = release-Books (checkpoint fuel db) (checkpoint-Books fuel db b) in
    dispose-NoneOpen (release (checkpoint fuel db)).wasi b'.settles.0

-- A database that is open has its books right, and one that could not be opened leaves nothing
-- open.
abbrev pub Leaves : Opened → Type 0
Leaves (opened db) = Books db
Leaves (not_opened e db) = NoneOpen db.wasi
Leaves (spinning db) = Books db

module _ (fuel : ℕ) where
  give_up-Leaves : (e : OpenError) (db : Db) → Books db → Leaves (give_up fuel e db)
  give_up-Leaves e db b = pgl_close-NoneOpen fuel db b

  after_search_path-Leaves : (r : Out Bytes × Db) → Books r.1 → Leaves (after_search_path fuel r)
  after_search_path-Leaves (done x, db) b = b
  after_search_path-Leaves (stop, db) b = give_up-Leaves search_path_failed db b
  after_search_path-Leaves (out_of_fuel, db) b = b

  after_auth-Leaves : (r : Out (Unit {0}) × Db) → Books r.1 → Leaves (after_auth fuel r)
  after_auth-Leaves (done x, db) b =
      let sql = codes "SET search_path = public, \"$user\"" in
      after_search_path-Leaves (simple_query fuel sql db)
        ((simple_query-Keeps Books-IsStable fuel sql).at db b)
  after_auth-Leaves (stop, db) b = give_up-Leaves (auth_failed db.dead) db b
  after_auth-Leaves (out_of_fuel, db) b = b

  unless_trapped-Leaves :
      (e : OpenError) (next : Db → Opened)
      → ((db : Db) → Books db → Leaves (next db))
      → (r : Outcome × Db) → Books r.1
      → Leaves (unless_trapped fuel e next r)
  unless_trapped-Leaves e next go (trapped, db) b = give_up-Leaves e db b
  unless_trapped-Leaves e next go (returned v, db) b = go db b
  unless_trapped-Leaves e next go (exited, db) b = go db b

  boot-Leaves : (db : Db) → Books db → Leaves (boot fuel db)
  unfolding boot
  boot-Leaves db b =
      unless_trapped-Leaves start_trapped _
        (λ db1 b1.
          unless_trapped-Leaves initdb_trapped _
            (λ db2 b2.
              unless_trapped-Leaves backend_trapped _
                (λ db3 b3.
                  after_auth-Leaves (authenticate fuel db3)
                    ((authenticate-Keeps Books-IsStable fuel).at db3 b3))
                (guest_call pgl_backend db2) (guest_call-Books pgl_backend db2 b2))
            (guest_call pgl_initdb db1) (guest_call-Books pgl_initdb db1 b1))
        (guest_call start db) (guest_call-Books start db b)

mapped-Books :
    (db : Db)
    → Books db
    → Books
        (record db { instantiated = true; wasi = record (db.wasi) { mem = some db.guest.memory } })
mapped-Books db b = record {
  settles = memory-Settles db.wasi (some db.guest.memory) b.settles;
  acts = b.acts;
}

instantiated_db-Books : (root : Bytes) (db : Db) → Books db → Books (instantiated_db root db)
unfolding instantiated_db
instantiated_db-Books root db b =
    let b1 = mapped-Books (plain_call instantiate db) (plain_call-Books instantiate db b) in
    unlinked-Books _ _ (unlinked-Books _ _ (unlinked-Books _ _ (unlinked-Books _ _ b1)))

fresh-Books :
    (root : Bytes) (env : Db) (w : Shim)
    → Settles w
    → ActsOnly env.guest
    → Books (record (fresh_db root env) { wasi = w })
unfolding fresh_db
fresh-Books root env w s a = record { settles = s; acts = a }

after_init-Leaves :
    (fuel : ℕ) (root : Bytes) (env : Db) (r : Res (Unit {0}) × Shim)
    → Settles r.1
    → ActsOnly env.guest
    → Leaves (after_init fuel root (fresh_db root env) r)
after_init-Leaves fuel root env (ok x, w) s a =
    boot-Leaves fuel (instantiated_db root (record (fresh_db root env) { wasi = w })) (
      instantiated_db-Books root (record (fresh_db root env) { wasi = w })
        (fresh-Books root env w s a))
after_init-Leaves fuel root env (err e, w) s a =
    give_up-Leaves fuel shim_init_failed (record (fresh_db root env) { wasi = w })
      (fresh-Books root env w s a)
after_init-Leaves fuel root env (escaped, w) s a =
    give_up-Leaves fuel shim_init_failed (record (fresh_db root env) { wasi = w })
      (fresh-Books root env w s a)
after_init-Leaves fuel root env (aborted, w) s a =
    give_up-Leaves fuel shim_init_failed (record (fresh_db root env) { wasi = w })
      (fresh-Books root env w s a)

pub pgl_open-Leaves :
    (fuel handle_size : ℕ) (root : Bytes) (env : Db)
    → GivesClosed env.wasi.os
    → NoneOpen env.wasi
    → ActsOnly env.guest
    → Leaves (pgl_open fuel handle_size root env)
unfolding pgl_open fresh_db
pgl_open-Leaves fuel handle_size root env fresh none_open acts =
    if_rule Leaves (not (env.alloc_ok handle_size)) (λ _. none_open)
      (λ _.
        after_init-Leaves fuel root env (wasi_shim_init root argv_strings envp_strings env.wasi)
          (wasi_shim_init-Settles root argv_strings envp_strings env.wasi fresh none_open) acts)
