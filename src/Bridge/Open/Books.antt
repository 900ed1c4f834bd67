-- ===== src/Bridge/Open/Books.antt =====
-- What native/bridge/pglite_bridge.c does to its shim leaves the books on host descriptors right.
use pglite_ios.Common.{ℕ, ◌+◌, inl, inr, Bool, true, false, List, Bytes, pos, length, option_rule}
use pglite_ios.Wasi.Host.{
  Call, Stat, Sys, got, failed, open_path, fstat, close, read_fd, unlink, rdonly,
}
use pglite_ios.Wasi.State.{Shim, store}
use pglite_ios.Wasi.State.Steps.{called, Sys-cases}
use pglite_ios.Wasi.Init.{no_flags}
use pglite_ios.Wasi.Ledger.{Neutral}
use pglite_ios.Wasi.Ledger.Sound.{Sound-IsNeutral, GivesClosed}
use pglite_ios.Wasi.Ledger.Leads.{Settles}
use pglite_ios.Wasi.Ledger.Acts.{Acts, Acts-Settles}
use pglite_ios.Wasi.Ledger.Listing.{Pending, after_open, after-Neutral, closed}
use pglite_ios.Wasi.Ledger.Opens.{Sound-failed}
use pglite_ios.Bridge.Db.{
  Export, Outcome, Db, Guest, returned, trapped, exited, arm, settle, guest_call, Cmd,
}
use pglite_ios.Bridge.Buffer.{
  Buf, FileRead, reserve, read_open, read_sized, read_opened, read_and_remove,
}
use pglite_ios.Bridge.Pump.Stable.{IsStable}

-- The guest does nothing to the shim but compute on its memory and call imports.
abbrev pub ActsOnly : Guest → Type 0
ActsOnly g = (h : List Export) (c : Export) (w : Shim) → Acts w (g.run h c w).1

-- The books are right, and the guest cannot make them wrong.
pub record Books (db : Db) : Type 0 where
  pub settles : Settles db.wasi
  pub acts : ActsOnly db.guest

-- What the bridge itself does to the shim leaves the books alone.
armed-Settles : (b : Bool) (w : Shim) → Settles w → Settles (arm b w)
armed-Settles b w (s, fresh) = (record { balance = s.balance; entries = s.entries }, fresh)

settled-Settles : (r : Outcome) (w : Shim) → Settles w → Settles (settle r w)
settled-Settles (returned v) w h = armed-Settles false w h
settled-Settles trapped w h = h
settled-Settles exited w h = armed-Settles false w h

Neutral-Settles : (c : Call) (w : Shim) → Neutral c → Settles w → Settles (called c w)
Neutral-Settles c w n (s, fresh) = (Sound-IsNeutral.call c n w s, fresh)

pub guest_call-Books : (c : Export) (db : Db) → Books db → Books (guest_call c db).1
unfolding guest_call
guest_call-Books c db b =
    let w = arm true db.wasi in
    let r = db.guest.run db.exports c w in
    record {
      settles =
          settled-Settles r.0 r.1
            (Acts-Settles w r.1 (b.acts db.exports c w) (armed-Settles true db.wasi b.settles));
      acts = b.acts;
    }

dead-Books : (db : Db) → Books db → Books (record db { dead = true })
dead-Books db b = record { settles = b.settles; acts = b.acts }

store-Books :
    (p : ℕ) (bs : Bytes) (db : Db) → Books db → Books (record db { wasi = store p bs db.wasi })
unfolding store
store-Books p bs db b = record {
  settles = (Sound-IsNeutral.memory p bs db.wasi b.settles.0, b.settles.1);
  acts = b.acts;
}

-- The state after the call `c` of the bridge.
abbrev did : Call → Db → Db
did c db = record db { wasi = called c db.wasi }

-- The books while the descriptor `d` of a reply file is open.
record Reading (d : ℕ) (db : Db) : Type 0 where
  pub pending : Pending d db.wasi
  pub fresh : GivesClosed db.wasi.os
  pub acts : ActsOnly db.guest

closed-Books : (d : ℕ) (db : Db) → Reading d db → Books (did (close (pos d)) db)
closed-Books d db r = record { settles = (closed d db.wasi r.pending, r.fresh); acts = r.acts }

pub unlinked-Books : (p : Bytes) (db : Db) → Books db → Books (did (unlink p) db)
unlinked-Books p db b = record {
  settles = Neutral-Settles (unlink p) db.wasi tt b.settles;
  acts = b.acts;
}

asked-Reading : (d : ℕ) (c : Call) (db : Db) → Neutral c → Reading d db → Reading d (did c db)
asked-Reading d c db n r = record {
  pending = after-Neutral db.wasi d c n r.pending;
  fresh = r.fresh;
  acts = r.acts;
}

read_open-Books :
    (path : Bytes) (d : ℕ) (st : Stat) (b : Buf) (db : Db)
    → Reading d db
    → Books (read_open path d st b db).1
unfolding read_open
read_open-Books path d st b db r =
    let db1 = did (read_fd (pos d) st.size) db in
    unlinked-Books path (did (close (pos d)) db1)
      (closed-Books d db1 (asked-Reading d (read_fd (pos d) st.size) db tt r))

read_sized-Books :
    (path : Bytes) (d : ℕ) (b : Buf) (r : Sys Stat) (db : Db)
    → Reading d db
    → Books (read_sized path d b r db).1
unfolding read_sized
read_sized-Books path d b (failed x) db h = closed-Books d db h
read_sized-Books path d b (got st) db h =
    option_rule (λ (m : Cmd FileRead). Books (m db).1)
      (reserve db.alloc_ok (length b.bytes + st.size) b) (λ _. closed-Books d db h)
      (λ b' e. read_open-Books path d st b' db h)

read_and_remove-Books :
    (path : Bytes) (b : Buf) (db : Db) → Books db → Books (read_and_remove path b db).1
unfolding read_and_remove read_opened
read_and_remove-Books path b db k =
    let c = open_path path (no_flags rdonly) in
    elim (Sys-cases (db.wasi.os.fd_of db.wasi.calls c)) [
      | inr (x, g) ↦ rw g (record {
        settles = (Sound-failed db.wasi c x tt g k.settles.0, k.settles.1);
        acts = k.acts;
      })
      | inl (d, g) ↦
          let r : Reading d (did c db) = record {
            pending = after_open db.wasi d c tt g k.settles.0;
            fresh = k.settles.1;
            acts = k.acts;
          } in
          let db2 = did c db in
          rw g (
            read_sized-Books path d b (db2.wasi.os.stat_of db2.wasi.calls (fstat (pos d)))
              (did (fstat (pos d)) db2) (asked-Reading d (fstat (pos d)) db2 tt r))
    ]

pub Books-IsStable : IsStable Books
Books-IsStable = record {
  call = guest_call-Books;
  dead = dead-Books;
  store = store-Books;
  read = λ path b. record { at = read_and_remove-Books path b };
}
