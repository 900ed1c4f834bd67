-- ===== src/Bridge/Pump/Spills.antt =====
-- A round of the pump of native/bridge/pglite_bridge.c takes all that the guest has put out.
use pglite_ios.Common.{
  ℕ, ◌+◌, ◌^◌, ◌<◌, ◌≤◌, ◌≡◌, refl, sym, ap, ◌∙◌, ◌⊎◌, inl, inr, Bool, ◌||◌, Option, none, some, [],
  ◌∷◌, ◌++◌, append-nil, arith, ltb, Bool-cases, if◌then◌else◌, option_rule, length, length-append,
  take, Bytes, pos,
}
use mathlib.Core.Path.{subst}
use pglite_ios.Wasi.Errno.{Errno}
use pglite_ios.Wasi.Host.{History, Stat, got, failed, fstat, read_fd}
use pglite_ios.Wasi.State.Steps.{Sys-cases}
use pglite_ios.Bridge.Db.{Db, Out, Cmd, done, stop, out_of_fuel, interactive_one, wasipg_flush}
use pglite_ios.Bridge.Buffer.{
  Buf, FileRead, reserve, read_open, read_sized, read_opened, read_and_remove,
}
use pglite_ios.Bridge.Buffer.Laws.{reserve_lem}
use pglite_ios.Bridge.Pump.{Drained, drain_channel, drain, pump_round, add_spilled, stop_dead}
use pglite_ios.Bridge.Pump.Ends.{IfDone}
use pglite_ios.Bridge.Pump.Grows.{reserve-Holds, Holds}
use pglite_ios.Bridge.Pump.Sources.{
  after, spill, in_channel, taken, in_file, Refused, FromFile, Filled, guest_or_die_then,
  IfDone-bind, Added, drain_channel-Added,
}

contents : Option Bytes → Bytes
contents none = []
contents (some bs) = bs

-- `reserve` fails only for want of room.
reserve-none :
    (alloc_ok : ℕ → Bool) (need : ℕ) (b : Buf)
    → reserve alloc_ok need b ≡ none
    → Refused alloc_ok need
reserve-none alloc_ok need b e = elim (le-or-lt need) [
  | inr large ↦ inr large
  | inl small ↦ elim (reserve_lem alloc_ok need b small) [
    | inl (fits, _) ↦ absurd (cc (fits, e))
    | inr (c, covers, full, tight, grown) ↦ elim (Bool-cases (alloc_ok c)) [
      | inr refused ↦ inl (c, covers, omega (arith, full, tight), refused)
      | inl given ↦
          let some_buf : (if alloc_ok c then some (record b { cap = c }) else none)
              ≡ some (record b { cap = c }) =
            rw given refl in
          absurd (cc (e, grown, some_buf))
    ]
  ]
]
  where
    le-or-lt : (n : ℕ) → (n ≤ 2 ^ 62) ⊎ (2 ^ 62 < n)
    le-or-lt n = ground arith

-- What the spill file gives, behind what the buffer `b` holds.
abbrev FileAdded : Buf → Db → FileRead → Db → Type 0
FileAdded b db file db' = (file.0.bytes ≡ b.bytes) × FromFile (length b.bytes) db (contents file.1)

module _ (b : Buf) (db : Db) where
  abbrev h1 : History
  h1 = spill db ∷ db.wasi.calls

  in_file-unopened :
      {x : Errno} → db.wasi.os.fd_of db.wasi.calls (spill db) ≡ failed x → in_file db ≡ []
  unfolding in_file
  in_file-unopened e = rw (in_file, e) refl

  module _ {fd : ℕ} (e : db.wasi.os.fd_of db.wasi.calls (spill db) ≡ got fd) where
    in_file-unsized :
        {x : Errno} → db.wasi.os.stat_of h1 (fstat (pos fd)) ≡ failed x → in_file db ≡ []
    unfolding in_file
    in_file-unsized f = rw (in_file, e, f) refl

    module _ {st : Stat} (f : db.wasi.os.stat_of h1 (fstat (pos fd)) ≡ got st) where
      in_file-unread :
          {x : Errno}
          → db.wasi.os.bytes_of (fstat (pos fd) ∷ h1) (read_fd (pos fd) st.size) ≡ failed x
          → in_file db ≡ []
      unfolding in_file
      in_file-unread g = rw (in_file, e, f, g) refl

      in_file-read :
          {bs : Bytes}
          → db.wasi.os.bytes_of (fstat (pos fd) ∷ h1) (read_fd (pos fd) st.size) ≡ got bs
          → in_file db ≡ take st.size bs
      unfolding in_file
      in_file-read g = rw (in_file, e, f, g) refl

      abbrev sized : Db
      sized = record db { wasi = record (db.wasi) { calls = fstat (pos fd) ∷ h1 } }

      read_open-FileAdded :
          (b' : Buf)
          → b'.bytes ≡ b.bytes
          → IfDone (FileAdded b db) (read_open db.io_out fd st b' sized)
      unfolding read_open contents
      read_open-FileAdded b' same =
          elim (Sys-cases (db.wasi.os.bytes_of (fstat (pos fd) ∷ h1) (read_fd (pos fd) st.size))) [
            | inl (bs, g) ↦ rw g (same, inl (sym (in_file-read g)))
            | inr (x, g) ↦ rw g (same, inl (sym (in_file-unread g)))
          ]

      read_sized-FileAdded : IfDone (FileAdded b db) (read_sized db.io_out fd b (got st) sized)
      unfolding read_sized contents
      read_sized-FileAdded =
          option_rule (λ (m : Cmd FileRead). IfDone (FileAdded b db) (m sized))
            (reserve db.alloc_ok (length b.bytes + st.size) b)
            (λ full. (
              refl,
              inr (
                refl,
                (fd, st, e, f, reserve-none db.alloc_ok (length b.bytes + st.size) b full),
              ),
            ))
            (λ b' r.
              read_open-FileAdded b'
                (subst (Holds b.bytes) r (reserve-Holds db.alloc_ok (length b.bytes + st.size) b)))

  read_and_remove-FileAdded : IfDone (FileAdded b db) (read_and_remove db.io_out b db)
  unfolding read_and_remove read_opened read_sized contents
  read_and_remove-FileAdded = elim (Sys-cases (db.wasi.os.fd_of db.wasi.calls (spill db))) [
    | inr (x, e) ↦ rw e (refl, inl (sym (in_file-unopened e)))
    | inl (fd, e) ↦ elim (Sys-cases (db.wasi.os.stat_of h1 (fstat (pos fd)))) [
      | inr (x, f) ↦ rw (e, f) (refl, inl (sym (in_file-unsized e f)))
      | inl (st, f) ↦ rw (e, f) (read_sized-FileAdded e f)
    ]
  ]

at_length :
    (b b' : Buf) (db : Db) (file : Bytes)
    → b'.bytes ≡ b.bytes ++ in_channel db
    → FromFile (length b'.bytes) (taken db) file
    → FromFile (length b.bytes + length (in_channel db)) (taken db) file
at_length b b' db file bytes =
    subst (λ n. FromFile n (taken db) file)
      (ap length bytes ∙ length-append b.bytes (in_channel db))

add_spilled-Filled :
    (b b' : Buf) (some_came : Bool) (db : Db) (file : FileRead)
    → b'.bytes ≡ b.bytes ++ in_channel db
    → some_came ≡ ltb 0 (length (in_channel db))
    → file.0.bytes ≡ b'.bytes
    → FromFile (length b'.bytes) (taken db) (contents file.1)
    → Filled b db (add_spilled some_came file)
unfolding contents
add_spilled-Filled b b' some_came db (b1, none) bytes came same from = (
  [],
  at_length b b' db [] bytes from,
  same ∙ bytes ∙ sym (append-nil (b.bytes ++ in_channel db)),
  came ∙ ap (λ n. ltb 0 n) (omega arith),
)
add_spilled-Filled b b' some_came db (b1, some bs) bytes came same from = (
  bs,
  at_length b b' db bs bytes from,
  ap (λ t. t ++ bs) (same ∙ bytes),
  some_more (length (in_channel db)) came,
)
  where
    some_more :
        (n : ℕ) → some_came ≡ ltb 0 n → ltb 0 (length bs) || some_came ≡ ltb 0 (n + length bs)
    some_more n e = ground arith

drain-Filled : (b : Buf) (db : Db) → IfDone (λ r _. Filled b db r) (drain b db)
unfolding drain
drain-Filled b db =
    IfDone-bind (Added b (in_channel db) (taken db)) (λ r _. Filled b db r) (drain_channel b db) _
      (drain_channel-Added b db)
      (λ r db1 (at, bytes, came).
        IfDone-bind (FileAdded r.0 db1) (λ r _. Filled b db r) (read_and_remove db1.io_out r.0 db1)
          _ (read_and_remove-FileAdded r.0 db1)
          (λ file db2 (same, from).
            add_spilled-Filled b r.0 r.1 db file bytes came same
              (subst (λ x. FromFile (length r.0.bytes) x (contents file.1)) at from)))

stop_dead-IfDone :
    (Q : Drained → Db → Type 0) (r : Out Drained × Db) → IfDone Q r → IfDone Q (stop_dead r)
stop_dead-IfDone Q (done a, db) h = h
stop_dead-IfDone Q (stop, db) h = tt
stop_dead-IfDone Q (out_of_fuel, db) h = tt

-- Whatever the guest does, a round of the pump that returns leaves in the buffer what it held, then
-- the bytes at the address and of the number that the guest has told after its tick and its flush,
-- then those of the spill file; it reports that bytes came just when there are any. Those of the
-- file are missing only where an allocation is refused whose size covers the need and is at most
-- 4096 or twice the need, or where the need is above 2 ^ 62.
pub pump_round-Filled :
    (b : Buf) (db : Db)
    → IfDone (λ r _. Filled b (after wasipg_flush (after interactive_one db)) r) (pump_round b db)
unfolding pump_round
pump_round-Filled b db =
    let db1 = after interactive_one db in
    let db2 = after wasipg_flush db1 in
    let Q = λ (r : Drained) (_ : Db). Filled b db2 r in
    guest_or_die_then Q interactive_one db _ (
      guest_or_die_then Q wasipg_flush db1 _
        (stop_dead-IfDone Q (drain b db2) (drain-Filled b db2)))
