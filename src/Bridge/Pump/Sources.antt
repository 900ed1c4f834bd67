-- ===== src/Bridge/Pump/Sources.antt =====
-- Where the bytes of a round of the pump of native/bridge/pglite_bridge.c come from.
use pglite_ios.Common.{
  ℕ, ◌+◌, ◌*◌, max, ◌^◌, ◌<◌, ◌≤◌, ◌≡◌, refl, sym, ap, ◌⊎◌, inl, inr, Bool, false, ◌&&◌, Option,
  none, some, [], ◌∷◌, ◌++◌, append-nil, arith, ltb, lt→ltb, Bool-cases, leb, ◌==◌, if◌then◌else◌,
  length, take, Bytes, pos, int_lt, int32, u32,
}
use pglite_ios.Wasi.Memory.{peek}
use pglite_ios.Wasi.Memory.Laws.{length-peek}
use pglite_ios.Wasi.Host.{Call, Stat, got, failed, open_path, fstat, read_fd, rdonly}
use pglite_ios.Wasi.Init.{no_flags}
use pglite_ios.Wasi.State.{memory_or_empty}
use pglite_ios.Bridge.Db.{
  Db, Out, Cmd, done, stop, out_of_fuel, and_then, Export, Outcome, returned, trapped, exited,
  guest_call, after_call, halt, die, guest_value, guest_or_die, interactive_read, get_channel,
  interactive_write,
}
use pglite_ios.Bridge.Buffer.{Buf, append_bytes}
use pglite_ios.Bridge.Pump.{Drained, or_halt, take_channel, drain_channel, collect}
use pglite_ios.Bridge.Pump.Ends.{IfDone}
use pglite_ios.Bridge.Pump.Grows.{append_bytes-Holds, Holds}

-- What a call of the guest gives to a variable that was 0, and the state after it.
abbrev pub value_of : Outcome → ℕ
value_of (returned v) = u32 v
value_of trapped = 0
value_of exited = 0

abbrev pub value : Export → Db → ℕ
value c db = value_of (guest_call c db).0

abbrev pub after : Export → Db → Db
after c db = (guest_call c db).1

-- The `wsize` bytes at `ch`, where that is a positive `int32_t` and they lie in the memory.
abbrev pub at_channel : ℕ → ℕ → Db → Bytes
at_channel ch wsize db =
    let m = memory_or_empty db.wasi in
    if int_lt (pos 0) (int32 ch) && leb (ch + wsize) m.size then peek m ch wsize else []

-- The bytes that the guest has in its memory: as many as `interactive_read` says, at the address
-- that `get_channel` says.
unfoldable pub in_channel : Db → Bytes
in_channel db =
    let wsize = value interactive_read db in
    let db1 = after interactive_read db in
    if wsize == 0 then [] else at_channel (value get_channel db1) wsize (after get_channel db1)

-- The state once they are taken: the guest is told so.
unfoldable pub taken : Db → Db
taken db =
    let db1 = after interactive_read db in
    if value interactive_read db == 0
    then db1
    else after (interactive_write 0) (after get_channel db1)

abbrev pub spill : Db → Call
spill db = open_path db.io_out (no_flags rdonly)

-- The bytes of the spill file, as far as its size goes; none where a call fails.
unfoldable pub in_file : Db → Bytes
in_file db = elim (db.wasi.os.fd_of db.wasi.calls (spill db)) [
  | failed _ ↦ []
  | got fd ↦
      let h = spill db ∷ db.wasi.calls in
      elim (db.wasi.os.stat_of h (fstat (pos fd))) [
        | failed _ ↦ []
        | got st ↦ elim (db.wasi.os.bytes_of (fstat (pos fd) ∷ h) (read_fd (pos fd) st.size)) [
          | failed _ ↦ []
          | got bs ↦ take st.size bs
        ]
      ]
]

-- An allocation is refused whose size covers the need and is at most 4096 or twice the need, or
-- the need is above 2 ^ 62.
abbrev pub Refused : (ℕ → Bool) → ℕ → Type 0
Refused alloc_ok need =
    ((c : ℕ) × (need ≤ c) × (c ≤ max 4096 (2 * need)) × (alloc_ok c ≡ false)) ⊎ (2 ^ 62 < need)

-- The file is there, and behind `n` bytes there is no room for it.
abbrev pub NoRoom : ℕ → Db → Type 0
NoRoom n db =
    (fd : ℕ) × (st : Stat) × (db.wasi.os.fd_of db.wasi.calls (spill db) ≡ got fd)
    × (db.wasi.os.stat_of (spill db ∷ db.wasi.calls) (fstat (pos fd)) ≡ got st)
    × Refused db.alloc_ok (n + st.size)

-- What the buffer has got of the spill file.
abbrev pub FromFile : ℕ → Db → Bytes → Type 0
FromFile n db file = (file ≡ in_file db) ⊎ ((file ≡ []) × NoRoom n db)

-- The buffer holds what it held, then the bytes of the channel, then those of the spill file.
abbrev pub Filled : Buf → Db → Drained → Type 0
Filled b db (b', some_came) =
    (file : Bytes) × FromFile (length b.bytes + length (in_channel db)) (taken db) file
    × (b'.bytes ≡ b.bytes ++ in_channel db ++ file)
    × (some_came ≡ ltb 0 (length (in_channel db) + length file))

module _ {B : Type 0} (Q : B → Db → Type 0) where
  called_then :
      (m : Cmd ℕ) (r : Outcome × Db) (k : ℕ → Cmd B)
      → ((db : Db) → IfDone Q (and_then (m db) k))
      → IfDone Q (k (value_of r.0) r.1)
      → IfDone Q (and_then (after_call 0 m r) k)
  called_then m (returned v, db) k t h = h
  called_then m (trapped, db) k t h = t db
  called_then m (exited, db) k t h = h

  guest_value_then :
      (c : Export) (db : Db) (k : ℕ → Cmd B)
      → IfDone Q (k (value c db) (after c db))
      → IfDone Q (and_then (guest_value c db) k)
  guest_value_then c db k h = called_then halt (guest_call c db) k (λ db'. tt) h

  pub guest_or_die_then :
      (c : Export) (db : Db) (k : ℕ → Cmd B)
      → IfDone Q (k (value c db) (after c db))
      → IfDone Q (and_then (guest_or_die c db) k)
  guest_or_die_then c db k h = called_then die (guest_call c db) k (λ db'. tt) h

module _ {A B : Type 0} where
  pub IfDone-bind :
      (P : A → Db → Type 0) (Q : B → Db → Type 0) (r : Out A × Db) (k : A → Cmd B)
      → IfDone P r
      → ((a : A) (db : Db) → P a db → IfDone Q (k a db))
      → IfDone Q (and_then r k)
  IfDone-bind P Q (done a, db) k p next = next a db p
  IfDone-bind P Q (stop, db) k p next = tt
  IfDone-bind P Q (out_of_fuel, db) k p next = tt

-- `src` has been put behind the buffer, in the state `db`.
abbrev pub Added : Buf → Bytes → Db → Drained → Db → Type 0
Added b src db r db' = (db' ≡ db) × (r.0.bytes ≡ b.bytes ++ src) × (r.1 ≡ ltb 0 (length src))

or_halt-Added :
    (o : Option Buf) (b : Buf) (src : Bytes) (db : Db)
    → 0 < length src
    → Holds (b.bytes ++ src) o
    → IfDone (Added b src db) (or_halt o db)
or_halt-Added none b src db nonempty h = tt
or_halt-Added (some b') b src db nonempty h = (refl, h, sym (lt→ltb 0 (length src) nonempty))

none-Added : (b : Buf) (db : Db) → Added b [] db (b, false) db
none-Added b db = (refl, sym (append-nil b.bytes), refl)

take_channel-Added :
    (ch wsize : ℕ) (b : Buf) (db : Db)
    → 0 < wsize
    → IfDone (Added b (at_channel ch wsize db) db) (take_channel ch wsize b db)
unfolding take_channel
take_channel-Added ch wsize b db nonempty =
    let m = memory_or_empty db.wasi in
    let src = peek m ch wsize in
    elim (Bool-cases (int_lt (pos 0) (int32 ch) && leb (ch + wsize) m.size)) [
      | inl inside ↦ rw inside (
          or_halt-Added (append_bytes db.alloc_ok b src) b src db
            (omega (arith, nonempty, length-peek m ch wsize))
            (append_bytes-Holds db.alloc_ok b src))
      | inr outside ↦ rw outside (none-Added b db)
    ]

-- The first half of `drain`.
pub drain_channel-Added :
    (b : Buf) (db : Db) → IfDone (Added b (in_channel db) (taken db)) (drain_channel b db)
unfolding drain_channel collect in_channel taken
drain_channel-Added b db =
    let db1 = after interactive_read db in
    let wsize = value interactive_read db in
    guest_value_then _ interactive_read db _ (elim (Bool-cases (wsize == 0)) [
      | inl nothing ↦ rw nothing (none-Added b db1)
      | inr some_bytes ↦ rw some_bytes (
          guest_value_then _ get_channel db1 _ (
            IfDone-bind _ _ (take_channel (value get_channel db1) wsize b (after get_channel db1)) _
              (take_channel-Added (value get_channel db1) wsize b (after get_channel db1)
                (ground arith))
              (λ r db3 (same, bytes, came).
                guest_value_then _ (interactive_write 0) db3 _
                  (ap (after (interactive_write 0)) same, bytes, came))))
    ])
