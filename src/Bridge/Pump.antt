-- ===== src/Bridge/Pump.antt =====
-- `drain` and `exchange` of native/bridge/pglite_bridge.c: the wire pump.
pub mod Grows
pub mod Ends
pub mod Stops
pub mod Answers
pub mod Stable
pub mod Sources
pub mod Spills
pub mod Replies
pub mod Exchanges
use mathlib.Core.Option
use pglite_ios.Common.{
  ℕ, zero, suc, ◌+◌, ◌*◌, ◌/◌, Bool, true, false, not, ◌&&◌, ◌||◌, Option, none, some, [], ◌∷◌,
  ◌++◌, ltb, leb, ◌==◌, if◌then◌else◌, length, Bytes, pos, int_lt, int32,
}
use pglite_ios.Wasi.Memory.{peek}
use pglite_ios.Wasi.State.{memory_or_empty, store}
use pglite_ios.Bridge.Frames.{has_rfq}
use pglite_ios.Bridge.Db.{
  Export, Db, Out, Cmd, out_of_fuel, use_wire, interactive_write, interactive_one, wasipg_flush,
  interactive_read, get_channel, pure, halt, gets, modify, skip, guest_call, guest_value,
  guest_or_die, die, done, stop, ◌>>=◌, ◌>>◌,
}
use pglite_ios.Bridge.Buffer.{Buf, empty_buf, append_bytes, FileRead, read_and_remove}

-- CMA_ZONE_BYTES.
abbrev pub cma_zone_bytes : ℕ
cma_zone_bytes = 12 * 1024 * 1024

-- The buffer, and whether bytes came.
abbrev pub Drained : Type 0
Drained = Buf × Bool

abbrev pub or_halt : Option Buf → Cmd Drained
or_halt none = halt
or_halt (some b) = pure (b, true)

-- The reply of `wsize` bytes at `ch` of the guest's memory, where it lies in the memory.
unfoldable take_channel : ℕ → ℕ → Buf → Cmd Drained
unfolding append_bytes peek
take_channel ch wsize b db =
    let mem = memory_or_empty db.wasi in
    if int_lt (pos 0) (int32 ch) && leb (ch + wsize) mem.size
    then or_halt (append_bytes db.alloc_ok b (peek mem ch wsize)) db
    else pure (b, false) db

-- Once the size of the reply is known to be `wsize`.
unfoldable collect : ℕ → Buf → Cmd Drained
unfolding guest_call take_channel
collect wsize b = do
  ch ← guest_value get_channel
  r ← take_channel ch wsize b
  _ ← guest_value (interactive_write 0)
  pure r

-- The first half of `drain`: the communication zone.
unfoldable drain_channel : Buf → Cmd Drained
unfolding guest_call collect
drain_channel b = do
  wsize ← guest_value interactive_read
  (if wsize == 0 then pure (b, false) else collect wsize b)

-- `if (got > 0) { *used += got; got_any = 1; }`
abbrev pub add_spilled : Bool → FileRead → Drained
add_spilled got_any (b, none) = (b, got_any)
add_spilled got_any (b, some bs) =
    (record b { bytes = b.bytes ++ bs }, ltb 0 (length bs) || got_any)

-- `drain`: the channel, then the spill file. `stop` is -1.
unfoldable drain : Buf → Cmd Drained
unfolding drain_channel read_and_remove
drain b = do
  (b', got_any) ← drain_channel b
  io_out ← gets (λ db. db.io_out)
  file ← read_and_remove io_out b'
  pure (add_spilled got_any file)

-- `if (got < 0) { db->dead = true; ... return NULL; }`
abbrev pub stop_dead : Out Drained × Db → Out Drained × Db
stop_dead (stop, db) = (stop, record db { dead = true })
stop_dead (done r, db) = (done r, db)
stop_dead (out_of_fuel, db) = (out_of_fuel, db)

-- One round of the pump: a tick, a flush, a drain.
unfoldable pub pump_round : Buf → Cmd Drained
unfolding drain guest_call
pump_round b = do
  _ ← guest_or_die interactive_one
  _ ← guest_or_die wasipg_flush
  (λ db. stop_dead (drain b db))

-- `idle < 10 && !has_rfq(buf, used)`; `none` where `has_rfq` never ends.
abbrev pub goes_on : ℕ → Buf → Option Bool
goes_on idle b = if ltb idle 10 then Option.map not (has_rfq b.bytes) else some false

-- The `while` loop. A `has_rfq` that never ends is never within the fuel.
pub pump : ℕ → ℕ → Buf → Cmd Buf
unfolding has_rfq pump_round
pump zero idle b db = (out_of_fuel, db)
pump (suc k) idle b db = elim (goes_on idle b) [
  | none ↦ (out_of_fuel, db)
  | some going ↦ elim going [
    | false ↦ (done b, db)
    | true ↦ (do (b', got) ← pump_round b; pump k (if got then 0 else idle + 1) b') db
  ]
]

-- `return buf ? buf : calloc(1, 1);`
abbrev pub reply_of : Buf → Cmd Bytes
reply_of b db = if b.cap == 0 && not (db.alloc_ok 1) then (stop, db) else (done b.bytes, db)

-- Once the payload is accepted.
unfoldable send : ℕ → Bytes → Cmd Bytes
unfolding guest_call pump store
send fuel payload = do
  _ ← guest_or_die (use_wire 1)
  modify (λ db. record db { wasi = store 1 payload db.wasi })
  _ ← guest_or_die (interactive_write (length payload))
  b ← pump fuel 0 empty_buf
  reply_of b

-- `stop` is NULL.
unfoldable pub exchange : ℕ → Bytes → Cmd Bytes
unfolding send
exchange fuel payload db =
    if db.dead
    then (stop, db)
    else if length payload == 0 || ltb (cma_zone_bytes / 2) (length payload)
    then (stop, db)
    else send fuel payload db
