-- ===== src/Bridge/Pump/Grows.antt =====
-- A round of the pump only adds to the reply.
use pglite_ios.Common.{
  ℕ, ◌+◌, ◌≡◌, refl, sym, ap, ◌∙◌, Bool, ◌||◌, Option, none, some, [], ◌++◌, append_assoc,
  append-nil, arith, ltb, ◌==◌, length, length-append, Bytes,
}
use pglite_ios.Common.{pos, int_lt, int32, leb, lt→ltb, ◌&&◌, ◌<◌, if_rule, option_rule}
use pglite_ios.Bridge.Buffer.{grown_cap}
use pglite_ios.Bridge.Pump.{or_halt}
use pglite_ios.Wasi.State.{memory_or_empty}
use pglite_ios.Wasi.Host.{Stat, Sys, got, failed}
use mathlib.Core.Path.{subst}
use pglite_ios.Bridge.Db.{
  guest_value, guest_or_die, interactive_read, get_channel, interactive_write, interactive_one,
  wasipg_flush,
}
use pglite_ios.Wasi.Memory.Laws.{length-peek}
use pglite_ios.Wasi.Memory.{peek}
use pglite_ios.Bridge.Db.{Db, Out, Cmd, done, stop, out_of_fuel}
use pglite_ios.Bridge.Db.Ensures.{Ensures, Ensures-bind, Ensures-then}
use pglite_ios.Bridge.Buffer.{
  Buf, FileRead, reserve, append_bytes, read_open, read_sized, read_opened, read_and_remove,
}
use pglite_ios.Bridge.Pump.{
  Drained, take_channel, drain_channel, drain, pump_round, add_spilled, stop_dead,
}

-- The bytes that a step puts behind those of the buffer, and what it says of them.
abbrev pub Grown : Buf → Drained → Type 0
Grown b (b', some_came) = (s : Bytes) × (b'.bytes ≡ b.bytes ++ s) × (some_came ≡ ltb 0 (length s))

-- The buffer holds what it held; only its capacity may be another.
abbrev pub SameBytes : Buf → FileRead → Type 0
SameBytes b (b', r) = b'.bytes ≡ b.bytes

-- The buffer that an allocation gives, where it gives one, has the bytes `bs`.
abbrev pub Holds : Bytes → Option Buf → Type 0
Holds bs none = Unit
Holds bs (some b) = b.bytes ≡ bs

pub reserve-Holds : (alloc_ok : ℕ → Bool) (n : ℕ) (b : Buf) → Holds b.bytes (reserve alloc_ok n b)
unfolding reserve
reserve-Holds alloc_ok n b =
    if_rule (Holds b.bytes) (ltb b.cap n)
      (λ _.
        option_rule (Holds b.bytes) (grown_cap b.cap n) (λ _. tt)
          (λ c _. if_rule (Holds b.bytes) (alloc_ok c) (λ _. refl) (λ _. tt)))
      (λ _. refl)

pub append_bytes-Holds :
    (alloc_ok : ℕ → Bool) (b : Buf) (src : Bytes)
    → Holds (b.bytes ++ src) (append_bytes alloc_ok b src)
unfolding append_bytes
append_bytes-Holds alloc_ok b src =
    option_rule (Holds (b.bytes ++ src)) (reserve alloc_ok (length b.bytes + length src) b)
      (λ _. tt) (λ c _. refl)

read_sized-SameBytes :
    (path : Bytes) (fd : ℕ) (b : Buf) (r : Sys Stat) (db : Db)
    → Ensures (SameBytes b) (read_sized path fd b r db)
unfolding read_sized read_open
read_sized-SameBytes path fd b (failed e) db = refl
read_sized-SameBytes path fd b (got st) db =
    let n = length b.bytes + st.size in
    option_rule (λ (m : Cmd FileRead). Ensures (SameBytes b) (m db)) (reserve db.alloc_ok n b)
      (λ _. refl) (λ b' e. subst (Holds b.bytes) e (reserve-Holds db.alloc_ok n b))

read_opened-SameBytes :
    (path : Bytes) (b : Buf) (r : Sys ℕ) (db : Db) → Ensures (SameBytes b) (read_opened path b r db)
unfolding read_opened
read_opened-SameBytes path b (failed e) db = refl
read_opened-SameBytes path b (got fd) db = search read_sized-SameBytes

read_and_remove-SameBytes :
    (path : Bytes) (b : Buf) (db : Db) → Ensures (SameBytes b) (read_and_remove path b db)
unfolding read_and_remove
read_and_remove-SameBytes path b db = search read_opened-SameBytes

or_halt-Grown :
    (b : Buf) (src : Bytes) (o : Option Buf) (db : Db)
    → 0 < length src
    → Holds (b.bytes ++ src) o
    → Ensures (Grown b) (or_halt o db)
or_halt-Grown b src none db nonempty h = tt
or_halt-Grown b src (some b') db nonempty h = (src, h, sym (lt→ltb 0 (length src) nonempty))

take_channel-Grown :
    (ch wsize : ℕ) (b : Buf) (db : Db) → 0 < wsize → Ensures (Grown b) (take_channel ch wsize b db)
unfolding take_channel
take_channel-Grown ch wsize b db some_bytes =
    let m = memory_or_empty db.wasi in
    let src = peek m ch wsize in
    if_rule (Ensures (Grown b)) (int_lt (pos 0) (int32 ch) && leb (ch + wsize) m.size)
      (λ _.
        or_halt-Grown b src (append_bytes db.alloc_ok b src) db
          (omega (arith, length-peek m ch wsize)) (append_bytes-Holds db.alloc_ok b src))
      (λ _. ([], sym (append-nil b.bytes), refl))

drain_channel-Grown : (b : Buf) (db : Db) → Ensures (Grown b) (drain_channel b db)
unfolding drain_channel
drain_channel-Grown b db = Ensures-then (Grown b) (guest_value interactive_read db) _ (λ wsize db1.
    if_rule (λ (m : Cmd Drained). Ensures (Grown b) (m db1)) (wsize == 0)
      (λ _. ([], sym (append-nil b.bytes), refl))
      (λ some_bytes. Ensures-then (Grown b) (guest_value get_channel db1) _ (λ ch db2.
        Ensures-bind (Grown b) (Grown b) (take_channel ch wsize b db2) _
          (take_channel-Grown ch wsize b db2 (ground arith))
          (λ r db3 g.
            Ensures-then (Grown b) (guest_value (interactive_write 0) db3) _ (λ _ db4. g)))))

add_spilled-Grown :
    (b b' : Buf) (some_came : Bool) (file : FileRead)
    → Grown b (b', some_came)
    → SameBytes b' file
    → Grown b (add_spilled some_came file)
add_spilled-Grown b b' some_came (b1, none) (s, e, f) same = (s, same ∙ e, f)
add_spilled-Grown b b' some_came (b1, some bs) (s, e, f) same = (
  s ++ bs,
  ap (λ t. t ++ bs) (same ∙ e) ∙ append_assoc b.bytes s bs,
  came (length s) f ∙ ap (λ n. ltb 0 n) (sym (length-append s bs)),
)
  where
    came : (n : ℕ) → some_came ≡ ltb 0 n → ltb 0 (length bs) || some_came ≡ ltb 0 (n + length bs)
    came n f = ground arith

drain-Grown : (b : Buf) (db : Db) → Ensures (Grown b) (drain b db)
unfolding drain
drain-Grown b db =
    Ensures-bind (Grown b) (Grown b) (drain_channel b db) _ (drain_channel-Grown b db) (λ r db1 g.
      Ensures-bind (SameBytes r.0) (Grown b) (read_and_remove db1.io_out r.0 db1) _
        (read_and_remove-SameBytes db1.io_out r.0 db1)
        (λ file db2 same. add_spilled-Grown b r.0 r.1 file g same))

pub stop_dead-Ensures :
    (Q : Drained → Type 0) (r : Out Drained × Db) → Ensures Q r → Ensures Q (stop_dead r)
stop_dead-Ensures Q (done a, db) h = h
stop_dead-Ensures Q (stop, db) h = h
stop_dead-Ensures Q (out_of_fuel, db) h = h

-- Whatever the guest does, a round of the pump that returns leaves what the buffer held, followed
-- by the bytes that came, and reports that bytes came just when there are any.
pub pump_round-Grown : (b : Buf) (db : Db) → Ensures (Grown b) (pump_round b db)
unfolding pump_round
pump_round-Grown b db = Ensures-then (Grown b) (guest_or_die interactive_one db) _ (λ _ db1.
    Ensures-then (Grown b) (guest_or_die wasipg_flush db1) _
      (λ _ db2. stop_dead-Ensures (Grown b) (drain b db2) (drain-Grown b db2)))
