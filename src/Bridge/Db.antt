-- ===== src/Bridge/Db.antt =====
-- `struct pgl_db` and GUEST_CALL of native/bridge/pglite_bridge.c. The guest module is generated
-- code and enters as a parameter: a `Guest` answers each export by the exports called before it
-- (the newest first) and the shim through which it acts.
pub mod Ensures
pub mod Gives
pub mod Keeps
use pglite_ios.Common.{ℕ, Bool, true, false, List, ◌∷◌, Bytes, u32}
use pglite_ios.Wasi.Memory.{Memory}
use pglite_ios.Wasi.Host.{Call, History, Os, Sys}
use pglite_ios.Wasi.State.{Shim}

-- The exports of the module that the bridge calls.
pub data Export : Type 0 where
  instantiate start pgl_initdb pgl_backend free_instance : Export
  use_wire interactive_write : ℕ → Export
  interactive_one wasipg_flush interactive_read get_channel : Export

-- A call returns, traps, or leaves through `proc_exit`.
pub data Outcome : Type 0 where
  returned : ℕ → Outcome
  trapped exited : Outcome

pub record Guest : Type 0 where
  pub run : List Export → Export → Shim → Outcome × Shim
  pub memory : Memory

-- `guest`, `exports`, `alloc_ok` (does an allocation of that size succeed?) and `md5` are the
-- environment.
pub record Db : Type 0 where
  pub wasi : Shim
  pub guest : Guest
  pub exports : List Export
  pub alloc_ok : ℕ → Bool
  pub md5 : Bytes → Bytes
  pub instantiated : Bool
  pub root : Bytes
  pub io_in : Bytes
  pub io_out : Bytes
  pub dead : Bool

-- How a function of the bridge ends: with a value, with NULL or -1, or not within the fuel, as where
-- a loop of it never ends.
pub data Out (A : Type 0) : Type 0 where
  done : A → Out A
  stop : Out A
  out_of_fuel : Out A

abbrev pub Cmd : Type 0 → Type 0
Cmd A = Db → Out A × Db

module _ {A B : Type 0} where
  abbrev pub and_then : Out A × Db → (A → Cmd B) → Out B × Db
  and_then (done a, db) k = k a db
  and_then (stop, db) k = (stop, db)
  and_then (out_of_fuel, db) k = (out_of_fuel, db)

  infixl 5 ◌>>=◌ ◌>>◌
  abbrev pub ◌>>=◌ : Cmd A → (A → Cmd B) → Cmd B
  m >>= k = λ db. and_then (m db) k

  abbrev pub ◌>>◌ : Cmd A → Cmd B → Cmd B
  m >> k = λ db. and_then (m db) (λ _. k)

module _ {A : Type 0} where
  abbrev pub pure : A → Cmd A
  pure a db = (done a, db)

  abbrev pub halt : Cmd A
  halt db = (stop, db)

  abbrev pub gets : (Db → A) → Cmd A
  gets f db = (done (f db), db)

  -- A call of the operating system, through the history that the shim keeps.
  abbrev pub ask : (Os → History → Call → Sys A) → Call → Cmd (Sys A)
  ask f c db = (
    done (f db.wasi.os db.wasi.calls c),
    record db { wasi = record (db.wasi) { calls = c ∷ db.wasi.calls } },
  )

abbrev pub modify : (Db → Db) → Cmd (Unit {0})
modify f db = (done tt, f db)

abbrev pub skip : Cmd (Unit {0})
skip db = (done tt, db)

abbrev pub tell_os : Call → Cmd (Unit {0})
tell_os c = modify (λ db. record db { wasi = record (db.wasi) { calls = c ∷ db.wasi.calls } })

abbrev pub arm : Bool → Shim → Shim
arm b w = record w { exit_jmp_armed = b }

-- After the call: only a trap leaves the jump armed.
abbrev pub settle : Outcome → Shim → Shim
settle trapped w = w
settle (returned v) w = arm false w
settle exited w = arm false w

-- GUEST_CALL: the jump for `proc_exit` is armed during the call.
unfoldable pub guest_call : Export → Db → Outcome × Db
guest_call c db =
    let (r, w) = db.guest.run db.exports c (arm true db.wasi) in
    (r, record db { wasi = settle r w; exports = c ∷ db.exports })

-- `v = <initial>; GUEST_CALL(db, v = <export>, { trapped = true; })`: a call that leaves through
-- `proc_exit` assigns nothing. A trap runs `on_trap`.
abbrev pub after_call : ℕ → Cmd ℕ → Outcome × Db → Out ℕ × Db
after_call initial on_trap (returned v, db) = (done (u32 v), db)
after_call initial on_trap (trapped, db) = on_trap db
after_call initial on_trap (exited, db) = (done initial, db)

abbrev pub call_guest : Export → ℕ → Cmd ℕ → Cmd ℕ
call_guest c initial on_trap db = after_call initial on_trap (guest_call c db)

-- `if (trapped) return -1;`
abbrev pub guest_value : Export → Cmd ℕ
guest_value c = call_guest c 0 halt

-- `if (trapped) { db->dead = true; return NULL; }`
abbrev pub die : Cmd ℕ
die db = (stop, record db { dead = true })

abbrev pub guest_or_die : Export → Cmd ℕ
guest_or_die c = call_guest c 0 die
