-- ===== src/Bridge/Pump/Answers.antt =====
-- Guests that answer a request after one tick of the pump of native/bridge/pglite_bridge.c.
use pglite_ios.Common.{ℕ, ◌+◌, ◌≤◌, ◌≡◌, true, List, ◌∷◌, length, Bytes}
use pglite_ios.Wasi.Errno.{Errno}
use pglite_ios.Wasi.Host.{History, failed, open_path, rdonly}
use pglite_ios.Wasi.Memory.{peek}
use pglite_ios.Wasi.State.{Shim, memory_or_empty}
use pglite_ios.Wasi.Init.{no_flags}
use pglite_ios.Bridge.Db.{
  Export, Outcome, returned, Guest, Db, use_wire, interactive_write, interactive_one, wasipg_flush,
  interactive_read, get_channel,
}

-- There is no spill file at `io_out`.
abbrev pub NoSpill : Bytes → Shim → Type 0
NoSpill io_out w =
    (h : History) → (e : Errno) × (w.os.fd_of h (open_path io_out (no_flags rdonly)) ≡ failed e)

-- The reply stands at `ch` of the guest's memory, and there is no spill file.
abbrev pub Offers : Bytes → Bytes → ℕ → Shim → Type 0
Offers io_out reply ch w =
    (ch + length reply ≤ (memory_or_empty w).size)
    × (peek (memory_or_empty w) ch (length reply) ≡ reply)
    × NoSpill io_out w

abbrev pub Returned : Outcome → Type 0
Returned o = (v : ℕ) × (o ≡ returned v)

-- The call returns, or returns `v`, and the reply still stands.
abbrev pub Keeps : Bytes → Bytes → ℕ → Outcome × Shim → Type 0
Keeps io_out reply ch r = Returned r.0 × Offers io_out reply ch r.1

abbrev pub Tells : Bytes → Bytes → ℕ → ℕ → Outcome × Shim → Type 0
Tells io_out reply ch v r = (r.0 ≡ returned v) × Offers io_out reply ch r.1

abbrev pub Clears : Bytes → Outcome × Shim → Type 0
Clears io_out r = Returned r.0 × NoSpill io_out r.1

-- A guest that takes a request of `n` bytes after the calls `h`.
pub record Accepts (io_out : Bytes) (n : ℕ) (h : List Export) (g : Guest) : Type 0 where
  pub wires : (w : Shim) → NoSpill io_out w → Clears io_out (g.run h (use_wire 1) w)
  pub takes :
      (w : Shim) → NoSpill io_out w → Clears io_out (g.run (use_wire 1 ∷ h) (interactive_write n) w)

-- The calls up to a request that is accepted.
abbrev pub accepted : Bytes → Db → List Export
accepted payload db = interactive_write (length payload) ∷ use_wire 1 ∷ db.exports

-- What follows the calls `h` in a round of the pump.
abbrev pub flushed : List Export → List Export
flushed h = wasipg_flush ∷ interactive_one ∷ h

abbrev pub placed : List Export → List Export
placed h = get_channel ∷ interactive_read ∷ flushed h

-- A guest that has `reply` ready after one tick that follows the calls `h`, keeps it in place
-- until it has been collected, and writes no spill file.
pub record Answers (io_out reply : Bytes) (ch : ℕ) (h : List Export) (g : Guest) : Type 0 where
  pub ticks : (w : Shim) → NoSpill io_out w → Keeps io_out reply ch (g.run h interactive_one w)
  pub flushes :
      (w : Shim)
      → Offers io_out reply ch w
      → Keeps io_out reply ch (g.run (interactive_one ∷ h) wasipg_flush w)
  pub sizes :
      (w : Shim)
      → Offers io_out reply ch w
      → Tells io_out reply ch (length reply) (g.run (flushed h) interactive_read w)
  pub places :
      (w : Shim)
      → Offers io_out reply ch w
      → Tells io_out reply ch ch (g.run (interactive_read ∷ flushed h) get_channel w)
  pub resets :
      (w : Shim)
      → Offers io_out reply ch w
      → Clears io_out (g.run (placed h) (interactive_write 0) w)

-- Such a guest, and memory for every buffer.
abbrev pub IsReady : Bytes → ℕ → List Export → Db → Type 0
IsReady reply ch h db = Answers db.io_out reply ch h db.guest × ((n : ℕ) → db.alloc_ok n ≡ true)
