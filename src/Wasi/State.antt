-- ===== src/Wasi/State.antt =====
-- `struct w2c_wasi__snapshot__preview1` of native/shim/wasi_shim.h, the guest memory helpers of
-- native/shim/wasi_shim.c, and the handlers as commands that may return early with a WASI code.
pub mod Steps
pub mod Stores
use mathlib.Core.Option
use pglite_ios.Common.{
  ℕ, ◌+◌, Bool, true, false, Option, none, some, List, [], ◌∷◌, ltb, ◌==◌, if◌then◌else◌, Bytes, ℤ,
  le_bytes, le_value, leb,
}
use pglite_ios.Wasi.Code
use pglite_ios.Wasi.Errno.{wasi_errno}
use pglite_ios.Wasi.Host.{Sys, got, failed, Call, History, Os}
use pglite_ios.Wasi.Memory.{Memory, peek, poke}

pub record FdEntry : Type 0 where
  pub host_fd : ℤ
  pub filetype : ℕ
  pub fdflags : ℕ
  pub preopen : ℤ

pub record Preopen : Type 0 where
  pub guest_path : Bytes
  pub host_path : Bytes
  pub host_fd : ℤ

-- The strings of `argv` and `envp` carry no terminator here, and `argc`, `envc` are the lengths.
-- `os` and `calls` are the environment: the operating system, and what has been called so far.
pub record Shim : Type 0 where
  pub mem : Option Memory
  pub argv : List Bytes
  pub envp : List Bytes
  pub preopens : ℕ → Preopen
  pub n_preopens : ℕ
  pub fds : ℕ → FdEntry
  pub log_fd : ℤ
  pub exit_jmp_armed : Bool
  pub exit_code : ℕ
  pub exited : Bool
  pub os : Os
  pub calls : History

abbrev pub max_fds : ℕ
max_fds = 256

-- How a handler ends: it goes on with a value, returns a WASI code early, leaves by `longjmp`,
-- or aborts the process.
pub data Res (A : Type 0) : Type 0 where
  ok : A → Res A
  err : ℕ → Res A
  escaped : Res A
  aborted : Res A

abbrev pub Op : Type 0 → Type 0
Op A = Shim → Res A × Shim

-- A handler whose body ends returns 0.
abbrev pub Handler : Type 0
Handler = Op (Unit {0})

module _ {A : Type 0} where
  unfoldable pub pure : A → Op A
  pure a w = (ok a, w)

  unfoldable pub fail : ℕ → Op A
  fail e w = (err e, w)

  unfoldable pub gets : (Shim → A) → Op A
  gets f w = (ok (f w), w)

  -- `if (!p) return e;`
  unfoldable pub or_fail : ℕ → (Shim → Option A) → Op A
  or_fail e f w = elim (f w) [ none ↦ (err e, w) | some a ↦ (ok a, w) ]

  -- `if (r < 0) return wasi_errno(errno);`
  unfoldable pub or_errno : Sys A → Op A
  or_errno (got a) w = (ok a, w)
  or_errno (failed e) w = (err (wasi_errno e), w)

  -- A call of the operating system.
  unfoldable pub ask : (Os → History → Call → Sys A) → Call → Op (Sys A)
  ask f c w = (ok (f w.os w.calls c), record w { calls = c ∷ w.calls })

unfoldable pub modify : (Shim → Shim) → Handler
modify f w = (ok tt, f w)

unfoldable pub skip : Handler
skip w = (ok tt, w)

-- A call whose result the code does not read.
unfoldable pub tell_os : Call → Handler
tell_os c w = (ok tt, record w { calls = c ∷ w.calls })

unfoldable pub when : Bool → Handler → Handler
when true m w = m w
when false m w = (ok tt, w)

-- To unfold this one is to unfold the commands above it.
module _ {A B : Type 0} where
  abbrev pub and_then : Res A × Shim → (A → Op B) → Res B × Shim
  and_then (ok a, w) k = k a w
  and_then (err e, w) k = (err e, w)
  and_then (escaped, w) k = (escaped, w)
  and_then (aborted, w) k = (aborted, w)

  infixl 5 ◌>>=◌ ◌>>◌
  unfoldable pub ◌>>=◌ : Op A → (A → Op B) → Op B
  unfolding pure fail gets or_fail or_errno ask modify skip tell_os when
  ◌>>=◌ m k w = and_then (m w) k

  abbrev pub ◌>>◌ : Op A → Op B → Op B
  m >> k = m >>= λ _. k

-- A call whose failure returns `wasi_errno(errno)`.
abbrev pub try : {A : Type 0} → (Os → History → Call → Sys A) → Call → Op A
try f c = ask f c >>= or_errno

-- `m->data + off`, or NULL where the range does not lie in the memory. The sum is 64 bits wide.
unfoldable pub gptr : Shim → ℕ → ℕ → Option ℕ
gptr w off len = elim w.mem [
  | none ↦ none
  | some m ↦ if ltb m.size (off + len) then none else some off
]

abbrev pub memory_or_empty : Shim → Memory
memory_or_empty w = Option.get_or w.mem (record { size = 0; byte = λ _. 0 })

-- `memcpy` to a pointer that `gptr` gave.
unfoldable pub store : ℕ → Bytes → Shim → Shim
store p bs w = record w { mem = Option.map (λ m. poke m p bs) w.mem }

-- `memcpy` from a pointer that `gptr` gave.
unfoldable pub load : Shim → ℕ → ℕ → Bytes
load w p n = peek (memory_or_empty w) p n

-- `none` is the -1 of these four.
unfoldable pub gread_u32 : Shim → ℕ → Option ℕ
unfolding gptr load
gread_u32 w off = Option.map (λ p. le_value (load w p 4)) (gptr w off 4)

unfoldable pub gwrite_u32 : Shim → ℕ → ℕ → Option Shim
unfolding gptr store
gwrite_u32 w off v = Option.map (λ p. store p (le_bytes 4 v) w) (gptr w off 4)

unfoldable gwrite_u64 : Shim → ℕ → ℕ → Option Shim
unfolding gptr store
gwrite_u64 w off v = Option.map (λ p. store p (le_bytes 8 v) w) (gptr w off 8)

-- The path ends at its first NUL byte for the calls that read it.
unfoldable pub c_string : Bytes → Bytes
c_string [] = []
c_string (b ∷ bs) = let rest = c_string bs in if b == 0 then [] else b ∷ rest

unfoldable pub gpath : Shim → ℕ → ℕ → ℕ → Option Bytes
unfolding gptr load
gpath w off len cap =
    if leb cap len then none else Option.map (λ p. c_string (load w p len)) (gptr w off len)

-- The forms in which the handlers use them: NULL or -1 returns `WASI_EFAULT`.
abbrev pub guest : ℕ → ℕ → Op ℕ
guest off len = or_fail Code.fault (λ w. gptr w off len)

abbrev pub put : ℕ → Bytes → Handler
put p bs = modify (store p bs)

abbrev pub written : Option Shim → Res (Unit {0}) × Shim → Res (Unit {0}) × Shim
written none stopped = stopped
written (some w) stopped = (ok tt, w)

unfoldable pub put_u32 : ℕ → ℕ → Handler
unfolding gwrite_u32
put_u32 off v w = written (gwrite_u32 w off v) (err Code.fault, w)

unfoldable pub put_u64 : ℕ → ℕ → Handler
unfolding gwrite_u64
put_u64 off v w = written (gwrite_u64 w off v) (err Code.fault, w)

abbrev pub get_u32 : ℕ → Op ℕ
get_u32 off = or_fail Code.fault (λ w. gread_u32 w off)

-- `char path[1024]`.
abbrev pub get_path : ℕ → ℕ → Op Bytes
get_path off len = or_fail Code.fault (λ w. gpath w off len 1024)

-- What the guest gets back, where the handler returns.
abbrev pub code_of : {A : Type 0} → Res A → Option ℕ
code_of (ok _) = some Code.success
code_of (err e) = some e
code_of escaped = none
code_of aborted = none
