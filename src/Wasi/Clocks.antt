-- ===== src/Wasi/Clocks.antt =====
-- `clock_time_get`, `random_get`, `sched_yield` and `proc_exit` of native/shim/wasi_shim.c.
use pglite_ios.Common.{
  ℕ, ◌+◌, ◌*◌, true, Option, none, some, ◌==◌, if◌then◌else◌, tabulate_from, u64,
}
use pglite_ios.Wasi.Code
use pglite_ios.Wasi.Host.{
  Clock, Timespec, realtime, monotonic, process_cputime, thread_cputime, clock_gettime, arc4random,
  sched_yield,
}
use pglite_ios.Wasi.State.{
  Handler, gets, or_fail, try, tell_os, guest, put, put_u64, escaped, aborted, ◌>>=◌, ◌>>◌,
}

unfoldable clock_of : ℕ → Option Clock
clock_of id =
    if id == 0
    then some realtime
    else if id == 1
    then some monotonic
    else if id == 2
    then some process_cputime
    else if id == 3
    then some thread_cputime
    else none

-- `(u64)ts.tv_sec * 1000000000ull + (u64)ts.tv_nsec`.
unfoldable pub nanoseconds : Timespec → ℕ
nanoseconds ts = u64 (ts.sec * 1_000_000_000 + ts.nsec)

unfoldable pub clock_time_get : ℕ → ℕ → ℕ → Handler
unfolding clock_of nanoseconds
clock_time_get id precision time_p = do
  cid ← or_fail Code.inval (λ _. clock_of id)
  ts ← try (λ os. os.time_of) (clock_gettime cid)
  put_u64 time_p (nanoseconds ts)

unfoldable pub random_get : ℕ → ℕ → Handler
random_get buf_p len = do
  p ← guest buf_p len
  bytes ← gets (λ w. tabulate_from 0 len (w.os.random_of w.calls))
  tell_os (arc4random len)
  put p bytes

unfoldable pub yield_processor : Handler
yield_processor = tell_os sched_yield

-- Leaves by `longjmp` where a guest call is under way, and aborts otherwise.
unfoldable pub proc_exit : ℕ → Handler
proc_exit code w =
    (if w.exit_jmp_armed then escaped else aborted, record w { exit_code = code; exited = true })
