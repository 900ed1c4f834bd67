-- ===== src/Wasi/Poll.antt =====
-- `poll_oneoff` of native/shim/wasi_shim.c.
pub mod Waits
pub mod Order
pub mod Shortest
use pglite_ios.Common.{
  ℕ, zero, suc, ◌+◌, ◌-◌, ◌*◌, ◌/◌, ◌%◌, ◌&&◌, ◌||◌, ◌∷◌, ◌++◌, ltb, ◌==◌, if◌then◌else◌, replicate,
  Bytes, ℤ, pos, minus_one, is_neg, to_nat, int_lt, int64, u32, bit, le_bytes, le_value,
}
use pglite_ios.Wasi.Code
use pglite_ios.Wasi.Host.{Timespec, Sys, got, failed, realtime, monotonic, clock_gettime, nanosleep}
use pglite_ios.Wasi.State.{
  Op, Handler, pure, fail, gets, ask, skip, tell_os, guest, put, put_u32, load, ◌>>=◌, ◌>>◌,
}
use pglite_ios.Wasi.Clocks.{nanoseconds}

-- The variables that the loop over the subscriptions carries.
pub record Polled : Type 0 where
  pub emitted : ℕ
  pub min_sleep_ns : ℤ
  pub min_clock_userdata : ℕ

-- The 32 bytes of an event: userdata, no error, the tag, `nbytes`.
unfoldable pub event_bytes : ℕ → ℕ → ℕ → Bytes
unfolding le_bytes
event_bytes userdata tag nbytes =
    le_bytes 8 userdata ++ (0 ∷ 0 ∷ tag ∷ replicate 5 0) ++ le_bytes 8 nbytes ++ replicate 8 0

-- `clock_gettime` on these two clocks; a failure would leave `ts` unset.
abbrev time_or_zero : Sys Timespec → Timespec
time_or_zero (got ts) = ts
time_or_zero (failed _) = record { sec = 0; nsec = 0 }

-- The nanoseconds to wait, from the clock and the timeout of a subscription.
unfoldable pub relative_ns : ℕ → ℕ → ℕ → Op ℤ
unfolding nanoseconds
relative_ns clock_id timeout flags =
    if bit 0 flags
    then (do
      answer ←
          ask (λ os. os.time_of) (clock_gettime (if clock_id == 0 then realtime else monotonic))
      let now = nanoseconds (time_or_zero answer)
      pure (if ltb now timeout then int64 (timeout - now) else pos 0))
    else pure (int64 timeout)

-- `if (min_sleep_ns < 0 || rel_ns < min_sleep_ns)`.
abbrev shorter : ℤ → ℕ → Polled → Polled
shorter rel_ns userdata a =
    if is_neg a.min_sleep_ns || int_lt rel_ns a.min_sleep_ns
    then record a { min_sleep_ns = rel_ns; min_clock_userdata = userdata }
    else a

-- The event of a subscription to a descriptor: always ready.
unfoldable pub emit_ready : ℕ → ℕ → ℕ → Polled → Op Polled
unfolding event_bytes
emit_ready out_p userdata tag a = do
  dst ← guest (u32 (out_p + u32 (a.emitted * 32))) 32
  put dst (event_bytes userdata tag 65536)
  pure (record a { emitted = u32 (a.emitted + 1) })

-- The body of the loop, at the subscription that starts at `sub`.
unfoldable pub poll_subscription : ℕ → ℕ → Polled → Op Polled
unfolding relative_ns emit_ready
poll_subscription out_p sub a = do
  sp ← guest sub 48
  userdata ← gets (λ w. le_value (load w sp 8))
  tag ← gets (λ w. le_value (load w (sp + 8) 1))
  clock_id ← gets (λ w. le_value (load w (sp + 16) 4))
  timeout ← gets (λ w. le_value (load w (sp + 24) 8))
  flags ← gets (λ w. le_value (load w (sp + 40) 2))
  (if tag == 0
      then (do rel_ns ← relative_ns clock_id timeout flags; pure (shorter rel_ns userdata a))
      else if tag == 1 || tag == 2
      then emit_ready out_p userdata tag a
      else pure a)

unfoldable pub poll_loop : ℕ → ℕ → ℕ → ℕ → Polled → Op Polled
unfolding poll_subscription
poll_loop in_p out_p zero i a = pure a
poll_loop in_p out_p (suc n) i a = do
  a' ← poll_subscription out_p (u32 (in_p + u32 (i * 48))) a
  poll_loop in_p out_p n (i + 1) a'

-- `if (min_sleep_ns > 0) nanosleep(...)`.
abbrev sleep : ℤ → Handler
sleep ns =
    if int_lt (pos 0) ns
    then tell_os (nanosleep (to_nat ns / 1_000_000_000) (to_nat ns % 1_000_000_000))
    else skip

-- With no descriptor ready, wait for the shortest clock subscription and emit its event.
unfoldable pub poll_clock : ℕ → Polled → Op ℕ
unfolding event_bytes
poll_clock out_p a =
    if a.emitted == 0 && int_lt minus_one a.min_sleep_ns
    then (do
      sleep a.min_sleep_ns
      dst ← guest out_p 32
      put dst (event_bytes a.min_clock_userdata 0 0)
      pure 1)
    else pure a.emitted

unfoldable pub poll_oneoff : ℕ → ℕ → ℕ → ℕ → Handler
unfolding poll_loop poll_clock
poll_oneoff in_p out_p nsubs nevents_p = if nsubs == 0 then fail Code.inval else (do
  a ←
      poll_loop in_p out_p nsubs 0
        (record { emitted = 0; min_sleep_ns = minus_one; min_clock_userdata = 0 })
  emitted ← poll_clock out_p a
  put_u32 nevents_p emitted)
