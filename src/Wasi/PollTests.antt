-- ===== src/Wasi/PollTests.antt =====
-- `poll_oneoff` at concrete inputs.
use pglite_ios.Common.{
  ℕ, ◌≡◌, refl, some, [], ◌∷◌, ◌++◌, arith, get_or, replicate, Bytes, le_bytes, le_value,
}
use pglite_ios.Wasi.Memory.{Memory, peek}
use pglite_ios.Wasi.State.{Shim, ok, store}
use pglite_ios.Wasi.Poll.{poll_oneoff, event_bytes}
use pglite_ios.Wasi.Poll.Waits.{Wait, AreWaits}
use pglite_ios.Wasi.Poll.Order.{IsFirstShortest}
use pglite_ios.Wasi.Poll.Shortest.{slept, poll_oneoff-IsFirstShortest}
use pglite_ios.Wasi.Tests.{small}

abbrev subscription : ℕ → ℕ → Bytes
subscription userdata timeout =
    le_bytes 8 userdata ++ replicate 16 0 ++ le_bytes 8 timeout ++ replicate 16 0

abbrev two_clocks : Bytes
two_clocks = subscription 7 2000 ++ subscription 9 1000

abbrev clocks : Memory
clocks = record { size = 4096; byte = λ i. get_or two_clocks i 0 }

abbrev waiting : Shim
waiting = record small { mem = some clocks }

abbrev longer : Wait
longer = record { userdata = 7; timeout = 2000 }

abbrev shorter : Wait
shorter = record { userdata = 9; timeout = 1000 }

clocks-AreWaits : AreWaits clocks 0 (longer ∷ shorter ∷ [])
unfolding peek le_bytes le_value
clocks-AreWaits = (
  record { user = refl; tag = refl; wait = refl; relative = refl; fits = omega arith },
  (record { user = refl; tag = refl; wait = refl; relative = refl; fits = omega arith }, tt),
)

poll_oneoff-IsFirstShortest_example :
    (first : Wait) × IsFirstShortest first (longer ∷ shorter ∷ [])
    × (poll_oneoff 0 1024 2 2048 waiting ≡ (
      ok tt,
      store 2048
          (le_bytes 4 1)
          (store 1024 (event_bytes first.userdata 0 0) (slept first.timeout waiting)),
    ))
poll_oneoff-IsFirstShortest_example =
    poll_oneoff-IsFirstShortest waiting clocks 0 1024 2048 longer (shorter ∷ []) refl (omega arith)
      (omega arith) (omega arith) (omega arith) clocks-AreWaits
