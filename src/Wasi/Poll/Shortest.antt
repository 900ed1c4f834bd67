-- ===== src/Wasi/Poll/Shortest.antt =====
-- `poll_oneoff` of native/shim/wasi_shim.c on clocks with relative timeouts, as a whole.
use pglite_ios.Common.{
  ℕ, ◌+◌, ◌*◌, ◌/◌, ◌%◌, ◌^◌, ◌≤◌, ◌≡◌, refl, ◌∙◌, inl, inr, Bool-cases, true, false, List, [], ◌∷◌,
  ltb, ◌==◌, if◌then◌else◌, length, some, if_rule, arith, pos, le_bytes,
}
use pglite_ios.Wasi.Memory.{Memory, poke}
use pglite_ios.Wasi.Host.{nanosleep}
use pglite_ios.Wasi.State.{Shim, ok, pure, skip, tell_os, modify, store, gptr, ◌>>=◌}
use pglite_ios.Wasi.State.Steps.{called, or_fail-some, ok-step}
use pglite_ios.Wasi.State.Stores.{gptr-some, put_u32-store, mem-store}
use pglite_ios.Wasi.Poll.{event_bytes, sleep, poll_clock, poll_oneoff}
use pglite_ios.Wasi.Poll.Waits.{Wait, AreWaits, kept, shortest, first-waits}
use pglite_ios.Wasi.Poll.Order.{IsFirstShortest, shortest-IsFirstShortest}

-- The state after the sleep.
abbrev pub slept : ℕ → Shim → Shim
slept t w = if t == 0 then w else called (nanosleep (t / 1_000_000_000) (t % 1_000_000_000)) w

sleep-slept : (t : ℕ) (w : Shim) → sleep (pos t) w ≡ (ok tt, slept t w)
unfolding skip tell_os modify
sleep-slept t w = elim (Bool-cases (ltb 0 t)) [
  | inl l ↦ (let some_time : (t == 0) ≡ false = ground arith in rw (l, some_time) refl)
  | inr l ↦ (let no_time : (t == 0) ≡ true = ground arith in rw (l, no_time) refl)
]

slept-mem : (t : ℕ) (w : Shim) → (slept t w).mem ≡ w.mem
slept-mem t w = if_rule (λ (x : Shim). x.mem ≡ w.mem) (t == 0) (λ _. refl) (λ _. refl)

poll_clock-kept :
    (w : Shim) (m : Memory) (out_p : ℕ) (s : Wait)
    → w.mem ≡ some m
    → out_p + 32 ≤ m.size
    → poll_clock out_p (kept s) w
      ≡ (ok 1, store out_p (event_bytes s.userdata 0 0) (slept s.timeout w))
unfolding poll_clock ◌>>=◌ modify pure
poll_clock-kept w m out_p s e h =
    let w1 = slept s.timeout w in
    ok-step (sleep (pos s.timeout)) _ w w1 tt (sleep-slept s.timeout w)
    ∙ or_fail-some _ w1 _ (λ x. gptr x out_p 32) out_p
        (gptr-some w1 m out_p 32 (slept-mem s.timeout w ∙ e) h)

-- Where the subscriptions are one clock or more, each relative and below 2 ^ 63 nanoseconds, and
-- they, the event and the count lie in a memory of at most 2 ^ 32 bytes, `poll_oneoff` sleeps once,
-- for the shortest timeout, or not at all if that is 0, then writes the event of the first of the
-- shortest clocks and a count of 1, returns 0, and changes nothing else.
pub poll_oneoff-IsFirstShortest :
    (w : Shim) (m : Memory) (in_p out_p nevents_p : ℕ) (s : Wait) (ss : List Wait)
    → w.mem ≡ some m
    → m.size ≤ 2 ^ 32
    → in_p + length (s ∷ ss) * 48 ≤ m.size
    → out_p + 32 ≤ m.size
    → nevents_p + 4 ≤ m.size
    → AreWaits m in_p (s ∷ ss)
    → (first : Wait) × IsFirstShortest first (s ∷ ss)
      × (poll_oneoff in_p out_p (length (s ∷ ss)) nevents_p w ≡ (
        ok tt,
        store nevents_p
            (le_bytes 4 1)
            (store out_p (event_bytes first.userdata 0 0) (slept first.timeout w)),
      ))
unfolding poll_oneoff poke
poll_oneoff-IsFirstShortest w m in_p out_p nevents_p s ss e small fits_in fits_out fits_count are =
    (
      shortest s ss,
      shortest-IsFirstShortest s (s ∷ []) ss
          (record { before = []; after = []; splits = refl; longer = tt; at_least = tt }),
      (let some_subs : (length (s ∷ ss) == 0) ≡ false = ground arith in
          let first = shortest s ss in
          let w1 = store out_p (event_bytes first.userdata 0 0) (slept first.timeout w) in
          rw some_subs (
            ok-step _ _ w w _ (first-waits w m e small in_p out_p s ss fits_in are)
            ∙ ok-step _ _ w w1 1 (poll_clock-kept w m out_p first e fits_out)
            ∙ put_u32-store w1 (poke m out_p (event_bytes first.userdata 0 0)) nevents_p 1
                (mem-store (slept first.timeout w) m out_p (event_bytes first.userdata 0 0)
                  (slept-mem first.timeout w ∙ e))
                fits_count)),
    )
