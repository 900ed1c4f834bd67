-- ===== src/Wasi/Poll/Waits.antt =====
-- The loop of `poll_oneoff` of native/shim/wasi_shim.c over clocks with relative timeouts.
use pglite_ios.Common.{
  ℕ, ◌+◌, ◌*◌, ◌^◌, ◌≤◌, ◌<◌, ◌≡◌, refl, ap, ◌∙◌, inl, inr, Bool-cases, true, false, List, [], ◌∷◌,
  ltb, if◌then◌else◌, length, some, arith, pos, minus_one, u32, bit, le_value,
}
use mathlib.Core.Path.{subst}
use pglite_ios.Wasi.Memory.{Memory, peek}
use pglite_ios.Wasi.State.{Shim, ok, pure, gets, load, gptr, ◌>>=◌}
use pglite_ios.Wasi.State.Steps.{or_fail-some, ok-step}
use pglite_ios.Wasi.State.Stores.{gptr-some}
use pglite_ios.Wasi.Poll.{Polled, shorter, poll_subscription, poll_loop}

-- A clock to wait for, in nanoseconds from now.
pub record Wait : Type 0 where
  pub userdata : ℕ
  pub timeout : ℕ

-- The subscription at `p` is the clock `s`, relative, with a timeout below 2 ^ 63.
pub record IsWait (m : Memory) (p : ℕ) (s : Wait) : Type 0 where
  pub user : le_value (peek m p 8) ≡ s.userdata
  pub tag : le_value (peek m (p + 8) 1) ≡ 0
  pub wait : le_value (peek m (p + 24) 8) ≡ s.timeout
  pub relative : bit 0 (le_value (peek m (p + 40) 2)) ≡ false
  pub fits : s.timeout < 2 ^ 63

-- The subscriptions from `p` on are these clocks.
abbrev pub AreWaits : Memory → ℕ → List Wait → Type 0
AreWaits m p [] = Unit {0}
AreWaits m p (s ∷ ss) = IsWait m p s × AreWaits m (p + 48) ss

load-peek : (w : Shim) (m : Memory) (p n : ℕ) → w.mem ≡ some m → load w p n ≡ peek m p n
unfolding load
load-peek w m p n e = rw e refl

poll_subscription-wait :
    (w : Shim) (m : Memory) (out_p p : ℕ) (s : Wait) (a : Polled)
    → w.mem ≡ some m
    → p + 48 ≤ m.size
    → IsWait m p s
    → poll_subscription out_p p a w ≡ (ok (shorter (pos s.timeout) s.userdata a), w)
unfolding poll_subscription ◌>>=◌ gets
poll_subscription-wait w m out_p p s a e h is =
    let small : ltb s.timeout (2 ^ 63) ≡ true = ground (arith, is.fits) in
    or_fail-some _ w _ (λ x. gptr x p 48) p (gptr-some w m p 48 e h)
    ∙ rw
        (
          load-peek w m p 8 e,
          is.user,
          load-peek w m (p + 8) 1 e,
          is.tag,
          load-peek w m (p + 24) 8 e,
          is.wait,
          load-peek w m (p + 40) 2 e,
          is.relative,
          small,
        )
        refl

-- What the code keeps of the clocks that it has seen.
abbrev pub kept : Wait → Polled
kept s = record { emitted = 0; min_sleep_ns = pos s.timeout; min_clock_userdata = s.userdata }

abbrev pub earlier : Wait → Wait → Wait
earlier b s = if ltb s.timeout b.timeout then s else b

shorter-kept : (b s : Wait) → shorter (pos s.timeout) s.userdata (kept b) ≡ kept (earlier b s)
shorter-kept b s = elim (Bool-cases (ltb s.timeout b.timeout)) [
  | inl l ↦ rw l refl
  | inr l ↦ rw l refl
]

unfoldable pub shortest : Wait → List Wait → Wait
shortest b [] = b
shortest b (s ∷ ss) = shortest (earlier b s) ss

module _ (w : Shim) (m : Memory) (e : w.mem ≡ some m) (small : m.size ≤ 2 ^ 32)
    (in_p out_p : ℕ) where
  loop-waits :
      (i : ℕ) (b : Wait) (ss : List Wait)
      → in_p + i * 48 + length ss * 48 ≤ m.size
      → AreWaits m (in_p + i * 48) ss
      → poll_loop in_p out_p (length ss) i (kept b) w ≡ (ok (kept (shortest b ss)), w)
  unfolding poll_loop shortest pure
  loop-waits i b [] h are = refl
  loop-waits i b (s ∷ ss) h (is, are) =
      let next : in_p + i * 48 + 48 ≡ in_p + (i + 1) * 48 = omega arith in
      let at : u32 (in_p + u32 (i * 48)) ≡ in_p + i * 48 = omega (arith, h, small) in
      rw at (
        ok-step _ _ w w _
          (poll_subscription-wait w m out_p (in_p + i * 48) s (kept b) e (omega (arith, h)) is)
        ∙ ap (λ (x : Polled). poll_loop in_p out_p (length ss) (i + 1) x w) (shorter-kept b s)
        ∙ loop-waits (i + 1) (earlier b s) ss (omega (arith, h))
            (subst (λ p. AreWaits m p ss) next are))

  -- The first subscription is kept whatever its timeout.
  pub first-waits :
      (s : Wait) (ss : List Wait)
      → in_p + length (s ∷ ss) * 48 ≤ m.size
      → AreWaits m in_p (s ∷ ss)
      → poll_loop in_p out_p
          (length (s ∷ ss))
          0
          (record { emitted = 0; min_sleep_ns = minus_one; min_clock_userdata = 0 })
          w
        ≡ (ok (kept (shortest s ss)), w)
  unfolding poll_loop
  first-waits s ss h (is, are) =
      let at : u32 (in_p + u32 (0 * 48)) ≡ in_p = omega (arith, h, small) in
      rw at (
        ok-step _ _ w w _ (
          poll_subscription-wait w m out_p in_p s
            (record { emitted = 0; min_sleep_ns = minus_one; min_clock_userdata = 0 }) e
            (omega (arith, h)) is)
        ∙ loop-waits 1 s ss (omega (arith, h)) are)
