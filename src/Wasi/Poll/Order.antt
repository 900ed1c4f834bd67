-- ===== src/Wasi/Poll/Order.antt =====
-- Which of its clocks `poll_oneoff` of native/shim/wasi_shim.c waits for.
use pglite_ios.Common.{
  ℕ, ◌≤◌, ◌<◌, ◌≡◌, refl, sym, ap, ◌∙◌, inl, inr, Bool-cases, List, [], ◌∷◌, ◌++◌, ltb, arith,
  append-nil, append_assoc,
}
use mathlib.Core.Path.{subst}
use pglite_ios.Wasi.Poll.Waits.{Wait, earlier, shortest}

-- Every clock of the list waits longer than `t`, or at least as long.
abbrev pub AllLonger : ℕ → List Wait → Type 0
AllLonger t [] = Unit {0}
AllLonger t (s ∷ ss) = (t < s.timeout) × AllLonger t ss

abbrev pub AllAtLeast : ℕ → List Wait → Type 0
AllAtLeast t [] = Unit {0}
AllAtLeast t (s ∷ ss) = (t ≤ s.timeout) × AllAtLeast t ss

-- `s` is the first of the shortest clocks of the list.
pub record IsFirstShortest (s : Wait) (ss : List Wait) : Type 0 where
  pub before : List Wait
  pub after : List Wait
  pub splits : ss ≡ before ++ s ∷ after
  pub longer : AllLonger s.timeout before
  pub at_least : AllAtLeast s.timeout after

AllLonger-weaken : (s t : ℕ) (ss : List Wait) → s ≤ t → AllLonger t ss → AllLonger s ss
AllLonger-weaken s t [] le h = tt
AllLonger-weaken s t (x ∷ ss) le (h, hs) = (omega (arith, le, h), AllLonger-weaken s t ss le hs)

AllLonger-append :
    (t : ℕ) (before : List Wait) (b : Wait) (after : List Wait)
    → AllLonger t before
    → t < b.timeout
    → AllAtLeast b.timeout after
    → AllLonger t (before ++ b ∷ after)
AllLonger-append t [] b [] h lt k = (lt, tt)
AllLonger-append t [] b (x ∷ after) h lt (k, ks) =
    (lt, (omega (arith, lt, k), (AllLonger-append t [] b after tt lt ks).1))
AllLonger-append t (x ∷ before) b after (h, hs) lt k =
    (h, AllLonger-append t before b after hs lt k)

AllAtLeast-snoc :
    (t : ℕ) (after : List Wait) (s : Wait)
    → AllAtLeast t after
    → t ≤ s.timeout
    → AllAtLeast t (after ++ s ∷ [])
AllAtLeast-snoc t [] s h le = (le, tt)
AllAtLeast-snoc t (x ∷ after) s (h, hs) le = (h, AllAtLeast-snoc t after s hs le)

-- One more clock.
earlier-IsFirstShortest :
    (b s : Wait) (seen : List Wait)
    → IsFirstShortest b seen
    → IsFirstShortest (earlier b s) (seen ++ s ∷ [])
earlier-IsFirstShortest b s seen h = elim (Bool-cases (ltb s.timeout b.timeout)) [
  | inl l ↦
      let lt : s.timeout < b.timeout = ground arith in
      let all =
        AllLonger-append s.timeout h.before b h.after
          (AllLonger-weaken s.timeout b.timeout h.before (omega (arith, lt)) h.longer) lt
          h.at_least in
      rw l (record {
        before = seen;
        after = [];
        splits = refl;
        longer = subst (AllLonger s.timeout) (sym h.splits) all;
        at_least = tt;
      })
  | inr l ↦
      let le : b.timeout ≤ s.timeout = ground arith in
      rw l (record {
        before = h.before;
        after = h.after ++ s ∷ [];
        splits = ap (λ xs. xs ++ s ∷ []) h.splits ∙ append_assoc h.before (b ∷ h.after) (s ∷ []);
        longer = h.longer;
        at_least = AllAtLeast-snoc b.timeout h.after s h.at_least le;
      })
]

pub shortest-IsFirstShortest :
    (b : Wait) (seen ss : List Wait)
    → IsFirstShortest b seen
    → IsFirstShortest (shortest b ss) (seen ++ ss)
unfolding shortest
shortest-IsFirstShortest b seen [] h = subst (IsFirstShortest b) (sym (append-nil seen)) h
shortest-IsFirstShortest b seen (s ∷ ss) h =
    subst (IsFirstShortest (shortest (earlier b s) ss)) (append_assoc seen (s ∷ []) ss) (
      shortest-IsFirstShortest (earlier b s) (seen ++ s ∷ []) ss
        (earlier-IsFirstShortest b s seen h))
