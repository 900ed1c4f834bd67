-- ===== src/Wasi/State/Steps.antt =====
-- One step of a handler, by how its first command ends.
use pglite_ios.Common.{ℕ, ◌≡◌, refl, ap, ◌⊎◌, inl, inr, Option, none, some, ◌∷◌, arith}
use pglite_ios.Wasi.Errno.{Errno, wasi_errno}
use pglite_ios.Wasi.Host.{Call, History, Os, Sys, got, failed}
use pglite_ios.Wasi.State.{
  Shim, ok, and_then, err, Op, gets, modify, or_fail, ask, tell_os, try, ◌>>=◌,
}

abbrev pub called : Call → Shim → Shim
called c w = record w { calls = c ∷ w.calls }

module _ {A B : Type 0} (k : A → Op B) (w : Shim) where
  pub or_fail-some :
      (e : ℕ) (f : Shim → Option A) (a : A) → f w ≡ some a → (or_fail e f >>= k) w ≡ k a w
  unfolding ◌>>=◌
  or_fail-some e f a h = ground arith

  pub or_fail-none : (e : ℕ) (f : Shim → Option A) → f w ≡ none → (or_fail e f >>= k) w ≡ (err e, w)
  unfolding ◌>>=◌
  or_fail-none e f h = ground arith

  pub try-got :
      (f : Os → History → Call → Sys A) (c : Call) (a : A)
      → f w.os w.calls c ≡ got a
      → (try f c >>= k) w ≡ k a (called c w)
  unfolding ◌>>=◌
  try-got f c a h = ground arith

  pub try-failed :
      (f : Os → History → Call → Sys A) (c : Call) (e : Errno)
      → f w.os w.calls c ≡ failed e
      → (try f c >>= k) w ≡ (err (wasi_errno e), called c w)
  unfolding ◌>>=◌
  try-failed f c e h = ground arith

  pub gets-step : (f : Shim → A) → (gets f >>= k) w ≡ k (f w) w
  unfolding ◌>>=◌
  gets-step f = refl

module _ {A B : Type 0} where
  -- A command that has returned.
  pub ok-step :
      (m : Op A) (k : A → Op B) (w w' : Shim) (a : A) → m w ≡ (ok a, w') → (m >>= k) w ≡ k a w'
  unfolding ◌>>=◌
  ok-step m k w w' a e = ap (λ r. and_then r k) e

module _ {A B : Type 0} (w : Shim) where
  pub ask-step :
      (f : Os → History → Call → Sys A) (c : Call) (k : Sys A → Op B)
      → (ask f c >>= k) w ≡ k (f w.os w.calls c) (called c w)
  unfolding ◌>>=◌
  ask-step f c k = refl

module _ {B : Type 0} (k : Unit {0} → Op B) (w : Shim) where
  pub modify-step : (f : Shim → Shim) → (modify f >>= k) w ≡ k tt (f w)
  unfolding ◌>>=◌
  modify-step f = refl

  pub tell_os-step : (c : Call) → (tell_os c >>= k) w ≡ k tt (called c w)
  unfolding ◌>>=◌
  tell_os-step c = refl

pub Sys-cases : {A : Type 0} (r : Sys A) → ((a : A) × (r ≡ got a)) ⊎ ((e : Errno) × (r ≡ failed e))
Sys-cases (got a) = inl (a, refl)
Sys-cases (failed e) = inr (e, refl)
