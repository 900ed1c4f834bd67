-- ===== src/Wasi/Keeps.antt =====
-- A predicate that a command keeps, however it ends, with a rule for each combinator.
use pglite_ios.Common.{ℕ, ◌≡◌, arith, Bool, true, false, if◌then◌else◌, Option}
use pglite_ios.Wasi.Host.{Sys, got, failed}
use pglite_ios.Wasi.State.{
  Shim, Res, ok, err, escaped, aborted, Op, Handler, pure, fail, gets, or_fail, or_errno, skip,
  when, and_then, ◌>>=◌,
}

pub record Keeps {A : Type 0} (P : Shim → Type 0) (m : Op A) : Type 0 where
  pub at : (w : Shim) → P w → P (m w).1

or_fail-state : {A : Type 0} (e : ℕ) (f : Shim → Option A) (w : Shim) → (or_fail e f w).1 ≡ w
unfolding or_fail
or_fail-state e f w = ground arith

module _ {A : Type 0} {P : Shim → Type 0} where
  pub Keeps-pure : (a : A) → Keeps P (pure a)
  unfolding pure
  Keeps-pure a = record { at = λ w h. h }

  pub Keeps-fail : (e : ℕ) → Keeps P (fail {A = A} e)
  unfolding fail
  Keeps-fail e = record { at = λ w h. h }

  pub Keeps-gets : (f : Shim → A) → Keeps P (gets f)
  unfolding gets
  Keeps-gets f = record { at = λ w h. h }

  pub Keeps-or_fail : (e : ℕ) (f : Shim → Option A) → Keeps P (or_fail e f)
  Keeps-or_fail e f = record { at = λ w h. rw or_fail-state h }

  pub Keeps-or_errno : (r : Sys A) → Keeps P (or_errno r)
  unfolding or_errno
  Keeps-or_errno (got a) = record { at = λ w h. h }
  Keeps-or_errno (failed e) = record { at = λ w h. h }

  pub Keeps-if : {m n : Op A} (b : Bool) → Keeps P m → Keeps P n → Keeps P (if b then m else n)
  Keeps-if true p q = p
  Keeps-if false p q = q

module _ {A B : Type 0} {P : Shim → Type 0} where
  and_then_at :
      (r : Res A × Shim) (k : A → Op B) → P r.1 → ((a : A) → Keeps P (k a)) → P (and_then r k).1
  and_then_at (ok a, w) k p q = (q a).at w p
  and_then_at (err e, w) k p q = p
  and_then_at (escaped, w) k p q = p
  and_then_at (aborted, w) k p q = p

  pub Keeps-bind :
      {m : Op A} {k : A → Op B} → Keeps P m → ((a : A) → Keeps P (k a)) → Keeps P (m >>= k)
  unfolding ◌>>=◌
  Keeps-bind {m} {k} p q = record { at = λ w h. and_then_at (m w) k (p.at w h) q }

module _ {P : Shim → Type 0} where
  pub Keeps-skip : Keeps P skip
  unfolding skip
  Keeps-skip = record { at = λ w h. h }

  pub Keeps-when : (b : Bool) {m : Handler} → Keeps P m → Keeps P (when b m)
  unfolding when
  Keeps-when true p = record { at = p.at }
  Keeps-when false p = record { at = λ w h. h }

pub ruleset keeps_rules = (
  Keeps-pure, Keeps-fail, Keeps-gets, Keeps-or_fail, Keeps-or_errno, Keeps-if, Keeps-bind,
  Keeps-skip, Keeps-when,
)
