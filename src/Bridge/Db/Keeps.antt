-- ===== src/Bridge/Db/Keeps.antt =====
-- A predicate that a function of the bridge keeps, however it ends, with a rule for each step.
use pglite_ios.Common.{Bool, true, false, if◌then◌else◌}
use pglite_ios.Bridge.Db.{Db, Out, Cmd, done, stop, out_of_fuel, and_then, pure, halt, gets, ◌>>=◌}

pub record Keeps {A : Type 0} (P : Db → Type 0) (m : Cmd A) : Type 0 where
  pub at : (db : Db) → P db → P (m db).1

module _ {A : Type 0} {P : Db → Type 0} where
  pub Keeps-pure : (a : A) → Keeps P (pure a)
  Keeps-pure a = record { at = λ db h. h }

  pub Keeps-halt : Keeps P (halt {A = A})
  Keeps-halt = record { at = λ db h. h }

  pub Keeps-gets : (f : Db → A) → Keeps P (gets f)
  Keeps-gets f = record { at = λ db h. h }

  pub Keeps-if : (b : Bool) {m n : Cmd A} → Keeps P m → Keeps P n → Keeps P (if b then m else n)
  Keeps-if true p q = p
  Keeps-if false p q = q

module _ {A B : Type 0} {P : Db → Type 0} where
  and_then_at :
      (r : Out A × Db) (k : A → Cmd B) → P r.1 → ((a : A) → Keeps P (k a)) → P (and_then r k).1
  and_then_at (done a, db) k p q = (q a).at db p
  and_then_at (stop, db) k p q = p
  and_then_at (out_of_fuel, db) k p q = p

  pub Keeps-bind :
      {m : Cmd A} {k : A → Cmd B} → Keeps P m → ((a : A) → Keeps P (k a)) → Keeps P (m >>= k)
  Keeps-bind {m} {k} p q = record { at = λ db h. and_then_at (m db) k (p.at db h) q }
