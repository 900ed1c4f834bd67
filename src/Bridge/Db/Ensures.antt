-- ===== src/Bridge/Db/Ensures.antt =====
-- What holds of the value that a function of the bridge returns, with rules for a chain.
use pglite_ios.Bridge.Db.{Db, Out, Cmd, done, stop, out_of_fuel, and_then}

module _ {A : Type 0} where
  -- The value, where there is one, meets `Q`.
  abbrev pub Ensures : (A → Type 0) → Out A × Db → Type 0
  Ensures Q (done a, db) = Q a
  Ensures Q (stop, db) = Unit
  Ensures Q (out_of_fuel, db) = Unit

module _ {A B : Type 0} where
  pub Ensures-bind :
      (P : A → Type 0) (Q : B → Type 0) (r : Out A × Db) (k : A → Cmd B)
      → Ensures P r
      → ((a : A) (db : Db) → P a → Ensures Q (k a db))
      → Ensures Q (and_then r k)
  Ensures-bind P Q (done a, db) k p next = next a db p
  Ensures-bind P Q (stop, db) k p next = tt
  Ensures-bind P Q (out_of_fuel, db) k p next = tt

  -- Where nothing is known of the first value.
  pub Ensures-then :
      (Q : B → Type 0) (r : Out A × Db) (k : A → Cmd B)
      → ((a : A) (db : Db) → Ensures Q (k a db))
      → Ensures Q (and_then r k)
  Ensures-then Q (done a, db) k next = next a db
  Ensures-then Q (stop, db) k next = tt
  Ensures-then Q (out_of_fuel, db) k next = tt
