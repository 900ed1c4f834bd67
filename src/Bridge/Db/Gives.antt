-- ===== src/Bridge/Db/Gives.antt =====
-- Functions of the bridge that return, with what holds of the value and the state.
use pglite_ios.Common.{ℕ, ◌≡◌, ◌∷◌, true, false, u32}
use pglite_ios.Wasi.State.{Shim}
use pglite_ios.Bridge.Db.{
  Export, Outcome, returned, Db, Out, Cmd, done, stop, out_of_fuel, and_then, after_call,
  guest_call, guest_value, guest_or_die, arm, settle, halt, die,
}

-- The function returns, and its value and the state meet `Q`.
abbrev pub Gives : {A : Type 0} → (A → Db → Type 0) → Out A × Db → Type 0
Gives Q (done a, db) = Q a db
Gives Q (stop, db) = ⊥
Gives Q (out_of_fuel, db) = ⊥

module _ {A B : Type 0} where
  pub Gives-bind :
      (P : A → Db → Type 0) (Q : B → Db → Type 0) (r : Out A × Db) (k : A → Cmd B)
      → Gives P r
      → ((a : A) (db : Db) → P a db → Gives Q (k a db))
      → Gives Q (and_then r k)
  Gives-bind P Q (done a, db) k h next = next a db h
  Gives-bind P Q (stop, db) k h next = absurd h
  Gives-bind P Q (out_of_fuel, db) k h next = absurd h

-- What a call of the export does to the instance, and the state after a call that returns.
abbrev pub ran : Export → Db → Outcome × Shim
ran c db = db.guest.run db.exports c (arm true db.wasi)

abbrev pub after : Export → Db → Db
after c db = record db { wasi = arm false (ran c db).1; exports = c ∷ db.exports }

returned-Gives :
    (Q : ℕ → Db → Type 0) (c : Export) (v : ℕ) (m : Cmd ℕ) (db : Db) (o : Outcome) (w : Shim)
    → o ≡ returned v
    → Q (u32 v) (record db { wasi = arm false w; exports = c ∷ db.exports })
    → Gives Q (after_call 0 m (o, record db { wasi = settle o w; exports = c ∷ db.exports }))
returned-Gives Q c v m db o w e h = rw e h

module _ (Q : ℕ → Db → Type 0) (c : Export) (v : ℕ) (db : Db) (e : (ran c db).0 ≡ returned v) where
  pub guest_value-Gives : Q (u32 v) (after c db) → Gives Q (guest_value c db)
  unfolding guest_call
  guest_value-Gives h = returned-Gives Q c v halt db (ran c db).0 (ran c db).1 e h

  pub guest_or_die-Gives : Q (u32 v) (after c db) → Gives Q (guest_or_die c db)
  unfolding guest_call
  guest_or_die-Gives h = returned-Gives Q c v die db (ran c db).0 (ran c db).1 e h
