-- ===== src/Bridge/Pump/Stops.antt =====
-- The calls of the wire on an engine that is alive, that dies, and that is dead.
use pglite_ios.Common.{◌/◌, ◌≡◌, ◌⊎◌, true, false, ◌||◌, ltb, ◌==◌, length, Bytes}
use pglite_ios.Bridge.Db.{Db, Out, done, stop, out_of_fuel}
use pglite_ios.Bridge.Pump.{cma_zone_bytes}

-- A call that returns leaves the engine alive; where it stops, the state meets `Q`.
abbrev pub AliveOr : {A : Type 0} → (Db → Type 0) → Out A × Db → Type 0
AliveOr Q (done a, db) = db.dead ≡ false
AliveOr Q (stop, db) = Q db
AliveOr Q (out_of_fuel, db) = Unit

abbrev Dead : Db → Type 0
Dead db = db.dead ≡ true

-- Alive whether it returns or stops.
abbrev Harmless : {A : Type 0} → Out A × Db → Type 0
Harmless r = AliveOr (λ db. db.dead ≡ false) r

-- A stop of the wire call with a payload that it accepts: the engine is dead, or the one byte of
-- an empty reply could not be allocated.
abbrev pub Failed : Db → Type 0
Failed db = Dead db ⊎ (db.alloc_ok 1 ≡ false)

-- `exchange` accepts a payload that is not empty and at most half the CMA zone.
abbrev pub IsRefused : Bytes → Type 0
IsRefused payload = (length payload == 0 || ltb (cma_zone_bytes / 2) (length payload)) ≡ true

-- How a call of `exchange` ends: with a reply, and the engine was and is alive; without one and
-- nothing done, where the engine was dead or the payload refused; or with a failure.
abbrev pub Exchanged : Bytes → Db → Out Bytes × Db → Type 0
Exchanged payload db (done reply, db') = (db.dead ≡ false) × (db'.dead ≡ false)
Exchanged payload db (stop, db') =
    ((db' ≡ db) × (Dead db ⊎ IsRefused payload)) ⊎ ((db.dead ≡ false) × Failed db')
Exchanged payload db (out_of_fuel, db') = db.dead ≡ false
