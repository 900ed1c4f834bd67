-- ===== src/Bridge/Exec/Stable.antt =====
-- What the steps of the wire pump leave alone is kept by `pgl_exec` of
-- native/bridge/pglite_bridge.c.
use pglite_ios.Common.{ℕ, ◌+◌, Bytes, length}
use pglite_ios.Bridge.Db.{Db, Out, done, stop, out_of_fuel}
use pglite_ios.Bridge.Db.Keeps.{Keeps, Keeps-halt, Keeps-gets, Keeps-if, Keeps-bind}
use pglite_ios.Bridge.Exec.{query_message, simple_query, pgl_exec, shown_or_dead}
use pglite_ios.Bridge.Pump.Stable.{IsStable, exchange-Keeps}

module _ {P : Db → Type 0} (s : IsStable P) where
  pub simple_query-Keeps : (fuel : ℕ) (sql : Bytes) → Keeps P (simple_query fuel sql)
  unfolding simple_query
  simple_query-Keeps fuel sql = Keeps-bind (Keeps-gets (λ db. db.alloc_ok)) (λ alloc_ok.
      Keeps-if (alloc_ok (5 + (length sql + 1))) (exchange-Keeps s fuel (query_message sql))
        Keeps-halt)

  shown_at : (outcap : ℕ) (r : Out Bytes × Db) → P r.1 → P (shown_or_dead outcap r).1
  shown_at outcap (done reply, db) h = h
  shown_at outcap (stop, db) h = h
  shown_at outcap (out_of_fuel, db) h = h

  pub pgl_exec-Keeps : (fuel : ℕ) (sql : Bytes) (outcap : ℕ) → Keeps P (pgl_exec fuel sql outcap)
  unfolding pgl_exec
  pgl_exec-Keeps fuel sql outcap = record {
    at = λ db h. shown_at outcap (simple_query fuel sql db) ((simple_query-Keeps fuel sql).at db h);
  }
