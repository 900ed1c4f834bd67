-- ===== src/Bridge/Pump/Stable.antt =====
-- A predicate that the elementary steps of native/bridge/pglite_bridge.c leave alone is kept by
-- the wire pump, however it ends.
use pglite_ios.Common.{
  ℕ, zero, suc, ◌+◌, ◌/◌, true, not, ◌&&◌, ◌||◌, Bytes, Option, none, some, if◌then◌else◌, ltb, leb,
  ◌==◌, length, if_rule, int_lt, int32, pos, inl, inr,
}
use pglite_ios.Wasi.Memory.{peek}
use pglite_ios.Wasi.State.{store, memory_or_empty}
use pglite_ios.Bridge.Db.{
  Export, Outcome, returned, trapped, exited, Db, Out, Cmd, done, stop, out_of_fuel, halt,
  guest_call, after_call, guest_value, guest_or_die, die, interactive_write, interactive_read,
  interactive_one, wasipg_flush, get_channel, use_wire, modify,
}
use pglite_ios.Bridge.Db.Keeps.{Keeps, Keeps-pure, Keeps-halt, Keeps-gets, Keeps-if, Keeps-bind}
use pglite_ios.Bridge.Buffer.{Buf, empty_buf, append_bytes, read_and_remove}
use pglite_ios.Bridge.Pump.{
  cma_zone_bytes, Drained, or_halt, take_channel, collect, drain_channel, drain, stop_dead,
  pump_round, pump, reply_of, send, exchange,
}
use pglite_ios.Bridge.Pump.Ends.{goes_on-cases, pump-spins, pump-over, pump-on}

-- What the bridge does to its state.
pub record IsStable (P : Db → Type 0) : Type 0 where
  pub call : (c : Export) (db : Db) → P db → P (guest_call c db).1
  pub dead : (db : Db) → P db → P (record db { dead = true })
  pub store : (p : ℕ) (bs : Bytes) (db : Db) → P db → P (record db { wasi = store p bs db.wasi })
  pub read : (path : Bytes) (b : Buf) → Keeps P (read_and_remove path b)

module _ {P : Db → Type 0} (s : IsStable P) where
  after_call_at :
      (v : ℕ) (m : Cmd ℕ) (r : Outcome × Db) → Keeps P m → P r.1 → P (after_call v m r).1
  after_call_at v m (returned x, db) k p = p
  after_call_at v m (trapped, db) k p = k.at db p
  after_call_at v m (exited, db) k p = p

  pub guest_value-Keeps : (c : Export) → Keeps P (guest_value c)
  guest_value-Keeps c = record {
    at = λ db h. after_call_at 0 halt (guest_call c db) Keeps-halt (s.call c db h);
  }

  pub guest_or_die-Keeps : (c : Export) → Keeps P (guest_or_die c)
  guest_or_die-Keeps c = record {
    at = λ db h. after_call_at 0 die (guest_call c db) (record { at = s.dead }) (s.call c db h);
  }

  or_halt-Keeps : (o : Option Buf) → Keeps P (or_halt o)
  or_halt-Keeps none = record { at = λ db h. h }
  or_halt-Keeps (some b) = record { at = λ db h. h }

  take_channel-Keeps : (ch wsize : ℕ) (b : Buf) → Keeps P (take_channel ch wsize b)
  unfolding take_channel
  take_channel-Keeps ch wsize b = record {
    at = λ db h.
        if_rule (λ (r : Out Drained × Db). P r.1)
          (int_lt (pos 0) (int32 ch) && leb (ch + wsize) (memory_or_empty db.wasi).size)
          (λ _.
            (or_halt-Keeps
                (append_bytes db.alloc_ok b (peek (memory_or_empty db.wasi) ch wsize))).at
              db h)
          (λ _. h);
  }

  drain_channel-Keeps : (b : Buf) → Keeps P (drain_channel b)
  unfolding drain_channel collect
  drain_channel-Keeps b = Keeps-bind (guest_value-Keeps interactive_read) (λ wsize.
      Keeps-if (wsize == 0) (Keeps-pure _) (
        Keeps-bind (guest_value-Keeps get_channel) (λ ch.
          Keeps-bind (take_channel-Keeps ch wsize b)
            (λ r. Keeps-bind (guest_value-Keeps (interactive_write 0)) (λ _. Keeps-pure r)))))

  drain-Keeps : (b : Buf) → Keeps P (drain b)
  unfolding drain
  drain-Keeps b = Keeps-bind (drain_channel-Keeps b) (λ r.
      Keeps-bind (Keeps-gets _) (λ io_out. Keeps-bind (s.read io_out r.0) (λ file. Keeps-pure _)))

  stop_dead_at : (r : Out Drained × Db) → P r.1 → P (stop_dead r).1
  stop_dead_at (done a, db) h = h
  stop_dead_at (stop, db) h = s.dead db h
  stop_dead_at (out_of_fuel, db) h = h

  pump_round-Keeps : (b : Buf) → Keeps P (pump_round b)
  unfolding pump_round
  pump_round-Keeps b = Keeps-bind (guest_or_die-Keeps interactive_one) (λ _.
      Keeps-bind (guest_or_die-Keeps wasipg_flush)
        (λ _. record { at = λ db h. stop_dead_at (drain b db) ((drain-Keeps b).at db h) }))

  pump-Keeps : (k idle : ℕ) (b : Buf) → Keeps P (pump k idle b)
  unfolding pump
  pump-Keeps zero idle b = record { at = λ db h. h }
  pump-Keeps (suc k) idle b = record {
    at = λ db h. elim (goes_on-cases idle b) [
      | inl spins ↦ rw (pump-spins k idle b db spins) h
      | inr (inl over) ↦ rw (pump-over k idle b db over) h
      | inr (inr on) ↦ rw (pump-on k idle b db on) (
          (Keeps-bind (pump_round-Keeps b) (λ r. pump-Keeps k (if r.1 then 0 else idle + 1) r.0)).at
            db h)
    ];
  }

  reply_of-Keeps : (b : Buf) → Keeps P (reply_of b)
  reply_of-Keeps b = record {
    at = λ db h.
        if_rule (λ (r : Out Bytes × Db). P r.1) (b.cap == 0 && not (db.alloc_ok 1)) (λ _. h)
          (λ _. h);
  }

  store-Keeps :
      (p : ℕ) (bs : Bytes) → Keeps P (modify (λ db. record db { wasi = store p bs db.wasi }))
  store-Keeps p bs = record { at = s.store p bs }

  send-Keeps : (fuel : ℕ) (payload : Bytes) → Keeps P (send fuel payload)
  unfolding send
  send-Keeps fuel payload = Keeps-bind (guest_or_die-Keeps (use_wire 1)) (λ _.
      Keeps-bind (store-Keeps 1 payload) (λ _.
        Keeps-bind (guest_or_die-Keeps (interactive_write (length payload)))
          (λ _. Keeps-bind (pump-Keeps fuel 0 empty_buf) (λ b. reply_of-Keeps b))))

  pub exchange-Keeps : (fuel : ℕ) (payload : Bytes) → Keeps P (exchange fuel payload)
  unfolding exchange
  exchange-Keeps fuel payload = record {
    at = λ db h.
        if_rule (λ (r : Out Bytes × Db). P r.1) db.dead (λ _. h)
          (λ _.
            if_rule (λ (r : Out Bytes × Db). P r.1)
              (length payload == 0 || ltb (cma_zone_bytes / 2) (length payload)) (λ _. h)
              (λ _. (send-Keeps fuel payload).at db h));
  }
