-- ===== src/Bridge/Pump/Replies.antt =====
-- A round of the pump of native/bridge/pglite_bridge.c collects what the guest answers.
use pglite_ios.Common.{
  ℕ, suc, ◌+◌, ◌^◌, ◌≤◌, ◌<◌, ◌≡◌, refl, ap, ◌∙◌, true, false, ◌&&◌, Option, none, some, List, ◌∷◌,
  ◌++◌, arith, leb, ◌==◌, length, length-append, pos, int_lt, int32, u32, Bytes,
}
use pglite_ios.Wasi.State.{Shim, memory_or_empty}
use pglite_ios.Bridge.Frames.{has_rfq}
use pglite_ios.Bridge.Db.{
  Export, Outcome, Db, Out, done, stop, out_of_fuel, guest_value, guest_or_die, arm,
  interactive_write, interactive_one, wasipg_flush, interactive_read, get_channel,
}
use pglite_ios.Bridge.Db.Gives.{Gives, Gives-bind, ran, guest_value-Gives, guest_or_die-Gives}
use pglite_ios.Bridge.Buffer.{Buf, empty_buf, append_bytes, read_opened, read_and_remove}
use pglite_ios.Bridge.Buffer.Laws.{Appended, FitsCap, append_bytes-Appended}
use pglite_ios.Bridge.Pump.{
  goes_on, Drained, or_halt, take_channel, collect, drain_channel, drain, stop_dead, pump_round,
  pump, reply_of,
}
use pglite_ios.Bridge.Pump.Ends.{pump-over, pump-on}
use pglite_ios.Bridge.Pump.Answers.{NoSpill, Offers, Keeps, Tells, Clears, flushed, placed, IsReady}

-- What holds of a call after the calls `l`.
pub ran_after :
    (P : Outcome × Shim → Type 0) (c : Export) (l : List Export) (db : Db)
    → db.exports ≡ l
    → P (db.guest.run l c (arm true db.wasi))
    → P (ran c db)
ran_after P c l db e p = rw e p

module _ (reply : Bytes) (ch : ℕ) (h : List Export) (some_bytes : 0 < length reply)
    (size : length reply < 2 ^ 32) (in_place : 0 < ch) (low : ch < 2 ^ 31) where
  -- The reply stands ready after the calls `l`.
  abbrev Offering : List Export → Db → Type 0
  Offering l db = IsReady reply ch h db × Offers db.io_out reply ch db.wasi × (db.exports ≡ l)

  -- The buffer has the reply behind what it had.
  abbrev Collected : Buf → Drained → Db → Type 0
  Collected b r db =
      (r.0.bytes ≡ b.bytes ++ reply) × (r.1 ≡ true) × (0 < r.0.cap) × IsReady reply ch h db

  or_halt-Gives :
      (l : List Export) (b : Buf) (o : Option Buf) (db : Db)
      → Appended db.alloc_ok b reply o
      → Offering l db
      → Gives (λ r db'. Collected b r db' × Offering l db') (or_halt o db)
  or_halt-Gives l b none db (c, e, _, _) offering = absurd (cc (e, offering.0.1 c))
  or_halt-Gives l b (some b') db (same, fits, _) offering = (
    (same, refl, omega (arith, ap length same, length-append b.bytes reply), offering.0),
    offering,
  )

  take_channel-Gives :
      (l : List Export) (b : Buf) (db : Db)
      → FitsCap b
      → length b.bytes + length reply ≤ 2 ^ 62
      → Offering l db
      → Gives (λ r db'. Collected b r db' × Offering l db') (take_channel ch (length reply) b db)
  unfolding take_channel
  take_channel-Gives l b db fits small (ready, offers, at) =
      let m = memory_or_empty db.wasi in
      let inside : (int_lt (pos 0) (int32 ch) && leb (ch + length reply) m.size) ≡ true =
        ground (arith, offers.0) in
      rw (inside, offers.1)
        (or_halt-Gives l b (append_bytes db.alloc_ok b reply) db
          (append_bytes-Appended db.alloc_ok b reply fits small) (ready, offers, at))

  -- What is left of the first half of `drain` once the size of the reply is known.
  collect-Gives :
      (b : Buf) (db : Db)
      → FitsCap b
      → length b.bytes + length reply ≤ 2 ^ 62
      → Offering (interactive_read ∷ flushed h) db
      → Gives
          (λ r db'. Collected b r db' × NoSpill db'.io_out db'.wasi)
          (collect (length reply) b db)
  unfolding collect
  collect-Gives b db fits small (ready, offers, at) =
      let l = placed h in
      let (told, offers') =
        ran_after (Tells db.io_out reply ch ch) get_channel _ db at
          (ready.0.places (arm true db.wasi) offers) in
      let n : u32 ch ≡ ch = omega arith in
      Gives-bind (λ c db'. (c ≡ ch) × Offering l db') _ (guest_value get_channel db) _
        (guest_value-Gives _ get_channel ch db told
          (n, (ready, offers', ap (λ t. get_channel ∷ t) at)))
        (λ c db1 (e, offering1). rw e (
          Gives-bind (λ r db'. Collected b r db' × Offering l db') _
            (take_channel ch (length reply) b db1) _
            (take_channel-Gives l b db1 fits small offering1)
            (λ r db2 (collected, (ready2, offers2, at2)).
              let ((v, e), clear) =
                ran_after (Clears db2.io_out) (interactive_write 0) _ db2 at2
                  (ready2.0.resets (arm true db2.wasi) offers2) in
              Gives-bind (λ _ db'. Collected b r db' × NoSpill db'.io_out db'.wasi) _
                (guest_value (interactive_write 0) db2) _
                (guest_value-Gives _ (interactive_write 0) v db2 e (collected, clear))
                (λ _ db3 h. h))))

  drain_channel-Gives :
      (b : Buf) (db : Db)
      → FitsCap b
      → length b.bytes + length reply ≤ 2 ^ 62
      → Offering (flushed h) db
      → Gives (λ r db'. Collected b r db' × NoSpill db'.io_out db'.wasi) (drain_channel b db)
  unfolding drain_channel
  drain_channel-Gives b db fits small (ready, offers, at) =
      let l = interactive_read ∷ flushed h in
      let (told, offers') =
        ran_after (Tells db.io_out reply ch (length reply)) interactive_read _ db at
          (ready.0.sizes (arm true db.wasi) offers) in
      let n : u32 (length reply) ≡ length reply = omega arith in
      let nonempty : (length reply == 0) ≡ false = ground arith in
      Gives-bind (λ v db'. (v ≡ length reply) × Offering l db') _ (guest_value interactive_read db)
        _
        (guest_value-Gives _ interactive_read (length reply) db told
          (n, (ready, offers', ap (λ t. interactive_read ∷ t) at)))
        (λ v db1 (e, offering1). rw (e, nonempty) (collect-Gives b db1 fits small offering1))

  read_and_remove-Gives :
      (b : Buf) (db : Db)
      → IsReady reply ch h db
      → NoSpill db.io_out db.wasi
      → Gives
          (λ file db'. (file ≡ (b, none)) × IsReady reply ch h db')
          (read_and_remove db.io_out b db)
  unfolding read_and_remove read_opened
  read_and_remove-Gives b db ready clear =
      let (e, missing) = clear db.wasi.calls in rw missing ((refl, ready))

  drain-Gives :
      (b : Buf) (db : Db)
      → FitsCap b
      → length b.bytes + length reply ≤ 2 ^ 62
      → Offering (flushed h) db
      → Gives (Collected b) (drain b db)
  unfolding drain
  drain-Gives b db fits small offering =
      Gives-bind (λ r db'. Collected b r db' × NoSpill db'.io_out db'.wasi) (Collected b)
        (drain_channel b db) _ (drain_channel-Gives b db fits small offering)
        (λ r db1 ((same, came, room, ready1), clear).
          Gives-bind (λ file db'. (file ≡ (r.0, none)) × IsReady reply ch h db') (Collected b)
            (read_and_remove db1.io_out r.0 db1) _ (read_and_remove-Gives r.0 db1 ready1 clear)
            (λ file db2 (e, ready2). rw e (same, came, room, ready2)))

  stop_dead-Gives :
      (Q : Drained → Db → Type 0) (r : Out Drained × Db) → Gives Q r → Gives Q (stop_dead r)
  stop_dead-Gives Q (done a, db) h = h
  stop_dead-Gives Q (stop, db) h = absurd h
  stop_dead-Gives Q (out_of_fuel, db) h = absurd h

  -- One round of the pump collects the reply.
  pump_round-Gives :
      (b : Buf) (db : Db)
      → FitsCap b
      → length b.bytes + length reply ≤ 2 ^ 62
      → IsReady reply ch h db
      → db.exports ≡ h
      → NoSpill db.io_out db.wasi
      → Gives (Collected b) (pump_round b db)
  unfolding pump_round
  pump_round-Gives b db fits small ready at clear =
      let ((v, e), offers) =
        ran_after (Keeps db.io_out reply ch) interactive_one h db at
          (ready.0.ticks (arm true db.wasi) clear) in
      Gives-bind (λ _ db'. Offering (interactive_one ∷ h) db') (Collected b)
        (guest_or_die interactive_one db) _
        (guest_or_die-Gives _ interactive_one v db e
          (ready, offers, ap (λ t. interactive_one ∷ t) at))
        (λ _ db1 (ready1, offers1, at1).
          let ((v, e), offers) =
            ran_after (Keeps db1.io_out reply ch) wasipg_flush _ db1 at1
              (ready1.0.flushes (arm true db1.wasi) offers1) in
          Gives-bind (λ _ db'. Offering (flushed h) db') (Collected b)
            (guest_or_die wasipg_flush db1) _
            (guest_or_die-Gives _ wasipg_flush v db1 e
              (ready1, offers, ap (λ t. wasipg_flush ∷ t) at1))
            (λ _ db2 offering2.
              stop_dead-Gives (Collected b) (drain b db2) (drain-Gives b db2 fits small offering2)))

  -- A reply that says the engine is ready ends the pump.
  pub pump-Gives :
      (k : ℕ) (db : Db)
      → has_rfq reply ≡ some true
      → IsReady reply ch h db
      → db.exports ≡ h
      → NoSpill db.io_out db.wasi
      → Gives (λ b db'. (b.bytes ≡ reply) × (0 < b.cap)) (pump (suc (suc k)) 0 empty_buf db)
  unfolding has_rfq
  pump-Gives k db rfq ready at clear =
      let start : goes_on 0 empty_buf ≡ some true = refl in
      rw (pump-on (suc k) 0 empty_buf db start) (
        Gives-bind (Collected empty_buf) _ (pump_round empty_buf db) _
          (pump_round-Gives empty_buf db (omega arith) (omega arith) ready at clear)
          (λ r db1 (same, came, room, _).
            let rfq' = ap has_rfq same ∙ rfq in
            let over : goes_on 0 r.0 ≡ some false = ground (arith, rfq') in
            rw (came, pump-over k 0 r.0 db1 over) (same, room)))

  pub reply_of-Gives :
      (b : Buf) (db : Db)
      → (b.bytes ≡ reply) × (0 < b.cap)
      → Gives (λ r db'. r ≡ reply) (reply_of b db)
  reply_of-Gives b db (same, room) = let kept : (b.cap == 0) ≡ false = ground arith in rw kept same
