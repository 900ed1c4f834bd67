-- ===== src/Bridge/Pump/Exchanges.antt =====
-- A request that the guest answers: `exchange` of native/bridge/pglite_bridge.c.
use pglite_ios.Common.{
  ℕ, suc, ◌/◌, ◌^◌, ◌≤◌, ◌<◌, ◌≡◌, refl, ap, true, false, ◌||◌, List, [], ◌∷◌, arith, ltb, ◌==◌,
  if_rule, length, Bytes, some,
}
use pglite_ios.Wasi.State.{Shim, store}
use pglite_ios.Bridge.Frames.{has_rfq}
use pglite_ios.Bridge.Db.{Export, Db, guest_or_die, arm, use_wire, interactive_write}
use pglite_ios.Bridge.Db.Gives.{Gives, Gives-bind, guest_or_die-Gives}
use pglite_ios.Bridge.Buffer.{empty_buf}
use pglite_ios.Bridge.Pump.{cma_zone_bytes, pump, send, exchange}
use pglite_ios.Bridge.Pump.Replies.{ran_after, pump-Gives, reply_of-Gives}
use pglite_ios.Bridge.Pump.Answers.{NoSpill, Clears, Accepts, accepted, IsReady}

rfq-some_bytes : (reply : Bytes) → has_rfq reply ≡ some true → 0 < length reply
unfolding has_rfq
rfq-some_bytes [] e = absurd (cc e)
rfq-some_bytes (x ∷ reply) e = omega arith

-- The payload goes to the guest's memory.
store-NoSpill :
    (io_out payload : Bytes) (w : Shim)
    → NoSpill io_out w
    → NoSpill io_out (arm true (store 1 payload w))
unfolding store
store-NoSpill io_out payload w clear = clear

send-Replies :
    (k : ℕ) (payload reply : Bytes) (ch : ℕ) (db : Db)
    → length reply < 2 ^ 32
    → 0 < ch
    → ch < 2 ^ 31
    → has_rfq reply ≡ some true
    → NoSpill db.io_out db.wasi
    → Accepts db.io_out (length payload) db.exports db.guest
    → IsReady reply ch (accepted payload db) db
    → Gives (λ r db'. r ≡ reply) (send (suc (suc k)) payload db)
unfolding send
send-Replies k payload reply ch db size in_place low rfq clear accepts ready =
    let n = length payload in
    let h = accepted payload db in
    let some_bytes = rfq-some_bytes reply rfq in
    let P = λ (l : List Export) (db' : Db).
      IsReady reply ch h db'
      × Accepts db'.io_out n db.exports db'.guest
      × (db'.exports ≡ l)
      × NoSpill db'.io_out db'.wasi in
    let ((v, e), clear') = accepts.wires (arm true db.wasi) clear in
    Gives-bind (λ _. P (use_wire 1 ∷ db.exports)) _ (guest_or_die (use_wire 1) db) _
      (guest_or_die-Gives _ (use_wire 1) v db e (ready, accepts, refl, clear'))
      (λ _ db1 (ready1, accepts1, at1, clear1).
        let db2 = record db1 { wasi = store 1 payload db1.wasi } in
        let ((v, e), clear') =
          ran_after (Clears db2.io_out) (interactive_write n) (use_wire 1 ∷ db.exports) db2 at1 (
            accepts1.takes (arm true db2.wasi)
              (store-NoSpill db1.io_out payload db1.wasi clear1)) in
        Gives-bind (λ _. P h) _ (guest_or_die (interactive_write n) db2) _
          (guest_or_die-Gives _ (interactive_write n) v db2 e
            (ready1, accepts1, ap (λ t. interactive_write n ∷ t) at1, clear'))
          (λ _ db3 (ready3, _, at3, clear3).
            Gives-bind (λ b db'. (b.bytes ≡ reply) × (0 < b.cap)) _
              (pump (suc (suc k)) 0 empty_buf db3) _
              (pump-Gives reply ch h some_bytes size in_place low k db3 rfq ready3 at3 clear3)
              (λ b db4 held. reply_of-Gives reply ch h some_bytes size in_place low b db4 held)))

-- In a live engine, for a request that is not empty and at most half the CMA zone, a guest that
-- accepts it and answers after one tick, with a reply in its memory that holds a ReadyForQuery
-- and without a spill file, and memory for every buffer: with fuel for two rounds, `exchange` returns exactly that reply.
pub exchange-Replies :
    (k : ℕ) (payload reply : Bytes) (ch : ℕ) (db : Db)
    → db.dead ≡ false
    → 0 < length payload
    → length payload ≤ cma_zone_bytes / 2
    → length reply < 2 ^ 32
    → 0 < ch
    → ch < 2 ^ 31
    → has_rfq reply ≡ some true
    → NoSpill db.io_out db.wasi
    → Accepts db.io_out (length payload) db.exports db.guest
    → IsReady reply ch (accepted payload db) db
    → Gives (λ r db'. r ≡ reply) (exchange (suc (suc k)) payload db)
unfolding exchange
exchange-Replies k payload reply ch db live some_bytes within size in_place low rfq clear accepts
      ready =
    let P = Gives (λ r db'. r ≡ reply) in
    if_rule P db.dead (λ e. absurd (cc (e, live)))
      (λ _.
        if_rule P (length payload == 0 || ltb (cma_zone_bytes / 2) (length payload))
          (λ e. absurd (ground (arith, e)))
          (λ _. send-Replies k payload reply ch db size in_place low rfq clear accepts ready))
