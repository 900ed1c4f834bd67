-- ===== src/Bridge/Exec/Replies.antt =====
-- A query that the guest answers: `pgl_exec` of native/bridge/pglite_bridge.c, down to the guest.
use pglite_ios.Common.{
  ℕ, suc, ◌+◌, ◌/◌, ◌^◌, ◌≤◌, ◌<◌, ◌≡◌, refl, sym, ap, ◌∙◌, true, false, some, List, [], ◌∷◌,
  append-nil, arith, map, length, length-append, Bytes, pos, if_rule,
}
use pglite_ios.Bridge.Db.{Db, Out, Cmd, done, stop, out_of_fuel}
use pglite_ios.Bridge.Db.Gives.{Gives}
use pglite_ios.Bridge.Frames.{be32, frame_at, has_rfq}
use pglite_ios.Bridge.Frames.Laws.{encode_all, AllFit, any_ready, has_rfq-encode_all}
use pglite_ios.Bridge.Pump.{cma_zone_bytes}
use pglite_ios.Bridge.Pump.Answers.{NoSpill, Accepts, accepted, IsReady}
use pglite_ios.Bridge.Pump.Exchanges.{exchange-Replies}
use pglite_ios.Bridge.Exec.{query_message, simple_query, show_reply, shown_or_dead, pgl_exec}
use pglite_ios.Bridge.Exec.Messages.{Message, frame_of, AllWellFormed, render_all, clip}
use pglite_ios.Bridge.Exec.Render.{show_reply-render_all}

length-query_message : (sql : Bytes) → length (query_message sql) ≡ 6 + length sql
unfolding query_message be32
length-query_message sql = omega (arith, length-append sql (0 ∷ []))

shown-Gives :
    (reply : Bytes) (outcap : ℕ) (r : Out Bytes × Db)
    → Gives (λ t db'. t ≡ reply) r
    → Gives (λ s db'. s ≡ show_reply reply outcap) (shown_or_dead outcap r)
shown-Gives reply outcap (done t, db) e = ap (λ u. show_reply u outcap) e
shown-Gives reply outcap (stop, db) e = absurd e
shown-Gives reply outcap (out_of_fuel, db) e = absurd e

Gives-≡ :
    {A : Type 0} (a b : A) (r : Out A × Db)
    → a ≡ b
    → Gives (λ t db'. t ≡ a) r
    → Gives (λ t db'. t ≡ b) r
Gives-≡ a b r e h = rw⁻¹ e h

-- In a live engine, for a query of at most half the CMA zone, a guest that accepts it and answers
-- after one tick, with well-formed messages of which one is a ReadyForQuery in its memory and
-- without a spill file, and memory for every buffer: with fuel for two rounds and an output of at least one byte,
-- `pgl_exec` returns the text and the result of those messages, cut to the output.
pub pgl_exec-Replies :
    (fuel cap ch : ℕ) (sql : Bytes) (ms : List Message) (db : Db)
    → db.dead ≡ false
    → 6 + length sql ≤ cma_zone_bytes / 2
    → suc cap < 2 ^ 64
    → AllWellFormed ms
    → AllFit (map frame_of ms)
    → any_ready (map frame_of ms) ≡ true
    → length (encode_all (map frame_of ms)) < 2 ^ 32
    → 0 < ch
    → ch < 2 ^ 31
    → NoSpill db.io_out db.wasi
    → Accepts db.io_out (length (query_message sql)) db.exports db.guest
    → IsReady (encode_all (map frame_of ms)) ch (accepted (query_message sql) db) db
    → Gives
        (λ r db'. r ≡ some (clip cap (render_all ms ([], pos 0))))
        (pgl_exec (suc (suc fuel)) sql (suc cap) db)
unfolding pgl_exec simple_query frame_at
pgl_exec-Replies fuel cap ch sql ms db live within small well fit rfq size in_place low clear
      accepts ready =
    let reply = encode_all (map frame_of ms) in
    let n = length-query_message sql in
    let whole = append-nil reply in
    let is_ready =
      ap has_rfq (sym whole) ∙ has_rfq-encode_all (map frame_of ms) [] fit refl ∙ ap some rfq in
    let shown =
      ap (λ t. show_reply t (suc cap)) (sym whole)
      ∙ show_reply-render_all cap ms [] small well fit refl in
    Gives-≡ _ _ _ shown (
      shown-Gives reply (suc cap) _ (
        if_rule (λ (m : Cmd Bytes). Gives (λ r db'. r ≡ reply) (m db))
          (db.alloc_ok (5 + (length sql + 1)))
          (λ _.
            exchange-Replies fuel (query_message sql) reply ch db live (omega (arith, n))
              (omega (arith, n)) size in_place low is_ready clear accepts ready)
          (λ e. absurd (cc (e, ready.1 (5 + (length sql + 1)))))))
