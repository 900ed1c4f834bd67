-- ===== src/Bridge/Pump/Ends.antt =====
-- The pump ends when the guest has nothing more to say.
use pglite_ios.Common.{
  ℕ, zero, suc, ◌+◌, ◌-◌, ◌*◌, ◌≤◌, ◌<◌, ◌≡◌, refl, sym, ap, ◌∙◌, Bool, true, false, not, ◌&&◌,
  Bool-cases, Option-cases, ◌≢◌, ◌^◌, ◌⊎◌, inl, inr, ◌++◌, append_assoc, append-nil, [], ltb→lt,
  ltb→le, arith, ltb, if◌then◌else◌, length, length-append, Bytes, if_rule, option_rule,
}
use pglite_ios.Common.{Option, none, some, ◌==◌, leb, pos, int_lt, int32}
use pglite_ios.Wasi.Memory.{peek}
use pglite_ios.Bridge.Db.{
  Outcome, returned, trapped, exited, after_call, halt, die, guest_call, interactive_one,
  interactive_read, interactive_write, get_channel, wasipg_flush,
}
use pglite_ios.Bridge.Buffer.{FileRead, reserve, append_bytes}
use pglite_ios.Bridge.Pump.{or_halt}
use pglite_ios.Wasi.Host.{Stat, Sys, got, failed}
use pglite_ios.Wasi.State.{memory_or_empty}
use pglite_ios.Bridge.Frames.{has_rfq}
use pglite_ios.Bridge.Frames.Walk.{has_rfq-ends}
use mathlib.Core.Option
use pglite_ios.Bridge.Db.{
  Db, Out, Cmd, done, stop, out_of_fuel, and_then, guest_or_die, guest_value, Export,
}
use pglite_ios.Bridge.Db.Ensures.{Ensures}
use pglite_ios.Bridge.Buffer.{Buf, read_and_remove, read_opened, read_sized, read_open}
use pglite_ios.Bridge.Pump.{
  Drained, goes_on, pump_round, pump, drain, drain_channel, take_channel, stop_dead,
}
use pglite_ios.Bridge.Pump.Grows.{Grown, pump_round-Grown}

-- A run that is not cut short by the fuel, and what its value meets.
abbrev pub EndsWith : {A : Type 0} → (A → Type 0) → Out A × Db → Type 0
EndsWith Q (done a, db) = Q a
EndsWith Q (stop, db) = Unit
EndsWith Q (out_of_fuel, db) = ⊥

abbrev pub IfDone : {A : Type 0} → (A → Db → Type 0) → Out A × Db → Type 0
IfDone Q (done a, db) = Q a db
IfDone Q (stop, db) = Unit
IfDone Q (out_of_fuel, db) = Unit

-- The next `k` rounds leave the reply within `n` bytes.
abbrev pub StaysWithin : ℕ → ℕ → Buf → Db → Type 0
StaysWithin zero n b db = Unit
StaysWithin (suc k) n b db =
    IfDone (λ r db'. (length r.0.bytes ≤ n) × StaysWithin k n r.0 db') (pump_round b db)

abbrev Ends : {A : Type 0} → Out A × Db → Type 0
Ends r = EndsWith (λ _. Unit {0}) r

module _ {A B : Type 0} where
  EndsWith-then :
      (Q : B → Type 0) (r : Out A × Db) (k : A → Cmd B)
      → Ends r
      → ((a : A) (db : Db) → EndsWith Q (k a db))
      → EndsWith Q (and_then r k)
  EndsWith-then Q (done a, db) k e next = next a db
  EndsWith-then Q (stop, db) k e next = tt
  EndsWith-then Q (out_of_fuel, db) k e next = e

after_call-Ends :
    (v : ℕ) (m : Cmd ℕ) (r : Outcome × Db) → ((db : Db) → Ends (m db)) → Ends (after_call v m r)
after_call-Ends v m (returned x, db) h = tt
after_call-Ends v m (trapped, db) h = h db
after_call-Ends v m (exited, db) h = tt

guest_value-Ends : (c : Export) (db : Db) → Ends (guest_value c db)
guest_value-Ends c db = after_call-Ends 0 halt (guest_call c db) (λ db'. tt)

guest_or_die-Ends : (c : Export) (db : Db) → Ends (guest_or_die c db)
guest_or_die-Ends c db = after_call-Ends 0 die (guest_call c db) (λ db'. tt)

read_sized-Ends :
    (path : Bytes) (fd : ℕ) (b : Buf) (r : Sys Stat) (db : Db) → Ends (read_sized path fd b r db)
unfolding read_sized read_open
read_sized-Ends path fd b (failed e) db = tt
read_sized-Ends path fd b (got st) db =
    let n = length b.bytes + st.size in
    option_rule (λ (m : Cmd FileRead). Ends (m db)) (reserve db.alloc_ok n b) (λ _. tt) (λ b' e. tt)

read_opened-Ends : (path : Bytes) (b : Buf) (r : Sys ℕ) (db : Db) → Ends (read_opened path b r db)
unfolding read_opened
read_opened-Ends path b (failed e) db = tt
read_opened-Ends path b (got fd) db = search read_sized-Ends

read_and_remove-Ends : (path : Bytes) (b : Buf) (db : Db) → Ends (read_and_remove path b db)
unfolding read_and_remove
read_and_remove-Ends path b db = search read_opened-Ends

or_halt-Ends : (o : Option Buf) (db : Db) → Ends (or_halt o db)
or_halt-Ends none db = tt
or_halt-Ends (some b) db = tt

take_channel-Ends : (ch wsize : ℕ) (b : Buf) (db : Db) → Ends (take_channel ch wsize b db)
unfolding take_channel
take_channel-Ends ch wsize b db =
    let m = memory_or_empty db.wasi in
    if_rule Ends (int_lt (pos 0) (int32 ch) && leb (ch + wsize) m.size)
      (λ _. or_halt-Ends (append_bytes db.alloc_ok b (peek m ch wsize)) db) (λ _. tt)

drain_channel-Ends : (b : Buf) (db : Db) → Ends (drain_channel b db)
unfolding drain_channel
drain_channel-Ends b db =
    EndsWith-then _ (guest_value interactive_read db) _ (guest_value-Ends interactive_read db)
      (λ wsize db1.
        if_rule (λ (m : Cmd Drained). Ends (m db1)) (wsize == 0) (λ _. tt)
          (λ _.
            EndsWith-then _ (guest_value get_channel db1) _ (guest_value-Ends get_channel db1)
              (λ ch db2.
                EndsWith-then _ (take_channel ch wsize b db2) _ (take_channel-Ends ch wsize b db2)
                  (λ r db3.
                    EndsWith-then _ (guest_value (interactive_write 0) db3) _
                      (guest_value-Ends (interactive_write 0) db3) (λ _ db4. tt)))))

drain-Ends : (b : Buf) (db : Db) → Ends (drain b db)
unfolding drain
drain-Ends b db = EndsWith-then _ (drain_channel b db) _ (drain_channel-Ends b db) (λ r db1.
    EndsWith-then _ (read_and_remove db1.io_out r.0 db1) _ (read_and_remove-Ends db1.io_out r.0 db1)
      (λ file db2. tt))

stop_dead-Ends : (r : Out Drained × Db) → Ends r → Ends (stop_dead r)
stop_dead-Ends (done a, db) h = h
stop_dead-Ends (stop, db) h = h
stop_dead-Ends (out_of_fuel, db) h = h

pump_round-Ends : (b : Buf) (db : Db) → Ends (pump_round b db)
unfolding pump_round
pump_round-Ends b db =
    EndsWith-then _ (guest_or_die interactive_one db) _ (guest_or_die-Ends interactive_one db)
      (λ _ db1.
        EndsWith-then _ (guest_or_die wasipg_flush db1) _ (guest_or_die-Ends wasipg_flush db1)
          (λ _ db2. stop_dead-Ends (drain b db2) (drain-Ends b db2)))

-- Whether the loop goes on, where `has_rfq` ends.
pub goes_on-cases :
    (idle : ℕ) (b : Buf)
    → (goes_on idle b ≡ none) ⊎ ((goes_on idle b ≡ some false) ⊎ (goes_on idle b ≡ some true))
goes_on-cases idle b = elim (Option-cases (goes_on idle b)) [
  | inl e ↦ inl e
  | inr (going, e) ↦ elim (Bool-cases going) [
    | inl on ↦ inr (inr (e ∙ ap some on))
    | inr over ↦ inr (inl (e ∙ ap some over))
  ]
]

goes_on-ends : (idle : ℕ) (b : Buf) → length b.bytes < 2 ^ 32 → goes_on idle b ≢ none
goes_on-ends idle b small e =
    let (r, ended) = has_rfq-ends b.bytes small in
    elim (Bool-cases (ltb idle 10)) [
      | inl few ↦ cc (
          sym (
            ap (λ t. if t then Option.map not (has_rfq b.bytes) else some false) few
            ∙ ap (Option.map not) ended)
          ∙ e)
      | inr many ↦
          cc (sym (ap (λ t. if t then Option.map not (has_rfq b.bytes) else some false) many) ∙ e)
    ]

pub pump-spins :
    (k idle : ℕ) (b : Buf) (db : Db)
    → goes_on idle b ≡ none
    → pump (suc k) idle b db ≡ (out_of_fuel, db)
unfolding pump
pump-spins k idle b db e = rw (pump, e) refl

pub pump-over :
    (k idle : ℕ) (b : Buf) (db : Db)
    → goes_on idle b ≡ some false
    → pump (suc k) idle b db ≡ (done b, db)
unfolding pump
pump-over k idle b db e = rw (pump, e) refl

pub pump-on :
    (k idle : ℕ) (b : Buf) (db : Db)
    → goes_on idle b ≡ some true
    → pump (suc k) idle b db
      ≡ and_then (pump_round b db) (λ r. pump k (if r.1 then 0 else idle + 1) r.0)
unfolding pump
pump-on k idle b db e = rw (pump, e) refl

-- The reply starts with what the buffer held.
abbrev pub Extends : Buf → Buf → Type 0
Extends b b' = (s : Bytes) × (b'.bytes ≡ b.bytes ++ s)

Extends-trans : (a b c : Buf) → Extends a b → Extends b c → Extends a c
Extends-trans a b c (s, e) (t, f) = (s ++ t, f ∙ ap (λ u. u ++ t) e ∙ append_assoc a.bytes s t)

EndsWith-Extends :
    (a b : Buf) (r : Out Buf × Db) → Extends a b → EndsWith (Extends b) r → EndsWith (Extends a) r
EndsWith-Extends a b (done c, db) e h = Extends-trans a b c e h
EndsWith-Extends a b (stop, db) e h = tt
EndsWith-Extends a b (out_of_fuel, db) e h = h

-- A round that ends, adds to the buffer and stays within the bound, followed by a run that ends.
round_then :
    (P : Drained → Db → Type 0) (G : Drained → Type 0) (R : Buf → Type 0) (r : Out Drained × Db)
    (k : Drained → Cmd Buf)
    → Ends r
    → Ensures G r
    → IfDone P r
    → ((a : Drained) (db : Db) → G a → P a db → EndsWith R (k a db))
    → EndsWith R (and_then r k)
round_then P G R (done a, db) k e g p next = next a db g p
round_then P G R (stop, db) k e g p next = tt
round_then P G R (out_of_fuel, db) k e g p next = e

goes_on-few : (idle : ℕ) (b : Buf) → goes_on idle b ≡ some true → idle < 10
goes_on-few idle b e = ground arith

-- What the bound leaves after a round.
round_cost :
    (n k idle before after size : ℕ) (some_came : Bool)
    → some_came ≡ ltb 0 size
    → after ≡ before + size
    → after ≤ n
    → idle < 10
    → 11 * (n - before) + (10 - idle) < suc k
    → ((if some_came then 0 else idle + 1) ≤ 10)
      × (11 * (n - after) + (10 - (if some_came then 0 else idle + 1)) < k)
round_cost n k idle before after size true e l within few fuel =
    (omega arith, omega (arith, ltb→lt 0 size (sym e)))
round_cost n k idle before after size false e l within few fuel =
    (omega arith, omega (arith, ltb→le 0 size (sym e)))

-- If the buffer has at most `n` bytes, fewer than 2 ^ 32, and the next `k` rounds leave it within
-- `n` bytes, a pump with at most ten idle rounds behind it, and with more rounds left than 11 for
-- each byte that may still come and those that are left of the ten idle ones, ends; what it returns
-- starts with what the buffer held.
pub pump-EndsWith :
    (n k idle : ℕ) (b : Buf) (db : Db)
    → n < 2 ^ 32
    → length b.bytes ≤ n
    → idle ≤ 10
    → StaysWithin k n b db
    → 11 * (n - length b.bytes) + (10 - idle) < k
    → EndsWith (Extends b) (pump k idle b db)
pump-EndsWith n zero idle b db bound small few stays fuel = absurd (omega arith)
pump-EndsWith n (suc k) idle b db bound small few stays fuel = elim (goes_on-cases idle b) [
  | inl spins ↦ absurd (goes_on-ends idle b (omega (arith, bound, small)) spins)
  | inr (inl over) ↦ rw (pump-over k idle b db over) ([], sym (append-nil b.bytes))
  | inr (inr on) ↦ rw (pump-on k idle b db on) (
      round_then (λ r db'. (length r.0.bytes ≤ n) × StaysWithin k n r.0 db') (Grown b) (Extends b)
        (pump_round b db) _ (pump_round-Ends b db) (pump_round-Grown b db) stays
        (λ r db' g p.
          let size = ap length g.1 ∙ length-append b.bytes g.0 in
          let few' = goes_on-few idle b on in
          let (few'', fuel') =
            round_cost n k idle (length b.bytes) (length r.0.bytes) (length g.0) r.1 g.2 size p.0
              few' fuel in
          EndsWith-Extends b r.0 _ (g.0, g.1)
            (pump-EndsWith n k (if r.1 then 0 else idle + 1) r.0 db' bound p.0 few'' p.1 fuel')))
]
