-- ===== src/Wasi/Ledger/Leads.antt =====
-- Hoare triples for `wasi_shim_init` of native/shim/wasi_shim.c: the books are right wherever it stops.
use pglite_ios.Common.{ℕ, ◌≡◌, refl}
use pglite_ios.Wasi.Host.{Call, History, Os, Sys, got, failed, open_path, OpenFlags}
use pglite_ios.Common.{Bytes}
use pglite_ios.Wasi.State.{
  Shim, Res, ok, err, escaped, aborted, Op, and_then, pure, fail, gets, modify, ask, tell_os, ◌>>=◌,
}
use pglite_ios.Wasi.State.Steps.{called}
use pglite_ios.Wasi.Init.{open_or_stop, must_open}
use pglite_ios.Wasi.Ledger.Sound.{Sound, GivesClosed}
use pglite_ios.Wasi.Ledger.Opens.{Sound-failed}

-- The books are right, and stay so under a system that opens no descriptor twice.
abbrev pub Settles : Shim → Type 0
Settles w = Sound w × GivesClosed w.os

-- A command that goes on leaves `Q`, and one that stops leaves the books right.
abbrev pub Ends : {A : Type 0} → (A → Shim → Type 0) → Res A × Shim → Type 0
Ends Q (ok a, w) = Q a w
Ends Q (err e, w) = Settles w
Ends Q (escaped, w) = Settles w
Ends Q (aborted, w) = Settles w

pub record Leads {A : Type 0} (P : Shim → Type 0) (Q : A → Shim → Type 0) (m : Op A) : Type 0 where
  pub rule : (w : Shim) → P w → Ends Q (m w)

module _ {A B : Type 0} {Q : A → Shim → Type 0} {R : B → Shim → Type 0} where
  Ends-then :
      (r : Res A × Shim) (k : A → Op B)
      → Ends Q r
      → ((a : A) → Leads (Q a) R (k a))
      → Ends R (and_then r k)
  Ends-then (ok a, w) k h next = (next a).rule w h
  Ends-then (err e, w) k h next = h
  Ends-then (escaped, w) k h next = h
  Ends-then (aborted, w) k h next = h

  pub Leads-bind :
      {P : Shim → Type 0} {m : Op A} {k : A → Op B}
      → Leads P Q m
      → ((a : A) → Leads (Q a) R (k a))
      → Leads P R (m >>= k)
  unfolding ◌>>=◌
  Leads-bind {m} {k} h next = record { rule = λ w p. Ends-then (m w) k (h.rule w p) next }

module _ {P Q : Shim → Type 0} where
  pub Leads-modify : (f : Shim → Shim) → ((w : Shim) → P w → Q (f w)) → Leads P (λ _. Q) (modify f)
  unfolding modify
  Leads-modify f h = record { rule = h }

  pub Leads-tell_os :
      (c : Call) → ((w : Shim) → P w → Q (called c w)) → Leads P (λ _. Q) (tell_os c)
  unfolding tell_os
  Leads-tell_os c h = record { rule = h }

-- The state after the answer `r` to a call in a state with `P`.
abbrev pub After :
    {A : Type 0} → (Shim → Type 0) → (Os → History → Call → Sys A) → Call → Sys A → Shim → Type 0
After P f c r w' = (w : Shim) × P w × (f w.os w.calls c ≡ r) × (w' ≡ called c w)

module _ {A : Type 0} {P : Shim → Type 0} where
  pub Leads-ask : (f : Os → History → Call → Sys A) (c : Call) → Leads P (After P f c) (ask f c)
  unfolding ask
  Leads-ask f c = record { rule = λ w p. (w, p, refl, refl) }

  pub Leads-gets : (f : Shim → A) → Leads P (λ a w. P w × (f w ≡ a)) (gets f)
  unfolding gets
  Leads-gets f = record { rule = λ w p. (p, refl) }

  pub Leads-gets-keeps : (f : Shim → A) → Leads P (λ _. P) (gets f)
  unfolding gets
  Leads-gets-keeps f = record { rule = λ w p. p }

module _ {P : Shim → Type 0} {Q : ℕ → Shim → Type 0} where
  opened_or_stopped :
      (path : Bytes) (flags : OpenFlags) (r : Sys ℕ)
      → ((w : Shim) → P w → Settles w)
      → ((n : ℕ) (w : Shim)
          → P w
          → w.os.fd_of w.calls (open_path path flags) ≡ got n
          → Q n (called (open_path path flags) w))
      → Leads (After P (λ os. os.fd_of) (open_path path flags) r) Q (open_or_stop r)
  unfolding pure fail
  opened_or_stopped path flags (got n) sound next = record {
    rule = λ w' (w, p, given, e). rw e (next n w p given);
  }
  opened_or_stopped path flags (failed x) sound next = record {
    rule = λ w' (w, p, given, e).
        let (s, fresh) = sound w p in
        rw e (Sound-failed w (open_path path flags) x tt given s, fresh);
  }

  pub Leads-must_open :
      (path : Bytes) (flags : OpenFlags)
      → ((w : Shim) → P w → Settles w)
      → ((n : ℕ) (w : Shim)
          → P w
          → w.os.fd_of w.calls (open_path path flags) ≡ got n
          → Q n (called (open_path path flags) w))
      → Leads P Q (must_open path flags)
  Leads-must_open path flags sound next =
      Leads-bind (Leads-ask (λ os. os.fd_of) (open_path path flags))
        (λ r. opened_or_stopped path flags r sound next)
