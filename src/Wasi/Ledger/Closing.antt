-- ===== src/Wasi/Ledger/Closing.antt =====
-- `wasi_shim_dispose` of native/shim/wasi_shim.c closes what the books say is held, and only that.
use pglite_ios.Common.{
  ℕ, zero, suc, ◌+◌, ◌≡◌, refl, ap, ◌∙◌, inl, inr, Bool-cases, ◌||◌, ◌∷◌, if_rule, arith, ℤ, pos,
  is_neg, int_eq,
}
use pglite_ios.Wasi.Host.{Os, close}
use pglite_ios.Wasi.State.{Shim, max_fds}
use pglite_ios.Wasi.Init.{
  close_fd, is_preopen_fd, dispose_slot, dispose_slots, dispose_preopens, dispose_log,
  wasi_shim_dispose,
}
use pglite_ios.Wasi.Init.Dispose.{closed_times}
use pglite_ios.Wasi.Ledger.{opened, released}

-- Descriptors have been closed, and nothing else was called.
pub record OnlyCloses (w w' : Shim) : Type 0 where
  pub os : w'.os ≡ w.os
  pub opens : (o : Os) (fd : ℕ) → opened o fd w'.calls ≡ opened o fd w.calls
  pub count :
      (fd : ℕ)
      → released fd w'.calls + closed_times (pos fd) w.calls
        ≡ released fd w.calls + closed_times (pos fd) w'.calls

same-OnlyCloses : (w w' : Shim) → w'.os ≡ w.os → w'.calls ≡ w.calls → OnlyCloses w w'
same-OnlyCloses w w' o c = record {
  os = o;
  opens = λ os fd. ap (opened os fd) c;
  count = λ fd. omega (arith, ap (released fd) c, ap (closed_times (pos fd)) c);
}

close-OnlyCloses :
    (w w' : Shim) (x : ℤ) → w'.os ≡ w.os → w'.calls ≡ close x ∷ w.calls → OnlyCloses w w'
unfolding opened released closed_times
close-OnlyCloses w w' x o c = record {
  os = o;
  opens = λ os fd. rw c (omega arith);
  count = λ fd. rw c (omega arith);
}

OnlyCloses-trans : {u v w : Shim} → OnlyCloses u v → OnlyCloses v w → OnlyCloses u w
OnlyCloses-trans p q = record {
  os = q.os ∙ p.os;
  opens = λ o fd. q.opens o fd ∙ p.opens o fd;
  count = λ fd. omega (arith, p.count fd, q.count fd);
}

dispose_slot-OnlyCloses : (i : ℕ) (w : Shim) → OnlyCloses w (dispose_slot i w)
unfolding dispose_slot
dispose_slot-OnlyCloses i w =
    let hfd = (w.fds i).host_fd in
    if_rule (OnlyCloses w) (is_neg hfd) (λ _. same-OnlyCloses w w refl refl)
      (λ _.
        if_rule (OnlyCloses w) (int_eq hfd w.log_fd || is_preopen_fd w w.n_preopens hfd)
          (λ _. same-OnlyCloses w _ refl refl) (λ _. close-OnlyCloses w _ hfd refl refl))

dispose_slots-OnlyCloses : (n i : ℕ) (w : Shim) → OnlyCloses w (dispose_slots n i w)
unfolding dispose_slots
dispose_slots-OnlyCloses zero i w = same-OnlyCloses w w refl refl
dispose_slots-OnlyCloses (suc n) i w =
    OnlyCloses-trans (dispose_slot-OnlyCloses i w)
      (dispose_slots-OnlyCloses n (i + 1) (dispose_slot i w))

dispose_preopens-OnlyCloses : (n j : ℕ) (w : Shim) → OnlyCloses w (dispose_preopens n j w)
unfolding dispose_preopens
dispose_preopens-OnlyCloses zero j w = same-OnlyCloses w w refl refl
dispose_preopens-OnlyCloses (suc n) j w =
    let x = (w.preopens j).host_fd in
    OnlyCloses-trans (close-OnlyCloses w (close_fd x w) x refl refl)
      (dispose_preopens-OnlyCloses n (j + 1) (close_fd x w))

dispose_log-OnlyCloses : (w : Shim) → OnlyCloses w (dispose_log w)
unfolding dispose_log
dispose_log-OnlyCloses w = elim (Bool-cases (is_neg w.log_fd)) [
  | inl none_there ↦ rw none_there (same-OnlyCloses w _ refl refl)
  | inr there ↦ rw there (close-OnlyCloses w _ w.log_fd refl refl)
]

pub wasi_shim_dispose-OnlyCloses : (w : Shim) → OnlyCloses w (wasi_shim_dispose w)
unfolding wasi_shim_dispose
wasi_shim_dispose-OnlyCloses w =
    let w1 = dispose_slots max_fds 0 w in
    OnlyCloses-trans (dispose_slots-OnlyCloses max_fds 0 w) (
      OnlyCloses-trans (dispose_preopens-OnlyCloses w1.n_preopens 0 w1)
        (dispose_log-OnlyCloses (dispose_preopens w1.n_preopens 0 w1)))
