-- ===== src/Wasi/Ledger/Changes.antt =====
-- The books of native/shim/wasi_shim.c stay right when a slot of the table changes.
use pglite_ios.Common.{
  ℕ, ◌+◌, ◌<◌, ◌≡◌, ◌≢◌, refl, sym, ap, ◌∙◌, inl, inr, Bool-cases, true, not, ◌&&◌, ◌∷◌, ◌==◌,
  if◌then◌else◌, arith, ℤ, pos, is_neg, int_eq,
}
use mathlib.Core.Path.{subst}
use pglite_ios.Wasi.Host.{History, close}
use pglite_ios.Wasi.State.{FdEntry, Shim, max_fds}
use pglite_ios.Wasi.Init.Dispose.{preopens_with}
use pglite_ios.Wasi.Ledger.{one_if, opened, released}
use pglite_ios.Wasi.Ledger.Sound.{
  owned_one, owned_in, owned_in_update, preopened, owned, EntryFits, Sound,
}
use pglite_ios.Wasi.Requests.Framed.{Framed}

preopened_same : (w w' : Shim) (fd : ℕ) → Framed w w' → preopened w' fd ≡ preopened w fd
preopened_same w w' fd f =
    ap (λ ps. preopens_with ps 0 w'.n_preopens (pos fd)) f.preopens
    ∙ ap (λ n. preopens_with w.preopens 0 n (pos fd)) f.n_preopens

EntryFits-Framed :
    (w w' : Shim) (e e' : FdEntry) → Framed w w' → e' ≡ e → EntryFits w e → EntryFits w' e'
EntryFits-Framed w w' e e' f same fits = λ fd at.
    let at' = ap (λ (x : FdEntry). x.host_fd) (sym same) ∙ at in
    let mark = ap (λ (x : FdEntry). is_neg x.preopen) same in
    let n = preopened_same w w' fd f in
    let log : int_eq e'.host_fd w'.log_fd ≡ int_eq e.host_fd w.log_fd =
      ap (λ x. int_eq e'.host_fd x) f.log_fd
      ∙ ap (λ (x : FdEntry). int_eq x.host_fd w.log_fd) same in
    (
      λ p. omega (arith, n, (fits fd at').0 (sym mark ∙ p)),
      λ l p. n ∙ (fits fd at').1 (sym log ∙ l) (sym mark ∙ p),
    )

-- The change of the count of slots is what was opened, less what was closed.
pub Sound-changed :
    (w w' : Shim)
    → Framed w w'
    → ((fd : ℕ)
        → opened w.os fd w'.calls + released fd w.calls + owned w fd
          ≡ opened w.os fd w.calls + released fd w'.calls + owned_in w.log_fd w'.fds 0 max_fds fd)
    → ((i : ℕ) → i < max_fds → EntryFits w (w'.fds i))
    → Sound w
    → Sound w'
Sound-changed w w' f count fits s = record {
  balance = λ fd.
      let os = ap (λ os. opened os fd w'.calls) f.os in
      let log =
        ap (λ l. one_if l (pos fd) + preopened w' fd + owned_in l w'.fds 0 max_fds fd) f.log_fd in
      omega (arith, os, log, preopened_same w w' fd f, count fd, s.balance fd);
  entries = λ i lt. EntryFits-Framed w w' (w'.fds i) (w'.fds i) f refl (fits i lt);
}

-- The change of the count in slot `k` is what was opened, less what was closed.
abbrev pub Settled : Shim → Shim → ℕ → Type 0
Settled w w' k =
    (fd : ℕ)
    → opened w.os fd w'.calls + released fd w.calls + owned_one w.log_fd (w.fds k) fd
      ≡ opened w.os fd w.calls + released fd w'.calls + owned_one w.log_fd (w'.fds k) fd

pub Sound-slot :
    (w w' : Shim) (k : ℕ)
    → Framed w w'
    → k < max_fds
    → ((j : ℕ) → j ≢ k → w'.fds j ≡ w.fds j)
    → Settled w w' k
    → EntryFits w (w'.fds k)
    → Sound w
    → Sound w'
Sound-slot w w' k f within others settled fits s =
    Sound-changed w w' f
      (λ fd. omega (
        arith,
        settled fd,
        owned_in_update w.log_fd w.fds w'.fds max_fds 0 k fd others (omega arith) (omega arith),
      ))
      (λ i lt. elim (Bool-cases (i == k)) [
        | inl e ↦ subst (EntryFits w) (ap w'.fds (ground arith)) fits
        | inr e ↦ subst (EntryFits w) (sym (others i (ground arith))) (s.entries i lt)
      ])
      s

-- The change of the counts in the slots `k` and `l` is what was opened, less what was closed.
abbrev pub BothSettled : Shim → Shim → ℕ → ℕ → Type 0
BothSettled w w' k l =
    (fd : ℕ)
    → opened w.os fd w'.calls
        + released fd w.calls
        + owned_one w.log_fd (w.fds k) fd
        + owned_one w.log_fd (w.fds l) fd
      ≡ opened w.os fd w.calls
        + released fd w'.calls
        + owned_one w.log_fd (w'.fds k) fd
        + owned_one w.log_fd (w'.fds l) fd

owned_in_two :
    (log : ℤ) (fds fds' : ℕ → FdEntry) (k l fd : ℕ)
    → ((j : ℕ) → j ≢ k → j ≢ l → fds' j ≡ fds j)
    → k ≢ l
    → k < max_fds
    → l < max_fds
    → owned_in log fds' 0 max_fds fd + owned_one log (fds k) fd + owned_one log (fds l) fd
      ≡ owned_in log fds 0 max_fds fd + owned_one log (fds' k) fd + owned_one log (fds' l) fd
owned_in_two log fds fds' k l fd others ne p q =
    let mid : ℕ → FdEntry = λ j. if j == k then fds' j else fds j in
    let one =
      owned_in_update log fds mid max_fds 0 k fd (λ j n. ground arith) (omega arith)
        (omega (arith, p)) in
    let two =
      owned_in_update log mid fds' max_fds 0 l fd (λ j n. ground (arith, others j)) (omega arith)
        (omega (arith, q)) in
    let at_k : mid k ≡ fds' k = ground arith in
    let at_l : mid l ≡ fds l = ground arith in
    let one' = ap (λ (e : FdEntry). owned_one log e fd) at_k in
    let two' = ap (λ (e : FdEntry). owned_one log e fd) at_l in omega (arith, one, two, one', two')

pub Sound-two :
    (w w' : Shim) (k l : ℕ)
    → Framed w w'
    → k ≢ l
    → k < max_fds
    → l < max_fds
    → ((j : ℕ) → j ≢ k → j ≢ l → w'.fds j ≡ w.fds j)
    → BothSettled w w' k l
    → EntryFits w (w'.fds k)
    → EntryFits w (w'.fds l)
    → Sound w
    → Sound w'
Sound-two w w' k l f ne p q others settled fits_k fits_l s =
    Sound-changed w w' f
      (λ fd. omega (arith, settled fd, owned_in_two w.log_fd w.fds w'.fds k l fd others ne p q))
      (λ i lt. elim (Bool-cases (i == k)) [
        | inl e ↦ subst (EntryFits w) (ap w'.fds (ground arith)) fits_k
        | inr e ↦ elim (Bool-cases (i == l)) [
          | inl e' ↦ subst (EntryFits w) (ap w'.fds (ground arith)) fits_l
          | inr e' ↦
              subst (EntryFits w) (sym (others i (ground arith) (ground arith))) (s.entries i lt)
        ]
      ])
      s

-- An entry that is free.
pub owned_one-free :
    (log : ℤ) (e : FdEntry) (fd : ℕ) → is_neg e.host_fd ≡ true → owned_one log e fd ≡ 0
owned_one-free log e fd free = ground arith

pub EntryFits-free : (w : Shim) (e : FdEntry) → is_neg e.host_fd ≡ true → EntryFits w e
EntryFits-free w e free fd at = absurd (ground (arith, at, free))

-- The descriptor of an entry that the shim may close is closed.
abbrev pub ClosedIf : Shim → FdEntry → History → Type 0
ClosedIf w e h = h ≡ (
    if not (int_eq e.host_fd w.log_fd) && is_neg e.preopen
    then close e.host_fd ∷ w.calls
    else w.calls)

pub closing :
    (w : Shim) (e : FdEntry) (h : History) (fd : ℕ)
    → ClosedIf w e h
    → opened w.os fd h + released fd w.calls + owned_one w.log_fd e fd
      ≡ opened w.os fd w.calls + released fd h
unfolding opened released
closing w e h fd c = elim (Bool-cases (not (int_eq e.host_fd w.log_fd) && is_neg e.preopen)) [
  | inl mine ↦ rw (c, mine) (omega arith)
  | inr kept ↦ rw (c, kept) (omega arith)
]
