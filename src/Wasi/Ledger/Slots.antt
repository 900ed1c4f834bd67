-- ===== src/Wasi/Ledger/Slots.antt =====
-- `fd_close` and `fd_renumber` of native/shim/wasi_shim.c keep the books on descriptors right.
use pglite_ios.Common.{
  ℕ, ◌+◌, ◌≤◌, ◌<◌, ◌≡◌, ◌≢◌, refl, sym, ap, ◌∙◌, inl, inr, Bool-cases, not, ◌&&◌, ◌∷◌, ◌==◌, leb,
  if◌then◌else◌, arith, is_neg, int_eq, some, none, Option, Option-cases,
}
use mathlib.Core.Path.{subst}
use pglite_ios.Wasi.Host.{History, close}
use pglite_ios.Wasi.State.{FdEntry, Shim, max_fds, ◌>>=◌}
use pglite_ios.Wasi.FdTable.{fd_get}
use pglite_ios.Wasi.FdTable.Laws.{IsFree, fd_get_iff}
use pglite_ios.Wasi.Files.{fd_close, fd_renumber}
use pglite_ios.Wasi.Files.Laws.{fd_close-Closes, Closes, IsMoved, fd_renumber-IsMoved}
use pglite_ios.Wasi.Ledger.{opened, released}
use pglite_ios.Wasi.Ledger.Sound.{owned_one, EntryFits, Sound}
use pglite_ios.Wasi.Ledger.Changes.{
  Sound-slot, Sound-two, owned_one-free, EntryFits-free, ClosedIf, closing,
}
use pglite_ios.Wasi.Requests.{Request, handle}
use pglite_ios.Wasi.Requests.Framed.{Framed, handle-Framed}

-- Slot `k` is freed, and its descriptor closed if it is the shim's to close.
Sound-freed :
    (w w' : Shim) (k : ℕ)
    → Framed w w'
    → k < max_fds
    → ((j : ℕ) → j ≢ k → w'.fds j ≡ w.fds j)
    → IsFree w' k
    → ClosedIf w (w.fds k) w'.calls
    → Sound w
    → Sound w'
Sound-freed w w' k f within others free closed s =
    Sound-slot w w' k f within others
      (λ fd.
        omega (
          arith,
          closing w (w.fds k) w'.calls fd closed,
          owned_one-free w.log_fd (w'.fds k) fd free,
        ))
      (EntryFits-free w (w'.fds k) free) s

fd_close-Framed : (fd : ℕ) (w : Shim) → Framed w (fd_close fd w).1
unfolding handle
fd_close-Framed fd w = handle-Framed (Request.fd_close fd) w

fd_renumber-Framed : (from to : ℕ) (w : Shim) → Framed w (fd_renumber from to w).1
unfolding handle
fd_renumber-Framed from to w = handle-Framed (Request.fd_renumber from to) w

fd_close_cases :
    (w : Shim) (fd : ℕ) (o : Option FdEntry)
    → fd_get w fd ≡ o
    → Closes w fd o
    → Sound w
    → Sound (fd_close fd w).1
fd_close_cases w fd none e r s = rw r s
fd_close_cases w fd (some e) g (_, c) s =
    let (within, used, same) = (fd_get_iff w fd e).0 g in
    Sound-freed w (fd_close fd w).1 fd (fd_close-Framed fd w) within c.others c.freed
      (rw same c.called) s

pub fd_close-Sound : (w : Shim) (fd : ℕ) → Sound w → Sound (fd_close fd w).1
fd_close-Sound w fd s = fd_close_cases w fd (fd_get w fd) refl (fd_close-Closes w fd) s

renumber_none : (w : Shim) (from to : ℕ) → fd_get w from ≡ none → (fd_renumber from to w).1 ≡ w
unfolding fd_renumber ◌>>=◌
renumber_none w from to h = ground arith

renumber_far : (w : Shim) (from to : ℕ) → max_fds ≤ to → (fd_renumber from to w).1 ≡ w
unfolding fd_renumber ◌>>=◌
renumber_far w from to h = ground arith

renumber_self-closed :
    (w : Shim) (fd : ℕ) {e : FdEntry}
    → fd_get w fd ≡ some e
    → let w' = (fd_renumber fd fd w).1 in
      ((j : ℕ) → j ≢ fd → w'.fds j ≡ w.fds j) × IsFree w' fd × ClosedIf w (w.fds fd) w'.calls
unfolding fd_renumber fd_get ◌>>=◌
renumber_self-closed w fd h = ground arith

-- The same where a free slot closes nothing.
closing_used :
    (w : Shim) (e : FdEntry) (h : History) (fd : ℕ)
    → h ≡ (
        if not (is_neg e.host_fd) && (not (int_eq e.host_fd w.log_fd) && is_neg e.preopen)
        then close e.host_fd ∷ w.calls
        else w.calls)
    → opened w.os fd h + released fd w.calls + owned_one w.log_fd e fd
      ≡ opened w.os fd w.calls + released fd h
closing_used w e h fd c = elim (Bool-cases (is_neg e.host_fd)) [
  | inl free ↦
      let same : h ≡ w.calls = ground (arith, c) in
      rw same (omega (arith, owned_one-free w.log_fd e fd free))
  | inr used ↦ closing w e h fd (ground (arith, c))
]

-- The descriptor that `to` held is closed, and `to` has the entry that `from` had.
moved-Sound :
    (w : Shim) (from to : ℕ) (e : FdEntry) (w' : Shim)
    → Framed w w'
    → from ≢ to
    → from < max_fds
    → to < max_fds
    → w.fds from ≡ e
    → IsMoved w from to e w'
    → Sound w
    → Sound w'
moved-Sound w from to e w' f ne p q same m s =
    Sound-two w w' from to f ne p q m.others
      (λ fd.
        let moved = ap (λ (x : FdEntry). owned_one w.log_fd x fd) (m.moved ∙ sym same) in
        omega (
          arith,
          moved,
          owned_one-free w.log_fd (w'.fds from) fd m.freed,
          closing_used w (w.fds to) w'.calls fd m.called,
        ))
      (EntryFits-free w (w'.fds from) m.freed)
      (subst (EntryFits w) (same ∙ sym m.moved) (s.entries from p)) s

pub fd_renumber-Sound : (w : Shim) (from to : ℕ) → Sound w → Sound (fd_renumber from to w).1
fd_renumber-Sound w from to s =
    let w' = (fd_renumber from to w).1 in
    let framed = fd_renumber-Framed from to w in
    elim (Option-cases (fd_get w from)) [
      | inl none_there ↦ rw (renumber_none w from to none_there) s
      | inr (e, g) ↦
          let (p, used, same) = (fd_get_iff w from e).0 g in
          elim (Bool-cases (leb max_fds to)) [
            | inl far ↦ rw (renumber_far w from to (ground (arith, far))) s
            | inr near ↦ elim (Bool-cases (from == to)) [
              | inl self ↦
                  let same_slot : from ≡ to = ground (arith, self) in
                  let (others, free, closed) = renumber_self-closed w from g in
                  subst (λ t. Sound (fd_renumber from t w).1) same_slot
                    (Sound-freed w (fd_renumber from from w).1 from (fd_renumber-Framed from from w)
                      p others free closed s)
              | inr other ↦
                  let ne : from ≢ to = ground (arith, other) in
                  let q : to < max_fds = ground (arith, near) in
                  moved-Sound w from to e w' framed ne p q same
                    (fd_renumber-IsMoved w from to g q ne).1 s
            ]
          ]
    ]
