-- ===== src/Wasi/Paths/Laws.antt =====
-- What `path_open` of native/shim/wasi_shim.c does to the descriptor table.
use pglite_ios.Common.{
  ℕ, ◌≡◌, ◌≢◌, refl, ◌∙◌, ◌⊎◌, inl, inr, Option-cases, none, some, pos, minus_one, arith, Bytes,
  u16, u32,
}
use pglite_ios.Wasi.Errno.{Errno, wasi_errno}
use pglite_ios.Wasi.Host.{Call, got, failed, openat, fstat}
use pglite_ios.Wasi.State.{Res, FdEntry, Shim, err, gpath, store, put_u32}
use pglite_ios.Wasi.State.Steps.{
  called, or_fail-some, or_fail-none, try-got, try-failed, ask-step, modify-step, Sys-cases,
}
use pglite_ios.Wasi.FdTable.{fd_get, fd_alloc, fd_set_entry}
use pglite_ios.Wasi.Paths.{open_flags, filetype_of, path_open}

module _ (w : Shim) (dirfd lookupflags path_p path_len oflags base inherit fdflags fd_p : ℕ) where
  abbrev run : Res (Unit {0}) × Shim
  run = path_open dirfd lookupflags path_p path_len oflags base inherit fdflags fd_p w

  abbrev pub open_call : FdEntry → Bytes → Call
  open_call e path = openat e.host_fd path (open_flags lookupflags oflags base fdflags)

  -- The shim with the new entry in `slot`, before the number is written to the guest.
  abbrev pub with_entry : FdEntry → Bytes → ℕ → ℕ → Shim
  with_entry e path slot n =
      let w1 = called (open_call e path) w in
      let st = w1.os.stat_of w1.calls (fstat (pos n)) in
      fd_set_entry slot (pos n) (filetype_of st) (u16 fdflags) minus_one (called (fstat (pos n)) w1)

  no_dir : fd_get w dirfd ≡ none → run ≡ (err 8, w)
  unfolding path_open
  no_dir h = or_fail-none _ w 8 _ h

  module _ {e : FdEntry} (dir : fd_get w dirfd ≡ some e) where
    no_path : gpath w path_p path_len 1024 ≡ none → run ≡ (err 21, w)
    unfolding path_open
    no_path h = or_fail-some _ w 8 _ e dir ∙ or_fail-none _ w 21 _ h

    module _ {path : Bytes} (named : gpath w path_p path_len 1024 ≡ some path) where
      no_slot : fd_alloc w ≡ none → run ≡ (err 8, w)
      unfolding path_open
      no_slot h =
          or_fail-some _ w 8 _ e dir ∙ or_fail-some _ w 21 _ path named ∙ or_fail-none _ w 8 _ h

      module _ {slot : ℕ} (free : fd_alloc w ≡ some slot) where
        not_opened :
            {x : Errno}
            → w.os.fd_of w.calls (open_call e path) ≡ failed x
            → run ≡ (err (wasi_errno x), called (open_call e path) w)
        unfolding path_open
        not_opened {x} h =
            or_fail-some _ w 8 _ e dir
            ∙ or_fail-some _ w 21 _ path named
            ∙ or_fail-some _ w 8 _ slot free
            ∙ try-failed _ w (λ os. os.fd_of) (open_call e path) x h

        is_opened :
            {n : ℕ}
            → w.os.fd_of w.calls (open_call e path) ≡ got n
            → run ≡ put_u32 fd_p (u32 slot) (with_entry e path slot n)
        unfolding path_open
        is_opened {n} h =
            or_fail-some _ w 8 _ e dir
            ∙ or_fail-some _ w 21 _ path named
            ∙ or_fail-some _ w 8 _ slot free
            ∙ try-got _ w (λ os. os.fd_of) (open_call e path) n h
            ∙ ask-step (called (open_call e path) w) (λ os. os.stat_of) (fstat (pos n)) _
            ∙ modify-step _ _ _

  -- The ways in which `path_open` ends, by what its helpers answer.
  abbrev pub Branches : Type 0
  Branches =
      (((fd_get w dirfd ≡ none)
          ⊎ ((e : FdEntry) × (path : Bytes) × (fd_get w dirfd ≡ some e)
              × (gpath w path_p path_len 1024 ≡ some path)
              × (fd_alloc w ≡ none)))
        × (run ≡ (err 8, w)))
      ⊎ (((e : FdEntry) × (fd_get w dirfd ≡ some e)
            × (gpath w path_p path_len 1024 ≡ none)
            × (run ≡ (err 21, w)))
          ⊎ (((e : FdEntry) × (path : Bytes) × (slot : ℕ) × (x : Errno) × (fd_get w dirfd ≡ some e)
                × (gpath w path_p path_len 1024 ≡ some path)
                × (fd_alloc w ≡ some slot)
                × (w.os.fd_of w.calls (open_call e path) ≡ failed x)
                × (run ≡ (err (wasi_errno x), called (open_call e path) w)))
              ⊎ ((e : FdEntry) × (path : Bytes) × (slot : ℕ) × (n : ℕ) × (fd_get w dirfd ≡ some e)
                  × (gpath w path_p path_len 1024 ≡ some path)
                  × (fd_alloc w ≡ some slot)
                  × (w.os.fd_of w.calls (open_call e path) ≡ got n)
                  × (run ≡ put_u32 fd_p (u32 slot) (with_entry e path slot n)))))

  pub path_open-Branches : Branches
  path_open-Branches = elim (Option-cases (fd_get w dirfd)) [
    | inl a ↦ inl (inl a, no_dir a)
    | inr (e, a) ↦ elim (Option-cases (gpath w path_p path_len 1024)) [
      | inl b ↦ inr (inl (e, a, b, no_path a b))
      | inr (path, b) ↦ elim (Option-cases (fd_alloc w)) [
        | inl c ↦ inl (inr (e, path, a, b, c), no_slot a b c)
        | inr (slot, c) ↦ elim (Sys-cases (w.os.fd_of w.calls (open_call e path))) [
          | inl (n, d) ↦ inr (inr (inr (e, path, slot, n, a, b, c, d, is_opened a b c d)))
          | inr (x, d) ↦ inr (inr (inl (e, path, slot, x, a, b, c, d, not_opened a b c d)))
        ]
      ]
    ]
  ]

fds-put_u32 :
    (p x : ℕ) (w : Shim) → ((put_u32 p x w).1.fds ≡ w.fds) × ((put_u32 p x w).1.log_fd ≡ w.log_fd)
unfolding put_u32 store
fds-put_u32 p x w = ground arith

-- What `path_open` may do to the table: it fills the slot that `fd_alloc` gives.
pub record IsFilled (w : Shim) (w' : Shim) : Type 0 where
  pub slot : ℕ
  pub host_fd : ℕ
  pub call : Call
  pub is_free : fd_alloc w ≡ some slot
  pub given : w.os.fd_of w.calls call ≡ got host_fd
  pub filled : (w'.fds slot).host_fd ≡ pos host_fd
  pub others : (j : ℕ) → j ≢ slot → w'.fds j ≡ w.fds j
  pub log_fd : w'.log_fd ≡ w.log_fd

pub path_open-IsFilled :
    (w : Shim) (a b c d e f g h i : ℕ)
    → let w' = (path_open a b c d e f g h i w).1 in
      ((w'.fds ≡ w.fds) × (w'.log_fd ≡ w.log_fd)) ⊎ IsFilled w w'
unfolding fd_set_entry
path_open-IsFilled w a b c d e f g h i = elim (path_open-Branches w a b c d e f g h i) [
  | inl (_, r) ↦ rw r (inl (refl, refl))
  | inr (inl (_, _, _, r)) ↦ rw r (inl (refl, refl))
  | inr (inr (inl (x, path, slot, y, _, _, _, _, r))) ↦ rw r (inl (refl, refl))
  | inr (inr (inr (x, path, slot, n, _, _, free, given, r))) ↦
      let start = with_entry w a b c d e f g h i x path slot n in
      let kept = fds-put_u32 i (u32 slot) start in
      rw r (
        inr (record {
          slot = slot;
          host_fd = n;
          call = open_call w a b c d e f g h i x path;
          is_free = free;
          given = given;
          filled = rw kept.0 (ground arith);
          others = λ j ne. rw kept.0 (ground arith);
          log_fd = kept.1;
        }))
]
