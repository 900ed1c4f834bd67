-- ===== src/Wasi/Paths/Cases.antt =====
-- The ways in which `path_open` of native/shim/wasi_shim.c may end, and their conditions.
use pglite_ios.Common.{
  ℕ, ◌+◌, ◌≤◌, ◌<◌, ◌≡◌, ◌≢◌, refl, sym, ap, ◌∙◌, ◌⊎◌, inl, inr, none, some, Bool-cases, leb, pos,
  minus_one, arith, Bytes, u16, u32, le_bytes, ◌∷◌, false,
}
use pglite_ios.Wasi.Errno.{Errno, wasi_errno}
use pglite_ios.Wasi.Memory.{Memory, peek}
use pglite_ios.Wasi.Host.{Call, OpenFlags, got, failed, openat, fstat}
use pglite_ios.Wasi.State.{
  Res, FdEntry, Shim, ok, err, c_string, gptr, gpath, load, store, put_u32, gwrite_u32, max_fds,
}
use pglite_ios.Wasi.State.Steps.{called}
use pglite_ios.Wasi.State.Stores.{gptr-some, put_u32-store}
use pglite_ios.Wasi.FdTable.{fd_get}
use pglite_ios.Wasi.FdTable.Laws.{IsFree, IsUsed, fd_get_iff}
use pglite_ios.Wasi.Paths.{filetype_of, path_open}
use pglite_ios.Wasi.Paths.Flags.{AreFlags}

-- The path is too long for its array, or does not lie in the memory.
abbrev pub BadPath : Memory → ℕ → ℕ → Type 0
BadPath m p len = (1024 ≤ len) ⊎ (m.size < p + len)

-- It is short enough, lies in the memory, and ends at its first NUL.
pub record IsPath (m : Memory) (p len : ℕ) (path : Bytes) : Type 0 where
  pub short : len < 1024
  pub inside : p + len ≤ m.size
  pub text : path ≡ c_string (peek m p len)

-- The number names no open slot, or the open slot with the entry `e`.
abbrev pub Closed : Shim → ℕ → Type 0
Closed w fd = (max_fds ≤ fd) ⊎ IsFree w fd

pub record IsOpen (w : Shim) (fd : ℕ) (e : FdEntry) : Type 0 where
  pub number : fd < max_fds
  pub used : IsUsed w fd
  pub entry : w.fds fd ≡ e

pub record IsLowest (w : Shim) (slot : ℕ) : Type 0 where
  pub number : slot < max_fds
  pub free : IsFree w slot
  pub below : (j : ℕ) → j < slot → IsUsed w j

abbrev pub IsFull : Shim → Type 0
IsFull w = (j : ℕ) → j < max_fds → IsUsed w j

-- The slot, and it alone, has the new entry, which is not marked as preopened.
pub record IsEntered (w : Shim) (slot n flags : ℕ) (opening : Call) (w' : Shim) : Type 0 where
  pub host_fd : (w'.fds slot).host_fd ≡ pos n
  pub fdflags : (w'.fds slot).fdflags ≡ u16 flags
  pub filetype :
      (w'.fds slot).filetype ≡ filetype_of (w.os.stat_of (opening ∷ w.calls) (fstat (pos n)))
  pub unmarked : (w'.fds slot).preopen ≡ minus_one
  pub others : (j : ℕ) → j ≢ slot → w'.fds j ≡ w.fds j
  pub calls : w'.calls ≡ fstat (pos n) ∷ opening ∷ w.calls

-- The number is in the four bytes at `fd_p`, and the call has returned 0; or these are not in the
-- memory, nothing is written, and it has returned EFAULT.
abbrev pub Reported : Memory → ℕ → ℕ → Res (Unit {0}) → Shim → Shim → Type 0
Reported m fd_p slot r w w' =
    ((fd_p + 4 ≤ m.size) × (r ≡ ok tt) × (w'.mem ≡ (store fd_p (le_bytes 4 slot) w).mem))
    ⊎ ((m.size < fd_p + 4) × (r ≡ err 21) × (w'.mem ≡ w.mem))

module _ (w : Shim) (m : Memory)
    (dirfd lookupflags path_p path_len oflags base inherit fdflags fd_p : ℕ) where
  abbrev run : Res (Unit {0}) × Shim
  run = path_open dirfd lookupflags path_p path_len oflags base inherit fdflags fd_p w

  -- The call on the host.
  abbrev asked : FdEntry → Bytes → OpenFlags → Call
  asked e path flags = openat e.host_fd path flags

  -- The ways in which `path_open` ends; their conditions exclude each other.
  pub data PathOpened : Type 0 where
    bad_directory : Closed w dirfd → run ≡ (err 8, w) → PathOpened
    bad_path :
        (e : FdEntry)
        → IsOpen w dirfd e
        → BadPath m path_p path_len
        → run ≡ (err 21, w)
        → PathOpened
    table_full :
        (e : FdEntry) (path : Bytes)
        → IsOpen w dirfd e
        → IsPath m path_p path_len path
        → IsFull w
        → run ≡ (err 8, w)
        → PathOpened
    refused :
        (e : FdEntry) (path : Bytes) (flags : OpenFlags) (slot : ℕ) (x : Errno)
        → IsOpen w dirfd e
        → AreFlags lookupflags oflags base fdflags flags
        → IsPath m path_p path_len path
        → IsLowest w slot
        → w.os.fd_of w.calls (asked e path flags) ≡ failed x
        → run ≡ (err (wasi_errno x), called (asked e path flags) w)
        → PathOpened
    entered :
        (e : FdEntry) (path : Bytes) (flags : OpenFlags) (slot n : ℕ)
        → IsOpen w dirfd e
        → AreFlags lookupflags oflags base fdflags flags
        → IsPath m path_p path_len path
        → IsLowest w slot
        → w.os.fd_of w.calls (asked e path flags) ≡ got n
        → IsEntered w slot n fdflags (asked e path flags) run.1
        → Reported m fd_p slot run.0 w run.1
        → PathOpened

pub fd_get-Closed : (w : Shim) (fd : ℕ) → fd_get w fd ≡ none → Closed w fd
unfolding fd_get
fd_get-Closed w fd e = elim (Bool-cases (leb max_fds fd)) [
  | inl out ↦ inl (ground arith)
  | inr within ↦ inr (ground arith)
]

pub fd_get-IsOpen : (w : Shim) (fd : ℕ) (e : FdEntry) → fd_get w fd ≡ some e → IsOpen w fd e
fd_get-IsOpen w fd e h =
    let (a, b, c) = (fd_get_iff w fd e).0 h in record { number = a; used = b; entry = c }

pub gpath-BadPath :
    (w : Shim) (m : Memory) (p len : ℕ)
    → w.mem ≡ some m
    → gpath w p len 1024 ≡ none
    → BadPath m p len
unfolding gpath gptr
gpath-BadPath w m p len f e = elim (Bool-cases (leb 1024 len)) [
  | inl long ↦ inl (ground arith)
  | inr short ↦ inr (ground (arith, f, e, short))
]

gpath_in_memory :
    (w : Shim) (m : Memory) (p len : ℕ)
    → w.mem ≡ some m
    → len < 1024
    → p + len ≤ m.size
    → gpath w p len 1024 ≡ some (c_string (peek m p len))
unfolding gpath load
gpath_in_memory w m p len f short fits =
    let within : leb 1024 len ≡ false = ground (arith, short) in
    rw (within, gptr-some w m p len f fits, f) refl

gpath_outside :
    (w : Shim) (m : Memory) (p len : ℕ)
    → w.mem ≡ some m
    → BadPath m p len
    → gpath w p len 1024 ≡ none
unfolding gpath gptr
gpath_outside w m p len f (inl long) = ground (arith, long)
gpath_outside w m p len f (inr out) = ground (arith, f, out)

BadPath-cases : (m : Memory) (p len : ℕ) → BadPath m p len ⊎ ((len < 1024) × (p + len ≤ m.size))
BadPath-cases m p len = ground arith

some-equal : {A : Type 0} (a b : A) → some a ≡ some b → a ≡ b
some-equal a b e = cc e

pub gpath-IsPath :
    (w : Shim) (m : Memory) (p len : ℕ) {path : Bytes}
    → w.mem ≡ some m
    → gpath w p len 1024 ≡ some path
    → IsPath m p len path
gpath-IsPath w m p len {path} f e = elim (BadPath-cases m p len) [
  | inl bad ↦ let nothing = gpath_outside w m p len f bad in absurd (cc (nothing, e))
  | inr (short, fits) ↦ record {
    short = short;
    inside = fits;
    text =
        some-equal path (c_string (peek m p len)) (sym e ∙ gpath_in_memory w m p len f short fits);
  }
]

put_u32_outside :
    (w : Shim) (m : Memory) (p v : ℕ)
    → w.mem ≡ some m
    → m.size < p + 4
    → put_u32 p v w ≡ (err 21, w)
unfolding put_u32 gwrite_u32 gptr
put_u32_outside w m p v f out = ground (arith, f, out)

-- The number is reported, and nothing but the memory changes.
pub Reported-put_u32 :
    (w s : Shim) (m : Memory) (fd_p slot : ℕ) (r : Res (Unit {0}) × Shim)
    → w.mem ≡ some m
    → s.mem ≡ w.mem
    → slot < max_fds
    → r ≡ put_u32 fd_p (u32 slot) s
    → Reported m fd_p slot r.0 w r.1 × (r.1.fds ≡ s.fds) × (r.1.calls ≡ s.calls)
unfolding store
Reported-put_u32 w s m fd_p slot r f same lt e =
    let number : u32 slot ≡ slot = omega (arith, lt) in
    elim (ltb-cases m.size (fd_p + 4)) [
      | inl out ↦
          rw (e ∙ put_u32_outside s m fd_p (u32 slot) (same ∙ f) out)
            (inr (out, refl, same), refl, refl)
      | inr fits ↦
          rw
            (e
              ∙ put_u32-store s m fd_p (u32 slot) (same ∙ f) fits
              ∙ ap (λ n. (ok tt, store fd_p (le_bytes 4 n) s)) number)
            (
              inl (
                fits,
                refl,
                ap (λ o. (store fd_p (le_bytes 4 slot) (record w { mem = o })).mem) same,
              ),
              refl,
              refl,
            )
    ]
  where
    ltb-cases : (a b : ℕ) → (a < b) ⊎ (b ≤ a)
    ltb-cases a b = ground arith
