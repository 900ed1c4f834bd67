-- ===== src/Wasi/Files/Reads.antt =====
-- Where `fd_read` and `fd_pread` of native/shim/wasi_shim.c write in the guest's memory.
use pglite_ios.Common.{
  ℕ, ◌+◌, ◌≤◌, ◌<◌, ◌≡◌, refl, ap, ◌∙◌, ◌⊎◌, inl, inr, Option, Option-cases, none, some, List,
  length, arith, u32, int64, le_bytes, length-le_bytes,
}
use mathlib.Core.Path.{subst}
use pglite_ios.Wasi.Code
use pglite_ios.Wasi.Host.{Call, readv, preadv}
use pglite_ios.Wasi.State.{
  Shim, FdEntry, Res, Handler, gptr, gwrite_u32, put_u32, modify, try, ◌>>=◌, ◌>>◌,
}
use pglite_ios.Wasi.State.Steps.{
  called, or_fail-some, or_fail-none, try-got, try-failed, modify-step, Sys-cases,
}
use pglite_ios.Wasi.FdTable.{fd_get, get_fd}
use pglite_ios.Wasi.Iovec.{Iovec, iovs_to_host, get_iovs, lengths, scatter}
use pglite_ios.Wasi.Iovec.Bounds.{AllMissed, byte_at, byte_at-store, byte_at-scatter, gptr-bounds}
use pglite_ios.Wasi.Files.{fd_read, fd_pread}

byte_at-put_u32 :
    (w : Shim) (p v i : ℕ) → (i < p) ⊎ (p + 4 ≤ i) → byte_at (put_u32 p v w).1 i ≡ byte_at w i
unfolding put_u32 gwrite_u32
byte_at-put_u32 w p v i h = elim (Option-cases (gptr w p 4)) [
  | inl e ↦ rw e refl
  | inr (q, e) ↦ rw e (
      byte_at-store w q i (le_bytes 4 v)
        (ground (arith, length-le_bytes 4 v, (gptr-bounds w p 4 e).0)))
]

-- No buffer that the guest named has the address.
abbrev pub MissedBy : ℕ → Option (List Iovec) → Type 0
MissedBy i none = Unit {0}
MissedBy i (some vs) = AllMissed i vs

-- The tail of both handlers, by the call that brings the bytes.
read_into : ℕ → (FdEntry → List Iovec → Call) → FdEntry → List Iovec → Handler
read_into nread_p c e iovs = do
  bytes ← try (λ os. os.bytes_of) (c e iovs)
  modify (scatter iovs bytes)
  put_u32 nread_p (u32 (length bytes))

byte_at-read_into :
    (w : Shim) (nread_p i : ℕ) (c : FdEntry → List Iovec → Call) (e : FdEntry) (iovs : List Iovec)
    → AllMissed i iovs
    → (i < nread_p) ⊎ (nread_p + 4 ≤ i)
    → byte_at (read_into nread_p c e iovs w).1 i ≡ byte_at w i
unfolding read_into
byte_at-read_into w nread_p i c e iovs missed apart =
    let at : Res (Unit {0}) × Shim → ℕ = λ r. byte_at r.1 i in
    elim (Sys-cases (w.os.bytes_of w.calls (c e iovs))) [
      | inr (x, f) ↦ ap at (try-failed _ w (λ os. os.bytes_of) (c e iovs) x f)
      | inl (bytes, f) ↦
          let w1 = called (c e iovs) w in
          ap at (try-got _ w (λ os. os.bytes_of) (c e iovs) bytes f)
          ∙ ap at (modify-step (λ _. put_u32 nread_p (u32 (length bytes))) w1 (scatter iovs bytes))
          ∙ byte_at-put_u32 (scatter iovs bytes w1) nread_p (u32 (length bytes)) i apart
          ∙ byte_at-scatter w1 i iovs bytes missed
    ]

byte_at-read :
    (w : Shim) (fd iovs_p n nread_p i : ℕ) (c : FdEntry → List Iovec → Call)
    → MissedBy i (iovs_to_host w iovs_p n 64)
    → (i < nread_p) ⊎ (nread_p + 4 ≤ i)
    → byte_at ((do e ← get_fd fd; iovs ← get_iovs iovs_p n; read_into nread_p c e iovs) w).1 i
      ≡ byte_at w i
byte_at-read w fd iovs_p n nread_p i c missed apart =
    let at : Res (Unit {0}) × Shim → ℕ = λ r. byte_at r.1 i in
    elim (Option-cases (fd_get w fd)) [
      | inl f ↦ ap at (or_fail-none _ w Code.badf (λ w. fd_get w fd) f)
      | inr (e, f) ↦
          ap at (or_fail-some _ w Code.badf (λ w. fd_get w fd) e f)
          ∙ elim (Option-cases (iovs_to_host w iovs_p n 64)) [
            | inl g ↦ ap at (or_fail-none _ w Code.fault (λ w. iovs_to_host w iovs_p n 64) g)
            | inr (iovs, g) ↦
                ap at (or_fail-some _ w Code.fault (λ w. iovs_to_host w iovs_p n 64) iovs g)
                ∙ byte_at-read_into w nread_p i c e iovs (subst (MissedBy i) g missed) apart
          ]
    ]

-- Whether they succeed or fail, `fd_read` and `fd_pread` change no byte of the guest's memory
-- outside the buffers that the guest named and the four bytes of the count.
pub fd_read-byte_at :
    (w : Shim) (fd iovs_p n off nread_p i : ℕ)
    → MissedBy i (iovs_to_host w iovs_p n 64)
    → (i < nread_p) ⊎ (nread_p + 4 ≤ i)
    → (byte_at (fd_read fd iovs_p n nread_p w).1 i ≡ byte_at w i)
      × (byte_at (fd_pread fd iovs_p n off nread_p w).1 i ≡ byte_at w i)
unfolding fd_read fd_pread read_into
fd_read-byte_at w fd iovs_p n off nread_p i missed apart = (
  byte_at-read w fd iovs_p n nread_p i (λ e iovs. readv e.host_fd (lengths iovs)) missed apart,
  byte_at-read w fd iovs_p n nread_p i (λ e iovs. preadv e.host_fd (lengths iovs) (int64 off))
      missed apart,
)
